-- ===== src/Hub/Vars/Database/Tests.antt =====
-- One persistent variable, whose value is its text.
use libseawolf.Base.{◌≡◌, ◌≢◌, refl, Option, none, some, List, [], ◌∷◌, bytes_eq, if◌then◌else◌}
use libseawolf.Comm.Message.{Bytes}
use libseawolf.Hub.State.{Var, codes}
use libseawolf.Hub.Vars.Database.{
  Scanf, with_var, defined, init, read_definitions, read_persistent_values, flush_lines,
}
use libseawolf.Hub.Vars.Database.Restored.{Restored, flush-read}
use libseawolf.Hub.Vars.Database.Start.{Fresh, init-Fresh}

abbrev scanf : Scanf Bytes
scanf = record {
  definition = λ text. some (text, 1, 0);
  value = λ text. some text;
  format = λ value. value;
}

abbrev depth : Bytes
depth = codes "depth"

-- The variable with a value.
abbrev with_value : Bytes → Bytes → Option (Var Bytes)
with_value value n =
    if bytes_eq n depth then some (record (defined (codes "0") 1 0) { value = value }) else none

abbrev entries : List (Bytes × Bytes)
entries = (depth, codes "12") ∷ []

flush-read_example :
    (flush_lines scanf (depth ∷ []) (with_value (codes "12"))
      ≡ some (codes "depth                = 12\n"))
    × ((vars' : Bytes → Option (Var Bytes)) × (read_persistent_values scanf entries
            (with_value (codes "0"))
          ≡ some vars')
        × Restored scanf (λ x. x) entries (with_value (codes "12")) (with_value (codes "0")) vars')
unfolding bytes_eq
flush-read_example =
    flush-read scanf (λ x. x) (depth ∷ []) (with_value (codes "12")) (with_value (codes "0"))
      ((_, refl), tt) (λ x. refl) ((_, refl), tt)

-- The variables after a start with the definition "12" and the database value "12".
abbrev first_vars : Bytes → Option (Var Bytes)
first_vars =
    with_var (with_var (λ n. none) depth (defined (codes "12") 1 0)) depth
      (record (defined (codes "12") 1 0) { value = codes "12" })

begun : init scanf (some entries) (some entries) ≡ some (first_vars, depth ∷ [])
unfolding init read_definitions read_persistent_values bytes_eq
begun = refl

init-Fresh_example : Fresh first_vars × (flush_lines scanf (depth ∷ []) first_vars ≢ none)
init-Fresh_example = init-Fresh scanf entries (some entries) begun
