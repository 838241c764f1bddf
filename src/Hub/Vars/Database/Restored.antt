-- ===== src/Hub/Vars/Database/Restored.antt =====
-- What comes back from the database of the persistent variables of src/hub/var.c.
use libseawolf.Base.{
  ◌≡◌, refl, sym, ap, ◌∙◌, Bool, true, false, ◌||◌, Option, some, List, [], ◌∷◌, ◌++◌, bytes_eq,
  bytes_eq_sound, Bool-cases, inl, inr,
}
use libseawolf.Comm.Message.{Bytes}
use libseawolf.Hub.State.{Var, codes}
use libseawolf.Hub.Vars.Database.{Scanf, padded, with_var, read_persistent_values, flush_lines}

-- The name is among those of the entries.
abbrev pub listed : Bytes → List (Bytes × Bytes) → Bool
listed n [] = false
listed n ((name, text) ∷ entries) = bytes_eq n name || listed n entries

module _ {V : Type 0} (scanf : Scanf V) (rounded : V → V) where
  abbrev pub VarCache : Type 0
  VarCache = Bytes → Option (Var V)

  -- Every entry has the printed value of its variable, and of a variable that is also defined.
  abbrev pub Printed : List (Bytes × Bytes) → VarCache → VarCache → Type 0
  Printed [] vars vars0 = Unit
  Printed ((name, text) ∷ entries) vars vars0 =
      ((v : Var V) × (vars name ≡ some v) × (text ≡ scanf.format v.value))
      × ((v0 : Var V) × (vars0 name ≡ some v0))
      × Printed entries vars vars0

  -- The values of the listed variables are restored, rounded, and nothing else changes.
  abbrev pub Restored : List (Bytes × Bytes) → VarCache → VarCache → VarCache → Type 0
  Restored entries vars vars0 vars' =
      ((n : Bytes) (v v0 : Var V)
        → listed n entries ≡ true
        → vars n ≡ some v
        → vars0 n ≡ some v0
        → vars' n ≡ some (record v0 { value = rounded v.value }))
      × ((n : Bytes) → listed n entries ≡ false → vars' n ≡ vars0 n)

  -- The lines that are written for entries.
  abbrev pub lines : List (Bytes × Bytes) → Bytes
  lines [] = []
  lines ((name, text) ∷ entries) =
      padded 20 name ++ (codes " = " ++ (text ++ (b'\n' ∷ lines entries)))

  abbrev pub AllKnown : List Bytes → VarCache → Type 0
  AllKnown [] vars = Unit
  AllKnown (name ∷ names) vars = ((v : Var V) × (vars name ≡ some v)) × AllKnown names vars

  -- The entries for names.
  abbrev pub print_all :
      (names : List Bytes) (vars : VarCache) → AllKnown names vars → List (Bytes × Bytes)
  print_all [] vars known = []
  print_all (name ∷ names) vars ((v, e), known) =
      (name, scanf.format v.value) ∷ print_all names vars known

  flush_lines-print_all :
      (names : List Bytes) (vars : VarCache) (known : AllKnown names vars)
      → flush_lines scanf names vars ≡ some (lines (print_all names vars known))
  unfolding flush_lines
  flush_lines-print_all [] vars known = refl
  flush_lines-print_all (name ∷ names) vars ((v, e), known) =
      rw (e, flush_lines, flush_lines-print_all names vars known) refl

  print_all-Printed :
      (names : List Bytes) (vars vars0 : VarCache) (known : AllKnown names vars)
      → AllKnown names vars0
      → Printed (print_all names vars known) vars vars0
  print_all-Printed [] vars vars0 known known0 = tt
  print_all-Printed (name ∷ names) vars vars0 ((v, e), known) ((v0, e0), known0) =
      ((v, e, refl), (v0, e0), print_all-Printed names vars vars0 known known0)

  some_eq : {v w : Var V} → ◌≡◌ {A = Option (Var V)} (some v) (some w) → v ≡ w
  some_eq e = cc

  read_step :
      (name text : Bytes) (entries : List (Bytes × Bytes)) (vars0 : VarCache) (x : V) (v0 : Var V)
      → scanf.value text ≡ some x
      → vars0 name ≡ some v0
      → read_persistent_values scanf ((name, text) ∷ entries) vars0
        ≡ read_persistent_values scanf entries (with_var vars0 name (record v0 { value = x }))
  unfolding read_persistent_values
  read_step name text entries vars0 x v0 e f = rw (e, read_persistent_values, f) refl

  -- The defined variables after the first entry.
  Printed-with_var :
      (entries : List (Bytes × Bytes)) (vars vars0 : VarCache) (name : Bytes) (w : Var V)
      → Printed entries vars vars0
      → Printed entries vars (with_var vars0 name w)
  Printed-with_var [] vars vars0 name w p = tt
  Printed-with_var ((n, text) ∷ entries) vars vars0 name w (here, (v0, e0), p) =
      (here, known (bytes_eq n name) refl, Printed-with_var entries vars vars0 name w p)
    where
      known : (b : Bool) → bytes_eq n name ≡ b → (u : Var V) × (with_var vars0 name w n ≡ some u)
      known true t = (w, rw t refl)
      known false f = (v0, rw f e0)

  Restored-first :
      (name text : Bytes) (entries : List (Bytes × Bytes)) (vars vars0 vars' : VarCache)
      (v v0 : Var V)
      → vars name ≡ some v
      → vars0 name ≡ some v0
      → Restored entries vars (with_var vars0 name (record v0 { value = rounded v.value })) vars'
      → Restored ((name, text) ∷ entries) vars vars0 vars'
  Restored-first name text entries vars vars0 vars' v v0 e e0 (restored, kept) = (
    λ n u u0 l f f0. elim (Bool-cases (bytes_eq n name)) [
      | inr other ↦ restored n u u0 (rw other at l) f (rw other f0)
      | inl same ↦
          let is = bytes_eq_sound n name same in
          let u_is : v ≡ u = some_eq (sym (ap vars is ∙ e) ∙ f) in
          let u0_is : v0 ≡ u0 = some_eq (sym (ap vars0 is ∙ e0) ∙ f0) in
          elim (Bool-cases (listed n entries)) [
            | inl again ↦
                restored n u (record v0 { value = rounded v.value }) again f (rw same refl)
                ∙ ap (λ (y : Var V). some (record y { value = rounded u.value })) u0_is
            | inr once ↦
                kept n once
                ∙ rw same (ap (λ (y : Var V). some (record y { value = rounded v.value })) u0_is)
                ∙ ap (λ (y : Var V). some (record u0 { value = rounded y.value })) u_is
          ]
    ],
    λ n l. elim (Bool-cases (bytes_eq n name)) [
      | inl same ↦ (let k = rw same at l in cc)
      | inr other ↦ kept n (rw other at l) ∙ rw other refl
    ],
  )

  read-Restored :
      (entries : List (Bytes × Bytes)) (vars vars0 : VarCache)
      → ((x : V) → scanf.value (scanf.format x) ≡ some (rounded x))
      → Printed entries vars vars0
      → (vars' : VarCache) × (read_persistent_values scanf entries vars0 ≡ some vars')
        × Restored entries vars vars0 vars'
  read-Restored [] vars vars0 reads p =
      (vars0, unfold read_persistent_values in refl, (λ n v v0 l e e0. (cc), λ n l. refl))
  read-Restored ((name, text) ∷ entries) vars vars0 reads ((v, e, t), (v0, e0), p) =
      let w : Var V = record v0 { value = rounded v.value } in
      let (vars', run, restored) =
        read-Restored entries vars (with_var vars0 name w) reads
          (Printed-with_var entries vars vars0 name w p) in
      (
        vars',
        read_step name text entries vars0 (rounded v.value) v0 (ap scanf.value t ∙ reads v.value) e0
            ∙ run,
        Restored-first name text entries vars vars0 vars' v v0 e e0 restored,
      )

  -- If `%f` reads what `%.4f` prints of a value as `rounded` of it, and the persistent variables are all defined, at
  -- the flush and again at a later start, then the flush writes a line with its printed value for
  -- each of them, and the reading of these entries at the start gives each of them the rounded
  -- value that it had at the flush, and leaves the rest of it, and every other variable, as it is defined.
  pub flush-read :
      (names : List Bytes) (vars vars0 : VarCache) (known : AllKnown names vars)
      → ((x : V) → scanf.value (scanf.format x) ≡ some (rounded x))
      → AllKnown names vars0
      → let entries = print_all names vars known in
        (flush_lines scanf names vars ≡ some (lines entries))
        × ((vars' : VarCache) × (read_persistent_values scanf entries vars0 ≡ some vars')
            × Restored entries vars vars0 vars')
  flush-read names vars vars0 known reads known0 = (
    flush_lines-print_all names vars known,
    read-Restored (print_all names vars known) vars vars0 reads
        (print_all-Printed names vars vars0 known known0),
  )
