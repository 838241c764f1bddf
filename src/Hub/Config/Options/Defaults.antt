-- ===== src/Hub/Config/Options/Defaults.antt =====
-- The options of the hub that no file sets, against the documentation.
use libseawolf.Base.{
  ◌≡◌, refl, sym, subst, ap, ◌∙◌, true, false, Option, none, some, List, [], ◌∷◌, bytes_eq,
  bytes_eq_sound, if◌then◌else◌, Bool-cases, Option-cases, inl, inr,
}
use libseawolf.Comm.Message.{Bytes}
use libseawolf.Hub.State.{codes}
use libseawolf.Hub.Config.{Table, set_option, set_all, valid_options}

-- The value that a file gives to an option, the last one if there are several.
abbrev pub value_in : Bytes → List (Bytes × Bytes) → Option Bytes
value_in n [] = none
value_in n ((option, value) ∷ options) = elim (value_in n options) [
  | some later ↦ some later
  | none ↦ if bytes_eq n option then some value else none
]

-- The options with their defaults, as the example of a configuration file in
-- doc/pages/mainpage.doc.txt lists them.
abbrev pub documented : List (Bytes × Bytes)
documented =
    (codes "bind_address", codes "127.0.0.1")
    ∷ (codes "bind_port", codes "31427")
    ∷ (codes "password", [])
    ∷ (codes "var_defs", codes "seawolf_var.defs")
    ∷ (codes "var_db", codes "seawolf_var.db")
    ∷ (codes "log_file", [])
    ∷ (codes "log_level", codes "NORMAL")
    ∷ (codes "log_replicate_stdout", codes "1")
    ∷ []

abbrev pub or_before : Option Bytes → Option Bytes → Option Bytes
or_before (some later) before = some later
or_before none before = before

or_before_step :
    (n option value : Bytes) (later before : Option Bytes)
    → or_before later (if bytes_eq n option then some value else before)
      ≡ or_before
          (elim later [ some v ↦ some v | none ↦ if bytes_eq n option then some value else none ])
          before
or_before_step n option value (some v) before = refl
or_before_step n option value none before = elim (Bool-cases (bytes_eq n option)) [
  | inl t ↦ rw t refl
  | inr f ↦ rw f refl
]

pub set_all-value :
    (options : List (Bytes × Bytes)) (table : Table) (n : Bytes)
    → set_all options table n ≡ or_before (value_in n options) (table n)
unfolding set_all
set_all-value [] table n = refl
set_all-value ((option, value) ∷ options) table n =
    set_all-value options (set_option table option value) n
    ∙ or_before_step n option value (value_in n options) (table n)

pub or_before-none : (o : Option Bytes) → or_before o none ≡ o
or_before-none none = refl
or_before-none (some v) = refl

-- One of the options of the hub.
at_key :
    (n key : Bytes)
    → value_in key valid_options ≡ value_in key documented
    → bytes_eq n key ≡ true
    → value_in n valid_options ≡ value_in n documented
at_key n key same e =
    subst (λ k. value_in k valid_options ≡ value_in k documented) (sym (bytes_eq_sound n key e))
      same

skip :
    (n : Bytes) (o : Bytes × Bytes) (options : List (Bytes × Bytes))
    → bytes_eq n o.0 ≡ false
    → value_in n (o ∷ options) ≡ value_in n options
skip n (option, value) options other = elim (Option-cases (value_in n options)) [
  | inl e ↦ rw (e, other) refl
  | inr (v, e) ↦ rw e refl
]

keep :
    (n : Bytes) (o : Bytes × Bytes) (options options' : List (Bytes × Bytes))
    → value_in n options ≡ value_in n options'
    → value_in n (o ∷ options) ≡ value_in n (o ∷ options')
keep n (option, value) options options' same =
    ap
      (λ later. elim later [
        | some v ↦ some v
        | none ↦ if bytes_eq n option then some value else none
      ])
      same

-- Two options in the other order, for a name that neither has.
swap :
    (n : Bytes) (o o' : Bytes × Bytes) (options options' : List (Bytes × Bytes))
    → bytes_eq n o.0 ≡ false
    → bytes_eq n o'.0 ≡ false
    → value_in n options ≡ value_in n options'
    → value_in n (o ∷ o' ∷ options) ≡ value_in n (o' ∷ o ∷ options')
swap n o o' options options' e e' same =
    skip n o (o' ∷ options) e
    ∙ skip n o' options e'
    ∙ same
    ∙ sym (skip n o' (o ∷ options') e' ∙ skip n o options' e)

-- Both orders, for a name that is none of the four whose places differ.
same_order :
    (n : Bytes) (a b c db defs file level stdout : Bytes × Bytes)
    → bytes_eq n db.0 ≡ false
    → bytes_eq n defs.0 ≡ false
    → bytes_eq n level.0 ≡ false
    → bytes_eq n stdout.0 ≡ false
    → value_in n (a ∷ b ∷ c ∷ db ∷ defs ∷ file ∷ stdout ∷ level ∷ [])
      ≡ value_in n (a ∷ b ∷ c ∷ defs ∷ db ∷ file ∷ level ∷ stdout ∷ [])
same_order n a b c db defs file level stdout e1 e2 e3 e4 =
    let logs = swap n stdout level [] [] e4 e3 refl in
    let left = file ∷ stdout ∷ level ∷ [] in
    let right = file ∷ level ∷ stdout ∷ [] in
    let vars =
      swap n db defs left right e1 e2
        (keep n file (stdout ∷ level ∷ []) (level ∷ stdout ∷ []) logs) in
    let third = keep n c (db ∷ defs ∷ left) (defs ∷ db ∷ right) vars in
    let second = keep n b (c ∷ db ∷ defs ∷ left) (c ∷ defs ∷ db ∷ right) third in
    keep n a (b ∷ c ∷ db ∷ defs ∷ left) (b ∷ c ∷ defs ∷ db ∷ right) second

pub defaults_lem : (n : Bytes) → value_in n valid_options ≡ value_in n documented
unfolding bytes_eq
defaults_lem n = elim (Bool-cases (bytes_eq n (codes "var_db"))) [
  | inl t ↦ at_key n (codes "var_db") refl t
  | inr db ↦ elim (Bool-cases (bytes_eq n (codes "var_defs"))) [
    | inl t ↦ at_key n (codes "var_defs") refl t
    | inr defs ↦ elim (Bool-cases (bytes_eq n (codes "log_level"))) [
      | inl t ↦ at_key n (codes "log_level") refl t
      | inr level ↦ elim (Bool-cases (bytes_eq n (codes "log_replicate_stdout"))) [
        | inl t ↦ at_key n (codes "log_replicate_stdout") refl t
        | inr stdout ↦
            same_order n (codes "bind_address", codes "127.0.0.1")
              (codes "bind_port", codes "31427") (codes "password", [])
              (codes "var_db", codes "seawolf_var.db") (codes "var_defs", codes "seawolf_var.defs")
              (codes "log_file", []) (codes "log_level", codes "NORMAL")
              (codes "log_replicate_stdout", codes "1") db defs level stdout
      ]
    ]
  ]
]
