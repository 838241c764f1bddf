-- ===== src/Hub/Vars/Database/Start.antt =====
-- The variables with which the hub starts, as src/hub/var.c reads them.
use libseawolf.Base.{
  ℕ, ◌≡◌, ◌≢◌, refl, sym, ap, subst, ◌∙◌, Bool, true, false, Option, none, some, List, [], ◌∷◌,
  ◌++◌, bytes_eq, bytes_eq_refl, ◌==◌, if◌then◌else◌, Bool-cases, Option-cases, inl, inr,
}
use libseawolf.Comm.Message.{Bytes}
use libseawolf.Hub.State.{Var}
use libseawolf.Hub.Vars.Database.{
  Scanf, with_var, defined, is_flag, read_definitions, read_persistent_values, flush_lines, init,
}

module _ {V : Type 0} where
  -- No variable has a subscriber or a lock that is never released.
  abbrev pub Fresh : (Bytes → Option (Var V)) → Type 0
  Fresh vars = (n : Bytes) (v : Var V) → vars n ≡ some v → (v.subscribers ≡ []) × (v.stuck ≡ false)

  -- Every name of a list has a variable.
  abbrev pub AllDefined : List Bytes → (Bytes → Option (Var V)) → Type 0
  AllDefined [] vars = Unit
  AllDefined (name ∷ names) vars = (vars name ≢ none) × AllDefined names vars

  Fresh-with_var :
      (vars : Bytes → Option (Var V)) (name : Bytes) (w : Var V)
      → Fresh vars
      → w.subscribers ≡ []
      → w.stuck ≡ false
      → Fresh (with_var vars name w)
  Fresh-with_var vars name w fresh a b n v e = elim (Bool-cases (bytes_eq n name)) [
    | inl t ↦
        let is : w ≡ v = (let k = rw t at e in cc) in
        (ap (λ (x : Var V). x.subscribers) (sym is) ∙ a, ap (λ (x : Var V). x.stuck) (sym is) ∙ b)
    | inr f ↦ fresh n v (rw f at e)
  ]

  with_var-defined :
      (vars : Bytes → Option (Var V)) (name n : Bytes) (w : Var V)
      → vars n ≢ none
      → with_var vars name w n ≢ none
  with_var-defined vars name n w there = elim (Bool-cases (bytes_eq n name)) [
    | inl t ↦ rw t (λ e. cc)
    | inr f ↦ rw f there
  ]

  AllDefined-with_var :
      (names : List Bytes) (vars : Bytes → Option (Var V)) (name : Bytes) (w : Var V)
      → AllDefined names vars
      → AllDefined names (with_var vars name w)
  AllDefined-with_var [] vars name w all = tt
  AllDefined-with_var (n ∷ names) vars name w (here, all) =
      (with_var-defined vars name n w here, AllDefined-with_var names vars name w all)

  AllDefined-snoc :
      (names : List Bytes) (vars : Bytes → Option (Var V)) (name : Bytes)
      → AllDefined names vars
      → vars name ≢ none
      → AllDefined (names ++ name ∷ []) vars
  AllDefined-snoc [] vars name all there = (there, tt)
  AllDefined-snoc (n ∷ names) vars name (here, all) there =
      (here, AllDefined-snoc names vars name all there)

  AllDefined-if :
      (names more : List Bytes) (vars : Bytes → Option (Var V)) (b : Bool)
      → AllDefined more vars
      → AllDefined names vars
      → AllDefined (if b then more else names) vars
  AllDefined-if names more vars true a b = a
  AllDefined-if names more vars false a b = b

  -- What is kept while the two files are read.
  abbrev pub Started : (Bytes → Option (Var V)) → List Bytes → Type 0
  Started vars names = Fresh vars × AllDefined names vars

  Started-defined :
      (vars : Bytes → Option (Var V)) (names : List Bytes) (name : Bytes) (x : V) (p r : ℕ)
      → Started vars names
      → Started (with_var vars name (defined x p r)) (if p == 1 then names ++ name ∷ [] else names)
  Started-defined vars names name x p r (fresh, all) =
      let w = defined x p r in
      let all' = AllDefined-with_var names vars name w all in
      let here : with_var vars name w name ≢ none =
        (let k = bytes_eq_refl name in rw k (λ e. cc)) in
      (
        Fresh-with_var vars name w fresh refl refl,
        AllDefined-if names (names ++ name ∷ []) (with_var vars name w) (p == 1)
            (AllDefined-snoc names (with_var vars name w) name all' here) all',
      )

module _ {V : Type 0} (scanf : Scanf V) where
  read_definitions-Started :
      (entries : List (Bytes × Bytes)) (vars : Bytes → Option (Var V)) (names : List Bytes)
      {vars' : Bytes → Option (Var V)} {names' : List Bytes}
      → Started vars names
      → read_definitions scanf entries vars names ≡ some (vars', names')
      → Started vars' names'
  unfolding read_definitions
  read_definitions-Started [] vars names {vars'} {names'} s run =
      let same_vars : vars ≡ vars' = cc in
      let same_names : names ≡ names' = cc in
      subst (λ f. Started f names') same_vars (subst (Started vars) same_names s)
  read_definitions-Started ((name, text) ∷ entries) vars names s run =
      elim (Option-cases (scanf.definition text)) [
        | inl e ↦ (let k = rw (e, read_definitions) at run in cc)
        | inr ((x, p, r), e) ↦ elim (Bool-cases (is_flag p)) [
          | inr f ↦ (let k = rw (e, read_definitions, f) at run in cc)
          | inl t ↦ elim (Bool-cases (is_flag r)) [
            | inr f ↦ (let k = rw (e, read_definitions, t, f) at run in cc)
            | inl u ↦
                read_definitions-Started entries (with_var vars name (defined x p r))
                  (if p == 1 then names ++ name ∷ [] else names)
                  (Started-defined vars names name x p r s) (rw (e, read_definitions, t, u) at run)
          ]
        ]
      ]

  read_persistent_values-Started :
      (entries : List (Bytes × Bytes)) (vars : Bytes → Option (Var V)) (names : List Bytes)
      {vars' : Bytes → Option (Var V)}
      → Started vars names
      → read_persistent_values scanf entries vars ≡ some vars'
      → Started vars' names
  unfolding read_persistent_values
  read_persistent_values-Started [] vars names {vars'} s run =
      let same : vars ≡ vars' = cc in subst (λ f. Started f names) same s
  read_persistent_values-Started ((name, text) ∷ entries) vars names (fresh, all) run =
      elim (Option-cases (scanf.value text)) [
        | inl e ↦ (let k = rw (e, read_persistent_values) at run in cc)
        | inr (x, e) ↦ elim (Option-cases (vars name)) [
          | inl f ↦ (let k = rw (e, read_persistent_values, f) at run in cc)
          | inr (v, f) ↦
              let w : Var V = record v { value = x } in
              let (no_subscribers, free) = fresh name v f in
              read_persistent_values-Started entries (with_var vars name w) names
                (
                  Fresh-with_var vars name w fresh no_subscribers free,
                  AllDefined-with_var names vars name w all,
                )
                (rw (e, read_persistent_values, f) at run)
        ]
      ]

  started :
      (defs : List (Bytes × Bytes)) (db : Option (List (Bytes × Bytes)))
      {vars' : Bytes → Option (Var V)} {names' : List Bytes} (vars : Bytes → Option (Var V))
      (names : List Bytes)
      → read_definitions scanf defs (λ n. none) [] ≡ some (vars, names)
      → init scanf (some defs) db ≡ some (vars', names')
      → Started vars names
      → Started vars' names'
  unfolding init
  started defs db {vars'} {names'} vars [] e run s =
      let same = rw (e, init) at run in
      let same_vars : vars ≡ vars' = cc in
      let same_names : [] ≡ names' = cc in
      subst (λ f. Started f names') same_vars (subst (Started vars) same_names s)
  started defs none vars (name ∷ names) e run s = (let k = rw (e, init) at run in cc)
  started defs (some entries) {vars'} {names'} vars (name ∷ names) e run s =
      elim (Option-cases (read_persistent_values scanf entries vars)) [
        | inl f ↦ (let k = rw (e, init, f) at run in cc)
        | inr (vars1, f) ↦
            let same = rw (e, init, f) at run in
            let same_vars : vars1 ≡ vars' = cc in
            let same_names : name ∷ names ≡ names' = cc in
            subst (λ g. Started g names') same_vars
              (subst (Started vars1) same_names
                (read_persistent_values-Started entries vars (name ∷ names) s f))
      ]

  flush_lines-defined :
      (names : List Bytes) (vars : Bytes → Option (Var V))
      → AllDefined names vars
      → flush_lines scanf names vars ≢ none
  unfolding flush_lines
  flush_lines-defined [] vars all = λ e. cc
  flush_lines-defined (name ∷ names) vars (here, all) = elim (Option-cases (vars name)) [
    | inl e ↦ absurd (here e)
    | inr (v, e) ↦ elim (Option-cases (flush_lines scanf names vars)) [
      | inl f ↦ absurd (flush_lines-defined names vars all f)
      | inr (lines, f) ↦ rw (e, flush_lines, f) (λ k. cc)
    ]
  ]

  -- When the start of the variables returns, with whatever files, no variable has a subscriber or a
  -- lock that is never released, and the database of the persistent variables can be written: each
  -- of them has a variable.
  pub init-Fresh :
      (defs : List (Bytes × Bytes)) (db : Option (List (Bytes × Bytes)))
      {vars : Bytes → Option (Var V)} {names : List Bytes}
      → init scanf (some defs) db ≡ some (vars, names)
      → Fresh vars × (flush_lines scanf names vars ≢ none)
  init-Fresh defs db {vars} {names} run =
      elim (Option-cases (read_definitions scanf defs (λ n. none) [])) [
        | inl e ↦ unfold init in (let k = rw (e, init) at run in cc)
        | inr ((vars1, names1), e) ↦
            let (fresh, all) =
              started defs db vars1 names1 e run
                (read_definitions-Started defs (λ n. none) [] ((λ n v k. cc), tt) e) in
            (fresh, flush_lines-defined names vars all)
      ]
