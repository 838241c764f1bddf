-- ===== src/Hub/Process/Balance/Resubscribed.antt =====
-- A change to the subscriptions of one variable and one client in src/hub/var.c, and the agreement
-- of the two sides.
use libseawolf.Base.{
  ℕ, ◌≡◌, ◌≢◌, refl, sym, ap, ◌∙◌, true, false, Option, none, some, List, [], ◌∷◌, ◌++◌, arith,
  bytes_eq, bytes_eq_refl, bytes_eq_sound, ◌==◌, if◌then◌else◌, Bool-cases, inl, inr,
}
use libseawolf.Comm.Message.{Bytes}
use libseawolf.Hub.State.{Var, Hub, is_closed, update_var, update_client}
use libseawolf.Hub.Client.{mark_closed}
use libseawolf.Hub.Vars.{remove_client, remove_name}
use libseawolf.Hub.Vars.Subscribe.{subscriptions}
use libseawolf.Hub.Vars.Counts.{
  occurrences, subscriptions-snoc, occurrences-snoc, remove_client-counts, remove_name-counts,
}

pub itself : (name n : Bytes) → bytes_eq n name ≡ true → bytes_eq name n ≡ true
itself name n t = rw (bytes_eq_sound n name t) (bytes_eq_refl name)

pub another : (name n : Bytes) → bytes_eq n name ≡ false → bytes_eq name n ≡ false
another name n f = elim (Bool-cases (bytes_eq name n)) [
  | inr g ↦ g
  | inl t ↦
      let same : name ≡ n = bytes_eq_sound name n t in
      absurd (true_false (sym (bytes_eq_refl n) ∙ ap (bytes_eq n) (sym same) ∙ f))
]
  where
    true_false : true ≢ false
    true_false = λ e. cc

module _ {V : Type 0} where
  -- How often a client is on the list of a variable that may be there.
  abbrev pub held : ℕ → Option (Var V) → ℕ
  held d none = 0
  held d (some v) = subscriptions d v.subscribers

  abbrev pub Balanced : Hub V → Type 0
  Balanced h = (d : ℕ) (n : Bytes) → held d (h.var n) ≡ occurrences n (h.client d).subscribed_vars

  -- The hub after a change to the subscriptions of one variable and one client.
  abbrev pub resubscribed : ℕ → Bytes → Var V → List ℕ → List Bytes → Hub V → Hub V
  resubscribed c name v subs names h =
      let h' = update_var h name (record v { subscribers = subs }) in
      update_client h' c (record (h.client c) { subscribed_vars = names })

  abbrev pub Stays : Hub V → Hub V → Type 0
  Stays h h' = Balanced h → Balanced h'

  -- Neither list changes.
  pub same_lists :
      (h h' : Hub V)
      → h'.var ≡ h.var
      → ((d : ℕ) → (h'.client d).subscribed_vars ≡ (h.client d).subscribed_vars)
      → Stays h h'
  same_lists h h' vars names b d n =
      ap (λ f. held d (f n)) vars ∙ b d n ∙ sym (ap (occurrences n) (names d))

  pub mark_closed-lists :
      (c : ℕ) (h : Hub V)
      → ((mark_closed c h).var ≡ h.var)
        × ((d : ℕ) → ((mark_closed c h).client d).subscribed_vars ≡ (h.client d).subscribed_vars)
  unfolding mark_closed
  mark_closed-lists c h = elim (Bool-cases (is_closed (h.client c).state)) [
    | inl t ↦ rw t (refl, λ d. refl)
    | inr f ↦ rw f (refl, λ d. ground arith)
  ]

  pub stores-Balanced :
      (name : Bytes) (value : V) (v : Var V) (h : Hub V)
      → h.var name ≡ some v
      → v.readonly ≡ false
      → Stays h (update_var h name (record v { value = value }))
  stores-Balanced name value v h e f b d n = elim (Bool-cases (bytes_eq n name)) [
    | inl t ↦
        let here : h.var n ≡ some v = ap h.var (bytes_eq_sound n name t) ∙ e in
        rw t (sym (ap (held d) here) ∙ b d n)
    | inr g ↦ rw g (b d n)
  ]

  pub resubscribed-Balanced :
      (c : ℕ) (name : Bytes) (v : Var V) (subs : List ℕ) (names : List Bytes) (h : Hub V)
      → h.var name ≡ some v
      → ((d : ℕ) (n : Bytes)
          → bytes_eq n name ≡ true
          → subscriptions d subs
            ≡ occurrences n (if d == c then names else (h.client d).subscribed_vars))
      → ((n : Bytes)
          → bytes_eq n name ≡ false
          → occurrences n names ≡ occurrences n (h.client c).subscribed_vars)
      → Stays h (resubscribed c name v subs names h)
  resubscribed-Balanced c name v subs names h e here there b d n =
      elim (Bool-cases (bytes_eq n name)) [
        | inl t ↦
            (let k = here d n t in
              elim (Bool-cases (d == c)) [
                | inl s ↦ rw (t, s) (rw s at k)
                | inr s ↦ rw (t, s) (rw s at k)
              ])
        | inr g ↦ elim (Bool-cases (d == c)) [
          | inl s ↦
              let same : d ≡ c = ground arith in
              rw (g, s)
                (b d n
                  ∙ ap (λ k. occurrences n (h.client k).subscribed_vars) same
                  ∙ sym (there n g))
          | inr s ↦ rw (g, s) (b d n)
        ]
      ]

  pub Balanced-here :
      (h : Hub V) (name n : Bytes) (v : Var V) (d : ℕ)
      → h.var name ≡ some v
      → Balanced h
      → bytes_eq n name ≡ true
      → subscriptions d v.subscribers ≡ occurrences n (h.client d).subscribed_vars
  Balanced-here h name n v d e b t =
      sym (ap (held d) (ap h.var (bytes_eq_sound n name t) ∙ e)) ∙ b d n

  pub add_subscriber-resubscribed :
      (c : ℕ) (name : Bytes) (v : Var V) (h : Hub V)
      → h.var name ≡ some v
      → Stays h (
          resubscribed c name v
            (v.subscribers ++ c ∷ [])
            ((h.client c).subscribed_vars ++ name ∷ [])
            h)
  add_subscriber-resubscribed c name v h e b =
      resubscribed-Balanced c name v _ _ h e
        (λ d n t.
          let here = Balanced-here h name n v d e b t in
          let added = subscriptions-snoc d c v.subscribers in
          let named = occurrences-snoc n name (h.client c).subscribed_vars in
          let this = itself name n t in
          elim (Bool-cases (d == c)) [
            | inl s ↦
                let same : d ≡ c = ground arith in
                let both = here ∙ ap (λ k. occurrences n (h.client k).subscribed_vars) same in
                rw s (ground arith)
            | inr s ↦ rw s (ground arith)
          ])
        (λ n f.
          let named = occurrences-snoc n name (h.client c).subscribed_vars in
          let other = another name n f in named ∙ rw other (ground arith))
        b

  pub delete_subscriber-resubscribed :
      (c : ℕ) (name : Bytes) (v : Var V) (h : Hub V) (rest : List ℕ) (names : List Bytes)
      → h.var name ≡ some v
      → remove_client c v.subscribers ≡ some rest
      → remove_name name (h.client c).subscribed_vars ≡ some names
      → Stays h (resubscribed c name v rest names h)
  delete_subscriber-resubscribed c name v h rest names e r s b =
      resubscribed-Balanced c name v _ _ h e
        (λ d n t.
          let here = Balanced-here h name n v d e b t in
          let left = remove_client-counts c v.subscribers rest r d in
          let unnamed = remove_name-counts name (h.client c).subscribed_vars names s n in
          let this = itself name n t in
          elim (Bool-cases (d == c)) [
            | inl q ↦
                let same : d ≡ c = ground arith in
                let both =
                  here ∙ ap (λ k. occurrences n (h.client k).subscribed_vars) same ∙ unnamed in
                rw q (ground arith)
            | inr q ↦ rw q (ground arith)
          ])
        (λ n f.
          let unnamed = remove_name-counts name (h.client c).subscribed_vars names s n in
          let other = another name n f in ground arith)
        b
