-- ===== src/Hub/Net/Removal/Removed.antt =====
-- What is left of the clients that `Hub_Net_removeMarkedClosedClients` of src/hub/netloop.c takes
-- out.
use libseawolf.Base.{
  ℕ, zero, suc, ◌≡◌, ◌<◌, refl, sym, ap, subst, ◌∙◌, true, false, Option, none, some, List, [], ◌∷◌,
  arith, bytes_eq, bytes_eq_refl, bytes_eq_sound, ◌==◌, Bool-cases, inl, inr, length,
}
use libseawolf.Comm.Message.{Bytes}
use libseawolf.Hub.State.{Var, Hub}
use libseawolf.Hub.Vars.{remove_client, remove_name}
use libseawolf.Hub.Vars.Counts.{occurrences, remove_client-found}
use libseawolf.Hub.Process.Balance.{
  held, Balanced, resubscribed, delete_subscriber-run, delete_subscriber-resubscribed,
}
use libseawolf.Hub.Net.Removal.{drop_subscriptions}

module _ {V : Type 0} where
  -- No variable that the client is subscribed to has a lock that is never released.
  abbrev pub Free : Hub V → ℕ → Type 0
  Free h c =
      (n : Bytes) (v : Var V)
      → h.var n ≡ some v
      → 0 < occurrences n (h.client c).subscribed_vars
      → v.stuck ≡ false

  -- Another variable, or the same with another list of subscribers.
  abbrev pub SameBut : Option (Var V) → Option (Var V) → Type 0
  SameBut none none = Unit
  SameBut none (some w) = ⊥
  SameBut (some v) none = ⊥
  SameBut (some v) (some w) = record v { subscribers = w.subscribers } ≡ w

  pub SameBut-refl : (o : Option (Var V)) → SameBut o o
  SameBut-refl none = tt
  SameBut-refl (some v) = refl

  pub SameBut-trans : (o p q : Option (Var V)) → SameBut o p → SameBut p q → SameBut o q
  SameBut-trans none none none a b = tt
  SameBut-trans none none (some w) a b = b
  SameBut-trans none (some v) q a b = absurd a
  SameBut-trans (some u) none q a b = absurd a
  SameBut-trans (some u) (some v) none a b = b
  SameBut-trans (some u) (some v) (some w) a b =
      ap (λ (x : Var V). record x { subscribers = w.subscribers }) a ∙ b

  -- What the removal of a client's subscriptions does to the hub.
  abbrev pub Dropped : ℕ → Hub V → Hub V → Type 0
  Dropped c h h' =
      ((h'.client c).subscribed_vars ≡ [])
      × Balanced h'
      × ((d : ℕ) → (d == c) ≡ false → h'.client d ≡ h.client d)
      × ((n : Bytes) → SameBut (h.var n) (h'.var n))
      × (h'.clients ≡ h.clients)
      × (h'.closed_clients ≡ h.closed_clients)

  known : (o : Option (Var V)) (d : ℕ) → 0 < held d o → (v : Var V) × (o ≡ some v)
  known none d lt = ground arith
  known (some v) d lt = (v, refl)

  resubscribed-SameBut :
      (c : ℕ) (name : Bytes) (v : Var V) (subs : List ℕ) (names : List Bytes) (h : Hub V)
      → h.var name ≡ some v
      → (n : Bytes) → SameBut (h.var n) ((resubscribed c name v subs names h).var n)
  resubscribed-SameBut c name v subs names h e n = elim (Bool-cases (bytes_eq n name)) [
    | inl t ↦ rw (t, ap h.var (bytes_eq_sound n name t) ∙ e) refl
    | inr f ↦ rw f (SameBut-refl (h.var n))
  ]

  resubscribed-Free :
      (c : ℕ) (name : Bytes) (v : Var V) (subs : List ℕ) (names : List Bytes) (h : Hub V)
      → h.var name ≡ some v
      → v.stuck ≡ false
      → (h.client c).subscribed_vars ≡ name ∷ names
      → Free h c
      → Free (resubscribed c name v subs names h) c
  resubscribed-Free c name v subs names h e f s free n w found lt =
      elim (Bool-cases (bytes_eq n name)) [
        | inl t ↦
            let same : record v { subscribers = subs } ≡ w = (let k = rw t at found in cc) in
            ap (λ (x : Var V). x.stuck) (sym same) ∙ f
        | inr g ↦ free n w (rw g at found) (
            let here : (c == c) ≡ true = ground arith in
            let lt' = rw here at lt in rw s (ground arith))
      ]

  first_deleted :
      (c : ℕ) (name : Bytes) (names : List Bytes) (h : Hub V)
      → (h.client c).subscribed_vars ≡ name ∷ names
      → Balanced h
      → Free h c
      → (v : Var V) × (rest : List ℕ) × (h.var name ≡ some v)
        × (v.stuck ≡ false)
        × (remove_client c v.subscribers ≡ some rest)
        × (remove_name name (h.client c).subscribed_vars ≡ some names)
  first_deleted c name names h s b free =
      let here : 0 < occurrences name (h.client c).subscribed_vars =
        let r = bytes_eq_refl name in rw s (rw r (ground arith)) in
      let there : 0 < held c (h.var name) = rw (b c name) here in
      let (v, e) = known (h.var name) c there in
      let (rest, r) = remove_client-found c v.subscribers (subst (λ o. 0 < held c o) e there) in
      (
        v,
        rest,
        e,
        free name v e here,
        r,
        rw s (unfold remove_name in let k = bytes_eq_refl name in rw k refl),
      )

  -- What the loop over a client's subscriptions does, if the two sides of the subscriptions agree and
  -- no variable among them has a lock that is never released: with more rounds than subscriptions it
  -- ends.
  pub drop_subscriptions-Dropped :
      (names : List Bytes) (rounds c : ℕ) (h : Hub V)
      → (h.client c).subscribed_vars ≡ names
      → length names < rounds
      → Balanced h
      → Free h c
      → (h' : Hub V) × (drop_subscriptions rounds c h ≡ some h') × Dropped c h h'
  unfolding drop_subscriptions
  drop_subscriptions-Dropped [] (suc rounds) c h s lt b free = (
    h,
    rw (s, drop_subscriptions) refl,
    (s, b, λ d f. refl, λ n. SameBut-refl (h.var n), refl, refl),
  )
  drop_subscriptions-Dropped (name ∷ names) (suc rounds) c h s lt b free =
      let (v, rest, e, f, r, t) = first_deleted c name names h s b free in
      let h1 = resubscribed c name v rest names h in
      let here : (c == c) ≡ true = ground arith in
      let (h', run, (none_left, b', others, vars, cs, queue)) =
        drop_subscriptions-Dropped names rounds c h1 (rw here refl) (ground arith)
          (delete_subscriber-resubscribed c name v h rest names e r t b)
          (resubscribed-Free c name v rest names h e f s free) in
      (
        h',
        rw (s, drop_subscriptions, delete_subscriber-run c name v h rest names e f r t) run,
        (
          none_left,
          b',
          λ d g. others d g ∙ rw g refl,
          λ n.
              SameBut-trans (h.var n) (h1.var n) (h'.var n)
                (resubscribed-SameBut c name v rest names h e n) (vars n),
          cs,
          queue,
        ),
      )
  drop_subscriptions-Dropped names zero c h s lt b free = ground arith
