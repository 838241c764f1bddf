-- ===== src/Hub/Net/Removal/Ends.antt =====
-- What the loop over the subscriptions of a client that is taken out, in src/hub/netloop.c, does to
-- the rest of the hub, whenever it ends.
use libseawolf.Base.{
  ℕ, zero, suc, ◌≡◌, ◌≤◌, refl, subst, Option, none, some, List, [], ◌∷◌, arith, Bool-cases,
  Option-cases, inl, inr, length,
}
use libseawolf.Base.Int.{ℤ}
use libseawolf.Comm.Message.{Bytes}
use libseawolf.Hub.State.{Hub}
use libseawolf.Hub.Client.{mark_closed}
use libseawolf.Hub.Vars.{remove_name, remove_client, add_subscriber, delete_subscriber}
use libseawolf.Hub.Vars.Counts.{remove_client-length}
use libseawolf.Hub.Process.Preserve.{Returning}
use libseawolf.Hub.Net.Removal.{drop_subscriptions, without_client}

pub without_client-length : (c : ℕ) (cs : List ℕ) → length (without_client c cs) ≤ length cs
unfolding without_client
without_client-length c cs = elim (Option-cases (remove_client c cs)) [
  | inl e ↦ rw (e, without_client) (ground arith)
  | inr (rest, e) ↦
      rw (e, without_client) (let l = remove_client-length c cs rest e in ground arith)
]

module _ {V : Type 0} where
  -- The list of clients is the same.
  abbrev pub SameClients : Hub V → Hub V → Type 0
  SameClients h h' = h'.clients ≡ h.clients

  pub mark_closed-clients : (c : ℕ) (h : Hub V) → SameClients h (mark_closed c h)
  unfolding mark_closed
  mark_closed-clients c h = ground arith

  pub add_subscriber-clients :
      (c : ℕ) (name : Bytes) (h : Hub V) → Returning SameClients h (add_subscriber c name h)
  unfolding add_subscriber
  add_subscriber-clients c name h = elim (Option-cases (h.var name)) [
    | inl e ↦ rw (e, add_subscriber) refl
    | inr (v, e) ↦ elim (Bool-cases v.stuck) [
      | inl t ↦ rw (e, add_subscriber, t) tt
      | inr f ↦ rw (e, add_subscriber, f) refl
    ]
  ]

  pub delete_subscriber-clients :
      (c : ℕ) (name : Bytes) (h : Hub V) → Returning SameClients h (delete_subscriber c name h)
  unfolding delete_subscriber
  delete_subscriber-clients c name h = elim (Option-cases (h.var name)) [
    | inl e ↦ rw (e, delete_subscriber) refl
    | inr (v, e) ↦ elim (Bool-cases v.stuck) [
      | inl t ↦ rw (e, delete_subscriber, t) tt
      | inr f ↦ elim (Option-cases (remove_client c v.subscribers)) [
        | inl r ↦ rw (e, delete_subscriber, f, r) refl
        | inr (rest, r) ↦ elim (Option-cases (remove_name name (h.client c).subscribed_vars)) [
          | inl s ↦ rw (e, delete_subscriber, f, r, s) refl
          | inr (names, s) ↦ rw (e, delete_subscriber, f, r, s) refl
        ]
      ]
    ]
  ]

module _ {V : Type 0} (P : Hub V → Hub V → Type 0) (idle : (h : Hub V) → P h h)
    (also : (h k l : Hub V) → P h k → P k l → P h l)
    (unsubscribes : (c : ℕ) (name : Bytes) (h : Hub V)
      → Returning P h (delete_subscriber c name h)) where
  next_covered :
      (h h' : Hub V) (rounds c : ℕ) (r : Option (ℤ × Hub V))
      → ((k : Hub V) → drop_subscriptions rounds c k ≡ some h' → P k h')
      → Returning P h r
      → (elim r [ none ↦ none | some (code, k) ↦ drop_subscriptions rounds c k ]) ≡ some h'
      → P h h'
  next_covered h h' rounds c none again p e = cc
  next_covered h h' rounds c (some (code, k)) again p e = also h k h' p (again k e)

  loop_covered :
      (h h' : Hub V) (rounds c : ℕ) (names : List Bytes)
      → (h.client c).subscribed_vars ≡ names
      → ((k : Hub V) → drop_subscriptions rounds c k ≡ some h' → P k h')
      → drop_subscriptions (suc rounds) c h ≡ some h'
      → P h h'
  unfolding drop_subscriptions
  loop_covered h h' rounds c [] e again run =
      let is : h ≡ h' = (let k = simp (e, drop_subscriptions) at run in cc) in
      subst (P h) is (idle h)
  loop_covered h h' rounds c (name ∷ names) e again run =
      next_covered h h' rounds c (delete_subscriber c name h) again (unsubscribes c name h)
        (simp (e, drop_subscriptions) at run)

  -- A relation that holds across the end of a subscription, and across sequences, holds across the
  -- loop over a client's subscriptions when it ends.
  pub drop_covered :
      (rounds c : ℕ) (h : Hub V) {h' : Hub V} → drop_subscriptions rounds c h ≡ some h' → P h h'
  drop_covered zero c h {h'} run = unfold drop_subscriptions in cc
  drop_covered (suc rounds) c h {h'} run =
      loop_covered h h' rounds c (h.client c).subscribed_vars refl
        (λ k e. drop_covered rounds c k e) run
