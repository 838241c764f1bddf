-- ===== src/Hub/Process/Balance.antt =====
-- The two sides of a subscription in src/hub/var.c agree: a client is on the list of a variable as
-- often as the variable is on the list of the client.
pub mod Resubscribed
use libseawolf.Base.{
  ℕ, ◌≡◌, ◌≢◌, refl, sym, ap, subst, ◌∙◌, true, false, Option, none, some, List, [], ◌∷◌, ◌++◌,
  arith, bytes_eq, bytes_eq_refl, bytes_eq_sound, ◌==◌, if◌then◌else◌, Bool-cases, Option-cases,
  inl, inr,
}
use libseawolf.Base.Int.{ℤ, pos}
use libseawolf.Comm.Message.{Bytes, Message}
use libseawolf.Hub.State.{
  Filter, Client, Var, Hub, Libc, is_closed, connected, update_var, update_client,
}
use libseawolf.Hub.Client.{mark_closed, send_message, add_filter, clear_filters}
use libseawolf.Hub.Vars.{remove_client, remove_name, add_subscriber, delete_subscriber}
use libseawolf.Hub.Vars.Subscribe.{subscriptions, send_lem}
use libseawolf.Hub.Vars.Counts.{
  occurrences, subscriptions-snoc, occurrences-snoc, remove_client-counts, remove_name-counts,
  remove_name-none,
}
use libseawolf.Hub.Process.{process}
use libseawolf.Hub.Process.Preserve.{Returning, Covers, process_covered}
pub use libseawolf.Hub.Process.Balance.Resubscribed.{
  itself, another, held, Balanced, resubscribed, Stays, same_lists, delete_subscriber-resubscribed,
}
use libseawolf.Hub.Process.Balance.Resubscribed.{
  mark_closed-lists, stores-Balanced, resubscribed-Balanced, Balanced-here,
  add_subscriber-resubscribed,
}

module _ {V : Type 0} where
  add_subscriber-run :
      (c : ℕ) (name : Bytes) (v : Var V) (h : Hub V)
      → h.var name ≡ some v
      → v.stuck ≡ false
      → add_subscriber c name h
        ≡ some (
          pos 0,
          resubscribed c name v
              (v.subscribers ++ c ∷ [])
              ((h.client c).subscribed_vars ++ name ∷ [])
              h,
        )
  unfolding add_subscriber
  add_subscriber-run c name v h e f = rw (e, add_subscriber, f) refl

  pub delete_subscriber-run :
      (c : ℕ) (name : Bytes) (v : Var V) (h : Hub V) (rest : List ℕ) (names : List Bytes)
      → h.var name ≡ some v
      → v.stuck ≡ false
      → remove_client c v.subscribers ≡ some rest
      → remove_name name (h.client c).subscribed_vars ≡ some names
      → delete_subscriber c name h ≡ some (pos 0, resubscribed c name v rest names h)
  unfolding delete_subscriber
  delete_subscriber-run c name v h rest names e f r s =
      rw (e, delete_subscriber, r, s)
        (ap (λ b. if b then none else some (pos 0, resubscribed c name v rest names h)) f)

  add_subscriber-Balanced :
      (c : ℕ) (name : Bytes) (h : Hub V) → Returning Stays h (add_subscriber c name h)
  add_subscriber-Balanced c name h = elim (Option-cases (h.var name)) [
    | inl e ↦ unfold add_subscriber in rw (e, add_subscriber) (λ b. b)
    | inr (v, e) ↦ elim (Bool-cases v.stuck) [
      | inl t ↦ unfold add_subscriber in rw (e, add_subscriber, t) tt
      | inr f ↦
          subst (Returning Stays h) (sym (add_subscriber-run c name v h e f))
            (add_subscriber-resubscribed c name v h e)
    ]
  ]

  -- A client on the list of a variable has the variable on its list.
  names_found :
      (c : ℕ) (name : Bytes) (v : Var V) (h : Hub V) (rest : List ℕ)
      → h.var name ≡ some v
      → Balanced h
      → remove_client c v.subscribers ≡ some rest
      → remove_name name (h.client c).subscribed_vars ≢ none
  names_found c name v h rest e b r s =
      let here = Balanced-here h name name v c e b (bytes_eq_refl name) in
      let left = remove_client-counts c v.subscribers rest r c in
      let gone = remove_name-none name (h.client c).subscribed_vars s in ground arith

  stuck-Balanced :
      (name : Bytes) (v : Var V) (h : Hub V)
      → h.var name ≡ some v
      → Stays h (update_var h name (record v { stuck = true }))
  stuck-Balanced name v h e b d n = elim (Bool-cases (bytes_eq n name)) [
    | inl t ↦ rw t (Balanced-here h name n v d e b t)
    | inr g ↦ rw g (b d n)
  ]

  pub delete_subscriber-Balanced :
      (c : ℕ) (name : Bytes) (h : Hub V) → Returning Stays h (delete_subscriber c name h)
  delete_subscriber-Balanced c name h = elim (Option-cases (h.var name)) [
    | inl e ↦ unfold delete_subscriber in rw (e, delete_subscriber) (λ b. b)
    | inr (v, e) ↦ elim (Bool-cases v.stuck) [
      | inl t ↦ unfold delete_subscriber in rw (e, delete_subscriber, t) tt
      | inr f ↦ elim (Option-cases (remove_client c v.subscribers)) [
        | inl r ↦
            unfold delete_subscriber in rw (e, delete_subscriber, f, r) (stuck-Balanced name v h e)
        | inr (rest, r) ↦ elim (Option-cases (remove_name name (h.client c).subscribed_vars)) [
          | inl s ↦
              unfold delete_subscriber in
              rw (e, delete_subscriber, f, r, s) (λ b. absurd (names_found c name v h rest e b r s))
          | inr (names, s) ↦
              subst (Returning Stays h) (sym (delete_subscriber-run c name v h rest names e f r s))
                (delete_subscriber-resubscribed c name v h rest names e r s)
        ]
      ]
    ]
  ]

  pub filters-names :
      (c : ℕ) (h : Hub V) (fs : List Filter) (d : ℕ)
      → ((update_client h c (record (h.client c) { filters = fs })).client d).subscribed_vars
        ≡ (h.client d).subscribed_vars
  filters-names c h fs d = ground arith

  pub clear_filters-Balanced : (c : ℕ) (h : Hub V) → Stays h (clear_filters c h)
  unfolding clear_filters
  clear_filters-Balanced c h = same_lists h (clear_filters c h) refl (filters-names c h [])

module _ {V : Type 0} (libc : Libc V) where
  send_message-Balanced : (c : ℕ) (m : Message) (h : Hub V) → Stays h (send_message libc c m h).1
  send_message-Balanced c m h =
      let (log, tries, clients, vars, flag) = send_lem libc m c h in
      same_lists h (send_message libc c m h).1 vars
        (λ d. ap (λ (f : ℕ → Client). (f d).subscribed_vars) clients)

  abbrev connect : ℕ → Hub V → Hub V
  connect d k = update_client k d (record (k.client d) { state = connected })

  connect-names :
      (d : ℕ) (k : Hub V) (e : ℕ)
      → ((connect d k).client e).subscribed_vars ≡ (k.client e).subscribed_vars
  connect-names d k e = ground arith

  abbrev Balanced-Covers : Covers libc Stays
  Balanced-Covers = record {
    idle = λ h b. b;
    also = λ h k l p q b. q (p b);
    sends = send_message-Balanced;
    closes = λ c h.
        let (vars, names) = mark_closed-lists c h in same_lists h (mark_closed c h) vars names;
    adds_filter = λ c n filter h.
        unfold add_filter in same_lists h (add_filter c n filter h) refl (filters-names c h _);
    clears_filters = clear_filters-Balanced;
    logs = λ entries h b. b;
    flushes = λ h b. b;
    stores = stores-Balanced;
    subscribes = add_subscriber-Balanced;
    unsubscribes = delete_subscriber-Balanced;
  }

  -- If every client is on the list of every variable as often as the variable is on the list of the
  -- client, then this is so after the processing of any message of any client that returns.
  pub process-Balanced :
      (c : ℕ) (m : Message) (h : Hub V) {code : ℤ} {h' : Hub V}
      → Balanced h
      → process libc c m h ≡ some (code, h')
      → Balanced h'
  process-Balanced c m h b run =
      process_covered libc Stays Balanced-Covers
        (λ d k. same_lists k (connect d k) refl (λ e. connect-names d k e)) c m h run b
