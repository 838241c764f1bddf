-- ===== src/Hub/Net/Reachable.antt =====
-- The states that the hub can come to: it starts without clients, takes clients in, processes their
-- messages and takes out those that are marked closed, in any order.
use libseawolf.Base.{
  ℕ, zero, suc, ◌≡◌, ◌≤◌, refl, sym, ap, subst, ◌∙◌, Bool, true, false, Option, none, some, List,
  [], ◌∷◌, ◌++◌, arith, leb, ◌==◌, if◌then◌else◌, Bool-cases, inl, inr, length, length-append,
}
use libseawolf.Base.Int.{ℤ}
use libseawolf.Comm.Message.{Bytes, Message}
use libseawolf.Hub.State.{Hub, Libc, update_client}
use libseawolf.Hub.Client.{new_client, clear_filters, send_message, add_filter}
use libseawolf.Hub.Vars.Counts.{occurrences}
use libseawolf.Hub.Process.{process}
use libseawolf.Hub.Process.Preserve.{Covers, process_covered}
use libseawolf.Hub.Process.Balance.{
  Stays, held, Balanced, process-Balanced, delete_subscriber-Balanced, clear_filters-Balanced,
}
use libseawolf.Hub.Net.Removal.Ends.{
  SameClients, mark_closed-clients, add_subscriber-clients, delete_subscriber-clients, drop_covered,
  without_client-length,
}
use libseawolf.Hub.Net.Removal.{
  accept_client, drop_subscriptions, remove_marked_closed, without_client,
}

module _ {V : Type 0} (libc : Libc V) (max_clients : ℕ) where
  -- No client, and no subscription of any number that a client may get.
  abbrev pub Initial : Hub V → Type 0
  Initial h =
      (h.clients ≡ [])
      × ((d : ℕ) → (h.client d).subscribed_vars ≡ [])
      × ((d : ℕ) (n : Bytes) → held d (h.var n) ≡ 0)

  pub data Reachable : Hub V → Type 0 where
    starts : {h : Hub V} → Initial h → Reachable h
    accepts :
        {h : Hub V} (c sock : ℕ)
        → ((n : Bytes) → held c (h.var n) ≡ 0)
        → Reachable h
        → Reachable (accept_client max_clients c sock h).1
    processes :
        {h h' : Hub V} (c : ℕ) (m : Message) (code : ℤ)
        → process libc c m h ≡ some (code, h')
        → Reachable h
        → Reachable h'
    removes :
        {h h' : Hub V} (waits : ℕ → Bool) (removals rounds : ℕ)
        → remove_marked_closed waits removals rounds h ≡ some h'
        → Reachable h
        → Reachable h'

module _ {V : Type 0} (libc : Libc V) where
  send_message-clients :
      (c : ℕ) (m : Message) (h : Hub V) → SameClients h (send_message libc c m h).1
  unfolding send_message
  send_message-clients c m h = ground arith

  add_filter-clients :
      (c n : ℕ) (filter : Bytes) (h : Hub V) → SameClients h (add_filter c n filter h)
  unfolding add_filter
  add_filter-clients c n filter h = refl

  clear_filters-clients : (c : ℕ) (h : Hub V) → SameClients h (clear_filters c h)
  unfolding clear_filters
  clear_filters-clients c h = refl

  abbrev SameClients-Covers : Covers libc SameClients
  SameClients-Covers = record {
    idle = λ h. refl;
    also = λ h k l p q. q ∙ p;
    sends = send_message-clients;
    closes = mark_closed-clients;
    adds_filter = add_filter-clients;
    clears_filters = clear_filters-clients;
    logs = λ entries h. refl;
    flushes = λ h. refl;
    stores = λ name value v h found writable. refl;
    subscribes = add_subscriber-clients;
    unsubscribes = delete_subscriber-clients;
  }

  process-clients :
      (c : ℕ) (m : Message) (h : Hub V) {code : ℤ} {h' : Hub V}
      → process libc c m h ≡ some (code, h')
      → SameClients h h'
  process-clients c m h run =
      process_covered libc SameClients SameClients-Covers (λ d k. refl) c m h run

module _ {V : Type 0} (max_clients : ℕ) where
  -- The two sides of the subscriptions agree, and the clients are not too many.
  abbrev pub Sound : Hub V → Type 0
  Sound h = Balanced h × (length h.clients ≤ max_clients)

  accepted-Balanced :
      (c sock : ℕ) (cs : List ℕ) (h : Hub V)
      → ((n : Bytes) → held c (h.var n) ≡ 0)
      → Balanced h
      → Balanced (record (update_client h c (new_client sock)) { clients = cs })
  accepted-Balanced c sock cs h unused b d n = elim (Bool-cases (d == c)) [
    | inl t ↦ let same : d ≡ c = ground arith in rw t (ap (λ k. held k (h.var n)) same ∙ unused n)
    | inr f ↦ rw f (b d n)
  ]

  accept_client-Sound :
      (c sock : ℕ) (h : Hub V)
      → ((n : Bytes) → held c (h.var n) ≡ 0)
      → Sound h
      → Sound (accept_client max_clients c sock h).1
  unfolding accept_client
  accept_client-Sound c sock h unused (b, l) =
      elim (Bool-cases (leb max_clients (length h.clients))) [
        | inl t ↦ rw t (b, l)
        | inr f ↦
            let more = length-append h.clients (c ∷ []) in
            rw f (accepted-Balanced c sock (h.clients ++ c ∷ []) h unused b, rw more (ground arith))
      ]

  cleared-Sound : (c : ℕ) (h : Hub V) → Sound h → Sound (clear_filters c h)
  unfolding clear_filters
  cleared-Sound c h (b, l) = (unfold clear_filters in clear_filters-Balanced c h b, l)

  dropped-Sound :
      (rounds c : ℕ) (rest : List ℕ) (h k : Hub V)
      → drop_subscriptions rounds c
          (record h { closed_clients = rest; clients = without_client c h.clients })
        ≡ some k
      → Sound h
      → Sound k
  dropped-Sound rounds c rest h k run (b, l) =
      let taken = record h { closed_clients = rest; clients = without_client c h.clients } in
      let stays =
        drop_covered Stays (λ h b. b) (λ h k l p q b. q (p b)) delete_subscriber-Balanced rounds c
          taken run in
      let same =
        drop_covered SameClients (λ h. refl) (λ h k l p q. q ∙ p) delete_subscriber-clients rounds c
          taken run in
      let fewer = without_client-length c h.clients in (stays b, rw same (ground arith))

  next-Sound :
      (c : ℕ) (rest : List ℕ) (rounds : ℕ) (h h' : Hub V) (o : Option (Hub V))
      (next : Hub V → Option (Hub V)) (given_up : Bool)
      → ((k : Hub V) → next k ≡ some h' → Sound k → Sound h')
      → drop_subscriptions rounds c
          (record h { closed_clients = rest; clients = without_client c h.clients })
        ≡ o
      → (if given_up then none else elim o [ none ↦ none | some k ↦ next (clear_filters c k) ])
        ≡ some h'
      → Sound h
      → Sound h'
  next-Sound c rest rounds h h' o next true again e run s = cc
  next-Sound c rest rounds h h' none next false again e run s = cc
  next-Sound c rest rounds h h' (some k) next false again e run s =
      again (clear_filters c k) run (cleared-Sound c k (dropped-Sound rounds c rest h k e s))

  queue-Sound :
      (waits : ℕ → Bool) (queue : List ℕ) (removals rounds : ℕ) (h h' : Hub V)
      → h.closed_clients ≡ queue
      → ((k : Hub V) → remove_marked_closed waits removals rounds k ≡ some h' → Sound k → Sound h')
      → remove_marked_closed waits (suc removals) rounds h ≡ some h'
      → Sound h
      → Sound h'
  unfolding remove_marked_closed
  queue-Sound waits [] removals rounds h h' e again run s =
      let is : h ≡ h' = (let k = simp (e, remove_marked_closed) at run in cc) in subst Sound is s
  queue-Sound waits (c ∷ rest) removals rounds h h' e again run s =
      next-Sound c rest rounds h h' _ (remove_marked_closed waits removals rounds) _ again refl
        (simp (e, remove_marked_closed) at run) s

  remove_marked_closed-Sound :
      (waits : ℕ → Bool) (removals rounds : ℕ) (h h' : Hub V)
      → remove_marked_closed waits removals rounds h ≡ some h'
      → Sound h
      → Sound h'
  remove_marked_closed-Sound waits zero rounds h h' run s = unfold remove_marked_closed in cc
  remove_marked_closed-Sound waits (suc removals) rounds h h' run s =
      queue-Sound waits h.closed_clients removals rounds h h' refl
        (λ k e. remove_marked_closed-Sound waits removals rounds k h' e) run s

  -- In every state that the hub comes to, from no clients at all, by taking clients in, processing
  -- messages of any clients and taking closed clients out, in any order, each client is on the list
  -- of each variable as often as the variable is on the list of the client, and the clients are at
  -- most as many as the limit.
  pub Reachable-Sound : (libc : Libc V) {h : Hub V} → Reachable libc max_clients h → Sound h
  Reachable-Sound libc {h} (starts (empty, names, lists)) =
      (λ d n. lists d n ∙ sym (ap (occurrences n) (names d)), rw empty (ground arith))
  Reachable-Sound libc (accepts {h = k} c sock unused r) =
      accept_client-Sound c sock k unused (Reachable-Sound libc r)
  Reachable-Sound libc (processes {h = k} {h' = h'} c m code run r) =
      let (b, l) = Reachable-Sound libc r in
      (process-Balanced libc c m k b run, rw (process-clients libc c m k run) l)
  Reachable-Sound libc (removes {h = k} {h' = h'} waits removals rounds run r) =
      remove_marked_closed-Sound waits removals rounds k h' run (Reachable-Sound libc r)
