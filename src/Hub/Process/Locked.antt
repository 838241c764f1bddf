-- ===== src/Hub/Process/Locked.antt =====
-- What the requests of src/hub/process.c can do to a variable whose write lock was left held.
use libseawolf.Base.{
  ℕ, ◌≡◌, inl, inr, refl, sym, ap, ◌∙◌, true, false, Option, none, some, bytes_eq, bytes_eq_sound,
  bytes_eq_refl, if◌then◌else◌, Bool-cases, Option-cases,
}
use libseawolf.Base.Int.{ℤ, minus_one}
use libseawolf.Comm.Message.{Bytes, Message}
use libseawolf.Hub.Process.Preserve.{Returning, Covers, process_covered}
use libseawolf.Hub.Process.ReadOnly.{some_eq, mark_closed-var, send_message-var}
use libseawolf.Hub.State.{update_var, Var, Hub, Libc}
use libseawolf.Hub.Client.{add_filter, clear_filters}
use libseawolf.Hub.Vars.{remove_client, remove_name, add_subscriber, delete_subscriber, set_value}
use libseawolf.Hub.Vars.Subscribe.{subscriptions, remove_client-none}
use libseawolf.Hub.Process.{process}

module _ {V : Type 0} where
  -- A variable that can be written, and whose lock is never released.
  abbrev LockedIn : (Bytes → Option (Var V)) → Bytes → Type 0
  LockedIn f name = (v : Var V) × (f name ≡ some v) × (v.stuck ≡ true) × (v.readonly ≡ false)

  abbrev KeepsLocks : (Bytes → Option (Var V)) → (Bytes → Option (Var V)) → Type 0
  KeepsLocks f g = (name : Bytes) → LockedIn f name → LockedIn g name

  abbrev Locks : Hub V → Hub V → Type 0
  Locks h h' = KeepsLocks h.var h'.var

  same_locks : {f g : Bytes → Option (Var V)} → g ≡ f → KeepsLocks f g
  same_locks e name (v, found, locked, writable) = (v, ap (λ k. k name) e ∙ found, locked, writable)

  -- A write to one variable that leaves its lock held, and whether it is read-only.
  locks_lem :
      (f : Bytes → Option (Var V)) (name : Bytes) (v x : Var V)
      → f name ≡ some v
      → (v.stuck ≡ true → x.stuck ≡ true)
      → x.readonly ≡ v.readonly
      → KeepsLocks f (λ n. if bytes_eq n name then some x else f n)
  locks_lem f name v x found held same_ro n (w, found', locked, writable) =
      elim (Bool-cases (bytes_eq n name)) [
        | inl t ↦
            let here : f n ≡ some v = ap f (bytes_eq_sound n name t) ∙ found in
            let same : v ≡ w = some_eq (sym here ∙ found') in
            (
              x,
              rw t refl,
              held (ap (λ (u : Var V). u.stuck) same ∙ locked),
              same_ro ∙ ap (λ (u : Var V). u.readonly) same ∙ writable,
            )
        | inr other ↦ (w, rw other found', locked, writable)
      ]

  add_subscriber-Locks :
      (c : ℕ) (name : Bytes) (h : Hub V) → Returning Locks h (add_subscriber c name h)
  unfolding add_subscriber
  add_subscriber-Locks c name h = elim (Option-cases (h.var name)) [
    | inl e ↦ rw (e, add_subscriber) (same_locks refl)
    | inr (v, e) ↦ elim (Bool-cases v.stuck) [
      | inl t ↦ rw (e, add_subscriber, t) tt
      | inr f ↦ rw (e, add_subscriber, f) (locks_lem h.var name v _ e (λ s. sym f ∙ s) refl)
    ]
  ]

  delete_subscriber-Locks :
      (c : ℕ) (name : Bytes) (h : Hub V) → Returning Locks h (delete_subscriber c name h)
  unfolding delete_subscriber
  delete_subscriber-Locks c name h = elim (Option-cases (h.var name)) [
    | inl e ↦ rw (e, delete_subscriber) (same_locks refl)
    | inr (v, e) ↦ elim (Bool-cases v.stuck) [
      | inl t ↦ rw (e, delete_subscriber, t) tt
      | inr f ↦ elim (Option-cases (remove_client c v.subscribers)) [
        | inl e' ↦ rw (e, delete_subscriber, f, e') (locks_lem h.var name v _ e (λ s. refl) refl)
        | inr (rest, e') ↦ elim (Option-cases (remove_name name (h.client c).subscribed_vars)) [
          | inl e'' ↦
              rw (e, delete_subscriber, f, e', e'') (locks_lem h.var name v _ e (λ s. s) refl)
          | inr (names, e'') ↦
              rw (e, delete_subscriber, f, e', e'') (locks_lem h.var name v _ e (λ s. s) refl)
        ]
      ]
    ]
  ]

module _ {V : Type 0} (libc : Libc V) where
  abbrev Locks-Covers : Covers libc Locks
  Locks-Covers = record {
    idle = λ h. same_locks refl;
    also = λ h k l p q name locked. q name (p name locked);
    sends = λ c m h. same_locks (send_message-var libc c m h);
    closes = λ c h. same_locks (mark_closed-var c h);
    adds_filter = λ c n filter h. unfold add_filter in same_locks refl;
    clears_filters = λ c h. unfold clear_filters in same_locks refl;
    logs = λ entries h. same_locks refl;
    flushes = λ h. same_locks refl;
    stores = λ name value v h e f. locks_lem h.var name v _ e (λ s. s) refl;
    subscribes = add_subscriber-Locks;
    unsubscribes = delete_subscriber-Locks;
  }

  -- The hub after it has processed any messages of any clients.
  pub data Later (h : Hub V) : Hub V → Type 0 where
    at_once : Later h h
    after :
        {k l : Hub V} (c : ℕ) (m : Message) (code : ℤ)
        → process libc c m k ≡ some (code, l)
        → Later h k
        → Later h l

  later-LockedIn :
      (name : Bytes) {h k : Hub V} → Later h k → LockedIn h.var name → LockedIn k.var name
  later-LockedIn name at_once locked = locked
  later-LockedIn name (after {k = k} c m code run later) locked =
      process_covered libc Locks Locks-Covers (λ d k. same_locks refl) c m k run name
        (later-LockedIn name later locked)

  -- What a call on such a variable does: it waits.
  abbrev pub Waits : Bytes → Hub V → Type 0
  Waits name k =
      (d : ℕ) (value : V)
      → (set_value libc name value k ≡ none)
        × (add_subscriber d name k ≡ none)
        × (delete_subscriber d name k ≡ none)

  waiting : (name : Bytes) (k : Hub V) → LockedIn k.var name → Waits name k
  unfolding delete_subscriber set_value add_subscriber
  waiting name k (v, found, locked, writable) d value = (
    rw (found, set_value, writable, locked) refl,
    rw (found, add_subscriber, locked) refl,
    rw (found, delete_subscriber, locked) refl,
  )

  -- Unsubscribing a client that is no subscriber of a variable that can be written returns -1 and
  -- leaves the variable's lock held: whatever messages the hub processes from then on, every write
  -- to the variable and every subscription call on it never returns.
  pub delete_subscriber-stuck :
      (c : ℕ) (name : Bytes) (h : Hub V) (v : Var V)
      → h.var name ≡ some v
      → v.stuck ≡ false
      → v.readonly ≡ false
      → subscriptions c v.subscribers ≡ 0
      → (h' : Hub V) × (delete_subscriber c name h ≡ some (minus_one, h'))
        × ((k : Hub V) → Later h' k → Waits name k)
  unfolding delete_subscriber
  delete_subscriber-stuck c name h v e free writable absent =
      let r = bytes_eq_refl name in
      (
        update_var h name (record v { stuck = true }),
        rw (e, delete_subscriber, free, remove_client-none c v.subscribers absent) refl,
        λ k later.
            waiting name k
              (later-LockedIn name later (record v { stuck = true }, rw r refl, refl, writable)),
      )
