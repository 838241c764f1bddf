-- ===== src/Hub/Process/Access.antt =====
-- Who can become a connected client of the hub, and what a client can do before that.
use libseawolf.Base.{
  ℕ, ◌≡◌, ◌≢◌, sym, ap, ◌∙◌, true, false, ◌⊎◌, inl, inr, Option, none, some, arith, bytes_eq,
  bytes_eq_sound, ◌==◌, if◌then◌else◌, Bool-cases, Option-cases,
}
use libseawolf.Base.Int.{ℤ, minus_one}
use libseawolf.Comm.Message.{Bytes, Message}
use libseawolf.Hub.Process.Preserve.{
  Returning, Covers, kick_covered, close_covered, dispatch_covered,
}
use libseawolf.Hub.State.{is_connected, Hub, Libc, codes}
use libseawolf.Hub.Client.{add_filter, clear_filters, mark_closed, send_message, kick, close}
use libseawolf.Hub.Vars.{add_subscriber, delete_subscriber, remove_client, remove_name}
use libseawolf.Hub.Process.{component, is_command, authenticate, process_comm, dispatch, process}

-- No client is connected after a call that was not connected before it.
abbrev pub Quiet : {V : Type 0} → Hub V → Hub V → Type 0
Quiet h h' =
    (d : ℕ) → is_connected (h'.client d).state ≡ true → is_connected (h.client d).state ≡ true

module _ {V : Type 0} (libc : Libc V) where
  send_message-Quiet : (c : ℕ) (m : Message) (h : Hub V) → Quiet h (send_message libc c m h).1
  unfolding send_message
  send_message-Quiet c m h d = ground arith

  mark_closed-Quiet : (c : ℕ) (h : Hub V) → Quiet h (mark_closed c h)
  unfolding mark_closed
  mark_closed-Quiet c h d = ground arith

  add_subscriber-Quiet :
      (c : ℕ) (name : Bytes) (h : Hub V) → Returning Quiet h (add_subscriber c name h)
  unfolding add_subscriber
  add_subscriber-Quiet c name h = elim (Option-cases (h.var name)) [
    | inl e ↦ rw (e, add_subscriber) (λ d k. k)
    | inr (v, e) ↦ elim (Bool-cases v.stuck) [
      | inl t ↦ rw (e, add_subscriber, t) tt
      | inr f ↦ rw (e, add_subscriber, f) (λ d k. ground arith)
    ]
  ]

  delete_subscriber-Quiet :
      (c : ℕ) (name : Bytes) (h : Hub V) → Returning Quiet h (delete_subscriber c name h)
  unfolding delete_subscriber
  delete_subscriber-Quiet c name h = elim (Option-cases (h.var name)) [
    | inl e ↦ rw (e, delete_subscriber) (λ d k. k)
    | inr (v, e) ↦ elim (Bool-cases v.stuck) [
      | inl t ↦ rw (e, delete_subscriber, t) tt
      | inr f ↦ elim (Option-cases (remove_client c v.subscribers)) [
        | inl e' ↦ rw (e, delete_subscriber, f, e') (λ d k. k)
        | inr (rest, e') ↦ elim (Option-cases (remove_name name (h.client c).subscribed_vars)) [
          | inl e'' ↦ rw (e, delete_subscriber, f, e', e'') (λ d k. k)
          | inr (names, e'') ↦ rw (e, delete_subscriber, f, e', e'') (λ d k. ground arith)
        ]
      ]
    ]
  ]

  add_filter-Quiet : (c n : ℕ) (filter : Bytes) (h : Hub V) → Quiet h (add_filter c n filter h)
  unfolding add_filter
  add_filter-Quiet c n filter h d e = ground arith

  clear_filters-Quiet : (c : ℕ) (h : Hub V) → Quiet h (clear_filters c h)
  unfolding clear_filters
  clear_filters-Quiet c h d e = ground arith

  abbrev Quiet-Covers : Covers libc Quiet
  Quiet-Covers = record {
    idle = λ h d e. e;
    also = λ h k l p q d e. p d (q d e);
    sends = send_message-Quiet;
    closes = mark_closed-Quiet;
    adds_filter = add_filter-Quiet;
    clears_filters = clear_filters-Quiet;
    logs = λ entries h d e. e;
    flushes = λ h d e. e;
    stores = λ name value v h found writable d e. e;
    subscribes = add_subscriber-Quiet;
    unsubscribes = delete_subscriber-Quiet;
  }

  kick-Quiet : (c : ℕ) (reason : Bytes) (h : Hub V) → Quiet h (kick libc c reason h)
  kick-Quiet = kick_covered libc Quiet Quiet-Covers

  close-Quiet : (c : ℕ) (h : Hub V) → Quiet h (close libc c h)
  close-Quiet = close_covered libc Quiet Quiet-Covers

  -- The message carries the hub's password in an AUTH request.
  abbrev pub Authenticates : Message → Hub V → Type 0
  Authenticates m h =
      (m.count ≡ 3)
      × (component m 0 ≡ codes "COMM")
      × (component m 1 ≡ codes "AUTH")
      × (h.password ≡ some (component m 2))

  authenticate-state :
      (c : ℕ) (m : Message) (actual : Bytes) (h : Hub V) (d : ℕ)
      → is_connected ((authenticate libc c m actual h).client d).state ≡ true
      → (is_connected (h.client d).state ≡ true) ⊎ ((d ≡ c) × (component m 2 ≡ actual))
  unfolding authenticate
  authenticate-state c m actual h d e = elim (Bool-cases (bytes_eq (component m 2) actual)) [
    | inr f ↦ inl (send_message-Quiet c _ h d (kick-Quiet c _ _ d (rw f at e)))
    | inl t ↦ elim (Bool-cases (d == c)) [
      | inl same ↦ inr (ground arith, bytes_eq_sound (component m 2) actual t)
      | inr other ↦ inl (send_message-Quiet c _ h d (rw (t, other) at e))
    ]
  ]

  process_comm-state :
      (c : ℕ) (m : Message) (h : Hub V) (d : ℕ)
      → component m 0 ≡ codes "COMM"
      → is_connected ((process_comm libc c m h).1.client d).state ≡ true
      → (is_connected (h.client d).state ≡ true) ⊎ ((d ≡ c) × Authenticates m h)
  unfolding process_comm
  process_comm-state c m h d comm e = elim (Bool-cases (is_command m 3 (codes "AUTH"))) [
    | inl t ↦ elim (Option-cases h.password) [
      | inl p ↦ inl (rw (t, p) at e)
      | inr (actual, p) ↦
          let auth = bytes_eq_sound (component m 1) (codes "AUTH") in
          elim (authenticate-state c m actual h d (rw (t, p) at e)) [
            | inl same ↦ inl same
            | inr (is_c, right) ↦
                inr (is_c, (ground arith, comm, auth (ground arith), p ∙ ap some (sym right)))
          ]
    ]
    | inr f ↦ elim (Bool-cases (is_command m 2 (codes "SHUTDOWN"))) [
      | inl t ↦ inl (close-Quiet c h d (rw (f, t) at e))
      | inr g ↦ inl (rw (f, g) at e)
    ]
  ]

  returned_state :
      {z z' : ℤ} {k h' : Hub V} (d : ℕ)
      → ◌≡◌ {A = Option (ℤ × Hub V)} (some (z, k)) (some (z', h'))
      → is_connected (h'.client d).state ≡ true
      → is_connected (k.client d).state ≡ true
  returned_state {k} {h'} d q e = let same : k ≡ h' = cc in rw same e

  quiet_run :
      {z : ℤ} (h : Hub V) {h' : Hub V} (d : ℕ) (r : Option (ℤ × Hub V))
      → r ≡ some (z, h')
      → Returning Quiet h r
      → is_connected (h'.client d).state ≡ true
      → is_connected (h.client d).state ≡ true
  quiet_run h d none q w e = cc
  quiet_run h d (some (z, k)) q w e = w d (returned_state d q e)

  -- Whatever message any client sends, when its processing returns, every client that is connected
  -- was connected before, or is the sender and has just sent the hub's password in an AUTH request.
  pub connected-process :
      (c : ℕ) (m : Message) (h : Hub V) {code : ℤ} {h' : Hub V}
      → process libc c m h ≡ some (code, h')
      → (d : ℕ) → is_connected (h'.client d).state ≡ true
      → (is_connected (h.client d).state ≡ true) ⊎ ((d ≡ c) × Authenticates m h)
  unfolding process
  connected-process c m h run d e = elim (Bool-cases (m.count == 0)) [
    | inl t ↦ inl (kick-Quiet c _ h d (returned_state d (rw t at run) e))
    | inr f ↦ elim (Bool-cases (bytes_eq (component m 0) (codes "COMM"))) [
      | inl t ↦
          process_comm-state c m h d (bytes_eq_sound (component m 0) (codes "COMM") t)
            (returned_state d (rw (f, t) at run) e)
      | inr g ↦ elim (Bool-cases (is_connected (h.client c).state)) [
        | inl t ↦ inl (
            quiet_run h d (dispatch libc c m h) (rw (f, g, t) at run)
              (dispatch_covered libc Quiet Quiet-Covers c m h) e)
        | inr k ↦ inl (returned_state d (rw (f, g, k) at run) e)
      ]
    ]
  ]

  -- A client that is not connected reaches only the COMM requests: any other message is refused,
  -- and changes nothing in the hub unless it is empty, when the client is kicked.
  unconnected_process :
      (c : ℕ) (m : Message) (h : Hub V)
      → is_connected (h.client c).state ≡ false
      → component m 0 ≢ codes "COMM"
      → process libc c m h
        ≡ some (minus_one, (if m.count == 0 then kick libc c (codes "Illegal message") h else h))
  unfolding process
  unconnected_process c m h un other = elim (Bool-cases (bytes_eq (component m 0) (codes "COMM"))) [
    | inl t ↦ absurd (other (bytes_eq_sound (component m 0) (codes "COMM") t))
    | inr f ↦ rw (f, un) (ground arith)
  ]
