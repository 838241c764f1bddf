-- ===== src/Hub/Process/Preserve.antt =====
-- What every request of src/hub/process.c does to the hub is put together from a few operations. A
-- relation between the hub before and after that covers these covers the processing of a message.
use libseawolf.Base.{
  ℕ, zero, suc, ◌≡◌, Bool, true, false, Option, none, some, List, [], ◌∷◌, bytes_eq, if◌then◌else◌,
  Bool-cases, Option-cases, inl, inr, sym, subst, ◌==◌,
}
use libseawolf.Base.Int.{ℤ, pos, negsuc, minus_one}
use libseawolf.Comm.Message.{Bytes, Message}
use libseawolf.Hub.State.{
  connected, Var, Hub, Libc, LogEntry, codes, is_connected, update_client, update_var,
}
use libseawolf.Hub.Client.{
  add_filter, clear_filters, mark_closed, send_message, kick, close, recipients, deliver,
  deliver_all, broadcast_notification,
}
use libseawolf.Hub.Vars.{add_subscriber, delete_subscriber, publish, notify_subscribers, set_value}
use libseawolf.Hub.Vars.Subscribe.{set_value-stored}
use libseawolf.Hub.Process.{
  component, is_command, authenticate, process_comm, process_notify, kick_invalid, process_watch,
  process_log, process_get, after_set, process_var, dispatch, process,
}

module _ {V : Type 0} where
  -- A relation, for a call that may not return.
  abbrev pub Returning : (Hub V → Hub V → Type 0) → Hub V → Option (ℤ × Hub V) → Type 0
  Returning P h none = Unit
  Returning P h (some (z, h')) = P h h'

-- A relation that holds across each of the operations, and across sequences of them.
pub record Covers {V : Type 0} (libc : Libc V) (P : Hub V → Hub V → Type 0) : Type 0 where
  pub idle : (h : Hub V) → P h h
  pub also : (h k l : Hub V) → P h k → P k l → P h l
  pub sends : (c : ℕ) (m : Message) (h : Hub V) → P h (send_message libc c m h).1
  pub closes : (c : ℕ) (h : Hub V) → P h (mark_closed c h)
  pub adds_filter : (c n : ℕ) (filter : Bytes) (h : Hub V) → P h (add_filter c n filter h)
  pub clears_filters : (c : ℕ) (h : Hub V) → P h (clear_filters c h)
  pub logs : (entries : List LogEntry) (h : Hub V) → P h (record h { log = entries })
  pub flushes : (h : Hub V) → P h (record h { do_flush_flag = true })
  pub stores :
      (name : Bytes) (value : V) (v : Var V) (h : Hub V)
      → h.var name ≡ some v
      → v.readonly ≡ false
      → P h (update_var h name (record v { value = value }))
  pub subscribes : (c : ℕ) (name : Bytes) (h : Hub V) → Returning P h (add_subscriber c name h)
  pub unsubscribes : (c : ℕ) (name : Bytes) (h : Hub V) → Returning P h (delete_subscriber c name h)

module _ {V : Type 0} (libc : Libc V) (P : Hub V → Hub V → Type 0) (covers : Covers libc P) where
  open covers use {idle, also, sends, closes}

  pub kick_covered : (c : ℕ) (reason : Bytes) (h : Hub V) → P h (kick libc c reason h)
  unfolding kick
  kick_covered c reason h = also h (mark_closed c h) _ (closes c h) (sends c _ (mark_closed c h))

  pub close_covered : (c : ℕ) (h : Hub V) → P h (close libc c h)
  unfolding close
  close_covered c h = also h _ _ (sends c _ h) (closes c _)

  deliver_covered : (m : Message) (c : ℕ) (h : Hub V) → P h (deliver libc m c h)
  unfolding deliver
  deliver_covered m c h = elim (Bool-cases (send_message libc c m h).0) [
    | inl t ↦ rw t (sends c m h)
    | inr f ↦ rw f (also h _ _ (sends c m h) (closes c _))
  ]

  deliver_all_covered : (m : Message) (cs : List ℕ) (h : Hub V) → P h (deliver_all libc m cs h)
  unfolding deliver_all
  deliver_all_covered m [] h = idle h
  deliver_all_covered m (c ∷ cs) h =
      also h _ _ (deliver_covered m c h) (deliver_all_covered m cs (deliver libc m c h))

  publish_covered : (m : Message) (cs : List ℕ) (h : Hub V) → P h (publish libc m cs h)
  unfolding publish
  publish_covered m [] h = idle h
  publish_covered m (c ∷ cs) h =
      also h _ _ (sends c m h) (publish_covered m cs (send_message libc c m h).1)

  notify_covered :
      (name : Bytes) (value : V) (cs : List ℕ) (h : Hub V)
      → P h (notify_subscribers libc name value cs h)
  unfolding notify_subscribers
  notify_covered name value [] h = idle h
  notify_covered name value (c ∷ cs) h = publish_covered _ (c ∷ cs) h

  stored_covered :
      (name : Bytes) (value : V) (v : Var V) (h : Hub V) (p : Bool)
      → h.var name ≡ some v
      → v.readonly ≡ false
      → P h (
          notify_subscribers libc name value v.subscribers (
            if p
            then record (update_var h name (record v { value = value })) { do_flush_flag = true }
            else update_var h name (record v { value = value })))
  stored_covered name value v h true e f =
      also h _ _ (also h _ _ (covers.stores name value v h e f) (covers.flushes _))
        (notify_covered name value v.subscribers _)
  stored_covered name value v h false e f =
      also h _ _ (covers.stores name value v h e f) (notify_covered name value v.subscribers _)

  set_value_covered :
      (name : Bytes) (value : V) (h : Hub V) → Returning P h (set_value libc name value h)
  set_value_covered name value h = elim (Option-cases (h.var name)) [
    | inl e ↦ unfold set_value in rw (e, set_value) (idle h)
    | inr (v, e) ↦ elim (Bool-cases v.readonly) [
      | inl t ↦ unfold set_value in rw (e, set_value, t) (idle h)
      | inr f ↦ elim (Bool-cases v.stuck) [
        | inl t ↦ unfold set_value in rw (e, set_value, f, t) tt
        | inr g ↦
            subst (Returning P h) (sym (set_value-stored libc name value h v e f g))
              (stored_covered name value v h v.persistent e f)
      ]
    ]
  ]

  process_notify_covered :
      (c : ℕ) (m : Message) (h : Hub V) → Returning P h (process_notify libc c m h)
  unfolding process_notify broadcast_notification
  process_notify_covered c m h = elim (Bool-cases (is_command m 3 (codes "OUT"))) [
    | inl t ↦ rw t (elim (Option-cases (recipients libc h (component m 2) h.clients)) [
      | inl e ↦ rw e tt
      | inr (to, e) ↦ rw e (deliver_all_covered _ to h)
    ])
    | inr f ↦ elim (Bool-cases (is_command m 4 (codes "ADD_FILTER"))) [
      | inl t ↦ rw (f, t) (covers.adds_filter c _ _ h)
      | inr g ↦ elim (Bool-cases (is_command m 2 (codes "CLEAR_FILTERS"))) [
        | inl t ↦ rw (f, g, t) (covers.clears_filters c h)
        | inr k ↦ rw (f, g, k) (idle h)
      ]
    ]
  ]

  kick_invalid_covered :
      (c : ℕ) (reason : Bytes) (h : Hub V) (r : Option (ℤ × Hub V))
      → Returning P h r
      → Returning P h (kick_invalid libc c reason r)
  unfolding kick_invalid
  kick_invalid_covered c reason h none q = tt
  kick_invalid_covered c reason h (some (pos n, h')) q = q
  kick_invalid_covered c reason h (some (negsuc zero, h')) q =
      also h h' _ q (kick_covered c reason h')
  kick_invalid_covered c reason h (some (negsuc (suc n), h')) q = q

  after_set_covered :
      (c : ℕ) (name : Bytes) (h : Hub V) (r : Option (ℤ × Hub V))
      → Returning P h r
      → Returning P h (after_set libc c name r)
  unfolding after_set
  after_set_covered c name h none q = tt
  after_set_covered c name h (some (pos n, h')) q = q
  after_set_covered c name h (some (negsuc n, h')) q = also h h' _ q (kick_covered c _ h')

  process_watch_covered :
      (c : ℕ) (m : Message) (h : Hub V) → Returning P h (process_watch libc c m h)
  unfolding process_watch
  process_watch_covered c m h = elim (Bool-cases (m.count == 3)) [
    | inr f ↦ rw f (idle h)
    | inl t ↦ elim (Bool-cases (bytes_eq (component m 1) (codes "ADD"))) [
      | inl a ↦
          rw (t, a)
            (kick_invalid_covered c _ h (add_subscriber c (component m 2) h)
              (covers.subscribes c (component m 2) h))
      | inr f ↦ elim (Bool-cases (bytes_eq (component m 1) (codes "DEL"))) [
        | inl a ↦
            rw (t, f, a)
              (kick_invalid_covered c _ h (delete_subscriber c (component m 2) h)
                (covers.unsubscribes c (component m 2) h))
        | inr g ↦ rw (t, f, g) (idle h)
      ]
    ]
  ]

  process_get_covered : (c : ℕ) (m : Message) (h : Hub V) → Returning P h (process_get libc c m h)
  unfolding process_get
  process_get_covered c m h = elim (Option-cases (h.var (component m 2))) [
    | inl e ↦ rw (e, process_get) (kick_covered c _ h)
    | inr (v, e) ↦ elim (Bool-cases v.stuck) [
      | inl t ↦ rw (e, process_get, t) tt
      | inr f ↦ rw (e, process_get, f) (sends c _ h)
    ]
  ]

  process_var_covered : (c : ℕ) (m : Message) (h : Hub V) → Returning P h (process_var libc c m h)
  unfolding process_var
  process_var_covered c m h = elim (Bool-cases (is_command m 3 (codes "GET"))) [
    | inl t ↦ rw t (process_get_covered c m h)
    | inr f ↦ elim (Bool-cases (is_command m 4 (codes "SET"))) [
      | inl t ↦
          rw (f, t)
            (after_set_covered c (component m 2) h
              (set_value libc (component m 2) (libc.atof (component m 3)) h)
              (set_value_covered (component m 2) (libc.atof (component m 3)) h))
      | inr g ↦ rw (f, g) (idle h)
    ]
  ]

  process_log_covered : (m : Message) (h : Hub V) → P h (process_log libc m h).1
  unfolding process_log
  process_log_covered m h = elim (Bool-cases (m.count == 4)) [
    | inl t ↦ rw t (covers.logs _ h)
    | inr f ↦ rw f (idle h)
  ]

  pub dispatch_covered : (c : ℕ) (m : Message) (h : Hub V) → Returning P h (dispatch libc c m h)
  unfolding dispatch
  dispatch_covered c m h = elim (Bool-cases (bytes_eq (component m 0) (codes "NOTIFY"))) [
    | inl t ↦ rw t (process_notify_covered c m h)
    | inr f1 ↦ elim (Bool-cases (bytes_eq (component m 0) (codes "VAR"))) [
      | inl t ↦ rw (f1, t) (process_var_covered c m h)
      | inr f2 ↦ elim (Bool-cases (bytes_eq (component m 0) (codes "WATCH"))) [
        | inl t ↦ rw (f1, f2, t) (process_watch_covered c m h)
        | inr f3 ↦ elim (Bool-cases (bytes_eq (component m 0) (codes "LOG"))) [
          | inl t ↦ rw (f1, f2, f3, t) (process_log_covered m h)
          | inr f4 ↦ rw (f1, f2, f3, f4) (idle h)
        ]
      ]
    ]
  ]

-- A relation that also holds across the connecting of a client covers a whole request.
module _ {V : Type 0} (libc : Libc V) (P : Hub V → Hub V → Type 0) (covers : Covers libc P)
    (connects : (c : ℕ) (h : Hub V)
      → P h (update_client h c (record (h.client c) { state = connected }))) where
  authenticate_covered :
      (c : ℕ) (m : Message) (actual : Bytes) (h : Hub V) → P h (authenticate libc c m actual h)
  unfolding authenticate
  authenticate_covered c m actual h = elim (Bool-cases (bytes_eq (component m 2) actual)) [
    | inl right ↦ rw right (covers.also h _ _ (covers.sends c _ h) (connects c _))
    | inr wrong ↦
        rw wrong (covers.also h _ _ (covers.sends c _ h) (kick_covered libc P covers c _ _))
  ]

  process_comm_covered : (c : ℕ) (m : Message) (h : Hub V) → P h (process_comm libc c m h).1
  unfolding process_comm
  process_comm_covered c m h = elim (Bool-cases (is_command m 3 (codes "AUTH"))) [
    | inl t ↦ rw t (by_password h.password)
    | inr f ↦ elim (Bool-cases (is_command m 2 (codes "SHUTDOWN"))) [
      | inl t ↦ rw (f, t) (close_covered libc P covers c h)
      | inr g ↦ rw (f, g) (covers.idle h)
    ]
  ]
    where
      by_password :
          (o : Option Bytes)
          → (let r : ℤ × Hub V = elim o [
            | none ↦ (minus_one, h)
            | some actual ↦ (pos 0, authenticate libc c m actual h)
          ] in
              P h r.1)
      by_password none = covers.idle h
      by_password (some actual) = authenticate_covered c m actual h

  process-Returning : (c : ℕ) (m : Message) (h : Hub V) → Returning P h (process libc c m h)
  unfolding process
  process-Returning c m h = elim (Bool-cases (m.count == 0)) [
    | inl t ↦ rw t (kick_covered libc P covers c _ h)
    | inr f ↦ elim (Bool-cases (bytes_eq (component m 0) (codes "COMM"))) [
      | inl t ↦ rw (f, t) (process_comm_covered c m h)
      | inr g ↦ elim (Bool-cases (is_connected (h.client c).state)) [
        | inl t ↦ rw (f, g, t) (dispatch_covered libc P covers c m h)
        | inr k ↦ rw (f, g, k) (covers.idle h)
      ]
    ]
  ]

  pub process_covered :
      (c : ℕ) (m : Message) (h : Hub V) {code : ℤ} {h' : Hub V}
      → process libc c m h ≡ some (code, h')
      → P h h'
  process_covered c m h run = subst (Returning P h) run (process-Returning c m h)
