-- ===== src/Hub/Process.antt =====
-- src/hub/process.c: what the hub does with a message from a client. The result is the C
-- function's `int` and the hub; `none` is a call that does not return, on a lock that is never
-- released, or that reads out of bounds in a filter.
pub mod Preserve
pub mod Balance
pub mod Access
pub mod ReadOnly
pub mod Locked
use libseawolf.Base.{
  ℕ, zero, suc, ◌+◌, Bool, true, false, ◌&&◌, Option, none, some, List, [], ◌∷◌, ◌++◌, bytes_eq,
  get_or, ◌==◌, if◌then◌else◌,
}
use libseawolf.Base.Int.{ℤ, pos, negsuc, minus_one, minus_two}
use libseawolf.Comm.Message.{Bytes, Message}
use libseawolf.Hub.State.{
  ClientState, connected, is_connected, Client, Var, Hub, Libc, LogEntry, codes, update_client,
  message,
}
use libseawolf.Hub.Client.{
  add_filter, clear_filters, send_message, kick, close, broadcast_notification,
}
use libseawolf.Hub.Vars.{add_subscriber, delete_subscriber, set_value}

abbrev pub component : Message → ℕ → Bytes
component m i = get_or m.components i []

-- `message->count == n && strcmp(message->components[1], s) == 0`
abbrev pub is_command : Message → ℕ → Bytes → Bool
is_command m n s = m.count == n && bytes_eq (component m 1) s

module _ {V : Type 0} (libc : Libc V) where
  -- The answer of `Hub_Process_comm` to an AUTH with the given password.
  unfoldable pub authenticate : ℕ → Message → Bytes → Hub V → Hub V
  authenticate c m actual h =
      if bytes_eq (component m 2) actual
      then (let h' =
            (send_message libc c (message m.request_id (codes "COMM" ∷ codes "SUCCESS" ∷ []) 2)
              h).1 in
          update_client h' c (record (h'.client c) { state = connected }))
      else kick libc c (codes "Authentication failure")
          (send_message libc c (message m.request_id (codes "COMM" ∷ codes "FAILURE" ∷ []) 2) h).1

  -- `Hub_Process_comm`
  unfoldable pub process_comm : ℕ → Message → Hub V → ℤ × Hub V
  process_comm c m h =
      if is_command m 3 (codes "AUTH")
      then elim h.password [
        | none ↦ (minus_one, h)
        | some actual ↦ (pos 0, authenticate c m actual h)
      ]
      else if is_command m 2 (codes "SHUTDOWN")
      then (pos 0, close libc c h)
      else (minus_one, h)

  -- `Hub_Process_notify`
  unfoldable pub process_notify : ℕ → Message → Hub V → Option (ℤ × Hub V)
  process_notify c m h =
      if is_command m 3 (codes "OUT")
      then elim (broadcast_notification libc
          (message 0 (codes "NOTIFY" ∷ codes "IN" ∷ component m 2 ∷ []) 3) h) [
            | none ↦ none
            | some h' ↦ some (pos 0, h')
          ]
      else if is_command m 4 (codes "ADD_FILTER")
      then some (pos 0, add_filter c (libc.atoi (component m 2)) (component m 3) h)
      else if is_command m 2 (codes "CLEAR_FILTERS")
      then some (pos 0, clear_filters c h)
      else some (minus_one, h)

  -- After a subscription call: a client that named an invalid variable is kicked.
  unfoldable pub kick_invalid : ℕ → Bytes → Option (ℤ × Hub V) → Option (ℤ × Hub V)
  kick_invalid c reason none = none
  kick_invalid c reason (some (pos n, h)) = some (pos n, h)
  kick_invalid c reason (some (negsuc zero, h)) = some (minus_one, kick libc c reason h)
  kick_invalid c reason (some (negsuc (suc n), h)) = some (negsuc (suc n), h)

  -- `Hub_Process_watch`
  unfoldable pub process_watch : ℕ → Message → Hub V → Option (ℤ × Hub V)
  process_watch c m h =
      if m.count == 3
      then if bytes_eq (component m 1) (codes "ADD")
        then kick_invalid c
            (codes "Subscribing to invalid variable (" ++ (component m 2 ++ codes ")"))
            (add_subscriber c (component m 2) h)
        else if bytes_eq (component m 1) (codes "DEL")
        then kick_invalid c
            (codes "Unsubscribing to invalid variable (" ++ (component m 2 ++ codes ")"))
            (delete_subscriber c (component m 2) h)
        else some (minus_one, h)
      else some (minus_one, h)

  -- `Hub_Process_log`
  unfoldable pub process_log : Message → Hub V → ℤ × Hub V
  process_log m h =
      if m.count == 4
      then (
        pos 0,
        record h {
          log =
              h.log
              ++ record {
                app_name = component m 1;
                level = libc.atoi (component m 2);
                msg = component m 3;
              }
                ∷ [];
        },
      )
      else (minus_one, h)

  abbrev pub invalid_access : Bytes → Bytes
  invalid_access name = codes "Invalid variable access (" ++ (name ++ codes ")")

  -- The GET of `Hub_Process_var`.
  unfoldable pub process_get : ℕ → Message → Hub V → Option (ℤ × Hub V)
  process_get c m h = elim (h.var (component m 2)) [
    | none ↦ some (minus_one, kick libc c (invalid_access (component m 2)) h)
    | some v ↦
        if v.stuck
        then none
        else some (
          pos 0,
          (send_message libc c
              (message m.request_id
                (codes "VAR"
                  ∷ codes "VALUE"
                  ∷ (if v.readonly then codes "RO" else codes "RW")
                  ∷ libc.format v.value
                  ∷ [])
                4)
              h).1,
        )
  ]

  -- The SET of `Hub_Process_var`: after a refused write the client is kicked.
  unfoldable pub after_set : ℕ → Bytes → Option (ℤ × Hub V) → Option (ℤ × Hub V)
  after_set c name none = none
  after_set c name (some (pos n, h)) = some (pos 0, h)
  after_set c name (some (negsuc n, h)) = some (minus_one, kick libc c (invalid_access name) h)

  -- `Hub_Process_var`
  unfoldable pub process_var : ℕ → Message → Hub V → Option (ℤ × Hub V)
  process_var c m h =
      if is_command m 3 (codes "GET")
      then process_get c m h
      else if is_command m 4 (codes "SET")
      then after_set c (component m 2)
          (set_value libc (component m 2) (libc.atof (component m 3)) h)
      else some (minus_one, h)

  -- The dispatch of `Hub_Process_process` for a client that is connected.
  unfoldable pub dispatch : ℕ → Message → Hub V → Option (ℤ × Hub V)
  dispatch c m h =
      if bytes_eq (component m 0) (codes "NOTIFY")
      then process_notify c m h
      else if bytes_eq (component m 0) (codes "VAR")
      then process_var c m h
      else if bytes_eq (component m 0) (codes "WATCH")
      then process_watch c m h
      else if bytes_eq (component m 0) (codes "LOG")
      then some (process_log m h)
      else some (minus_one, h)

  -- `Hub_Process_process`
  unfoldable pub process : ℕ → Message → Hub V → Option (ℤ × Hub V)
  process c m h =
      if m.count == 0
      then some (minus_one, kick libc c (codes "Illegal message") h)
      else if bytes_eq (component m 0) (codes "COMM")
      then some (process_comm c m h)
      else if is_connected (h.client c).state
      then dispatch c m h
      else some (minus_one, h)
