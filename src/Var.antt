-- ===== src/Var.antt =====
-- src/var.c: the shared variables of an application. The dictionaries `subscriptions` and `ro_cache`
-- are functions from names, and the floats that `Var_bind` is given are a store. The locks are not
-- modelled, and what is logged is not.

pub mod Stale
pub mod HubLink
pub mod Cache
pub mod Shared
mod Tests
use libseawolf.Base.{
  ℕ, Bool, true, false, ◌&&◌, Option, none, some, List, [], ◌∷◌, bytes_eq, get_elem?, ◌==◌,
  if◌then◌else◌,
}
use libseawolf.Comm.Message.{Bytes, Message}
use libseawolf.Hub.State.{codes, message}
use libseawolf.Notify

-- What the code does with a `float` of type `V`: `atof`, the `%.4f` of `printf`, `!=` and 0.
pub record Floats (V : Type 0) : Type 0 where
  pub atof : Bytes → V
  pub format : V → Bytes
  pub differ : V → V → Bool
  pub zero_value : V

-- What is outside the application, with a state. `ask` is `Comm_assignRequestID` followed by
-- `Comm_sendMessage`: NULL is `none`, and with `none` for the whole it does not return. `tell` is
-- `Comm_sendMessage` of a message without a request identifier.
pub record Link (E : Type 0) : Type 0 where
  pub ask : Message → E → Option (Option Message × E)
  pub tell : Message → E → Option E

-- `Subscription`, without its lock.
pub record Subscription (V : Type 0) : Type 0 where
  pub writeback : Option ℕ
  pub last : V
  pub current : V
  pub poked : Bool

-- The static variables of the file, and the floats of the application.
pub record Vars (V : Type 0) : Type 0 where
  pub notify : Bool
  pub initialized : Bool
  pub ro_cache : Bytes → Option V
  pub subscriptions : Bytes → Option (Subscription V)
  pub data_available : Bool
  pub cells : ℕ → V

-- `Dictionary_set`
abbrev pub set_entry : {A : Type 0} → (Bytes → Option A) → Bytes → Option A → Bytes → Option A
set_entry f name x n = if bytes_eq n name then x else f n

-- The request of `Var_get`, with the identifier 0 that it has before `Comm_assignRequestID`.
abbrev pub get_request : Bytes → Message
get_request name = message 0 (codes "VAR" ∷ codes "GET" ∷ name ∷ []) 3

module _ {V : Type 0} where
  -- `Var_init`
  unfoldable pub init : Vars V → Vars V
  init vs = record vs { ro_cache = λ n. none; subscriptions = λ n. none; initialized = true }

  abbrev pub put_subscription : Bytes → Subscription V → Vars V → Vars V
  put_subscription name s vs = record vs {
    subscriptions = set_entry vs.subscriptions name (some s);
  }

  -- A subscription after its value is read by `Var_get`, or after `Var_touch`.
  abbrev pub read_value : Subscription V → Subscription V
  read_value s = record s { last = s.current; poked = false }

  -- `(*s->writeback) = s->current`
  abbrev pub write_back : Subscription V → Vars V → Vars V
  write_back s vs = elim s.writeback [
    | none ↦ vs
    | some p ↦ record vs { cells = λ q. if q == p then s.current else vs.cells q }
  ]

  -- `Var_inputNewValue`
  unfoldable pub input_new_value : Bytes → V → Vars V → Vars V
  input_new_value name value vs = elim (vs.subscriptions name) [
    | none ↦ record vs { data_available = true }
    | some s ↦
        let s' = record s { current = value; poked = true } in
        record (write_back s' (put_subscription name s' vs)) { data_available = true }
  ]

  -- `Var_setAutoNotify`
  unfoldable pub set_auto_notify : Bool → Vars V → Vars V
  set_auto_notify autonotify vs = record vs { notify = autonotify }

  -- `Var_poked`. A variable without a subscription ends the program: `none`.
  unfoldable pub is_poked : Bytes → Vars V → Option Bool
  is_poked name vs = elim (vs.subscriptions name) [ none ↦ none | some s ↦ some s.poked ]

  -- `Var_touch`
  unfoldable pub touch : Bytes → Vars V → Option (Vars V)
  touch name vs = elim (vs.subscriptions name) [
    | none ↦ none
    | some s ↦ some (put_subscription name (read_value s) vs)
  ]

  -- `Var_sync`. `none` waits for the next new value.
  unfoldable pub sync : Vars V → Option (Vars V)
  sync vs = if vs.data_available then some (record vs { data_available = false }) else none

  -- `Var_close`. What it frees is not reached any more.
  unfoldable pub close : Vars V → Vars V
  close vs =
      if vs.initialized
      then record vs { ro_cache = λ n. none; subscriptions = λ n. none; initialized = false }
      else vs

module _ {V : Type 0} (floats : Floats V) where
  -- The request of `Var_set`.
  abbrev pub set_request : Bytes → V → Message
  set_request name value = message 0 (codes "VAR" ∷ codes "SET" ∷ name ∷ floats.format value ∷ []) 4

  -- `Var_stale`
  unfoldable pub stale : Bytes → Vars V → Option Bool
  stale name vs = elim (vs.subscriptions name) [
    | none ↦ none
    | some s ↦ some (s.poked && floats.differ s.last s.current)
  ]

  -- `Var_inputMessage`. `none` is a read behind the components.
  unfoldable pub input_message : Message → Vars V → Option (Vars V)
  input_message m vs =
      if m.count == 3
      then elim (get_elem? m.components 1) [
        | none ↦ none
        | some name ↦ elim (get_elem? m.components 2) [
          | none ↦ none
          | some text ↦ some (input_new_value name (floats.atof text) vs)
        ]
      ]
      else some vs

  -- `Var_get` from the response on: the value, and the cache of read-only variables.
  unfoldable pub read_response : Bytes → Message → Vars V → Option (V × Vars V)
  read_response name response vs = elim (get_elem? response.components 1) [
    | none ↦ none
    | some kind ↦
        if bytes_eq kind (codes "VALUE")
        then elim (get_elem? response.components 3) [
          | none ↦ none
          | some text ↦
              let value = floats.atof text in
              elim (get_elem? response.components 2) [
                | none ↦ none
                | some access ↦ some (
                  value,
                  (if bytes_eq access (codes "RO")
                      then record vs { ro_cache = set_entry vs.ro_cache name (some value) }
                      else vs),
                )
              ]
        ]
        else some (floats.zero_value, vs)
  ]

module _ {V : Type 0} (floats : Floats V) {E : Type 0} (link : Link E) where
  -- The part of `Var_get` that asks the hub. A NULL response is dereferenced: `none`.
  unfoldable pub ask_hub : Bytes → Vars V → E → Option (V × Vars V × E)
  ask_hub name vs e = elim (link.ask (get_request name) e) [
    | none ↦ none
    | some (none, e') ↦ none
    | some (some response, e') ↦ elim (read_response floats name response vs) [
      | none ↦ none
      | some (value, vs') ↦ some (value, vs', e')
    ]
  ]

  -- `Var_get`
  unfoldable pub get : Bytes → Vars V → E → Option (V × Vars V × E)
  get name vs e = elim (vs.subscriptions name) [
    | some s ↦ some (s.current, put_subscription name (read_value s) vs, e)
    | none ↦ elim (vs.ro_cache name) [ some value ↦ some (value, vs, e) | none ↦ ask_hub name vs e ]
  ]

  -- The notification of `Var_set`.
  unfoldable pub notify_updated : Bytes → Vars V → E → Option E
  notify_updated name vs e =
      if vs.notify then link.tell (Notify.send_message (codes "UPDATED") name) e else some e

  -- `Var_set`
  unfoldable pub set : Bytes → V → Vars V → E → Option (Vars V × E)
  set name value vs e = elim (link.tell (set_request floats name value) e) [
    | none ↦ none
    | some e' ↦ elim (notify_updated name vs e') [
      | none ↦ none
      | some e'' ↦
          some (
            elim (vs.subscriptions name) [ none ↦ vs | some s ↦ input_new_value name value vs ],
            e'',
          )
    ]
  ]

  -- `Var_subscribe`
  unfoldable pub subscribe : Bytes → Vars V → E → Option (Vars V × E)
  subscribe name vs e = elim (get name vs e) [
    | none ↦ none
    | some (value, vs', e') ↦
        let s : Subscription V = record {
          writeback = none;
          last = value;
          current = value;
          poked = false;
        } in
        elim (link.tell (message 0 (codes "WATCH" ∷ codes "ADD" ∷ name ∷ []) 3) e') [
          | none ↦ none
          | some e'' ↦ some (put_subscription name s vs', e'')
        ]
  ]

  -- `Var_bind`, for a float of the store. Without the subscription it would be a NULL dereference.
  unfoldable pub bind : Bytes → ℕ → Vars V → E → Option (Vars V × E)
  bind name store_to vs e = elim (subscribe name vs e) [
    | none ↦ none
    | some (vs', e') ↦ elim (vs'.subscriptions name) [
      | none ↦ none
      | some s ↦
          let s' = record s { writeback = some store_to } in
          some (write_back s' (put_subscription name s' vs'), e')
    ]
  ]

  -- `Var_unsubscribe` and `Var_unbind`
  unfoldable pub unsubscribe : Bytes → Vars V → E → Option (Vars V × E)
  unsubscribe name vs e =
      elim (link.tell (message 0 (codes "WATCH" ∷ codes "DEL" ∷ name ∷ []) 3) e) [
        | none ↦ none
        | some e' ↦ some (
          elim (vs.subscriptions name) [
            | none ↦ vs
            | some s ↦ record vs { subscriptions = set_entry vs.subscriptions name none }
          ],
          e',
        )
      ]
