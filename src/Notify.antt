-- ===== src/Notify.antt =====
-- src/notify.c: the notifications of an application. The queue holds pointers that `strdup` made:
-- pointer `p` is the string at place `p - 1` of `strings`. A string that is freed is never read
-- again, so `free` leaves the store as it is. Formatting makes the whole string, as __Util_format
-- does by growing its buffer; `print_int` is the `%d` of the C library.
pub mod Delivery
pub mod Requests
mod Tests
use libseawolf.Base.{
  ℕ, zero, suc, ◌+◌, ◌-◌, Bool, true, false, Option, none, some, List, [], ◌∷◌, ◌++◌, length,
  get_or, get_elem?, leb, ◌==◌, if◌then◌else◌,
}
use libseawolf.ArrayList.{Ptr, null}
use libseawolf.Comm.Message.{Bytes, Message}
use libseawolf.Hub.State.{codes, message}
use libseawolf.Queue
use libseawolf.Queue.{Queue}

pub record Inbox : Type 0 where
  pub initialized : Bool
  pub notification_queue : Queue
  pub strings : List Bytes

abbrev pub text_at : List Bytes → Ptr → Bytes
text_at strings p = get_or strings (p - 1) []

-- `Notify_init`
unfoldable pub init : Ptr → Inbox → Inbox
init indet inbox = record inbox { initialized = true; notification_queue = Queue.new indet }

-- `Notify_inputMessage`: whether it logs that the queue is very long, and the inbox. `none` is a
-- message without a third component, which is read all the same, or the size of a queue that is
-- not there, before `Notify_init` and after `Notify_close`.
unfoldable pub input_message : Ptr → Message → Inbox → Option (Bool × Inbox)
input_message indet m inbox = elim (get_elem? m.components 2) [
  | none ↦ none
  | some msg ↦
      let inbox' = record inbox {
        notification_queue = Queue.append indet inbox.notification_queue (length inbox.strings + 1);
        strings = inbox.strings ++ msg ∷ [];
      } in
      if inbox.initialized
      then some (leb 5 (Queue.get_size inbox'.notification_queue), inbox')
      else none
]

-- The splitting at the first blank in `Notify_get` and `Notify_getWithAlloc`: the action, and the
-- parameter behind the blank. `none` is a read behind the end of the string.
unfoldable pub split_message : Bytes → Option (Bytes × Bytes)
split_message [] = none
split_message (b ∷ msg) =
    let rest = split_message msg in
    if b == b' '
    then some ([], msg)
    else elim rest [ none ↦ none | some (action, param) ↦ some (b ∷ action, param) ]

-- What a call of `Notify_get` comes to: it waits for a message, it reads out of bounds, or it
-- returns an action and a parameter.
pub data Got : Type 0 where
  waiting : Got
  overrun : Got
  got : Bytes → Bytes → Inbox → Got

-- `Notify_get`, and `Notify_getWithAlloc`, which returns the same two strings.
unfoldable pub get : Ptr → Inbox → Got
get indet inbox = elim (Queue.pop indet inbox.notification_queue true) [
  | none ↦ waiting
  | some (p, queue) ↦ elim (split_message (text_at inbox.strings p)) [
    | none ↦ overrun
    | some (action, param) ↦ got action param (record inbox { notification_queue = queue })
  ]
]

-- The message that `Notify_send` sends.
unfoldable pub send_message : Bytes → Bytes → Message
send_message action param =
    message 0 (codes "NOTIFY" ∷ codes "OUT" ∷ (action ++ (b' ' ∷ param)) ∷ []) 3

-- `Notify_available`
unfoldable pub available : Inbox → ℕ
available inbox = Queue.get_size inbox.notification_queue

-- The message that `Notify_filter` sends; no filter is NULL.
unfoldable pub filter_message : (ℕ → Bytes) → ℕ → Option Bytes → Message
filter_message print_int filter_type none =
    message 0 (codes "NOTIFY" ∷ codes "CLEAR_FILTERS" ∷ []) 2
filter_message print_int filter_type (some filter) =
    message 0 (codes "NOTIFY" ∷ codes "ADD_FILTER" ∷ print_int filter_type ∷ filter ∷ []) 4

-- The loop of `Notify_close`: the queue after popping until NULL, or `none` if the rounds are not
-- enough.
unfoldable pub drain : Ptr → ℕ → Queue → Option Queue
drain indet zero queue = none
drain indet (suc rounds) queue = elim (Queue.pop indet queue false) [
  | none ↦ none
  | some (p, queue') ↦
      let rest = drain indet rounds queue' in if p == null then some queue' else rest
]

-- `Notify_close`, given enough rounds for its loop.
unfoldable pub close : Ptr → ℕ → Inbox → Option Inbox
close indet rounds inbox =
    if inbox.initialized
    then elim (drain indet rounds inbox.notification_queue) [
      | none ↦ none
      | some queue ↦ some (record inbox { initialized = false; notification_queue = queue })
    ]
    else some inbox
