-- ===== src/Comm/Receive.antt =====
-- `Comm_receivePackedMessage` and `Comm_receiveThread` of src/comm.c: what an application makes of
-- the bytes from the hub. The socket is the bytes that are there until its end; with MSG_WAITALL a
-- call waits for all that it asks for or for the end. `indet` is what unwritten memory holds.
pub mod Thread
mod Tests
use libseawolf.Base.{
  ℕ, zero, suc, ◌+◌, ◌%◌, ◌^◌, Bool, true, false, ◌||◌, Option, none, some, List, [], ◌∷◌, length,
  take, drop, bytes_eq, get_elem?, ltb, ◌==◌, if◌then◌else◌,
}
use libseawolf.ArrayList.{Ptr}
use libseawolf.MemPool.{Alloc, reserve, moves}
use libseawolf.Comm.Message.{
  Bytes, Message, prefix_len, read16, packed_with_alloc, unpack_message, view,
}
use libseawolf.Comm.Requests.{Requests, store_response}
use libseawolf.Hub.State.{codes}
use libseawolf.Notify
use libseawolf.Notify.{Inbox}
use libseawolf.Var
use libseawolf.Var.{Floats, Vars}

abbrev pub max_receive_error : ℕ
max_receive_error = 5

-- The parts of an application that its receiving thread changes.
pub record App (V : Type 0) : Type 0 where
  pub requests : Requests
  pub inbox : Inbox
  pub vars : Vars V
  pub hub_shutdown : Bool

-- What `Comm_receivePackedMessage` comes to, with what is left of the stream: NULL, the bytes of the
-- packed message with its allocation, or the use of a packed message whose allocation has moved.
pub data Packet : Type 0 where
  no_packet : Bytes → Packet
  packet : Bytes → Alloc → Bytes → Packet
  stale_packet : Packet

-- `Comm_receivePackedMessage`, with a new allocation: the length, a `uint16_t`, is looked at without
-- taking it from the stream.
unfoldable pub receive_packed : Alloc → Bytes → Packet
receive_packed alloc stream =
    if ltb (length stream) 2
    then no_packet stream
    else (let size = (read16 stream 0 + prefix_len) % 2 ^ 16 in
        let alloc' = (packed_with_alloc alloc).1 in
        if moves alloc' size
        then stale_packet
        else if ltb (length stream) size
        then no_packet []
        else packet (take size stream) (reserve alloc' size).1 (drop size stream))

-- What the thread comes to: it has left its loop, the program has ended, it reads or writes out of
-- bounds, or the rounds are not enough.
pub data Outcome (V : Type 0) : Type 0 where
  left exited : App V → Outcome V
  fault : Outcome V
  more_rounds : Outcome V

-- What a message comes to.
pub data Handled (V : Type 0) : Type 0 where
  goes_on kicked : App V → Handled V
  bad_access : Handled V

module _ {V : Type 0} (floats : Floats V) (indet : Ptr) where
  abbrev pub with_requests : App V → Option Requests → Handled V
  with_requests app none = bad_access
  with_requests app (some requests) = goes_on (record app { requests = requests })

  abbrev pub with_inbox : App V → Option (Bool × Inbox) → Handled V
  with_inbox app none = bad_access
  with_inbox app (some (logs, inbox)) = goes_on (record app { inbox = inbox })

  abbrev pub with_vars : App V → Option (Vars V) → Handled V
  with_vars app none = bad_access
  with_vars app (some vars) = goes_on (record app { vars = vars })

  -- The reason of a kick is read to be logged.
  abbrev pub handle_kick : App V → Option Bytes → Handled V
  handle_kick app none = bad_access
  handle_kick app (some reason) = kicked (record app { hub_shutdown = true })

  -- The COMM messages, by their second component; the third one is the reason of a kick.
  abbrev pub handle_comm : App V → Option Bytes → Option Bytes → Handled V
  handle_comm app none reason = bad_access
  handle_comm app (some command) reason =
      if bytes_eq command (codes "KICKING") then handle_kick app reason else goes_on app

  -- A message without a request identifier, by its first component.
  unfoldable pub handle_unsolicited : Message → App V → Option Bytes → Handled V
  handle_unsolicited m app none = bad_access
  handle_unsolicited m app (some namespace) =
      if bytes_eq namespace (codes "NOTIFY")
      then with_inbox app (Notify.input_message indet m app.inbox)
      else if bytes_eq namespace (codes "WATCH")
      then with_vars app (Var.input_message floats m app.vars)
      else if bytes_eq namespace (codes "COMM")
      then handle_comm app (get_elem? m.components 1) (get_elem? m.components 2)
      else goes_on app

  -- The handling of a message in `Comm_receiveThread`.
  unfoldable pub handle : Message → App V → Handled V
  handle m app =
      if m.request_id == 0
      then handle_unsolicited m app (get_elem? m.components 0)
      else with_requests app (store_response m app.requests)

  -- `Comm_receiveThread`, while `initialized`. `closing` is what `Seawolf_closing` says, the
  -- allocations are those of the rounds. Of a message whose wrapped length is below that of a header
  -- the code reads bytes that it has not received.
  unfoldable pub receive_thread : (ℕ → Alloc) → Bool → ℕ → ℕ → App V → Bytes → Outcome V
  receive_thread alloc closing zero error_count app stream = more_rounds
  receive_thread alloc closing (suc rounds) error_count app stream =
      elim (receive_packed (alloc rounds) stream) [
        | stale_packet ↦ fault
        | no_packet stream' ↦
            let again =
              receive_thread alloc closing rounds ((error_count + 1) % 2 ^ 16) app stream' in
            if closing
            then left (record app { hub_shutdown = true })
            else if ltb max_receive_error ((error_count + 1) % 2 ^ 16)
            then exited (record app { hub_shutdown = true })
            else again
        | packet bytes alloc' stream' ↦
            let (unpacked, _, moved) = unpack_message alloc' bytes in
            if ltb (length bytes) prefix_len || moved then fault else elim unpacked [
              | none ↦ fault
              | some u ↦ elim (view u) [
                | none ↦ fault
                | some m ↦ elim (handle m app) [
                  | bad_access ↦ fault
                  | kicked app' ↦ exited app'
                  | goes_on app' ↦ receive_thread alloc closing rounds 0 app' stream'
                ]
              ]
            ]
      ]
