-- ===== src/Hub/Net.antt =====
-- The receiving of messages: `Hub_Net_receiveMessage` of src/hub/netio.c and `Hub_Net_clientThread`
-- of src/hub/netloop.c. A socket is the bytes that its peer has sent and that nobody has read yet.
-- What `recv` does is a parameter: `chunk k` is how many bytes the k-th call is ready to give, and
-- the call takes from the stream as many as this, the request and the stream allow; none is an
-- error or the end of the connection. The allocation of a message is fresh, whichever it is; on an
-- error it is freed, so the result does not hold it.
pub mod Receive
pub mod Thread
pub mod Removal
pub mod Reachable
mod Tests
use libseawolf.Base.{
  ℕ, zero, suc, ◌+◌, ◌-◌, min, Option, none, some, List, [], ◌∷◌, ◌++◌, length, take, drop, ◌==◌,
  if◌then◌else◌,
}
use libseawolf.Base.Int.{ℤ}
use libseawolf.MemPool.{Alloc, reserve, moves}
use libseawolf.Comm.Message.{
  Bytes, Message, prefix_len, read16, packed_with_alloc, unpack_message, view,
}
use libseawolf.Hub.State.{Hub, Libc, is_closed}
use libseawolf.Hub.Client.{mark_closed}
use libseawolf.Hub.Process.{process}

-- What the reading of a number of bytes comes to, with the number of the next call of `recv`.
pub data Recv : Type 0 where
  got : Bytes → ℕ → Bytes → Recv
  failed : ℕ → Recv
  more_rounds : Recv

-- The two loops of `Hub_Net_receiveMessage`: read until `want` bytes are there.
unfoldable pub recv_all : (ℕ → ℕ) → ℕ → ℕ → ℕ → Bytes → Recv
recv_all chunk zero want k stream = if want == 0 then got [] k stream else more_rounds
recv_all chunk (suc rounds) want k stream =
    let n = min (chunk k) (min want (length stream)) in
    let rest = recv_all chunk rounds (want - n) (k + 1) (drop n stream) in
    if want == 0 then got [] k stream else if n == 0 then failed (k + 1) else elim rest [
      | got bytes k' stream' ↦ got (take n stream ++ bytes) k' stream'
      | failed k' ↦ failed k'
      | more_rounds ↦ more_rounds
    ]

-- What a call of `Hub_Net_receiveMessage` comes to: a message with its allocation; NULL; a read
-- out of bounds in the unpacking; the use of a pointer into memory that the allocation has left,
-- since it has moved; or rounds that are not enough for the loops.
pub data Reception (V : Type 0) : Type 0 where
  received : Message → Alloc → ℕ → Bytes → Reception V
  lost : Hub V → ℕ → Reception V
  bad_read stale : Reception V
  no_rounds : Reception V

module _ {V : Type 0} (chunk : ℕ → ℕ) where
  -- The end of `Hub_Net_receiveMessage`.
  unfoldable pub unpack_received : Alloc → Bytes → ℕ → Bytes → Reception V
  unpack_received alloc bytes k stream =
      let (u, alloc', moved) = unpack_message alloc bytes in
      if moved then stale else elim u [
        | none ↦ bad_read
        | some u' ↦ elim (view u') [ none ↦ bad_read | some m ↦ received m alloc' k stream ]
      ]

  -- `Hub_Net_receiveMessage`
  unfoldable pub receive_message : Alloc → ℕ → Hub V → ℕ → Bytes → Reception V
  receive_message alloc c h k stream =
      let a0 = (packed_with_alloc alloc).1 in
      let a1 = (reserve a0 prefix_len).1 in
      if moves a0 prefix_len then stale else elim (recv_all chunk prefix_len prefix_len k stream) [
        | more_rounds ↦ no_rounds
        | failed k' ↦ lost (mark_closed c h) k'
        | got header k' stream' ↦
            let total = read16 header 0 in
            let a2 = (reserve a1 total).1 in
            if moves a1 total then stale else elim (recv_all chunk total total k' stream') [
              | more_rounds ↦ no_rounds
              | failed k'' ↦ lost (mark_closed c h) k''
              | got payload k'' stream'' ↦ unpack_received a2 (header ++ payload) k'' stream''
            ]
      ]

-- What a client's thread comes to: its end, or that it waits for ever or accesses memory that it
-- must not, or that the rounds are not enough.
pub data Served (V : Type 0) : Type 0 where
  ended : Hub V → Served V
  stuck : Served V
  out_of_rounds : Served V

module _ {V : Type 0} (libc : Libc V) (chunk : ℕ → ℕ) (alloc : ℕ → Alloc) where
  -- `Hub_Net_clientThread`
  unfoldable pub client_thread : ℕ → ℕ → Hub V → ℕ → Bytes → Served V
  client_thread zero c h k stream = out_of_rounds
  client_thread (suc rounds) c h k stream =
      if is_closed (h.client c).state
      then ended h
      else elim (receive_message chunk (alloc k) c h k stream) [
        | lost h' k' ↦ ended (mark_closed c h')
        | bad_read ↦ stuck
        | stale ↦ stuck
        | no_rounds ↦ out_of_rounds
        | received m a k' stream' ↦ elim (process libc c m h) [
          | none ↦ stuck
          | some (code, h') ↦ client_thread rounds c h' k' stream'
        ]
      ]
