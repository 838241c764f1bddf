-- ===== src/Comm/Receive/Thread.antt =====
-- The receiving thread of src/comm.c against the messages that the hub has sent.
use libseawolf.Base.{
  ℕ, zero, suc, ◌+◌, ◌%◌, ◌^◌, ◌≡◌, ◌<◌, refl, sym, ap₂, ◌∙◌, Bool, true, false, List, [], ◌∷◌,
  ◌++◌, arith, length, length-append, take_all, drop_all, ltb,
}
use libseawolf.ArrayList.{Ptr}
use libseawolf.MemPool.{Alloc, reserve}
use libseawolf.MemPool.Reserve.{round_up_even, round_up_lem, reserve-stays}
use libseawolf.Comm.Message.{
  Bytes, Message, prefix_len, read16, packed_with_alloc, total_data_length, pack_message,
}
use libseawolf.Comm.Wire.{Fits, HasRoom, unpack-pack, pack-length, read16-write16}
use libseawolf.Comm.Receive.{
  App, Outcome, Handled, exited, fault, goes_on, kicked, bad_access, packet, receive_packed, handle,
  receive_thread,
}
use libseawolf.Hub.Net.Receive.Space.{Fresh, Small}
use libseawolf.Hub.Net.Thread.{wire, AllFit}
use libseawolf.Var.{Floats}

packed_total :
    (alloc : Alloc) (m : Message) (rest : Bytes)
    → Fits m
    → read16 ((pack_message alloc m).0.bytes ++ rest) 0 ≡ total_data_length m.components
unfolding pack_message
packed_total alloc m rest fits =
    read16-write16 (total_data_length m.components) (omega (arith, fits.short))

receive_packed-pack :
    (alloc : Alloc) (m : Message) (rest : Bytes)
    → Fits m
    → (new : Alloc) → Fresh new
    → Small m
    → let bytes = (pack_message alloc m).0.bytes in
      (new' : Alloc) × (receive_packed new (bytes ++ rest) ≡ packet bytes new' rest)
      × HasRoom new' m.count (total_data_length m.components)
      × (ltb (length bytes) prefix_len ≡ false)
unfolding receive_packed packed_with_alloc
receive_packed-pack alloc m rest fits new (w, new_size) small =
    let bytes = (pack_message alloc m).0.bytes in
    let (size, long) = pack-length alloc m fits in
    let both = length-append bytes rest in
    let whole : length bytes ≡ total_data_length m.components + prefix_len = long ∙ size in
    let header : ltb (length (bytes ++ rest)) 2 ≡ false = ground arith in
    let enough : ltb (length (bytes ++ rest)) (total_data_length m.components + prefix_len)
        ≡ false =
      ground arith in
    let total = total_data_length m.components in
    let wraps : (total + prefix_len) % 2 ^ 16 ≡ total + prefix_len = omega (arith, small) in
    let (_, most, _) = round_up_lem (total + prefix_len) (omega (arith, small)) in
    let even = round_up_even 24 refl in
    let (m0, s0, w0) = reserve-stays new 24 new_size (omega (arith, w, even)) in
    let a0 = (reserve new 24).1 in
    let (m1, s1, w1) =
      reserve-stays a0 (total + prefix_len) s0 (omega (arith, w, w0, even, most, small)) in
    (
      (reserve a0 (total + prefix_len)).1,
      rw (header, packed_total alloc m rest fits, wraps, m1, enough)
          (ap₂ (λ a b. packet a (reserve a0 (total + prefix_len)).1 b)
            (take_all bytes rest _ (sym whole)) (drop_all bytes rest _ (sym whole))),
      record { sized = s1; room = omega (arith, w, w0, w1, even, most, small) },
      ground arith,
    )

module _ {V : Type 0} (floats : Floats V) (indet : Ptr) where
  -- The handling of a list of messages one after the other, until the application is kicked.
  abbrev pub handle_all : List Message → App V → Handled V
  handle_all [] app = goes_on app
  handle_all (m ∷ ms) app = elim (handle floats indet m app) [
    | bad_access ↦ bad_access
    | kicked app' ↦ kicked app'
    | goes_on app' ↦ handle_all ms app'
  ]

  -- The end of the thread when the hub has sent nothing more and its socket is at its end: the
  -- connection counts as lost.
  abbrev pub finished : Handled V → Outcome V
  finished bad_access = fault
  finished (kicked app) = exited app
  finished (goes_on app) = exited (record app { hub_shutdown = true })

  six_errors :
      (alloc : ℕ → Alloc) (rounds : ℕ) (app : App V)
      → receive_thread floats indet alloc false (suc (suc (suc (suc (suc (suc rounds)))))) 0 app []
        ≡ exited (record app { hub_shutdown = true })
  unfolding receive_thread receive_packed
  six_errors alloc rounds app = refl

  receive_thread-errors :
      (alloc : ℕ → Alloc) (rounds : ℕ) (app : App V)
      → 5 < rounds
      → receive_thread floats indet alloc false rounds 0 app []
        ≡ exited (record app { hub_shutdown = true })
  receive_thread-errors alloc (suc (suc (suc (suc (suc (suc rounds)))))) app lt =
      six_errors alloc rounds app
  receive_thread-errors alloc zero app lt = ground arith
  receive_thread-errors alloc (suc zero) app lt = ground arith
  receive_thread-errors alloc (suc (suc zero)) app lt = ground arith
  receive_thread-errors alloc (suc (suc (suc zero))) app lt = ground arith
  receive_thread-errors alloc (suc (suc (suc (suc zero)))) app lt = ground arith
  receive_thread-errors alloc (suc (suc (suc (suc (suc zero))))) app lt = ground arith

  -- A round in which a message is there.
  thread_step :
      (alloc : ℕ → Alloc) (closing : Bool) (rounds errors : ℕ) (app : App V) (a : Alloc)
      (m : Message) (rest : Bytes)
      → Fits m
      → Small m
      → Fresh (alloc rounds)
      → receive_thread floats indet alloc closing
          (suc rounds)
          errors
          app
          ((pack_message a m).0.bytes ++ rest)
        ≡ (elim (handle floats indet m app) [
          | bad_access ↦ fault
          | kicked app' ↦ exited app'
          | goes_on app' ↦ receive_thread floats indet alloc closing rounds 0 app' rest
        ])
  unfolding receive_thread
  thread_step alloc closing rounds errors app a m rest fits small fresh =
      let (new', packed, room, whole) =
        receive_packed-pack a m rest fits (alloc rounds) fresh small in
      let (u, unpacked, seen, stays) = unpack-pack a new' m fits room in
      rw (packed, receive_thread, whole, stays, unpacked, seen) refl

  after_message :
      (alloc : ℕ → Alloc) (a : Alloc) (ms : List Message) (rounds : ℕ) (r : Handled V)
      → ((app : App V)
          → receive_thread floats indet alloc false rounds 0 app (wire a ms)
            ≡ finished (handle_all ms app))
      → (elim r [
        | bad_access ↦ fault
        | kicked app' ↦ exited app'
        | goes_on app' ↦ receive_thread floats indet alloc false rounds 0 app' (wire a ms)
      ])
        ≡ finished (elim r [
          | bad_access ↦ bad_access
          | kicked app' ↦ kicked app'
          | goes_on app' ↦ handle_all ms app'
        ])
  after_message alloc a ms rounds bad_access again = refl
  after_message alloc a ms rounds (kicked app) again = refl
  after_message alloc a ms rounds (goes_on app) again = again app

  -- The receiving thread of an application that is not closing, while the hub sends messages and
  -- then closes the connection, handles the messages one after the other in their order; if it is
  -- not kicked before, it then counts the connection as lost and ends the program; if it accesses
  -- memory that it must not for one of them, so it does in both. The rounds are more than the
  -- messages by at least six, no component holds a NUL, the fields fit 16 bits, and each packed
  -- message and its parts fit one chunk together.
  pub receive_thread-handle_all :
      (alloc : ℕ → Alloc) (a : Alloc) (ms : List Message) (rounds : ℕ) (app : App V)
      → ((n : ℕ) → Fresh (alloc n))
      → AllFit ms
      → length ms + 5 < rounds
      → receive_thread floats indet alloc false rounds 0 app (wire a ms)
        ≡ finished (handle_all ms app)
  unfolding wire
  receive_thread-handle_all alloc a [] rounds app fresh fits lt =
      receive_thread-errors alloc rounds app (omega arith)
  receive_thread-handle_all alloc a (m ∷ ms) zero app fresh fits lt = ground arith
  receive_thread-handle_all alloc a (m ∷ ms) (suc rounds) app fresh ((fit, small), fits) lt =
      thread_step alloc false rounds 0 app a m (wire a ms) fit small (fresh rounds)
      ∙ after_message alloc a ms rounds (handle floats indet m app)
          (λ app'. receive_thread-handle_all alloc a ms rounds app' fresh fits (omega arith))
