-- ===== src/Hub/Net/Receive.antt =====
-- The framing of messages on a stream: how the stream is cut into chunks does not matter.
pub mod Space
use libseawolf.Hub.Net.Receive.Space.{Fresh, Small, most_data, header_stays}
use libseawolf.Base.{
  ℕ, zero, suc, ◌+◌, ◌-◌, ◌*◌, ◌^◌, ◌≤◌, ◌<◌, ◌≡◌, ◌≢◌, refl, sym, ap, ap₂, ◌∙◌, min, false, true,
  ◌++◌, arith, length, length-append, length-drop, take-drop_more, drop-drop, take, drop, take_all,
  drop_all, get_or-take, ltb, ◌==◌, Bool-cases, inl, inr,
}
use libseawolf.MemPool.{Alloc, reserve, moves, default_allocation, round_up, round_up}
use libseawolf.MemPool.Reserve.{round_up_even, reserve-stays}
use libseawolf.Comm.Message.{
  Bytes, Message, prefix_len, write16, read16, total_data_length, copy_components, pack_message,
  packed_with_alloc, unpack_message,
}
use libseawolf.Comm.Wire.{Fits, HasRoom, unpack-pack, read16-write16}
use libseawolf.Comm.Wire.Strings.{length-copy_components}
use libseawolf.Hub.State.{Hub}
use libseawolf.Hub.Client.{mark_closed}
use libseawolf.Hub.Net.{
  got, failed, recv_all, received, lost, unpack_received, receive_message, stale,
}

-- Every call of `recv` is ready to give something.
abbrev pub Ready : (ℕ → ℕ) → Type 0
Ready chunk = (k : ℕ) → 0 < chunk k

-- With as many rounds as bytes wanted, and enough bytes on the stream, the loop reads these bytes.
recv_all-take :
    (chunk : ℕ → ℕ) (rounds want k : ℕ) (stream : Bytes)
    → Ready chunk
    → want ≤ rounds
    → want ≤ length stream
    → (k' : ℕ) × (recv_all chunk rounds want k stream
        ≡ got (take want stream) k' (drop want stream))
unfolding recv_all
recv_all-take chunk zero want k stream ready h h' = let e : want ≡ 0 = omega arith in (k, rw e refl)
recv_all-take chunk (suc rounds) want k stream ready h h' = elim (Bool-cases (want == 0)) [
  | inl t ↦ let e : want ≡ 0 = ground arith in (k, rw e refl)
  | inr f ↦
      let n = min (chunk k) (min want (length stream)) in
      let some_want : want ≢ 0 = ground arith in
      let positive : n ≢ 0 = omega (arith, ready k) in
      let nonzero : n == 0 ≡ false = ground arith in
      let (k', rest) =
        recv_all-take chunk rounds (want - n) (k + 1) (drop n stream) ready (omega arith)
          (omega (arith, length-drop n stream)) in
      let whole : n + (want - n) ≡ want = omega arith in
      (
        k',
        rw (f, nonzero, rest)
            (ap₂ (λ a b. got a k' b)
              (take-drop_more n (want - n) stream ∙ ap (λ j. take j stream) whole)
              (drop-drop n (want - n) stream ∙ ap (λ j. drop j stream) whole)),
      )
]

-- With as many rounds as bytes wanted, and not enough bytes on the stream, the loop fails.
recv_all-short :
    (chunk : ℕ → ℕ) (rounds want k : ℕ) (stream : Bytes)
    → want ≤ rounds
    → length stream < want
    → (k' : ℕ) × (recv_all chunk rounds want k stream ≡ failed k')
unfolding recv_all
recv_all-short chunk zero want k stream h h' = absurd (omega arith)
recv_all-short chunk (suc rounds) want k stream h h' =
    let n = min (chunk k) (min want (length stream)) in
    let some_want : want == 0 ≡ false = ground arith in
    elim (Bool-cases (n == 0)) [
      | inl t ↦ (k + 1, rw (some_want, t) refl)
      | inr f ↦
          let positive : n ≢ 0 = ground arith in
          let (k', rest) =
            recv_all-short chunk rounds (want - n) (k + 1) (drop n stream) (omega arith)
              (omega (arith, length-drop n stream)) in
          (k', rw (some_want, f, rest) refl)
    ]

few : (total : ℕ) → total ≤ most_data → ltb most_data total ≡ false
few total le = ground arith

header_read : (stream : Bytes) → read16 (take prefix_len stream) 0 ≡ read16 stream 0
header_read stream =
    ap₂ (λ a b. a * 256 + b) (get_or-take stream prefix_len 0 0 (omega arith))
      (get_or-take stream prefix_len 1 0 (omega arith))

module _ {V : Type 0} (chunk : ℕ → ℕ) where
  -- Two reads that succeed: the header, and as many bytes as it says.
  receive_lem :
      (alloc : Alloc) (c : ℕ) (h : Hub V) (k k' k'' : ℕ) (stream header rest payload rest' : Bytes)
      → recv_all chunk prefix_len prefix_len k stream ≡ got header k' rest
      → recv_all chunk (read16 header 0) (read16 header 0) k' rest ≡ got payload k'' rest'
      → moves (packed_with_alloc alloc).1 prefix_len ≡ false
      → moves (reserve (packed_with_alloc alloc).1 prefix_len).1 (read16 header 0) ≡ false
      → receive_message chunk alloc c h k stream
        ≡ unpack_received chunk
            (reserve (reserve (packed_with_alloc alloc).1 prefix_len).1 (read16 header 0)).1
            (header ++ payload)
            k''
            rest'
  unfolding receive_message
  receive_lem alloc c h k k' k'' stream header rest payload rest' e e' stay stay' =
      rw (stay, e, receive_message, stay', e') refl

  unpacked_lem :
      (alloc alloc' : Alloc) (m : Message) (k : ℕ) (rest : Bytes)
      → Fits m
      → HasRoom alloc m.count (total_data_length m.components)
      → (alloc'' : Alloc) × (unpack_received {V = V} chunk alloc
            (pack_message alloc' m).0.bytes
            k
            rest
          ≡ received m alloc'' k rest)
  unfolding unpack_received
  unpacked_lem alloc alloc' m k rest fits room =
      let (u, unpacked, seen, stays) = unpack-pack alloc' alloc m fits room in
      (
        (unpack_message alloc (pack_message alloc' m).0.bytes).1,
        rw (stays, unpacked, unpack_received, seen) refl,
      )

  -- A packed message that arrives in front of a stream, in whatever chunks, is received as the
  -- message, and the rest of the stream is left, if no component holds a NUL, the fields fit 16
  -- bits, and the packed message and its parts fit one chunk together.
  pub receive-pack :
      (alloc alloc' : Alloc) (c : ℕ) (h : Hub V) (m : Message) (k : ℕ) (rest : Bytes)
      → Ready chunk
      → Fresh alloc
      → Fits m
      → Small m
      → (alloc'' : Alloc) × (k' : ℕ) × (receive_message chunk alloc c h k
            ((pack_message alloc' m).0.bytes ++ rest)
          ≡ received m alloc'' k' rest)
  unfolding pack_message
  receive-pack alloc alloc' c h m k rest ready fresh fits small =
      let total = total_data_length m.components in
      let header = write16 total ++ (write16 m.request_id ++ write16 m.count) in
      let body = copy_components m.components in
      let size = length-copy_components m.components in
      let says : read16 header 0 ≡ total = read16-write16 total (omega (arith, fits.short)) in
      let (k', first) =
        recv_all-take chunk prefix_len prefix_len k ((pack_message alloc' m).0.bytes ++ rest) ready
          (omega arith) (omega arith) in
      let (k'', second) =
        recv_all-take chunk total total k' (body ++ rest) ready (omega arith)
          (omega (arith, length-append body rest)) in
      let payload : take total (body ++ rest) ≡ body = take_all body rest total (sym size) in
      let left : drop total (body ++ rest) ≡ rest = drop_all body rest total (sym size) in
      let a1 = (reserve (packed_with_alloc alloc).1 prefix_len).1 in
      let a = (reserve a1 (read16 header 0)).1 in
      let (stay, moved, sized, used) =
        header_stays alloc (read16 header 0) fresh (omega (arith, says, small)) in
      let stay' : moves a1 (read16 header 0) ≡ false = moved ∙ ground (arith, says, small) in
      let room : HasRoom a m.count total = record {
        sized = sized;
        room = omega (arith, used, says, small);
      } in
      let (alloc'', unpacked) = unpacked_lem a alloc' m k'' rest fits room in
      (
        alloc'',
        k'',
        receive_lem alloc c h k k' k'' ((pack_message alloc' m).0.bytes ++ rest) header
              (body ++ rest) body rest first
              (ap (λ t. recv_all chunk t t k' (body ++ rest)) says
                ∙ second
                ∙ ap₂ (λ p q. got p k'' q) payload left)
              stay stay'
            ∙ unpacked,
      )

  lost_header :
      (alloc : Alloc) (c : ℕ) (h : Hub V) (k : ℕ) (stream : Bytes)
      → Fresh alloc
      → length stream < prefix_len
      → (k' : ℕ) × (receive_message chunk alloc c h k stream ≡ lost (mark_closed c h) k')
  unfolding receive_message
  lost_header alloc c h k stream fresh short =
      let (stay, _, _, _) = header_stays alloc 0 fresh (omega arith) in
      let (k', failing) = recv_all-short chunk prefix_len prefix_len k stream (omega arith) short in
      (k', rw (stay, failing, receive_message) refl)

  -- A stream that ends before the message that it began is complete, in whatever chunks, is
  -- answered by NULL, and the client is marked closed, if its header, where there is one, announces
  -- at most 480 bytes of data.
  pub receive_message-lost :
      (alloc : Alloc) (c : ℕ) (h : Hub V) (k : ℕ) (stream : Bytes)
      → Ready chunk
      → Fresh alloc
      → read16 stream 0 ≤ most_data
      → length stream < prefix_len + read16 stream 0
      → (k' : ℕ) × (receive_message chunk alloc c h k stream ≡ lost (mark_closed c h) k')
  unfolding receive_message
  receive_message-lost alloc c h k stream ready fresh fit short =
      elim (Bool-cases (ltb (length stream) prefix_len)) [
        | inl t ↦ lost_header alloc c h k stream fresh (ground arith)
        | inr f ↦
            let (k', first) =
              recv_all-take chunk prefix_len prefix_len k stream ready (omega arith)
                (ground arith) in
            let same = header_read stream in
            let total = read16 (take prefix_len stream) 0 in
            let (k'', failing) =
              recv_all-short chunk total total k' (drop prefix_len stream) (omega arith)
                (ground (arith, length-drop prefix_len stream, same)) in
            let (stay, moved, _, _) = header_stays alloc total fresh (omega (arith, same, fit)) in
            let stay' = moved ∙ few total (omega (arith, same, fit)) in
            (k'', rw (stay, first, receive_message, stay', failing) refl)
      ]

  -- A header that announces more than 480 bytes of data makes the allocation move away from the
  -- packed message, and the code goes on with its old place, whatever follows.
  pub receive_message-stale :
      (alloc : Alloc) (c : ℕ) (h : Hub V) (k : ℕ) (stream : Bytes)
      → Ready chunk
      → Fresh alloc
      → prefix_len ≤ length stream
      → most_data < read16 stream 0
      → read16 stream 0 < 2 ^ 16
      → receive_message chunk alloc c h k stream ≡ stale
  unfolding receive_message
  receive_message-stale alloc c h k stream ready fresh header long short =
      let (k', first) =
        recv_all-take chunk prefix_len prefix_len k stream ready (omega arith) header in
      let same = header_read stream in
      let total = read16 (take prefix_len stream) 0 in
      let (stay, moved, _, _) = header_stays alloc total fresh (omega (arith, same)) in
      let gone : moves (reserve (packed_with_alloc alloc).1 prefix_len).1 total ≡ true =
        moved ∙ ground (arith, same) in
      rw (stay, first, receive_message, gone) refl
