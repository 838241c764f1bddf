-- ===== src/Comm/Wire.antt =====
-- Packing and unpacking of messages undo one another.
pub mod Strings
use libseawolf.Comm.Wire.Strings.{
  NoNul, AllNoNul, length-copy_components, starts, point_from-starts, strings_at-starts,
}
use libseawolf.Base.{
  ℕ, zero, suc, ◌+◌, ◌-◌, ◌*◌, ◌/◌, ◌%◌, ◌^◌, ◌≤◌, ◌<◌, ◌≡◌, ◌≢◌, refl, sym, ap, subst, ◌∙◌, none,
  some, List, [], ◌∷◌, ◌++◌, append_assoc, append-nil, arith, length, length-append, take, drop,
  take_all, drop_all, ◌==◌, false, Bool-cases, Option-cases, inl, inr,
}
use libseawolf.MemPool.{Alloc, default_allocation, reserve}
use libseawolf.MemPool.Reserve.{round_up_even, round_up_lem, reserve-stays}
use libseawolf.Comm.Message.{
  Bytes, Message, Unpacked, prefix_len, write16, read16, new_with_alloc, total_data_length,
  copy_components, pack_message, c_string, point_from, unpack_message, strings_at, view,
}

-- A message that the wire format can carry: as many components as its count says, none with a
-- NUL, and a total length and fields that fit 16 bits.
pub record Fits (m : Message) : Type 0 where
  pub counted : m.count ≡ length m.components
  pub strings : AllNoNul m.components
  pub short : total_data_length m.components + prefix_len < 2 ^ 16
  pub id_small : m.request_id < 2 ^ 16
  pub count_small : m.count < 2 ^ 16

-- The packed form of such a message has the length that it says, with as many bytes written.
pub pack-length :
    (alloc : Alloc) (m : Message)
    → Fits m
    → let p = (pack_message alloc m).0 in
      (p.size ≡ total_data_length m.components + prefix_len) × (length p.bytes ≡ p.size)
unfolding pack_message
pack-length alloc m fits = let l = length-copy_components m.components in omega arith

pub read16-write16 : (n : ℕ) → n < 2 ^ 16 → n / 256 % 256 * 256 + n % 256 ≡ n
read16-write16 n h = omega arith

unpack_header :
    (alloc : Alloc) (total id n : ℕ) (c : Bytes) (cs : List Bytes)
    → total ≡ total_data_length (c ∷ cs)
    → n ≡ length (c ∷ cs)
    → total < 2 ^ 16
    → id < 2 ^ 16
    → n < 2 ^ 16
    → AllNoNul (c ∷ cs)
    → (unpack_message alloc
        (write16 total ++ (write16 id ++ (write16 n ++ copy_components (c ∷ cs))))).0
      ≡ some (record {
        request_id = id;
        count = n;
        storage = copy_components (c ∷ cs);
        offsets = starts 0 (c ∷ cs);
      })
unfolding unpack_message starts
unpack_header alloc total id n c cs et en ht hi hn strings =
    let all = copy_components (c ∷ cs) in
    let len = length-copy_components (c ∷ cs) in
    let stored : take total all ≡ all =
      ap (take total) (sym (append-nil all)) ∙ take_all all [] total (omega arith) in
    let rounds : n - 1 ≡ length cs = omega arith in
    let nonzero : n == 0 ≡ false = ground arith in
    let pointed = point_from-starts c cs [] strings in
    rw
      (
        read16-write16 total ht,
        read16-write16 id hi,
        read16-write16 n hn,
        stored,
        rounds,
        nonzero,
        pointed,
      )
      (rw (read16-write16 total ht, read16-write16 id hi, read16-write16 n hn, stored))

unpack_cases :
    (alloc alloc' : Alloc) (m : Message) (cs : List Bytes)
    → m.components ≡ cs
    → Fits m
    → (u : Unpacked) × ((unpack_message alloc' (pack_message alloc m).0.bytes).0 ≡ some u)
      × (view u ≡ some m)
unfolding pack_message view
unpack_cases alloc alloc' m [] e fits =
    let n : m.count ≡ 0 = fits.counted ∙ ap length e in
    (
      record { request_id = m.request_id; count = 0; storage = []; offsets = [] },
      rw (e, n) (unfold unpack_message in rw (read16-write16 m.request_id fits.id_small)),
      unfold strings_at in ground arith,
    )
unpack_cases alloc alloc' m (c ∷ cs) e fits = (
  record {
    request_id = m.request_id;
    count = m.count;
    storage = copy_components (c ∷ cs);
    offsets = starts 0 (c ∷ cs);
  },
  ap
        (λ l.
          (unpack_message alloc' (
            write16 (total_data_length l)
            ++ (write16 m.request_id ++ (write16 m.count ++ copy_components l)))).0)
        e
      ∙ unpack_header alloc' (total_data_length (c ∷ cs)) m.request_id m.count c cs refl
          (fits.counted ∙ ap length e) (omega (arith, fits.short, ap total_data_length e))
          fits.id_small fits.count_small (subst AllNoNul e fits.strings),
  rw (strings_at-starts (c ∷ cs) [] (subst AllNoNul e fits.strings), view)
      (ap (λ (l : List Bytes). some (record m { components = l })) (sym e)),
)

-- Whether the unpacking of a message with so many components and so many bytes of data stays inside
-- the chunk of an allocation.
pub record HasRoom (a : Alloc) (count data_length : ℕ) : Type 0 where
  pub sized : a.size ≡ default_allocation
  pub room : a.write_index + 32 + 8 * count + data_length + 1 < default_allocation

words_even : (n : ℕ) → 8 * n % 2 ≡ 0
words_even n = omega arith

unpack_stays :
    (alloc : Alloc) (bytes : Bytes)
    → HasRoom alloc (read16 bytes 4) (read16 bytes 0)
    → (unpack_message alloc bytes).2 ≡ false
unfolding unpack_message new_with_alloc
unpack_stays alloc bytes fit =
    let count = read16 bytes 4 in
    let total = read16 bytes 0 in
    let even = round_up_even 32 refl in
    let words = round_up_even (8 * count) (words_even count) in
    let (_, most, _) = round_up_lem total (omega (arith, fit.room)) in
    let (m1, s1, w1) = reserve-stays alloc 32 fit.sized (omega (arith, fit.room, even)) in
    let a1 = (reserve alloc 32).1 in
    let (m2, s2, w2) = reserve-stays a1 (8 * count) s1 (omega (arith, fit.room, even, words, w1)) in
    let a2 = (reserve a1 (8 * count)).1 in
    let (m3, _, _) =
      reserve-stays a2 total s2 (omega (arith, fit.room, even, words, most, w1, w2)) in
    elim (Bool-cases (count == 0)) [
      | inl t ↦ rw (t, m1) refl
      | inr f ↦
          let storage = take total (drop prefix_len bytes) in
          elim (Option-cases (point_from storage (count - 1) 0)) [
            | inl e ↦ rw (f, e, m1, m2, m3) refl
            | inr (rest, e) ↦ rw (f, e, m1, m2, m3) refl
          ]
    ]

packed_header :
    (alloc : Alloc) (m : Message)
    → Fits m
    → (read16 (pack_message alloc m).0.bytes 0 ≡ total_data_length m.components)
      × (read16 (pack_message alloc m).0.bytes 4 ≡ m.count)
unfolding pack_message
packed_header alloc m fits = (
  read16-write16 (total_data_length m.components) (omega (arith, fits.short)),
  read16-write16 m.count fits.count_small,
)

-- Unpacking the bytes of a packed message gives back the message, if no component holds a NUL, the
-- fields fit 16 bits, and the allocation that the unpacking takes its space from has room for the
-- message in its chunk; then no stale pointer is used.
pub unpack-pack :
    (alloc alloc' : Alloc) (m : Message)
    → Fits m
    → HasRoom alloc' m.count (total_data_length m.components)
    → (u : Unpacked) × ((unpack_message alloc' (pack_message alloc m).0.bytes).0 ≡ some u)
      × (view u ≡ some m)
      × ((unpack_message alloc' (pack_message alloc m).0.bytes).2 ≡ false)
unpack-pack alloc alloc' m fits room =
    let (u, unpacked, seen) = unpack_cases alloc alloc' m m.components refl fits in
    let (total, count) = packed_header alloc m fits in
    let room' =
      subst (λ n. HasRoom alloc' n (read16 (pack_message alloc m).0.bytes 0)) (sym count)
        (subst (λ n. HasRoom alloc' m.count n) (sym total) room) in
    (u, unpacked, seen, unpack_stays alloc' (pack_message alloc m).0.bytes room')

-- A message too long for the 16 bit length is packed all the same: space is reserved, and bytes are
-- sent, for fewer bytes than are written.
pub pack-overflow :
    (alloc : Alloc) (m : Message)
    → 2 ^ 16 ≤ total_data_length m.components + prefix_len
    → let p = (pack_message alloc m).0 in p.size < length p.bytes
unfolding pack_message
pack-overflow alloc m long = let l = length-copy_components m.components in omega arith

c_string_unterminated : (mem : Bytes) → NoNul mem → c_string mem ≡ none
unfolding c_string
c_string_unterminated [] h = refl
c_string_unterminated (zero ∷ mem) h = absurd (h.0 refl)
c_string_unterminated (suc b ∷ mem) h = rw (c_string_unterminated mem h.1)

-- A received message of two or more components whose data holds no NUL makes the unpacking read
-- past the end of its copy of the data: nothing checks the count against the data.
pub unpack-unterminated :
    (alloc : Alloc) (id n : ℕ) (payload : Bytes)
    → 1 < n
    → n < 2 ^ 16
    → length payload < 2 ^ 16
    → NoNul payload
    → (unpack_message alloc (write16 (length payload) ++ (write16 id ++ (write16 n ++ payload)))).0
      ≡ none
unpack-unterminated alloc id n payload hn hn' hl nonul =
    let stored : take (length payload) payload ≡ payload =
      ap (take (length payload)) (sym (append-nil payload))
      ∙ take_all payload [] (length payload) refl in
    let nonzero : n == 0 ≡ false = ground arith in
    let fails : point_from payload (n - 1) 0 ≡ none =
      ap (λ r. point_from payload r 0) (more (n - 1) (omega arith)) ∙ point_fails (n - 1 - 1) in
    unfold unpack_message in
    rw (read16-write16 (length payload) hl, read16-write16 n hn', stored, nonzero, fails)
  where
    more : (k : ℕ) → 0 < k → k ≡ suc (k - 1)
    more k h = omega arith

    point_fails : (r : ℕ) → point_from payload (suc r) 0 ≡ none
    point_fails r = unfold point_from in rw (c_string_unterminated payload nonul, point_from)
