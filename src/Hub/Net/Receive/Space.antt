-- ===== src/Hub/Net/Receive/Space.antt =====
-- The space that `Hub_Net_receiveMessage` takes from the allocation of a message.
use libseawolf.Base.{ℕ, ◌+◌, ◌*◌, ◌^◌, ◌≤◌, ◌<◌, ◌≡◌, refl, false, arith, ltb}
use libseawolf.MemPool.{Alloc, reserve, moves, default_allocation, round_up, round_up}
use libseawolf.MemPool.Reserve.{round_up_even, reserve-stays}
use libseawolf.Comm.Message.{Message, prefix_len, total_data_length, packed_with_alloc}

-- An allocation as `MemPool_alloc` hands it out.
abbrev pub Fresh : Alloc → Type 0
Fresh alloc = (alloc.write_index ≡ 0) × (alloc.size ≡ default_allocation)

-- A message whose packed form and whose parts fit one chunk together.
abbrev pub Small : Message → Type 0
Small m = 8 * m.count + 2 * total_data_length m.components < 448

-- The most data that fits a chunk with the packed message and its header.
abbrev pub most_data : ℕ
most_data = 480

-- The space for the packed message and its header does not move a fresh allocation, and whether the
-- space for the data does depends on its length only.
moves_lem :
    (a : Alloc) (total : ℕ)
    → a.write_index ≡ 30
    → a.size ≡ default_allocation
    → total < 2 ^ 16
    → moves a total ≡ ltb most_data total
unfolding moves round_up
moves_lem a total w size short = ground arith

reserve_lem :
    (a : Alloc) (total : ℕ)
    → a.write_index ≡ 30
    → a.size ≡ default_allocation
    → total < 2 ^ 16
    → ((reserve a total).1.size ≡ default_allocation)
      × ((reserve a total).1.write_index ≤ 31 + total)
unfolding reserve round_up
reserve_lem a total w size short = ground arith

pub header_stays :
    (alloc : Alloc) (total : ℕ)
    → Fresh alloc
    → total < 2 ^ 16
    → let a0 = (packed_with_alloc alloc).1 in
      let a1 = (reserve a0 prefix_len).1 in
      (moves a0 prefix_len ≡ false)
      × (moves a1 total ≡ ltb most_data total)
      × ((reserve a1 total).1.size ≡ default_allocation)
      × ((reserve a1 total).1.write_index ≤ 31 + total)
unfolding packed_with_alloc
header_stays alloc total (w, size) short =
    let (m0, s0, w0) = reserve-stays alloc 24 size (omega (arith, w, round_up_even 24 refl)) in
    let a0 = (reserve alloc 24).1 in
    let (m1, s1, w1) =
      reserve-stays a0 6 s0 (omega (arith, w, w0, round_up_even 24 refl, round_up_even 6 refl)) in
    let a1 = (reserve a0 6).1 in
    let at : a1.write_index ≡ 30 =
      omega (arith, w, w0, w1, round_up_even 24 refl, round_up_even 6 refl) in
    let (sized, used) = reserve_lem a1 total at s1 short in
    (m1, moves_lem a1 total at s1 short, sized, used)
