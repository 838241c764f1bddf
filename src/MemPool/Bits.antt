-- ===== src/MemPool/Bits.antt =====
-- The bit map of a block of src/mem_pool.c: which chunk an allocation takes and a release gives
-- back. A map has eight bits, so the facts about single maps are checked on all of them.
use libseawolf.Base.{
  ℕ, zero, suc, ◌-◌, ◌*◌, ◌/◌, ◌^◌, ◌<◌, ◌≡◌, ◌≢◌, refl, Bool, true, false, not, ◌&&◌, ◌||◌, arith,
  bit_and, bit_or, ltb, ◌==◌, Bool-cases, inl, inr,
}
use libseawolf.MemPool.{
  Block, chunks_per_block, full_map, find_chunk, take_chunk, release_chunk, default_allocation,
}

-- Whether chunk `i` is marked as allocated.
abbrev pub used : ℕ → ℕ → Bool
used map i = not (bit_and map (2 ^ i) == 0)

all_below : ℕ → (ℕ → Bool) → Bool
all_below zero p = true
all_below (suc n) p = p n && all_below n p

all_below_lem : (n : ℕ) (p : ℕ → Bool) (x : ℕ) → all_below n p ≡ true → x < n → p x ≡ true
unfolding all_below
all_below_lem zero p x h lt = absurd (omega arith)
all_below_lem (suc n) p x h lt = ground (arith, all_below_lem n p x)

bool_eq : Bool → Bool → Bool
bool_eq true b = b
bool_eq false b = not b

bool_eq_lem : (a b : Bool) → bool_eq a b ≡ true → a ≡ b
unfolding bool_eq
bool_eq_lem true b h = cc
bool_eq_lem false true h = cc
bool_eq_lem false false h = refl

-- The chunk that the search finds in a map.
abbrev pub found : ℕ → ℕ
found map = (find_chunk map chunks_per_block 0 0).0

abbrev mask : ℕ → ℕ
mask map = (find_chunk map chunks_per_block 0 0).1

-- A map that is not full has a free chunk; the search finds it, and its mask is its bit.
search_test : ℕ → Bool
search_test map =
    map == full_map
    || (ltb (found map) chunks_per_block
        && (not (used map (found map)) && ltb (bit_or map (mask map)) 256))

search_table : all_below 256 search_test ≡ true
unfolding all_below search_test find_chunk
search_table = refl

-- Taking a chunk sets its bit and leaves the others.
take_test : ℕ → ℕ → Bool
take_test i map =
    map == full_map || bool_eq (used (bit_or map (mask map)) i) (i == found map || used map i)

take_table : all_below 8 (λ i. all_below 256 (take_test i)) ≡ true
unfolding all_below take_test find_chunk bool_eq
take_table = refl

-- Releasing a chunk clears its bit and leaves the others.
release_test : ℕ → ℕ → ℕ → Bool
release_test c i map =
    let map' = bit_and map (2 ^ 32 - 1 - 2 ^ c) in
    ltb map' full_map && (bool_eq (used map' i) (not (i == c) && used map i) && not (used map' c))

release_table : all_below 8 (λ c. all_below 8 (λ i. all_below 256 (release_test c i))) ≡ true
unfolding all_below release_test bool_eq
release_table = refl

-- A block's map has eight bits, and its flag says whether all of them are set.
pub record IsValid (block : Block) : Type 0 where
  pub narrow : block.alloc_map < 256
  pub flagged : block.full ≡ (block.alloc_map == full_map)

search_lem :
    (map : ℕ)
    → map < 256
    → map ≢ full_map
    → (found map < chunks_per_block)
      × (used map (found map) ≡ false)
      × (bit_or map (mask map) < 256)
search_lem map h ne =
    let t = all_below_lem 256 search_test map search_table h in unfold search_test in ground arith

take_lem :
    (i map : ℕ)
    → i < 8
    → map < 256
    → map ≢ full_map
    → used (bit_or map (mask map)) i ≡ (i == found map || used map i)
take_lem i map hi h ne =
    let t =
      all_below_lem 256 (take_test i) map
        (all_below_lem 8 (λ i. all_below 256 (take_test i)) i take_table hi) h in
    bool_eq_lem (used (bit_or map (mask map)) i) (i == found map || used map i)
      (unfold take_test in ground arith)

-- `MemPool_alloc` takes a chunk of a block that is not full: the chunk is one of the eight, it was
-- free, it is marked afterwards, and no other chunk's mark changes. The block's flag again says
-- whether the block is full.
pub take_chunk-used :
    (block : Block)
    → IsValid block
    → block.full ≡ false
    → let (i, block') = take_chunk block in
      (i < chunks_per_block)
      × (used block.alloc_map i ≡ false)
      × ((j : ℕ)
          → j < chunks_per_block
          → used block'.alloc_map j ≡ (j == i || used block.alloc_map j))
      × IsValid block'
      × (block'.index ≡ block.index)
unfolding take_chunk
take_chunk-used block valid open_ =
    let map = block.alloc_map in
    let ne : map ≢ full_map = ground (arith, valid.flagged) in
    let s = search_lem map valid.narrow ne in
    elim (Bool-cases (bit_or map (mask map) == full_map)) [
      | inl t ↦ rw t (
        s.0,
        s.1,
        λ j h. take_lem j map h valid.narrow ne,
        record { narrow = s.2; flagged = ground arith },
        refl,
      )
      | inr f ↦ rw f (
        s.0,
        s.1,
        λ j h. take_lem j map h valid.narrow ne,
        record { narrow = s.2; flagged = ground arith },
        refl,
      )
    ]

release_lem :
    (c i map : ℕ)
    → c < 8
    → i < 8
    → map < 256
    → let map' = bit_and map (2 ^ 32 - 1 - 2 ^ c) in
      (map' < full_map) × (used map' i ≡ (not (i == c) && used map i)) × (used map' c ≡ false)
release_lem c i map hc hi h =
    let map' = bit_and map (2 ^ 32 - 1 - 2 ^ c) in
    let t =
      all_below_lem 256 (release_test c i) map
        (all_below_lem 8 (λ i. all_below 256 (release_test c i)) i
          (all_below_lem 8 (λ c. all_below 8 (λ i. all_below 256 (release_test c i))) c
            release_table hc)
          hi)
        h in
    (
      unfold release_test in ground arith,
      bool_eq_lem (used map' i) (not (i == c) && used map i) (unfold release_test in ground arith),
      unfold release_test in ground arith,
    )

-- `MemPool_releaseChunk` clears the mark of the chunk at the given offset and no other, and the
-- block has room again.
pub release_chunk-used :
    (block : Block) (c : ℕ)
    → IsValid block
    → c < chunks_per_block
    → let block' = release_chunk block (c * default_allocation) in
      (block'.full ≡ false)
      × (used block'.alloc_map c ≡ false)
      × ((j : ℕ)
          → j < chunks_per_block
          → used block'.alloc_map j ≡ (not (j == c) && used block.alloc_map j))
      × IsValid block'
unfolding release_chunk
release_chunk-used block c valid hc =
    let e : c * default_allocation / default_allocation ≡ c = omega arith in
    let map = block.alloc_map in
    let r = release_lem c c map hc hc valid.narrow in
    rw e (
      refl,
      r.2,
      λ j h. (release_lem c j map hc h valid.narrow).1,
      record { narrow = omega (arith, r.0); flagged = ground (arith, r.0) },
    )
