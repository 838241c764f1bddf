-- ===== src/MemPool/Tests.antt =====
-- The memory pool on concrete values.
use libseawolf.Base.{
  ℕ, ◌+◌, ◌*◌, ◌<◌, ◌≤◌, ◌≡◌, ◌↔◌, refl, true, false, not, ◌&&◌, ◌||◌, [], ◌∷◌, arith, ◌==◌, get_or,
}
use libseawolf.MemPool.{
  Alloc, Block, Pool, init, in_block, take_chunk, release_chunk, alloc, reserve, chunks_per_block,
  default_allocation, no_block,
}
use libseawolf.MemPool.Bits
use libseawolf.MemPool.Bits.{used, take_chunk-used, release_chunk-used}
use libseawolf.MemPool.Reserve
use libseawolf.MemPool.Reserve.{reserve-inside, reserve-wraps}
use libseawolf.MemPool.Chunks.{PoolValid, Allocated, alloc-Allocated}

-- Chunks 0 and 2 are taken.
abbrev some_taken : Block
some_taken = record { index = 0; alloc_map = 5; full = false }

some_taken-IsValid : Bits.IsValid some_taken
some_taken-IsValid = record { narrow = omega arith; flagged = refl }

take_chunk-used_example :
    let (i, block') = take_chunk some_taken in
    (i < chunks_per_block)
    × (used 5 i ≡ false)
    × ((j : ℕ) → j < chunks_per_block → used block'.alloc_map j ≡ (j == i || used 5 j))
    × Bits.IsValid block'
    × (block'.index ≡ 0)
take_chunk-used_example = take_chunk-used some_taken some_taken-IsValid refl

release_chunk-used_example :
    let block' = release_chunk some_taken (2 * default_allocation) in
    (block'.full ≡ false)
    × (used block'.alloc_map 2 ≡ false)
    × ((j : ℕ) → j < chunks_per_block → used block'.alloc_map j ≡ (not (j == 2) && used 5 j))
    × Bits.IsValid block'
release_chunk-used_example = release_chunk-used some_taken 2 some_taken-IsValid (omega arith)

abbrev junk : Alloc
junk = record { base = in_block 0; write_index = 7; size = 7; block_index = 7; external = false }

init_valid : PoolValid init
init_valid = record { blocks_valid = λ b h. absurd (omega arith); free_valid = tt }

alloc-Allocated_example : Allocated junk init (alloc junk init).0 (alloc junk init).1
alloc-Allocated_example = alloc-Allocated junk init init_valid (omega arith)

-- Chunk 2 of the block is in use, through descriptor 0.
abbrev third : Alloc
third = record {
  base = in_block (2 * default_allocation);
  write_index = 40;
  size = 512;
  block_index = 0;
  external = false;
}

abbrev one_block : Pool
one_block = record { blocks = some_taken ∷ []; descriptor_pool = third ∷ []; free_descriptors = [] }

one_block_valid : PoolValid one_block
one_block_valid = record { blocks_valid = λ b h. only b (omega arith); free_valid = tt }
  where
    only :
        (b : ℕ)
        → b ≡ 0
        → Bits.IsValid (get_or one_block.blocks b no_block)
          × ((get_or one_block.blocks b no_block).index ≡ b)
    only b e = rw e (some_taken-IsValid, refl)

third-IsValid : Reserve.IsValid third
third-IsValid = record { sized = refl; kind = omega arith; written = omega arith }

-- A request that no longer fits into the chunk.
reserve-inside_example :
    let (p, a', released) = reserve third 500 in
    (p ≡ 40)
    × (p + 500 ≤ a'.write_index)
    × Reserve.IsValid a'
    × ((released ≡ true) ↔ ((third.external ≡ false) × (a'.external ≡ true)))
reserve-inside_example = reserve-inside third 500 third-IsValid (omega arith)
