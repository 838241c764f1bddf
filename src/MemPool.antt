-- ===== src/MemPool.antt =====
-- src/mem_pool.c and include/seawolf/mem_pool.h: blocks of 4096 bytes cut into chunks of 512, and
-- the descriptors that the callers hold. A descriptor is named by its place in the descriptor
-- pool. Addresses inside a block are offsets from its base. Calls of `malloc` succeed, as the C code
-- assumes; `indet` is what a new descriptor holds. A call runs as one step: each part of the state
-- is only touched under its lock.
pub mod Bits
pub mod Reserve
pub mod Chunks
mod Tests
use libseawolf.Base.{
  ℕ, zero, suc, ◌+◌, ◌-◌, ◌*◌, ◌/◌, ◌%◌, ◌^◌, Bool, true, false, not, Option, none, some, List, [],
  ◌∷◌, ◌++◌, bit_and, bit_or, length, get_or, get_elem?, set, replicate, ltb, ◌==◌, if◌then◌else◌,
}

abbrev pub default_allocation : ℕ
default_allocation = 512

abbrev pub block_size : ℕ
block_size = 4096

abbrev pub descriptor_pool_grow : ℕ
descriptor_pool_grow = 16

abbrev pub alloc_alignment : ℕ
alloc_alignment = 2

abbrev pub chunks_per_block : ℕ
chunks_per_block = 8

-- `FULL_MAP`
abbrev pub full_map : ℕ
full_map = 255

-- Where an allocation lies: at an offset in its block, or in a `malloc` of its own of some size.
pub data Base : Type 0 where
  in_block : ℕ → Base
  malloced : ℕ → Base

-- `MemPool_Alloc`, without its link in the free list.
pub record Alloc : Type 0 where
  pub base : Base
  pub write_index : ℕ
  pub size : ℕ
  pub block_index : ℕ
  pub external : Bool

-- `MemPool_Block`. `index` is a `uint16_t` and `alloc_map` a `uint32_t`.
pub record Block : Type 0 where
  pub index : ℕ
  pub alloc_map : ℕ
  pub full : Bool

-- What a read of a block behind the last one gives here; the C code makes no such read.
abbrev pub no_block : Block
no_block = record { index = 0; alloc_map = 0; full = false }

-- The static variables: the blocks, all descriptors, and the names of the free ones.
pub record Pool : Type 0 where
  pub blocks : List Block
  pub descriptor_pool : List Alloc
  pub free_descriptors : List ℕ

-- `MemPool_init`
abbrev pub init : Pool
init = record { blocks = []; descriptor_pool = []; free_descriptors = [] }

-- The block that `MemPool_allocNewBlock` appends.
unfoldable pub new_block : List Block → Block
new_block blocks = record { index = length blocks % 2 ^ 16; alloc_map = 0; full = false }

-- The loop of `MemPool_getBlockForAlloc` from block `i` on: the place of the first block that is
-- not full, or of the new block behind the last one.
unfoldable pub block_from : List Block → ℕ → ℕ
block_from [] i = i
block_from (b ∷ bs) i = if b.full then block_from bs (i + 1) else i

-- `MemPool_getBlockForAlloc`: the blocks, with a new one if all are full, and the chosen place.
unfoldable pub get_block_for_alloc : List Block → ℕ × List Block
get_block_for_alloc blocks =
    let i = block_from blocks 0 in
    if i == length blocks then (i, blocks ++ new_block blocks ∷ []) else (i, blocks)

-- The search of `MemPool_alloc` for a free chunk, from chunk `i` on: the chunk and its mask.
unfoldable pub find_chunk : ℕ → ℕ → ℕ → ℕ → ℕ × ℕ
find_chunk map zero i m = (i, m)
find_chunk map (suc rounds) i m =
    let rest = find_chunk map rounds (i + 1) (2 ^ i) in
    if bit_and map (2 ^ i) == 0 then (i, 2 ^ i) else rest

-- What `MemPool_alloc` does to the block: the chunk that it takes, and the block after it.
unfoldable pub take_chunk : Block → ℕ × Block
take_chunk block =
    let (i, m) = find_chunk block.alloc_map chunks_per_block 0 0 in
    let map = bit_or block.alloc_map m in
    if map == full_map
    then (i, record block { alloc_map = map; full = true })
    else (i, record block { alloc_map = map })

-- What `MemPool_releaseChunk` does to the block, for the chunk at an offset.
unfoldable pub release_chunk : Block → ℕ → Block
release_chunk block offset =
    let chunk_index = offset / default_allocation in
    record block {
      alloc_map = bit_and block.alloc_map (2 ^ 32 - 1 - 2 ^ chunk_index);
      full = false;
    }

-- The names `n`, …, `n + rounds - 1`, each put in front of the free list.
unfoldable pub set_free_from : ℕ → ℕ → List ℕ → List ℕ
set_free_from zero n free = free
set_free_from (suc rounds) n free = set_free_from rounds (n + 1) (n ∷ free)

-- `MemPool_getDescriptor`
unfoldable pub get_descriptor : Alloc → Pool → ℕ × Pool
get_descriptor indet pool = elim pool.free_descriptors [
  | h ∷ free ↦ (h, record pool { free_descriptors = free })
  | [] ↦
      let n = length pool.descriptor_pool in
      let grown = pool.descriptor_pool ++ replicate descriptor_pool_grow indet in
      elim (set_free_from descriptor_pool_grow n []) [
        | h ∷ free ↦ (h, record pool { descriptor_pool = grown; free_descriptors = free })
        | [] ↦ (n, record pool { descriptor_pool = grown })
      ]
]

-- `MemPool_alloc`: the name of the descriptor, and the pool.
unfoldable pub alloc : Alloc → Pool → ℕ × Pool
alloc indet pool =
    let (b, blocks) = get_block_for_alloc pool.blocks in
    let block = get_or blocks b no_block in
    let (i, block') = take_chunk block in
    let (h, pool') = get_descriptor indet (record pool { blocks = set blocks b block' }) in
    (
      h,
      record pool' {
        descriptor_pool = set pool'.descriptor_pool h (record {
          base = in_block (i * default_allocation);
          write_index = 0;
          size = default_allocation;
          block_index = block.index;
          external = false;
        });
      },
    )

-- `MemPool_releaseChunk` for a descriptor whose base lies in a block.
unfoldable pub release : List Block → Alloc → List Block
release blocks a = elim a.base [
  | in_block offset ↦
      set blocks a.block_index (release_chunk (get_or blocks a.block_index no_block) offset)
  | malloced n ↦ blocks
]

-- `MemPool_free`
unfoldable pub free : Pool → ℕ → Alloc → Pool
free pool h a =
    let blocks = if a.external then pool.blocks else release pool.blocks a in
    record pool { blocks = blocks; free_descriptors = h ∷ pool.free_descriptors }

-- `size_t` addition.
abbrev pub add_size : ℕ → ℕ → ℕ
add_size a b = (a + b) % 2 ^ 64

-- The size that `MemPool_reserve` rounds a request to.
unfoldable pub round_up : ℕ → ℕ
round_up size =
    if ltb 0 (size % alloc_alignment)
    then add_size size (alloc_alignment - size % alloc_alignment)
    else size

-- The new `write_index`, a `uint16_t`.
abbrev pub advance : Alloc → ℕ → Alloc
advance a size = record a { write_index = (a.write_index + size) % 2 ^ 16 }

-- `MemPool_reserve` on a descriptor: the offset of the space from the allocation's base, the
-- descriptor, and whether its chunk goes back to its block.
unfoldable pub reserve : Alloc → ℕ → ℕ × Alloc × Bool
reserve a request =
    let size = round_up request in
    let needed = add_size a.write_index size in
    if ltb needed a.size
    then (a.write_index, advance a size, false)
    else if a.external
    then (a.write_index, advance (record a { base = malloced needed }) size, false)
    else (a.write_index, advance (record a { base = malloced needed; external = true }) size, true)

-- Whether a request moves the allocation: it does not fit, so the bytes go to a `malloc` of their
-- own, or to where `realloc` puts them. Pointers into the allocation from before are stale then.
unfoldable pub moves : Alloc → ℕ → Bool
moves a request = not (ltb (add_size a.write_index (round_up request)) a.size)

-- `MemPool_reserve` on the pool, for the descriptor named `h`.
unfoldable pub reserve_in : Pool → ℕ → Alloc → ℕ → ℕ × Pool
reserve_in pool h a request =
    let (p, a', released) = reserve a request in
    (
      p,
      record pool {
        blocks = if released then release pool.blocks a else pool.blocks;
        descriptor_pool = set pool.descriptor_pool h a';
      },
    )
