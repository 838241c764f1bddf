-- ===== src/MemPool/Chunks.antt =====
-- Chunks over the whole pool of src/mem_pool.c: an allocation gets a chunk that nobody has, and a
-- release gives back that chunk only.
pub mod Blocks
use libseawolf.Base.{
  ℕ, zero, suc, ◌+◌, ◌-◌, ◌*◌, ◌^◌, ◌≤◌, ◌<◌, ◌≡◌, refl, sym, ap, subst, ◌∙◌, Bool, false, not,
  ◌&&◌, ◌||◌, inl, inr, arith, ltb, ◌==◌, if◌then◌else◌, Bool-cases, List, [], ◌∷◌, ◌++◌, length,
  length-append, length-set, get_or, set, get_or-set_self, get_or-set_ne, replicate,
  get_or-append_left,
}
use libseawolf.MemPool.{
  in_block, Alloc, Block, Pool, no_block, new_block, block_from, get_block_for_alloc, take_chunk,
  release_chunk, set_free_from, get_descriptor, alloc, release, free, default_allocation,
  chunks_per_block, descriptor_pool_grow,
}
use libseawolf.MemPool.Bits.{used, IsValid, take_chunk-used, release_chunk-used}
pub use libseawolf.MemPool.Chunks.Blocks.{chunk_used, BlocksValid, Below, PoolValid}
use libseawolf.MemPool.Chunks.Blocks.{
  block_from_lem, get_or_beyond, get_or_last, chosen_lem, set-BlocksValid, set-chunk_used,
  descriptor_lem,
}

-- What a call of `MemPool_alloc` has done.
pub record Allocated (indet : Alloc) (pool : Pool) (h : ℕ) (pool' : Pool) : Type 0 where
  pub block : ℕ
  pub chunk : ℕ
  pub descriptor : get_or pool'.descriptor_pool h indet ≡ record {
    base = in_block (chunk * default_allocation);
    write_index = 0;
    size = default_allocation;
    block_index = block;
    external = false;
  }
  pub inside : chunk < chunks_per_block
  pub was_free : chunk_used pool.blocks block chunk ≡ false
  pub marked :
      (b c : ℕ)
      → c < chunks_per_block
      → chunk_used pool'.blocks b c ≡ ((b == block && c == chunk) || chunk_used pool.blocks b c)
  pub valid : PoolValid pool'

-- In a well formed pool of fewer than 2^16 blocks, `MemPool_alloc` hands out a descriptor for an
-- untouched chunk of 512 bytes that lies in its block and that was not marked before; afterwards it
-- is marked, the mark of every other chunk of every block is what it was, and the pool is well
-- formed.
pub alloc-Allocated :
    (indet : Alloc) (pool : Pool)
    → PoolValid pool
    → length pool.blocks < 2 ^ 16
    → let (h, pool') = alloc indet pool in Allocated indet pool h pool'
unfolding alloc
alloc-Allocated indet pool valid few =
    let chosen = get_block_for_alloc pool.blocks in
    let b = chosen.0 in
    let (inside, room, blocks_valid, same) = chosen_lem pool.blocks valid.blocks_valid few in
    let block = get_or chosen.1 b no_block in
    let (block_valid, index) = blocks_valid b inside in
    let (i_inside, i_free, i_marked, taken_valid, kept) = take_chunk-used block block_valid room in
    let taken = take_chunk block in
    let blocks' = set chosen.1 b taken.1 in
    let d = descriptor_lem indet (record pool { blocks = blocks' }) valid.free_valid in
    let got = get_descriptor indet (record pool { blocks = blocks' }) in
    record {
      block = b;
      chunk = taken.0;
      descriptor =
          get_or-set_self got.1.descriptor_pool got.0 _ indet d.0
          ∙ ap
              (λ (k : ℕ). record {
                base = in_block (taken.0 * default_allocation);
                write_index = 0;
                size = default_allocation;
                block_index = k;
                external = false;
              })
              index;
      inside = i_inside;
      was_free = sym (same b taken.0) ∙ i_free;
      marked = λ b' c hc.
          ap (λ bs. chunk_used bs b' c) d.1
          ∙ set-chunk_used chosen.1 b b' c taken.1 inside
          ∙ elim (Bool-cases (b' == b)) [
            | inl t ↦
                let q : b' ≡ b = ground arith in
                rw t (
                  i_marked c hc
                  ∙ ap (λ u. (c == taken.0) || u)
                      (same b c ∙ ap (λ k. chunk_used pool.blocks k c) (sym q)))
            | inr f ↦ rw f (same b' c)
          ];
      valid = record {
        blocks_valid =
            subst BlocksValid (sym d.1)
              (set-BlocksValid chosen.1 b taken.1 blocks_valid taken_valid (kept ∙ index));
        free_valid =
            subst (λ n. Below n got.1.free_descriptors)
              (sym (length-set got.1.descriptor_pool got.0 _)) d.2;
      };
    }

-- `MemPool_free` of an allocation that is still in its chunk clears the mark of that chunk and of
-- no other, keeps the pool well formed, and puts the descriptor first in line for reuse.
free-chunk_used :
    (pool : Pool) (h : ℕ) (a : Alloc) (chunk : ℕ)
    → PoolValid pool
    → h < length pool.descriptor_pool
    → a.external ≡ false
    → a.base ≡ in_block (chunk * default_allocation)
    → chunk < chunks_per_block
    → a.block_index < length pool.blocks
    → let pool' = free pool h a in
      ((b c : ℕ)
        → c < chunks_per_block
        → chunk_used pool'.blocks b c
          ≡ (not (b == a.block_index && c == chunk) && chunk_used pool.blocks b c))
      × PoolValid pool'
      × (pool'.free_descriptors ≡ h ∷ pool.free_descriptors)
unfolding free release
free-chunk_used pool h a chunk valid hh ext base hc hb =
    let block = get_or pool.blocks a.block_index no_block in
    let (block_valid, index) = valid.blocks_valid a.block_index hb in
    let (_, _, cleared, valid') = release_chunk-used block chunk block_valid hc in
    rw (ext, base)
      (
        λ b c h'.
            set-chunk_used pool.blocks a.block_index b c _ hb
            ∙ elim (Bool-cases (b == a.block_index)) [
              | inl t ↦
                  let q : b ≡ a.block_index = ground arith in
                  rw t (
                    cleared c h' ∙ ap (λ k. not (c == chunk) && chunk_used pool.blocks k c) (sym q))
              | inr f ↦ rw f
            ],
        record {
          blocks_valid =
              set-BlocksValid pool.blocks a.block_index _ valid.blocks_valid valid'
                (unfold release_chunk in index);
          free_valid = (hh, valid.free_valid);
        },
        refl,
      )
