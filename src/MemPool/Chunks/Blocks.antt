-- ===== src/MemPool/Chunks/Blocks.antt =====
-- The blocks of a pool of src/mem_pool.c and the chunks that are marked in them.
use libseawolf.Base.{
  ℕ, zero, suc, ◌+◌, ◌-◌, ◌^◌, ◌≤◌, ◌<◌, ◌≡◌, refl, Bool, false, inl, inr, arith, ltb, ◌==◌,
  if◌then◌else◌, Bool-cases, List, [], ◌∷◌, ◌++◌, length, length-append, length-set, get_or, set,
  get_or-set_self, get_or-set_ne, replicate, get_or-append_left,
}
use libseawolf.MemPool.{
  Alloc, Block, Pool, no_block, new_block, block_from, get_block_for_alloc, set_free_from,
  get_descriptor, descriptor_pool_grow,
}
use libseawolf.MemPool.Bits.{used, IsValid}

-- Whether chunk `c` of block `b` is marked as allocated.
abbrev pub chunk_used : List Block → ℕ → ℕ → Bool
chunk_used blocks b c = used (get_or blocks b no_block).alloc_map c

-- Each block is well formed and knows its place.
abbrev pub BlocksValid : List Block → Type 0
BlocksValid blocks =
    (b : ℕ)
    → b < length blocks
    → IsValid (get_or blocks b no_block) × ((get_or blocks b no_block).index ≡ b)

-- What holds of the block that `MemPool_getBlockForAlloc` stops at.
pub block_from_lem :
    (bs : List Block) (i : ℕ)
    → (i ≤ block_from bs i)
      × (block_from bs i ≤ i + length bs)
      × (block_from bs i < i + length bs → (get_or bs (block_from bs i - i) no_block).full ≡ false)
unfolding block_from
block_from_lem [] i = (omega arith, omega arith, λ h. absurd (omega arith))
block_from_lem (b ∷ bs) i = elim (Bool-cases b.full) [
  | inl t ↦
      let (lo, hi, room) = block_from_lem bs (i + 1) in
      let e : block_from bs (i + 1) - i ≡ suc (block_from bs (i + 1) - (i + 1)) = omega arith in
      rw t (omega arith, omega arith, λ h. rw e (room (omega arith)))
  | inr f ↦ let e : i - i ≡ 0 = omega arith in rw f (omega arith, omega arith, λ h. rw e refl)
]

pub get_or_beyond : (bs : List Block) (b : ℕ) → length bs ≤ b → get_or bs b no_block ≡ no_block
get_or_beyond [] b h = refl
get_or_beyond (x ∷ bs) zero h = absurd (omega arith)
get_or_beyond (x ∷ bs) (suc b) h = get_or_beyond bs b (omega arith)

pub get_or_last : (bs : List Block) (x : Block) → get_or (bs ++ x ∷ []) (length bs) no_block ≡ x
get_or_last [] x = refl
get_or_last (y ∷ bs) x = get_or_last bs x

-- The blocks after `MemPool_getBlockForAlloc`: the chosen one has room, all are well formed, and
-- no mark has changed.
pub chosen_lem :
    (blocks : List Block)
    → BlocksValid blocks
    → length blocks < 2 ^ 16
    → let (b, blocks') = get_block_for_alloc blocks in
      (b < length blocks')
      × ((get_or blocks' b no_block).full ≡ false)
      × BlocksValid blocks'
      × ((b' c : ℕ) → chunk_used blocks' b' c ≡ chunk_used blocks b' c)
unfolding get_block_for_alloc
chosen_lem blocks valid few =
    let (lo, hi, room) = block_from_lem blocks 0 in
    let b = block_from blocks 0 in
    let fresh = new_block blocks in
    let blocks' = blocks ++ fresh ∷ [] in
    let len = length-append blocks (fresh ∷ []) in
    elim (Bool-cases (b == length blocks)) [
      | inr f ↦
          let e : b - 0 ≡ b = omega arith in
          rw f (ground arith, rw e at (room (ground arith)), valid, λ b' c. refl)
      | inl t ↦
          let e : b ≡ length blocks = ground arith in
          rw t (
            omega arith,
            rw (e, get_or_last blocks fresh) (unfold new_block in refl),
            λ b' h. elim (Bool-cases (b' == length blocks)) [
              | inl t' ↦
                  let e' : b' ≡ length blocks = ground arith in
                  rw (e', get_or_last blocks fresh)
                    (unfold new_block in
                      (record { narrow = omega arith; flagged = refl }, omega arith))
              | inr f' ↦
                  let h' : b' < length blocks = ground arith in
                  rw (get_or-append_left blocks (fresh ∷ []) b' no_block h') (valid b' h')
            ],
            λ b' c. elim (Bool-cases (ltb b' (length blocks))) [
              | inl t' ↦ rw (get_or-append_left blocks (fresh ∷ []) b' no_block (ground arith))
              | inr f' ↦ elim (Bool-cases (b' == length blocks)) [
                | inl t'' ↦
                    let e' : b' ≡ length blocks = ground arith in
                    rw
                      (
                        e',
                        get_or_last blocks fresh,
                        get_or_beyond blocks (length blocks) (omega arith),
                      )
                      (unfold new_block in refl)
                | inr f'' ↦ rw (
                  get_or_beyond blocks b' (ground arith),
                  get_or_beyond blocks' b' (ground arith),
                )
              ]
            ],
          )
    ]

-- Replacing one block by another that is well formed keeps the pool well formed.
pub set-BlocksValid :
    (blocks : List Block) (b : ℕ) (x : Block)
    → BlocksValid blocks
    → IsValid x
    → x.index ≡ b
    → BlocksValid (set blocks b x)
set-BlocksValid blocks b x valid v e b' h =
    let len = length-set blocks b x in
    elim (Bool-cases (b == b')) [
      | inl t ↦
          let q : b ≡ b' = ground arith in
          rw (← q, get_or-set_self blocks b x no_block (omega arith)) (v, e)
      | inr f ↦ rw (get_or-set_ne blocks b b' x no_block (ground arith)) (valid b' (omega arith))
    ]

pub set-chunk_used :
    (blocks : List Block) (b b' c : ℕ) (x : Block)
    → b < length blocks
    → chunk_used (set blocks b x) b' c
      ≡ (if b' == b then used x.alloc_map c else chunk_used blocks b' c)
set-chunk_used blocks b b' c x h = elim (Bool-cases (b' == b)) [
  | inl t ↦ let q : b' ≡ b = ground arith in rw (t, q, get_or-set_self blocks b x no_block h)
  | inr f ↦ rw (f, get_or-set_ne blocks b b' x no_block (ground arith))
]

-- The free descriptors are descriptors of the pool.
abbrev pub Below : ℕ → List ℕ → Type 0
Below n [] = Unit
Below n (h ∷ hs) = (h < n) × Below n hs

pub record PoolValid (pool : Pool) : Type 0 where
  pub blocks_valid : BlocksValid pool.blocks
  pub free_valid : Below (length pool.descriptor_pool) pool.free_descriptors

pub descriptor_lem :
    (indet : Alloc) (pool : Pool)
    → Below (length pool.descriptor_pool) pool.free_descriptors
    → let (h, pool') = get_descriptor indet pool in
      (h < length pool'.descriptor_pool)
      × (pool'.blocks ≡ pool.blocks)
      × Below (length pool'.descriptor_pool) pool'.free_descriptors
unfolding get_descriptor set_free_from
descriptor_lem indet pool below = go pool.free_descriptors below refl
  where
    go :
        (free : List ℕ)
        → Below (length pool.descriptor_pool) free
        → pool.free_descriptors ≡ free
        → let (h, pool') = get_descriptor indet pool in
          (h < length pool'.descriptor_pool)
          × (pool'.blocks ≡ pool.blocks)
          × Below (length pool'.descriptor_pool) pool'.free_descriptors
    go (h ∷ hs) b e = rw (e, get_descriptor) (b.0, refl, b.1)
    go [] b e =
        let len = length-append pool.descriptor_pool (replicate descriptor_pool_grow indet) in
        rw (e, get_descriptor) (omega arith, refl, omega arith)
