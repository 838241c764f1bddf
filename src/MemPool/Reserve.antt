-- ===== src/MemPool/Reserve.antt =====
-- `MemPool_reserve` of src/mem_pool.c: where the space that it hands out lies.
use libseawolf.Base.{
  ℕ, ◌+◌, ◌%◌, ◌^◌, ◌≤◌, ◌<◌, ◌≡◌, refl, Bool, true, false, ◌↔◌, inl, inr, arith, ltb, Bool-cases,
}
use libseawolf.MemPool.{
  Base, in_block, malloced, Alloc, default_allocation, block_size, round_up, reserve, moves,
  add_size,
}

-- The bytes that belong to an allocation.
abbrev pub capacity : Base → ℕ
capacity (in_block offset) = default_allocation
capacity (malloced n) = n

abbrev pub Kind : Bool → Base → Type 0
Kind true (malloced n) = default_allocation ≤ n
Kind true (in_block offset) = ⊥
Kind false (malloced n) = ⊥
Kind false (in_block offset) = offset + default_allocation ≤ block_size

-- A descriptor whose written bytes lie inside its space.
pub record IsValid (a : Alloc) : Type 0 where
  pub sized : a.size ≡ default_allocation
  pub kind : Kind a.external a.base
  pub written : a.write_index ≤ capacity a.base

pub round_up_lem :
    (n : ℕ) → n < 2 ^ 63 → (n ≤ round_up n) × (round_up n ≤ n + 1) × (round_up n % 2 ≡ 0)
unfolding round_up
round_up_lem n h = ground arith

reserve-place :
    (a : Alloc) (n : ℕ)
    → ((reserve a n).0 ≡ a.write_index)
      × ((reserve a n).1.write_index ≡ (a.write_index + round_up n) % 2 ^ 16)
unfolding reserve
reserve-place a n = ground arith

base_fits : (b : Base) (e : Bool) (k : ℕ) → Kind e b → k < default_allocation → k ≤ capacity b
base_fits (malloced n) true k h l = omega arith
base_fits (in_block offset) true k h l = absurd h
base_fits (malloced n) false k h l = absurd h
base_fits (in_block offset) false k h l = omega arith

pub round_up_even : (n : ℕ) → n % 2 ≡ 0 → round_up n ≡ n
unfolding round_up
round_up_even n h = ground arith

-- A request that fits leaves the allocation where it is.
pub reserve-stays :
    (a : Alloc) (n : ℕ)
    → a.size ≡ default_allocation
    → a.write_index + round_up n < default_allocation
    → (moves a n ≡ false)
      × ((reserve a n).1.size ≡ default_allocation)
      × ((reserve a n).1.write_index ≡ a.write_index + round_up n)
unfolding moves reserve
reserve-stays a n size room =
    let fits : ltb (add_size a.write_index (round_up n)) a.size ≡ true = ground arith in
    rw fits (refl, size, omega arith)

-- While an allocation's running index stays below 2^16, `MemPool_reserve` hands out the bytes from
-- the old index to the new one, at least as many as requested, inside the space of the allocation,
-- and behind all that it has handed out before. The allocation gives its chunk back exactly when it
-- moves to a `malloc` of its own.
pub reserve-inside :
    (a : Alloc) (n : ℕ)
    → IsValid a
    → a.write_index + n + 1 < 2 ^ 16
    → let (p, a', released) = reserve a n in
      (p ≡ a.write_index)
      × (p + n ≤ a'.write_index)
      × IsValid a'
      × ((released ≡ true) ↔ ((a.external ≡ false) × (a'.external ≡ true)))
unfolding reserve
reserve-inside a n valid small =
    let r = round_up_lem n (omega arith) in
    let needed = add_size a.write_index (round_up n) in
    let e : needed ≡ a.write_index + round_up n = omega arith in
    let e' : (a.write_index + round_up n) % 2 ^ 16 ≡ needed = omega arith in
    elim (Bool-cases (ltb needed a.size)) [
      | inl t ↦ rw t (
        refl,
        omega (arith, r.0),
        record {
          sized = valid.sized;
          kind = valid.kind;
          written =
              rw e' (base_fits a.base a.external needed valid.kind (ground (arith, valid.sized)));
        },
        (λ h. cc, λ h. cc (h.0, h.1)),
      )
      | inr f ↦ elim (Bool-cases a.external) [
        | inl x ↦
            rw (f, x)
              (
                refl,
                omega (arith, r.0),
                record {
                  sized = valid.sized;
                  kind = ground (arith, valid.sized);
                  written = omega arith;
                },
                (λ h. cc, λ h. cc (h.0)),
              )
        | inr x ↦
            rw (f, x)
              (
                refl,
                omega (arith, r.0),
                record {
                  sized = valid.sized;
                  kind = ground (arith, valid.sized);
                  written = omega arith;
                },
                (λ h. (refl, refl), λ h. refl),
              )
      ]
    ]

-- Once the running index of an allocation reaches 2^16 it wraps: the next request is given space
-- that starts below the end of the space just handed out, among bytes that are already in use.
pub reserve-wraps :
    (a : Alloc) (n m : ℕ)
    → 0 < n
    → n < 2 ^ 16
    → a.write_index < 2 ^ 16
    → 2 ^ 16 ≤ a.write_index + n
    → let (p, a', released) = reserve a n in (reserve a' m).0 < p + n
reserve-wraps a n m hn hn' hw wraps =
    let r = round_up_lem n (omega arith) in
    let (p, w) = reserve-place a n in let (q, _) = reserve-place (reserve a n).1 m in omega arith
