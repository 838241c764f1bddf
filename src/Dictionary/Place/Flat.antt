-- ===== src/Dictionary/Place/Flat.antt =====
-- The buckets of src/dictionary.c as one list of items.
use mathlib.Core.List.{flatten}
use mathlib.Core.Option.{or_else}
use libseawolf.Base.{
  ℕ, zero, suc, ◌+◌, ◌≤◌, ◌<◌, ◌≡◌, ◌≢◌, refl, ap, ◌∙◌, Option, none, some, List, [], ◌∷◌, ◌++◌,
  arith, length, length-append, get_or, set, replicate,
}
use libseawolf.ArrayList.{Ptr}
use libseawolf.Dictionary.{Key, Item, slot}
use libseawolf.Dictionary.Chain.{lookup, count, lookup-absent}

abbrev pub Buckets : Type 0
Buckets = List (List Item)

abbrev pub bucket : Buckets → ℕ → List Item
bucket bs i = get_or bs i []

pub lookup-append :
    (k : Key) (xs ys : List Item) → lookup k (xs ++ ys) ≡ or_else (lookup k xs) (lookup k ys)
unfolding lookup or_else
lookup-append k [] ys = refl
lookup-append k (x ∷ xs) ys = ground (arith, lookup-append k xs ys)

pub none-or_else : (o : Option Ptr) → or_else none o ≡ o
unfolding or_else
none-or_else o = refl

pub or_else-none : (o : Option Ptr) → or_else o none ≡ o
unfolding or_else
or_else-none none = refl
or_else-none (some v) = refl

pub count-append : (k : Key) (xs ys : List Item) → count k (xs ++ ys) ≡ count k xs + count k ys
unfolding count
count-append k [] ys = omega arith
count-append k (x ∷ xs) ys = ground (arith, count-append k xs ys)

-- The number of items in all buckets.
unfoldable pub total : Buckets → ℕ
total [] = 0
total (b ∷ bs) = length b + total bs

pub total-flatten : (bs : Buckets) → length (flatten bs) ≡ total bs
unfolding total flatten
total-flatten [] = refl
total-flatten (b ∷ bs) = omega (arith, length-append b (flatten bs), total-flatten bs)

pub total-set :
    (bs : Buckets) (i : ℕ) (c : List Item)
    → i < length bs
    → total (set bs i c) + length (bucket bs i) ≡ total bs + length c
unfolding total
total-set [] i c h = absurd (omega arith)
total-set (b ∷ bs) zero c h = omega arith
total-set (b ∷ bs) (suc i) c h = omega (arith, total-set bs i c (omega arith))

pub total-replicate : (n : ℕ) → total (replicate n []) ≡ 0
unfolding total
total-replicate zero = refl
total-replicate (suc n) = omega (arith, total-replicate n)

-- A key stands at most once, and only in its own bucket of `n`.
abbrev pub Placed : ℕ → Buckets → Type 0
Placed n bs =
    (q : Key) (i : ℕ) → (count q (bucket bs i) ≤ 1) × (slot q n ≢ i → count q (bucket bs i) ≡ 0)

pub absent_flatten :
    (q : Key) (bs : Buckets) → ((i : ℕ) → count q (bucket bs i) ≡ 0) → count q (flatten bs) ≡ 0
unfolding flatten count
absent_flatten q [] none_in = refl
absent_flatten q (b ∷ bs) none_in =
    omega
      (arith, count-append q b (flatten bs), none_in 0, absent_flatten q bs (λ i. none_in (suc i)))

-- If a key stands in one bucket only, the items of all buckets agree with that bucket on it.
pub flatten_single :
    (q : Key) (bs : Buckets) (j : ℕ)
    → ((i : ℕ) → j ≢ i → count q (bucket bs i) ≡ 0)
    → (lookup q (flatten bs) ≡ lookup q (bucket bs j))
      × (count q (flatten bs) ≡ count q (bucket bs j))
unfolding flatten
flatten_single q [] j h = (refl, refl)
flatten_single q (b ∷ bs) zero h =
    let behind = absent_flatten q bs (λ i. h (suc i) (omega arith)) in
    (
      lookup-append q b (flatten bs)
          ∙ ap (or_else (lookup q b)) (lookup-absent q (flatten bs) behind)
          ∙ unfold or_else in ground arith,
      omega (arith, count-append q b (flatten bs)),
    )
flatten_single q (b ∷ bs) (suc j) h =
    let front = h 0 (omega arith) in
    let (found, counted) = flatten_single q bs j (λ i ne. h (suc i) (omega arith)) in
    (
      lookup-append q b (flatten bs)
          ∙ ap (λ o. or_else o (lookup q (flatten bs))) (lookup-absent q b front)
          ∙ none-or_else (lookup q (flatten bs))
          ∙ found,
      omega (arith, count-append q b (flatten bs)),
    )
