-- ===== src/Dictionary/Place.antt =====
-- The buckets of src/dictionary.c together: where items stand, and what moving all of them to twice
-- as many buckets leaves.
pub mod Flat
use mathlib.Core.List.{flatten}
use mathlib.Core.Option.{or_else}
use libseawolf.Base.{
  ℕ, zero, suc, ◌+◌, ◌≤◌, ◌<◌, ◌≡◌, ◌≢◌, refl, sym, ap, ◌∙◌, Option, none, some, List, [], ◌∷◌,
  ◌++◌, arith, length, length-append, length-set, get_or, set, get_or-set_self, get_or-set_ne,
  length-replicate, get_or-replicate, replicate, bytes_eq_sound, ◌==◌, if◌then◌else◌, Bool-cases,
  inl, inr,
}
use libseawolf.ArrayList.{Ptr}
use libseawolf.Dictionary.{Key, Item, slot, move_item, move_bucket, move_buckets}
use libseawolf.Dictionary.Chain.{lookup, count, key_eq, lookup-absent}
unfoldable pub use libseawolf.Dictionary.Place.Flat.{total}
pub use libseawolf.Dictionary.Place.Flat.{
  Buckets, bucket, lookup-append, count-append, total-flatten, total-set, total-replicate, Placed,
  flatten_single,
}
use libseawolf.Dictionary.Place.Flat.{none-or_else, or_else-none, absent_flatten}

slot-lt : (k : Key) (n : ℕ) → 0 < n → slot k n < n
slot-lt k n h = omega arith

bucket-move_item :
    (n i : ℕ) (item : Item) (bs : Buckets)
    → 0 < n
    → length bs ≡ n
    → bucket (move_item n item bs) i
      ≡ (if slot item.k n == i then item ∷ bucket bs i else bucket bs i)
unfolding move_item
bucket-move_item n i item bs h e =
    let s = slot item.k n in
    elim (Bool-cases (s == i)) [
      | inl t ↦
          let q : s ≡ i = ground arith in
          rw (t, ← q) (get_or-set_self bs s _ [] (omega (arith, slot-lt item.k n h)))
      | inr f ↦ rw f (get_or-set_ne bs s i _ [] (ground arith))
    ]

length-move_bucket :
    (n : ℕ) (items : List Item) (bs : Buckets) → length (move_bucket n items bs) ≡ length bs
unfolding move_bucket move_item
length-move_bucket n [] bs = refl
length-move_bucket n (item ∷ items) bs =
    length-move_bucket n items _ ∙ length-set bs (slot item.k n) _

-- Where the items of a walk end up, key by key.
move_bucket-count :
    (n i : ℕ) (q : Key) (items : List Item) (bs : Buckets)
    → 0 < n
    → length bs ≡ n
    → count q (bucket (move_bucket n items bs) i)
      ≡ count q (bucket bs i) + (if slot q n == i then count q items else 0)
unfolding move_bucket
move_bucket-count n i q [] bs h e = unfold count in ground arith
move_bucket-count n i q (item ∷ items) bs h e =
    let bs' = move_item n item bs in
    let e' : length bs' ≡ n = unfold move_item in length-set bs (slot item.k n) _ ∙ e in
    move_bucket-count n i q items bs' h e'
    ∙ ap (λ b. count q b + (if slot q n == i then count q items else 0))
        (bucket-move_item n i item bs h e)
    ∙ elim (Bool-cases (key_eq q item.k)) [
      | inl t ↦
          let k = ap (λ x. slot x n) (bytes_eq_sound q item.k t) in unfold count in ground arith
      | inr f ↦ unfold count in ground arith
    ]

move_step :
    (n : ℕ) (q : Key) (item : Item) (items : List Item) (bs : Buckets)
    → 0 < n
    → length bs ≡ n
    → count q (item ∷ items) + count q (bucket bs (slot q n)) ≤ 1
    → (count q items + count q (bucket (move_item n item bs) (slot q n)) ≤ 1)
      × (or_else (lookup q items) (lookup q (bucket (move_item n item bs) (slot q n)))
          ≡ or_else (lookup q (item ∷ items)) (lookup q (bucket bs (slot q n))))
unfolding count lookup or_else
move_step n q item items bs h e once = elim (Bool-cases (key_eq q item.k)) [
  | inl t ↦
      let k = ap (λ x. slot x n) (bytes_eq_sound q item.k t) in
      rw (bucket-move_item n (slot q n) item bs h e) (ground (arith, lookup-absent q items))
  | inr f ↦ rw (bucket-move_item n (slot q n) item bs h e) (ground arith)
]

move_bucket-lookup :
    (n : ℕ) (q : Key) (items : List Item) (bs : Buckets)
    → 0 < n
    → length bs ≡ n
    → count q items + count q (bucket bs (slot q n)) ≤ 1
    → lookup q (bucket (move_bucket n items bs) (slot q n))
      ≡ or_else (lookup q items) (lookup q (bucket bs (slot q n)))
unfolding move_bucket
move_bucket-lookup n q [] bs h e once = unfold lookup or_else in refl
move_bucket-lookup n q (item ∷ items) bs h e once =
    let bs' = move_item n item bs in
    let e' : length bs' ≡ n = unfold move_item in length-set bs (slot item.k n) _ ∙ e in
    let (once', same) = move_step n q item items bs h e once in
    move_bucket-lookup n q items bs' h e' once' ∙ same

move_bucket-append :
    (n : ℕ) (xs ys : List Item) (bs : Buckets)
    → move_bucket n (xs ++ ys) bs ≡ move_bucket n ys (move_bucket n xs bs)
unfolding move_bucket
move_bucket-append n [] ys bs = refl
move_bucket-append n (x ∷ xs) ys bs = move_bucket-append n xs ys (move_item n x bs)

-- The two nested loops of the rebuild are one walk along all items.
move_buckets-flatten :
    (n : ℕ) (olds bs : Buckets) → move_buckets n olds bs ≡ move_bucket n (flatten olds) bs
unfolding move_buckets flatten
move_buckets-flatten n [] bs = unfold move_bucket in refl
move_buckets-flatten n (b ∷ olds) bs =
    move_buckets-flatten n olds (move_bucket n b bs)
    ∙ sym (move_bucket-append n b (flatten olds) bs)

total-move_bucket :
    (n : ℕ) (items : List Item) (bs : Buckets)
    → 0 < n
    → length bs ≡ n
    → total (move_bucket n items bs) ≡ total bs + length items
unfolding move_bucket
total-move_bucket n [] bs h e = omega arith
total-move_bucket n (item ∷ items) bs h e =
    let s = slot item.k n in
    let e' : length (move_item n item bs) ≡ n = unfold move_item in length-set bs s _ ∙ e in
    let grown : total (move_item n item bs) ≡ total bs + 1 =
      unfold move_item in
      omega (arith, total-set bs s (item ∷ bucket bs s) (omega (arith, slot-lt item.k n h))) in
    omega (arith, total-move_bucket n items (move_item n item bs) h e')

-- Moving all items of a well placed table of `m` buckets into `n` empty ones gives a well placed
-- table of `n` buckets with the same number of items and the same value under every key.
pub record Rebuilt (n m : ℕ) (olds news : Buckets) : Type 0 where
  pub size : length news ≡ n
  pub places : Placed n news
  pub kept : total news ≡ total olds
  pub same : (q : Key) → lookup q (bucket news (slot q n)) ≡ lookup q (bucket olds (slot q m))

pub empty_bucket : (q : Key) (n i : ℕ) → count q (bucket (replicate n []) i) ≡ 0
unfolding count
empty_bucket q n i = ap (count q) (get_or-replicate n i [])

module _ (n m : ℕ) (olds : Buckets) (h : 0 < n) (placed : Placed m olds) where
  start : Buckets
  start = replicate n []

  length-start : length start ≡ n
  unfolding start
  length-start = length-replicate n []

  single :
      (q : Key)
      → (lookup q (flatten olds) ≡ lookup q (bucket olds (slot q m)))
        × (count q (flatten olds) ≡ count q (bucket olds (slot q m)))
  single q = flatten_single q olds (slot q m) (λ i ne. (placed q i).1 ne)

  news-Placed : Placed n (move_bucket n (flatten olds) start)
  news-Placed q i =
      let c = move_bucket-count n i q (flatten olds) start h length-start in
      let z : count q (bucket start i) ≡ 0 = unfold start in empty_bucket q n i in
      let one = (placed q (slot q m)).0 in let s = (single q).1 in ground arith

  news-lookup :
      (q : Key)
      → lookup q (bucket (move_bucket n (flatten olds) start) (slot q n))
        ≡ lookup q (bucket olds (slot q m))
  news-lookup q =
      let z : count q (bucket start (slot q n)) ≡ 0 = unfold start in empty_bucket q n (slot q n) in
      let one = (placed q (slot q m)).0 in
      let (found, counted) = single q in
      move_bucket-lookup n q (flatten olds) start h length-start (omega arith)
      ∙ ap (or_else (lookup q (flatten olds))) (lookup-absent q (bucket start (slot q n)) z)
      ∙ or_else-none (lookup q (flatten olds))
      ∙ found

  pub rebuild_lem : Rebuilt n m olds (move_buckets n olds (replicate n []))
  rebuild_lem = rw (move_buckets-flatten n olds (replicate n [])) (
      unfold start in
      record {
        size = length-move_bucket n (flatten olds) start ∙ length-start;
        places = news-Placed;
        kept =
            total-move_bucket n (flatten olds) start h length-start
            ∙ omega (arith, total-replicate n, total-flatten olds);
        same = news-lookup;
      })
