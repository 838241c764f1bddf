-- ===== src/ArrayList/Sort/Sorted.antt =====
-- `List_sort` of src/list.c sorts, with as much fuel as there are items.
use libseawolf.Base.{
  ℕ, zero, suc, ◌+◌, ◌≤◌, ◌<◌, ◌≡◌, refl, sym, ap, ◌∙◌, Bool, true, false, Option, some, List, [],
  ◌∷◌, ◌++◌, arith, length, drop, take, length-take, length-append, take_all, ◌==◌, if◌then◌else◌,
  Bool-cases, inl, inr, subst,
}
use libseawolf.ArrayList.{Ptr, ArrayList, contents, IsValid}
use libseawolf.ArrayList.Sort.{split, sort_items, sort}

-- How often a pointer is on a list.
abbrev pub count : Ptr → List Ptr → ℕ
count p [] = 0
count p (x ∷ xs) = (if x == p then 1 else 0) + count p xs

-- The same pointers, each as often.
abbrev pub SameItems : List Ptr → List Ptr → Type 0
SameItems xs ys = (p : Ptr) → count p xs ≡ count p ys

count-append : (p : Ptr) (xs ys : List Ptr) → count p (xs ++ ys) ≡ count p xs + count p ys
count-append p [] ys = omega arith
count-append p (x ∷ xs) ys = let rest = count-append p xs ys in ground arith

-- Every item has a property.
abbrev pub All : (Ptr → Type 0) → List Ptr → Type 0
All P xs = (p : Ptr) → 0 < count p xs → P p

All-SameItems : (P : Ptr → Type 0) (xs ys : List Ptr) → SameItems xs ys → All P xs → All P ys
All-SameItems P xs ys same all p lt = all p (rw (same p) lt)

All-tail : (P : Ptr → Type 0) (x : Ptr) (xs : List Ptr) → All P (x ∷ xs) → All P xs
All-tail P x xs all p lt = all p (ground arith)

All-head : (P : Ptr → Type 0) (x : Ptr) (xs : List Ptr) → All P (x ∷ xs) → P x
All-head P x xs all = all x (ground arith)

All-cons : (P : Ptr → Type 0) (x : Ptr) (xs : List Ptr) → P x → All P xs → All P (x ∷ xs)
All-cons P x xs here all p lt = elim (Bool-cases (x == p)) [
  | inl t ↦ let same : x ≡ p = ground arith in subst P same here
  | inr f ↦ all p (ground arith)
]

All-append : (P : Ptr → Type 0) (xs ys : List Ptr) → All P xs → All P ys → All P (xs ++ ys)
All-append P [] ys a b = b
All-append P (x ∷ xs) ys a b =
    All-cons P x (xs ++ ys) (All-head P x xs a) (All-append P xs ys (All-tail P x xs a) b)

module _ (greater : Ptr → Ptr → Bool) where
  -- No item is greater than a later one.
  abbrev pub Sorted : List Ptr → Type 0
  Sorted [] = Unit
  Sorted (x ∷ xs) = All (λ y. greater x y ≡ false) xs × Sorted xs

  Sorted-append :
      (xs ys : List Ptr)
      → Sorted xs
      → Sorted ys
      → All (λ x. All (λ y. greater x y ≡ false) ys) xs
      → Sorted (xs ++ ys)
  Sorted-append [] ys a b c = b
  Sorted-append (x ∷ xs) ys (first, a) b c = (
    All-append (λ y. greater x y ≡ false) xs ys first
        (All-head (λ z. All (λ y. greater z y ≡ false) ys) x xs c),
    Sorted-append xs ys a b (All-tail (λ z. All (λ y. greater z y ≡ false) ys) x xs c),
  )

  -- The two parts.
  split-count :
      (r p : Ptr) (xs : List Ptr)
      → count p (split greater r xs).0 + count p (split greater r xs).1 ≡ count p xs
  unfolding split
  split-count r p [] = refl
  split-count r p (x ∷ xs) =
      let rest = split-count r p xs in
      elim (Bool-cases (greater r x)) [ inl t ↦ rw t (ground arith) | inr f ↦ rw f (ground arith) ]

  split-length :
      (r : Ptr) (xs : List Ptr)
      → length (split greater r xs).0 + length (split greater r xs).1 ≡ length xs
  unfolding split
  split-length r [] = refl
  split-length r (x ∷ xs) =
      let rest = split-length r xs in
      elim (Bool-cases (greater r x)) [ inl t ↦ rw t (ground arith) | inr f ↦ rw f (ground arith) ]

  split-parts :
      (r : Ptr) (xs : List Ptr)
      → All (λ x. greater r x ≡ true) (split greater r xs).0
        × All (λ x. greater r x ≡ false) (split greater r xs).1
  unfolding split
  split-parts r [] = ((λ p lt. ground arith), (λ p lt. ground arith))
  split-parts r (x ∷ xs) =
      let (a, b) = split-parts r xs in
      elim (Bool-cases (greater r x)) [
        | inl t ↦ rw t (All-cons (λ y. greater r y ≡ true) x _ t a, b)
        | inr f ↦ rw f (a, All-cons (λ y. greater r y ≡ false) x _ f b)
      ]

  -- What the sorting of items comes to.
  abbrev pub SortedFrom : List Ptr → Option (List Ptr) → Type 0
  SortedFrom xs r =
      (s : List Ptr) × (r ≡ some s) × SameItems xs s × (length s ≡ length xs) × Sorted s

  sort_run :
      (list : ArrayList) (s : List Ptr)
      → sort_items greater list.items (contents list) ≡ some s
      → sort greater list.items list ≡ some (record list { base = s ++ drop list.items list.base })
  unfolding sort
  sort_run list s e = rw (e, sort) refl

  module _ (asym : (x y : Ptr) → greater x y ≡ true → greater y x ≡ false)
      (trans : (x y z : Ptr)
        → greater x y ≡ false
        → greater y z ≡ false
        → greater x z ≡ false) where
    joined-Sorted :
        (r : Ptr) (less more : List Ptr)
        → Sorted less
        → Sorted more
        → All (λ x. greater r x ≡ true) less
        → All (λ x. greater r x ≡ false) more
        → Sorted (less ++ (r ∷ more))
    joined-Sorted r less more a b below above =
        Sorted-append less (r ∷ more) a (above, b)
          (λ x lt.
            All-cons (λ y. greater x y ≡ false) r more (asym r x (below x lt))
              (λ y m. trans x r y (asym r x (below x lt)) (above y m)))

    parts-SortedFrom :
        (fuel : ℕ) (r y : Ptr) (rest : List Ptr)
        → SortedFrom
            (split greater r (y ∷ rest)).0
            (sort_items greater fuel (split greater r (y ∷ rest)).0)
        → SortedFrom
            (split greater r (y ∷ rest)).1
            (sort_items greater fuel (split greater r (y ∷ rest)).1)
        → SortedFrom (r ∷ y ∷ rest) (sort_items greater (suc fuel) (r ∷ y ∷ rest))
    unfolding sort_items
    parts-SortedFrom fuel r y rest (less, run, same, size, a) (more, run', same', size', b) =
        let (below, above) = split-parts r (y ∷ rest) in
        let sizes = split-length r (y ∷ rest) in
        (
          less ++ (r ∷ more),
          rw (run, sort_items, run') refl,
          (λ p.
              let whole = split-count r p (y ∷ rest) in
              let left = same p in
              let right = same' p in let both = count-append p less (r ∷ more) in ground arith),
          (let both = length-append less (r ∷ more) in ground arith),
          joined-Sorted r less more a b (All-SameItems (λ x. greater r x ≡ true) _ less same below)
              (All-SameItems (λ x. greater r x ≡ false) _ more same' above),
        )

    sort_items-Sorted :
        (fuel : ℕ) (xs : List Ptr) → length xs ≤ fuel → SortedFrom xs (sort_items greater fuel xs)
    sort_items-Sorted fuel [] h = unfold sort_items in ([], refl, (λ p. refl), refl, tt)
    sort_items-Sorted fuel (x ∷ []) h =
        unfold sort_items in (x ∷ [], refl, (λ p. refl), refl, ((λ p lt. absurd (none_in lt)), tt))
      where
        none_in : 0 < 0 → ⊥
        none_in lt = ground arith
    sort_items-Sorted zero (r ∷ y ∷ rest) h = ground arith
    sort_items-Sorted (suc fuel) (r ∷ y ∷ rest) h =
        let sizes = split-length r (y ∷ rest) in
        parts-SortedFrom fuel r y rest
          (sort_items-Sorted fuel (split greater r (y ∷ rest)).0 (ground arith))
          (sort_items-Sorted fuel (split greater r (y ∷ rest)).1 (ground arith))

    -- With a comparator that is total and transitive, `List_sort` of a well formed list ends with as
    -- much fuel as there are items, with the same items, each as often, no one greater than a later
    -- one; it changes neither their number nor the space.
    pub sort-Sorted :
        (list : ArrayList)
        → IsValid list
        → (list' : ArrayList) × (sort greater list.items list ≡ some list')
          × SameItems (contents list) (contents list')
          × Sorted (contents list')
          × (list'.items ≡ list.items)
          × (list'.space ≡ list.space)
    sort-Sorted list valid =
        let size : length (contents list) ≡ list.items =
          length-take list.items list.base ∙ omega (arith, valid.allocated, valid.within) in
        let (s, run, same, length_same, sorted) =
          sort_items-Sorted list.items (contents list) (omega (arith, size)) in
        let kept : take list.items (s ++ drop list.items list.base) ≡ s =
          take_all s (drop list.items list.base) list.items (sym (length_same ∙ size)) in
        (
          record list { base = s ++ drop list.items list.base },
          sort_run list s run,
          (λ p. same p ∙ ap (count p) (sym kept)),
          subst Sorted (sym kept) sorted,
          refl,
          refl,
        )
