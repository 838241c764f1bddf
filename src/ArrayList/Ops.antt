-- ===== src/ArrayList/Ops.antt =====
-- The operations of src/list.c against the list of the items.
use libseawolf.Base.{
  ℕ, zero, suc, ◌+◌, ◌-◌, ◌≤◌, ◌<◌, ◌≡◌, ◌≢◌, refl, sym, ap, ap₂, ◌∙◌, Bool, true, false, some,
  List, [], ◌∷◌, ◌++◌, arith, length, get_or, set, take, drop, replicate, length-append, length-set,
  length-take, length-replicate, get_or-take, take-append, take-take, drop-take, Bool-cases, ltb,
  ◌==◌, if◌then◌else◌, inl, inr,
}
use libseawolf.Base.Int.{pos}
use libseawolf.ArrayList.{
  Ptr, null, list_block_size, ArrayList, realloc, shift_down, shift_up, insert, append, set_at, get,
  close_gap, remove, copy, contents, IsValid,
}
use libseawolf.ArrayList.Shift.{length-shift_down, length-shift_up, take-shift_down, take-shift_up}

module _ (indet : Ptr) where
  pub length-realloc : (b : List Ptr) (n : ℕ) → length (realloc indet b n) ≡ n
  unfolding realloc
  length-realloc b n = omega (
    arith,
    length-take n (b ++ replicate (n - length b) indet),
    length-append b (replicate (n - length b) indet),
    length-replicate (n - length b) indet,
  )

  pub take-realloc :
      (b : List Ptr) (m n : ℕ) → m ≤ n → m ≤ length b → take m (realloc indet b n) ≡ take m b
  unfolding realloc
  take-realloc b m n h h' =
      take-take m n (b ++ replicate (n - length b) indet) h
      ∙ take-append m b (replicate (n - length b) indet) h'

  -- The words that a growing list keeps, whether or not it was full.
  grow : ArrayList → ArrayList
  grow list =
      if list.items == list.space
      then record list {
        base = realloc indet list.base (list.space + list_block_size);
        space = list.space + list_block_size;
      }
      else list

  grow_lem :
      {list : ArrayList}
      → IsValid list
      → (take list.items (grow list).base ≡ contents list)
        × (length (grow list).base ≡ (grow list).space)
        × (list.items < (grow list).space)
        × ((grow list).items ≡ list.items)
  unfolding grow
  grow_lem {list} v = ground (
    arith,
    length-realloc list.base (list.space + list_block_size),
    take-realloc list.base list.items (list.space + list_block_size),
  )

  insert-grow :
      (list : ArrayList) (v : Ptr) (n : ℕ)
      → insert indet list v n ≡ record (grow list) {
        base = set (shift_down (list.items - n) n (grow list).base) n v;
        items = list.items + 1;
      }
  unfolding insert grow
  insert-grow list v n = refl

  gap_lem :
      (b : List Ptr) (m n : ℕ) (v : Ptr)
      → m < length b
      → n ≤ m
      → take (m + 1) (set (shift_down (m - n) n b) n v) ≡ take n (take m b) ++ v ∷ drop n (take m b)
  gap_lem b m n v h h' =
      let e : m + 1 ≡ n + suc (m - n) = omega arith in
      let e' : m ≡ n + (m - n) = omega arith in
      let step = take-shift_down (m - n) n v b (omega arith) in
      ap (λ j. take j (set (shift_down (m - n) n b) n v)) e
      ∙ step
      ∙ ap₂ (λ l r. l ++ v ∷ r) (sym (take-take n m b h'))
          (sym (drop-take n (m - n) b) ∙ ap (λ j. drop n (take j b)) (sym e'))

  -- `List_insert` at an index up to the number of items puts the item there, moves the later items
  -- one place down in order, and keeps the list well formed, whether or not it has to grow.
  pub insert-contents :
      (list : ArrayList) (v : Ptr) (n : ℕ)
      → IsValid list
      → n ≤ list.items
      → (contents (insert indet list v n) ≡ take n (contents list) ++ v ∷ drop n (contents list))
        × IsValid (insert indet list v n)
  insert-contents list v n valid h =
      let g = grow_lem valid in
      rw (insert-grow list v n) (
        gap_lem (grow list).base list.items n v (omega arith) h
            ∙ ap (λ c. take n c ++ v ∷ drop n c) g.0,
        record {
          allocated =
              length-set (shift_down (list.items - n) n (grow list).base) n v
              ∙ length-shift_down (list.items - n) n (grow list).base
              ∙ g.1;
          within = omega arith;
        },
      )

  -- `List_append` adds the item behind the last one and returns its index.
  pub append-contents :
      (list : ArrayList) (v : Ptr)
      → IsValid list
      → let (i, list') = append indet list v in
        (contents list' ≡ contents list ++ v ∷ []) × (i ≡ list.items) × IsValid list'
  unfolding append
  append-contents list v valid =
      let p = insert-contents list v list.items valid (omega arith) in
      (
        p.0
            ∙ ap₂ (λ l r. l ++ v ∷ r) (take-take list.items list.items list.base (omega arith))
                (cut list.items list.base),
        unfold insert in omega arith,
        p.1,
      )
    where
      cut : (n : ℕ) (xs : List Ptr) → drop n (take n xs) ≡ []
      cut zero xs = refl
      cut (suc n) [] = refl
      cut (suc n) (x ∷ xs) = cut n xs

  close_gap-contents :
      (list : ArrayList) (n : ℕ)
      → IsValid list
      → n < list.items
      → (contents (close_gap indet list n) ≡ take n (contents list) ++ drop (suc n) (contents list))
        × IsValid (close_gap indet list n)
        × ((close_gap indet list n).items + 1 ≡ list.items)
  unfolding close_gap
  close_gap-contents list n valid h =
      let items = list.items - 1 in
      let moved = shift_up (items - n) n list.base in
      let size : length moved ≡ list.space =
        length-shift_up (items - n) n list.base ∙ valid.allocated in
      let e : n + (items - n) ≡ items = omega arith in
      let e' : suc n + (items - n) ≡ list.items = omega arith in
      let kept : take items moved ≡ take n (contents list) ++ drop (suc n) (contents list) =
        ap (λ j. take j moved) (sym e)
        ∙ take-shift_up (items - n) n list.base (omega arith)
        ∙ ap₂ ◌++◌ (sym (take-take n list.items list.base (omega arith))) (
            sym (drop-take (suc n) (items - n) list.base)
            ∙ ap (λ j. drop (suc n) (take j list.base)) e') in
      elim (Bool-cases (ltb list_block_size (list.space - items))) [
        | inl t ↦ rw t (
          take-realloc moved items (list.space - list_block_size) (ground arith) (ground arith)
              ∙ kept,
          record {
            allocated = length-realloc moved (list.space - list_block_size);
            within = ground arith;
          },
          omega arith,
        )
        | inr f ↦ rw f (kept, record { allocated = size; within = omega arith }, omega arith)
      ]

  -- `List_remove` at an index in range that does not hold NULL returns the item there, closes the
  -- gap, and keeps the order of the others and the list well formed.
  pub remove-contents :
      (list : ArrayList) (n : ℕ)
      → IsValid list
      → n < list.items
      → get_or (contents list) n null ≢ null
      → let (v, list') = remove indet list (pos n) in
        (v ≡ get_or (contents list) n null)
        × (contents list' ≡ take n (contents list) ++ drop (suc n) (contents list))
        × IsValid list'
        × (list'.items + 1 ≡ list.items)
  unfolding remove get
  remove-contents list n valid h nonnull =
      ground (arith, get_or-take list.base list.items n null h, close_gap-contents list n valid h)

  -- `List_remove` leaves the list alone and returns NULL at an index that is out of range, and
  -- also at an index in range whose item is NULL: such an item is never removed.
  pub remove_nothing :
      (list : ArrayList) (n : ℕ)
      → (n < list.items → get_or (contents list) n null ≡ null)
      → remove indet list (pos n) ≡ (null, list)
  unfolding remove get
  remove_nothing list n h = elim (Bool-cases (ltb n list.items)) [
    | inl t ↦
        let e = get_or-take list.base list.items n null (ground arith) in
        ground (arith, h (ground arith))
    | inr f ↦ rw f
  ]

-- `List_get` at an index that is not negative reads the item in range and is NULL out of range.
pub get-contents : (list : ArrayList) (n : ℕ) → get list (pos n) ≡ get_or (contents list) n null
unfolding get
get-contents list n = elim (Bool-cases (ltb n list.items)) [
  | inl t ↦ rw t (sym (get_or-take list.base list.items n null (ground arith)))
  | inr f ↦ rw f (sym (beyond list.items list.base n (ground arith)))
]
  where
    beyond : (m : ℕ) (xs : List Ptr) (n : ℕ) → m ≤ n → get_or (take m xs) n null ≡ null
    beyond zero xs n h = refl
    beyond (suc m) [] n h = refl
    beyond (suc m) (x ∷ xs) zero h = absurd (omega arith)
    beyond (suc m) (x ∷ xs) (suc n) h = beyond m xs n (omega arith)

-- `List_set` at an index that is not negative replaces the item in range, changes nothing out of
-- range, and keeps the list well formed.
pub set_at-contents :
    (list : ArrayList) (v : Ptr) (n : ℕ)
    → IsValid list
    → (contents (set_at list v (pos n)) ≡ set (contents list) n v) × IsValid (set_at list v (pos n))
unfolding set_at
set_at-contents list v n valid = elim (Bool-cases (ltb n list.items)) [
  | inl t ↦ rw t (
    take-set list.items list.base n v,
    record { allocated = length-set list.base n v ∙ valid.allocated; within = valid.within },
  )
  | inr f ↦ rw f (sym (set_beyond list.items list.base n v (ground arith)), valid)
]
  where
    take-set : (m : ℕ) (xs : List Ptr) (n : ℕ) (v : Ptr) → take m (set xs n v) ≡ set (take m xs) n v
    take-set zero xs n v = refl
    take-set (suc m) [] n v = refl
    take-set (suc m) (x ∷ xs) zero v = refl
    take-set (suc m) (x ∷ xs) (suc n) v = ap (λ l. x ∷ l) (take-set m xs n v)

    set_beyond : (m : ℕ) (xs : List Ptr) (n : ℕ) (v : Ptr) → m ≤ n → set (take m xs) n v ≡ take m xs
    set_beyond zero xs n v h = refl
    set_beyond (suc m) [] n v h = refl
    set_beyond (suc m) (x ∷ xs) zero v h = absurd (omega arith)
    set_beyond (suc m) (x ∷ xs) (suc n) v h = ap (λ l. x ∷ l) (set_beyond m xs n v (omega arith))

-- `List_copy` gives a list of its own with the same items.
pub copy-contents :
    (list : ArrayList) {list' : ArrayList} (a b : Bool)
    → IsValid list
    → copy list a b ≡ some list'
    → (contents list' ≡ contents list) × IsValid list'
unfolding copy
copy-contents list true true valid h =
    ground (arith, take-take list.items list.space list.base, length-take list.space list.base)
copy-contents list true false valid h = cc
copy-contents list false b valid h = cc
