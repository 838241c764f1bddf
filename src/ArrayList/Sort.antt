-- ===== src/ArrayList/Sort.antt =====
-- `List_sort` of src/list.c. `greater a b` is `cmp(a, b) > 0`. The two parts are the lists of their
-- items; a run is on fuel, which the recursive calls share.
pub mod Sorted
mod Tests
use libseawolf.Base.{
  ℕ, zero, suc, Bool, Option, none, some, List, [], ◌∷◌, ◌++◌, drop, if◌then◌else◌,
}
use libseawolf.ArrayList.{Ptr, ArrayList, contents}

module _ (greater : Ptr → Ptr → Bool) where
  -- The loop "Split list": the items that are less than the reference, and the others.
  unfoldable pub split : Ptr → List Ptr → List Ptr × List Ptr
  split reference [] = ([], [])
  split reference (current ∷ rest) =
      let (less, more) = split reference rest in
      if greater reference current then (current ∷ less, more) else (less, current ∷ more)

  -- `List_sort`, on the items.
  unfoldable pub sort_items : ℕ → List Ptr → Option (List Ptr)
  sort_items fuel [] = some []
  sort_items fuel (x ∷ []) = some (x ∷ [])
  sort_items zero (reference ∷ y ∷ rest) = none
  sort_items (suc fuel) (reference ∷ y ∷ rest) =
      let (less, more) = split reference (y ∷ rest) in
      let sorted_less = sort_items fuel less in
      let sorted_more = sort_items fuel more in
      elim sorted_less [
        | none ↦ none
        | some less' ↦ elim sorted_more [
          | none ↦ none
          | some more' ↦ some (less' ++ (reference ∷ more'))
        ]
      ]

  -- `List_sort`: the sorted items are written over the old ones.
  unfoldable pub sort : ℕ → ArrayList → Option ArrayList
  sort fuel list = elim (sort_items fuel (contents list)) [
    | none ↦ none
    | some items ↦ some (record list { base = items ++ drop list.items list.base })
  ]
