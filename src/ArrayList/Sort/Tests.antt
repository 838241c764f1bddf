-- ===== src/ArrayList/Sort/Tests.antt =====
-- A list of numbers that are compared as such.
use libseawolf.Base.{ℕ, ◌≡◌, refl, true, false, some, [], ◌∷◌, ltb, arith}
use libseawolf.ArrayList.{ArrayList, IsValid, contents}
use libseawolf.ArrayList.Sort.{sort}
use libseawolf.ArrayList.Sort.Sorted.{SameItems, Sorted, sort-Sorted}

abbrev mixed : ArrayList
mixed = record {
  base = 3 ∷ 1 ∷ 2 ∷ 9 ∷ 9 ∷ 9 ∷ 9 ∷ 9 ∷ 9 ∷ 9 ∷ 9 ∷ 9 ∷ 9 ∷ 9 ∷ 9 ∷ 9 ∷ [];
  items = 3;
  space = 16;
}

mixed-IsValid : IsValid mixed
mixed-IsValid = record { allocated = refl; within = omega arith }

sort-Sorted_example :
    (list' : ArrayList) × (sort (λ a b. ltb b a) 3 mixed ≡ some list')
    × SameItems (3 ∷ 1 ∷ 2 ∷ []) (contents list')
    × Sorted (λ a b. ltb b a) (contents list')
    × (list'.items ≡ 3)
    × (list'.space ≡ 16)
sort-Sorted_example = sort-Sorted (λ a b. ltb b a) asym trans mixed mixed-IsValid
  where
    asym : (x y : ℕ) → ltb y x ≡ true → ltb x y ≡ false
    asym x y e = ground arith

    trans : (x y z : ℕ) → ltb y x ≡ false → ltb z y ≡ false → ltb z x ≡ false
    trans x y z e f = ground arith
