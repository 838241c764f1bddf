-- ===== src/ArrayList/Tests.antt =====
-- The list on concrete values.
use libseawolf.Base.{◌+◌, ◌≡◌, refl, some, [], ◌∷◌, arith, true}
use libseawolf.Base.Int.{pos}
use libseawolf.ArrayList.{
  ArrayList, IsValid, contents, insert, append, remove, set_at, get, copy, index_of, index_from,
}
use libseawolf.ArrayList.Ops.{
  insert-contents, append-contents, remove-contents, get-contents, set_at-contents, copy-contents,
}

abbrev three : ArrayList
three = record {
  base = 1 ∷ 2 ∷ 3 ∷ 9 ∷ 9 ∷ 9 ∷ 9 ∷ 9 ∷ 9 ∷ 9 ∷ 9 ∷ 9 ∷ 9 ∷ 9 ∷ 9 ∷ 9 ∷ [];
  items = 3;
  space = 16;
}

three-IsValid : IsValid three
three-IsValid = record { allocated = refl; within = omega arith }

-- A full allocation, whose second item is NULL.
abbrev full : ArrayList
full = record {
  base = 1 ∷ 0 ∷ 3 ∷ 4 ∷ 5 ∷ 6 ∷ 7 ∷ 8 ∷ 9 ∷ 10 ∷ 11 ∷ 12 ∷ 13 ∷ 14 ∷ 15 ∷ 16 ∷ [];
  items = 16;
  space = 16;
}

full-IsValid : IsValid full
full-IsValid = record { allocated = refl; within = omega arith }

insert-contents_example :
    (contents (insert 99 three 7 1) ≡ 1 ∷ 7 ∷ 2 ∷ 3 ∷ []) × IsValid (insert 99 three 7 1)
insert-contents_example = insert-contents 99 three 7 1 three-IsValid (omega arith)

append-contents_example :
    (contents (append 99 full 7).1
      ≡ 1 ∷ 0 ∷ 3 ∷ 4 ∷ 5 ∷ 6 ∷ 7 ∷ 8 ∷ 9 ∷ 10 ∷ 11 ∷ 12 ∷ 13 ∷ 14 ∷ 15 ∷ 16 ∷ 7 ∷ [])
    × ((append 99 full 7).0 ≡ 16)
    × IsValid (append 99 full 7).1
append-contents_example = append-contents 99 full 7 full-IsValid

remove-contents_example :
    ((remove 99 three (pos 1)).0 ≡ 2)
    × (contents (remove 99 three (pos 1)).1 ≡ 1 ∷ 3 ∷ [])
    × IsValid (remove 99 three (pos 1)).1
    × ((remove 99 three (pos 1)).1.items + 1 ≡ 3)
remove-contents_example = remove-contents 99 three 1 three-IsValid (omega arith) (λ e. omega arith)

get-contents_example : get three (pos 2) ≡ 3
get-contents_example = get-contents three 2

set_at-contents_example :
    (contents (set_at three 8 (pos 2)) ≡ 1 ∷ 2 ∷ 8 ∷ []) × IsValid (set_at three 8 (pos 2))
set_at-contents_example = set_at-contents three 8 2 three-IsValid

copy-three : copy three true true ≡ some three
unfolding copy
copy-three = refl

copy-contents_example : (contents three ≡ contents three) × IsValid three
copy-contents_example = copy-contents three true true three-IsValid copy-three

-- The search runs, and finds the place.
index_of-three : index_of three 3 ≡ pos 2
unfolding index_of index_from get
index_of-three = refl
