-- ===== src/Dictionary/Tests.antt =====
-- The dictionary on concrete values.
use libseawolf.Base.{◌≡◌, refl, none, some, [], ◌∷◌, ◌+◌, ◌-◌, length, replicate, true}
use libseawolf.Base.Int.{pos, minus_one}
use libseawolf.Dictionary.{
  Key, Dictionary, new, set_data, remove_data, get_keys, dictionary_initial_buckets,
}
use libseawolf.Dictionary.Map.{
  IsValid, view, Writes, new-view, set_data-view, remove_data-view, get_keys-view, occurrences,
}

abbrev empty : Dictionary
empty = record {
  buckets = replicate dictionary_initial_buckets [];
  bucket_count = dictionary_initial_buckets;
  item_count = 0;
}

made : new true true ≡ some empty
unfolding new
made = refl

new-view_example : IsValid empty × ((q : Key) → view empty q ≡ none) × (empty.item_count ≡ 0)
new-view_example = new-view true true made

empty-IsValid : IsValid empty
empty-IsValid = (new-view true true made).0

-- The value 7 under the string "x".
abbrev one : Dictionary
one = set_data empty (120 ∷ 0 ∷ []) 7

one_lem : Writes empty (120 ∷ 0 ∷ []) (some 7) (0 + 1) one
one_lem =
    rw ((new-view true true made).1 (120 ∷ 0 ∷ [])) at
      (set_data-view empty (120 ∷ 0 ∷ []) 7 empty-IsValid)

set_data-view_example :
    Writes empty
      (120 ∷ 0 ∷ [])
      (some 7)
      (0 + (elim (view empty (120 ∷ 0 ∷ [])) [ none ↦ 1 | some w ↦ 0 ]))
      one
set_data-view_example = set_data-view empty (120 ∷ 0 ∷ []) 7 empty-IsValid

remove_data-view_example :
    Writes one
      (120 ∷ 0 ∷ [])
      none
      (elim (view one (120 ∷ 0 ∷ [])) [ none ↦ one.item_count | some v ↦ one.item_count - 1 ])
      (remove_data one (120 ∷ 0 ∷ [])).1
    × ((remove_data one (120 ∷ 0 ∷ [])).0
        ≡ (elim (view one (120 ∷ 0 ∷ [])) [ none ↦ minus_one | some v ↦ pos 0 ]))
    × (view one (120 ∷ 0 ∷ []) ≡ none → (remove_data one (120 ∷ 0 ∷ [])).1 ≡ one)
remove_data-view_example = remove_data-view one (120 ∷ 0 ∷ []) one_lem.valid

get_keys-view_example :
    (occurrences (120 ∷ 0 ∷ []) (get_keys one.buckets)
      ≡ (elim (view one (120 ∷ 0 ∷ [])) [ none ↦ 0 | some v ↦ 1 ]))
    × (length (get_keys one.buckets) ≡ one.item_count)
get_keys-view_example = get_keys-view one (120 ∷ 0 ∷ []) one_lem.valid
