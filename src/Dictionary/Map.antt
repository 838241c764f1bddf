-- ===== src/Dictionary/Map.antt =====
-- The dictionary of src/dictionary.c as a map from keys to values.
pub mod View
use mathlib.Core.List.{flatten}
use libseawolf.Base.{
  ℕ, ◌+◌, ◌-◌, ◌*◌, ◌/◌, ◌≤◌, ◌<◌, ◌≡◌, ◌≢◌, refl, sym, ap, subst, ◌∙◌, Bool, true, false, ◌&&◌,
  Option, none, some, List, [], ◌∷◌, ◌++◌, arith, length, length-append, length-set, set,
  get_or-set_self, get_or-set_ne, get_or-replicate, replicate, bytes_eq_sound, ◌==◌, if◌then◌else◌,
  ltb, Bool-cases, inl, inr, Option-cases,
}
use libseawolf.Base.Int.{pos, minus_one}
use libseawolf.ArrayList.{Ptr, null}
use libseawolf.Dictionary.{
  Key, Item, Dictionary, slot, store, unlink, new, increase_buckets, count_item, set_data, get_item,
  get_data, exists_data, remove_data, get_keys, bucket_keys, dictionary_initial_buckets,
  dictionary_load_factor, dictionary_maximum_buckets,
}
use libseawolf.Dictionary.Chain.{
  lookup, count, key_eq, lookup-absent, absent-lookup, find_item-lookup, lookup-store, count-store,
  store-fresh, store-new, lookup-unlink, unlink-count,
}
use libseawolf.Dictionary.Place.{
  Buckets, bucket, total, total-set, empty_bucket, count-append, flatten_single, total-replicate,
  Placed, rebuild_lem,
}
pub use libseawolf.Dictionary.Map.View.{IsValid, view, update, Writes}
use libseawolf.Dictionary.Map.View.{replace_bucket}

-- `Dictionary_increaseBuckets` doubles the buckets and keeps the invariant, the number of items and
-- the value under every key.
pub increase_buckets-view :
    (dict : Dictionary)
    → IsValid dict
    → IsValid (increase_buckets dict)
      × ((q : Key) → view (increase_buckets dict) q ≡ view dict q)
      × ((increase_buckets dict).item_count ≡ dict.item_count)
      × ((increase_buckets dict).bucket_count ≡ dict.bucket_count * 2)
unfolding increase_buckets view
increase_buckets-view dict valid =
    let n = dict.bucket_count * 2 in
    let r =
      rebuild_lem n dict.bucket_count dict.buckets (omega (arith, valid.some_buckets))
        valid.places in
    (
      record {
        sized = r.size;
        some_buckets = omega (arith, valid.some_buckets);
        places = r.places;
        counted = valid.counted ∙ sym r.kept;
      },
      r.same,
      refl,
      refl,
    )

count_item-view :
    (dict : Dictionary)
    → length dict.buckets ≡ dict.bucket_count
    → 0 < dict.bucket_count
    → Placed dict.bucket_count dict.buckets
    → dict.item_count + 1 ≡ total dict.buckets
    → IsValid (count_item dict)
      × ((q : Key) → view (count_item dict) q ≡ view dict q)
      × ((count_item dict).item_count ≡ dict.item_count + 1)
unfolding count_item
count_item-view dict sized positive places counted =
    let plus : Dictionary = record dict { item_count = dict.item_count + 1 } in
    let valid : IsValid plus = record {
      sized = sized;
      some_buckets = positive;
      places = places;
      counted = counted;
    } in
    let same : (q : Key) → view plus q ≡ view dict q = λ q. unfold view in refl in
    let (valid', same', items', _) = increase_buckets-view plus valid in
    let test =
      ltb dictionary_load_factor (plus.item_count / plus.bucket_count)
      && ltb plus.bucket_count dictionary_maximum_buckets in
    elim (Bool-cases test) [
      | inl t ↦ rw t (valid', λ q. same' q ∙ same q, items')
      | inr f ↦ rw f (valid, same, refl)
    ]

-- `Dictionary_setData` maps the key to the value and changes the value under no other key, counts
-- the item exactly when the key is new, and keeps the invariant, also when it adds buckets.
pub set_data-view :
    (dict : Dictionary) (k : Key) (v : Ptr)
    → IsValid dict
    → Writes dict k
        (some v)
        (dict.item_count + (elim (view dict k) [ none ↦ 1 | some w ↦ 0 ]))
        (set_data dict k v)
unfolding set_data view
set_data-view dict k v valid =
    let s = slot k dict.bucket_count in
    let old = bucket dict.buckets s in
    let stored = store k v old in
    let fresh = store-fresh k v old in
    let fresh_iff = store-new k v old in
    elim (Option-cases (lookup k old)) [
      | inl e ↦
          let t : stored.1 ≡ true = ground arith in
          let w' =
            replace_bucket dict k (some v) stored.0 (dict.item_count + 1) valid
              (λ q. lookup-store q k v old) (λ q. once q) (λ q f. few q f)
              (ground (arith, fresh.1)) in
          let u = w'.valid in
          let (valid', same', items') =
            count_item-view (record dict { buckets = set dict.buckets s stored.0 }) u.sized
              u.some_buckets u.places u.counted in
          rw (t, e) (record { valid = valid'; items = items'; reads = λ q. same' q ∙ w'.reads q })
      | inr (old_v, e) ↦
          let f : stored.1 ≡ false = ground arith in
          let w' =
            replace_bucket dict k (some v) stored.0 dict.item_count valid
              (λ q. lookup-store q k v old) (λ q. once q) (λ q f. few q f)
              (ground (arith, fresh.1)) in
          rw (f, e) (record { valid = w'.valid; items = omega arith; reads = w'.reads })
    ]
  where
    once : (q : Key) → count q (store k v (bucket dict.buckets (slot k dict.bucket_count))).0 ≤ 1
    once q =
        let old = bucket dict.buckets (slot k dict.bucket_count) in
        let e = bytes_eq_sound q k in
        let c = count-store q k v old in
        let u = (valid.places q (slot k dict.bucket_count)).0 in
        elim (Bool-cases (key_eq q k)) [
          | inl t ↦ let z = ap (λ x. count x old) (e t) in ground (arith, store-fresh k v old)
          | inr f ↦ ground arith
        ]

    few :
        (q : Key)
        → key_eq q k ≡ false
        → count q (store k v (bucket dict.buckets (slot k dict.bucket_count))).0
          ≤ count q (bucket dict.buckets (slot k dict.bucket_count))
    few q f = ground (arith, count-store q k v (bucket dict.buckets (slot k dict.bucket_count)))

-- `Dictionary_getData` returns the value under the key, or NULL if there is none, and
-- `Dictionary_existsData` says whether there is one.
pub get_data-view :
    (dict : Dictionary) (k : Key)
    → (get_data dict k ≡ (elim (view dict k) [ none ↦ null | some v ↦ v ]))
      × (exists_data dict k ≡ (elim (view dict k) [ none ↦ false | some v ↦ true ]))
unfolding get_data exists_data get_item view
get_data-view dict k =
    let f = find_item-lookup k (bucket dict.buckets (slot k dict.bucket_count)) in ground (arith, f)

-- `Dictionary_removeData` returns 0 and takes away the key's value, and that of no other key, if
-- there is one, with one item less; otherwise it returns -1 and changes nothing. The invariant is
-- kept.
pub remove_data-view :
    (dict : Dictionary) (k : Key)
    → IsValid dict
    → let (code, dict') = remove_data dict k in
      Writes dict k none
        (elim (view dict k) [ none ↦ dict.item_count | some v ↦ dict.item_count - 1 ])
        dict'
      × (code ≡ (elim (view dict k) [ none ↦ minus_one | some v ↦ pos 0 ]))
      × (view dict k ≡ none → dict' ≡ dict)
unfolding remove_data view
remove_data-view dict k valid =
    let s = slot k dict.bucket_count in
    let old = bucket dict.buckets s in
    let u = unlink-count k k old in
    let once = λ (q : Key). (valid.places q s).0 in
    elim (Option-cases (lookup k old)) [
      | inl e ↦
          let z = absent-lookup k old e in
          let f : (unlink k old).1 ≡ false = ground arith in
          rw (f, e)
            (
              record {
                valid = valid;
                items = refl;
                reads = λ q. elim (Bool-cases (key_eq q k)) [
                  | inl t ↦ rw t (ap (view dict) (bytes_eq_sound q k t) ∙ e)
                  | inr g ↦ rw g
                ];
              },
              refl,
              λ h. refl,
            )
      | inr (v, e) ↦
          let t : (unlink k old).1 ≡ true = ground (arith, lookup-absent k old) in
          let filled : 0 < length old = ground arith in
          let inside : s < length dict.buckets = omega (arith, valid.sized, valid.some_buckets) in
          let enough : 0 < dict.item_count =
            omega (arith, valid.counted, total-set dict.buckets s [] inside) in
          let w =
            replace_bucket dict k none (unlink k old).0 (dict.item_count - 1) valid
              (λ q. lookup-unlink q k old (once k))
              (λ q. omega (arith, (unlink-count q k old).0, once q))
              (λ q g. (unlink-count q k old).0) (ground arith) in
          rw (t, e) (w, refl, λ h. cc)
    ]

-- Reading a key after a set, and after a remove.
pub get-set :
    (dict : Dictionary) (k q : Key) (v : Ptr)
    → IsValid dict
    → get_data (set_data dict k v) q ≡ (if key_eq q k then v else get_data dict q)
get-set dict k q v valid =
    let w = set_data-view dict k v valid in
    rw ((get_data-view (set_data dict k v) q).0, w.reads q, (get_data-view dict q).0) (ground arith)

abbrev fresh_table : Dictionary
fresh_table = record {
  buckets = replicate dictionary_initial_buckets [];
  bucket_count = dictionary_initial_buckets;
  item_count = 0;
}

fresh_table-view :
    IsValid fresh_table × ((q : Key) → view fresh_table q ≡ none) × (fresh_table.item_count ≡ 0)
unfolding view lookup
fresh_table-view = (
  record {
    sized = refl;
    some_buckets = omega arith;
    places =
        λ q i. let z = empty_bucket q dictionary_initial_buckets i in (omega (arith, z), λ ne. z);
    counted = sym (total-replicate dictionary_initial_buckets);
  },
  λ q.
      ap (lookup q)
        (get_or-replicate dictionary_initial_buckets (slot q dictionary_initial_buckets) []),
  refl,
)

-- A new dictionary is well formed and empty.
pub new-view :
    {dict : Dictionary} (a b : Bool)
    → new a b ≡ some dict
    → IsValid dict × ((q : Key) → view dict q ≡ none) × (dict.item_count ≡ 0)
unfolding new
new-view {dict} true true h =
    let e : fresh_table ≡ dict = cc in
    subst (λ d. IsValid d × ((q : Key) → view d q ≡ none) × (d.item_count ≡ 0)) e fresh_table-view
new-view true false h = cc
new-view false true h = cc
new-view false false h = cc

-- How often a key stands in a list of keys.
abbrev pub occurrences : Key → List Key → ℕ
occurrences q [] = 0
occurrences q (k ∷ ks) = (if key_eq q k then 1 else 0) + occurrences q ks

occurrences-append :
    (q : Key) (xs ys : List Key) → occurrences q (xs ++ ys) ≡ occurrences q xs + occurrences q ys
occurrences-append q [] ys = omega arith
occurrences-append q (x ∷ xs) ys = omega (arith, occurrences-append q xs ys)

bucket_keys-count :
    (q : Key) (items : List Item)
    → (occurrences q (bucket_keys items) ≡ count q items)
      × (length (bucket_keys items) ≡ length items)
unfolding bucket_keys count
bucket_keys-count q [] = (refl, refl)
bucket_keys-count q (item ∷ items) = let r = bucket_keys-count q items in omega arith

get_keys-flatten :
    (q : Key) (bs : Buckets)
    → (occurrences q (get_keys bs) ≡ count q (flatten bs)) × (length (get_keys bs) ≡ total bs)
unfolding get_keys flatten total
get_keys-flatten q [] = (unfold count in refl, refl)
get_keys-flatten q (b ∷ bs) =
    let r = get_keys-flatten q bs in
    let c = bucket_keys-count q b in
    omega (
      arith,
      occurrences-append q (bucket_keys b) (get_keys bs),
      count-append q b (flatten bs),
      length-append (bucket_keys b) (get_keys bs),
    )

-- `Dictionary_getKeys` lists every key that has a value exactly once, no other key, and as many
-- keys as there are items.
pub get_keys-view :
    (dict : Dictionary) (q : Key)
    → IsValid dict
    → (occurrences q (get_keys dict.buckets) ≡ (elim (view dict q) [ none ↦ 0 | some v ↦ 1 ]))
      × (length (get_keys dict.buckets) ≡ dict.item_count)
unfolding view
get_keys-view dict q valid =
    let s = slot q dict.bucket_count in
    let home = bucket dict.buckets s in
    let single = flatten_single q dict.buckets s (λ i ne. (valid.places q i).1 ne) in
    let keys = get_keys-flatten q dict.buckets in
    let once = (valid.places q s).0 in
    (
      elim (Option-cases (lookup q home)) [
        | inl e ↦ rw e (omega (arith, absent-lookup q home e, single.1, keys.0))
        | inr (v, e) ↦ elim (Bool-cases (count q home == 0)) [
          | inl t ↦ let z = lookup-absent q home (ground arith) in cc
          | inr f ↦ rw e (ground (arith, single.1, keys.0))
        ]
      ],
      keys.1 ∙ sym valid.counted,
    )
