-- ===== src/Dictionary/Chain.antt =====
-- One bucket of src/dictionary.c: what a walk along its items finds.
use libseawolf.Base.{
  ℕ, ◌+◌, ◌≤◌, ◌≡◌, ◌≢◌, refl, sym, ap, Bool, true, false, ◌&&◌, Option, none, some, List, [], ◌∷◌,
  arith, length, bytes_eq, bytes_eq_sound, bytes_eq_refl, ==_refl, ◌==◌, if◌then◌else◌, Bool-cases,
  inl, inr,
}
use libseawolf.ArrayList.{Ptr}
use libseawolf.Dictionary.{Key, Item, same_key, find_item, store, unlink}

pub same_key-eq : (k : Key) (item : Item) → same_key k item ≡ true → k ≡ item.k
same_key-eq k item h = bytes_eq_sound k item.k (ground arith)

pub same_key_refl : (item : Item) → same_key item.k item ≡ true
same_key_refl item = ground (arith, ==_refl (length item.k), bytes_eq_refl item.k)

pub same_key-ne : (k : Key) (item : Item) → k ≢ item.k → same_key k item ≡ false
same_key-ne k item ne = elim (Bool-cases (same_key k item)) [
  | inl t ↦ absurd (ne (same_key-eq k item t))
  | inr f ↦ f
]

-- Whether two keys are equal.
abbrev pub key_eq : Key → Key → Bool
key_eq j k = bytes_eq j k

-- The value under a key in a list of items.
unfoldable pub lookup : Key → List Item → Option Ptr
lookup k [] = none
lookup k (item ∷ items) = if key_eq k item.k then some item.v else lookup k items

same_key-key_eq : (k : Key) (item : Item) → same_key k item ≡ key_eq k item.k
same_key-key_eq k item = elim (Bool-cases (key_eq k item.k)) [
  | inl t ↦ let e = bytes_eq_sound k item.k t in ground (arith, ap length e, ==_refl (length k))
  | inr f ↦ ground arith
]

pub find_item-lookup :
    (k : Key) (items : List Item)
    → (elim (find_item k items) [ none ↦ none | some item ↦ some item.v ]) ≡ lookup k items
unfolding find_item lookup
find_item-lookup k [] = refl
find_item-lookup k (item ∷ items) =
    rw (same_key-key_eq k item) (ground (arith, find_item-lookup k items))

key_eq-congr : (j k l : Key) → key_eq k l ≡ true → key_eq j l ≡ key_eq j k
key_eq-congr j k l h = ap (key_eq j) (sym (bytes_eq_sound k l h))

key_eq-left : (j k l : Key) → key_eq j k ≡ true → key_eq j l ≡ key_eq k l
key_eq-left j k l h = ap (λ x. key_eq x l) (bytes_eq_sound j k h)

-- Storing under a key changes the value under that key only.
pub lookup-store :
    (j k : Key) (v : Ptr) (items : List Item)
    → lookup j (store k v items).0 ≡ (if key_eq j k then some v else lookup j items)
unfolding lookup store
lookup-store j k v [] = refl
lookup-store j k v (item ∷ items) =
    rw (same_key-key_eq k item)
      (ground (arith, lookup-store j k v items, key_eq-congr j k item.k, key_eq-left j k item.k))

-- How often a key stands in a list of items.
unfoldable pub count : Key → List Item → ℕ
count k [] = 0
count k (item ∷ items) = (if key_eq k item.k then 1 else 0) + count k items

pub lookup-absent : (k : Key) (items : List Item) → count k items ≡ 0 → lookup k items ≡ none
unfolding lookup count
lookup-absent k [] h = refl
lookup-absent k (item ∷ items) h = ground (arith, lookup-absent k items)

pub absent-lookup : (k : Key) (items : List Item) → lookup k items ≡ none → count k items ≡ 0
unfolding lookup count
absent-lookup k [] h = refl
absent-lookup k (item ∷ items) h = ground (arith, absent-lookup k items)

pub count-store :
    (j k : Key) (v : Ptr) (items : List Item)
    → count j (store k v items).0
      ≡ count j items + (if key_eq j k && (store k v items).1 then 1 else 0)
unfolding count store
count-store j k v [] = ground arith
count-store j k v (item ∷ items) =
    rw (same_key-key_eq k item) (ground (arith, count-store j k v items))

pub store-fresh :
    (k : Key) (v : Ptr) (items : List Item)
    → ((store k v items).1 ≡ true → count k items ≡ 0)
      × (length (store k v items).0 ≡ length items + (if (store k v items).1 then 1 else 0))
unfolding count store
store-fresh k v [] = (λ h. refl, omega arith)
store-fresh k v (item ∷ items) = rw (same_key-key_eq k item) (ground (arith, store-fresh k v items))

-- Unlinking a key that stands at most once removes it and no other.
pub lookup-unlink :
    (j k : Key) (items : List Item)
    → count k items ≤ 1
    → lookup j (unlink k items).0 ≡ (if key_eq j k then none else lookup j items)
unfolding lookup unlink count
lookup-unlink j k [] h = ground arith
lookup-unlink j k (item ∷ items) h = rw (same_key-key_eq k item) (
    ground (
      arith,
      lookup-unlink j k items,
      key_eq-congr j k item.k,
      key_eq-left j k item.k,
      lookup-absent k items,
      bytes_eq_sound j k,
    ))

pub unlink-count :
    (j k : Key) (items : List Item)
    → (count j (unlink k items).0 ≤ count j items)
      × (length (unlink k items).0 + (if (unlink k items).1 then 1 else 0) ≡ length items)
      × ((unlink k items).1 ≡ false → (unlink k items).0 ≡ items)
      × ((unlink k items).1 ≡ (if count k items == 0 then false else true))
unfolding count unlink
unlink-count j k [] = ground arith
unlink-count j k (item ∷ items) =
    rw (same_key-key_eq k item) (ground (arith, unlink-count j k items))

-- A stored item is new exactly when the key had no value.
pub store-new :
    (k : Key) (v : Ptr) (items : List Item)
    → (store k v items).1 ≡ (elim (lookup k items) [ none ↦ true | some w ↦ false ])
unfolding store lookup
store-new k v [] = refl
store-new k v (item ∷ items) = rw (same_key-key_eq k item) (ground (arith, store-new k v items))
