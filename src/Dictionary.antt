-- ===== src/Dictionary.antt =====
-- src/dictionary.c and include/seawolf/dictionary.h: the hash map. A key is its bytes, `k_size` of
-- them, and a value is a `void*`. A bucket is the linked list of its items. Each function holds the
-- dictionary's lock around its accesses to the buckets, but computes the bucket before it takes it:
-- a call is one step where no other call adds buckets in between. An allocation of an
-- item or of buckets succeeds, as the C code assumes. `item_count` is an `unsigned int` and is not
-- driven to 2^32.
pub mod Chain
pub mod Place
pub mod Map
mod Tests
use libseawolf.Base.{
  ℕ, zero, suc, ◌+◌, ◌-◌, ◌*◌, ◌/◌, ◌%◌, ◌^◌, ◌≡◌, Bool, true, false, ◌&&◌, Option, none, some,
  List, [], ◌∷◌, ◌++◌, length, get_or, set, replicate, bytes_eq, ltb, ◌==◌, if◌then◌else◌,
}
use libseawolf.Base.Int.{ℤ, pos, minus_one}
use libseawolf.ArrayList.{Ptr, null}

abbrev pub dictionary_initial_buckets : ℕ
dictionary_initial_buckets = 16

abbrev pub dictionary_maximum_buckets : ℕ
dictionary_maximum_buckets = 65536

abbrev pub dictionary_load_factor : ℕ
dictionary_load_factor = 8

abbrev pub Key : Type 0
Key = List ℕ

-- `Dictionary_Item`; the link is the place in the bucket's list.
pub record Item : Type 0 where
  pub k : Key
  pub v : Ptr

pub record Dictionary : Type 0 where
  pub buckets : List (List Item)
  pub bucket_count : ℕ
  pub item_count : ℕ

-- The loop of `Dictionary_hash`, with the 32 bit wrap of `hash_t`.
unfoldable pub hash_from : ℕ → Key → ℕ
hash_from hash [] = hash
hash_from hash (b ∷ bs) = hash_from ((hash * 2 ^ 5 % 2 ^ 32 + hash + b) % 2 ^ 32) bs

-- `Dictionary_hash`
unfoldable pub hash : Key → ℕ
hash k = hash_from 5381 k

-- `k_size == item->k_size && memcmp(k, item->k, k_size) == 0`
abbrev pub same_key : Key → Item → Bool
same_key k item = length k == length item.k && bytes_eq k item.k

-- `Dictionary_new`. The Booleans say whether each of the two allocations succeeds.
unfoldable pub new : Bool → Bool → Option Dictionary
new dict_ok buckets_ok =
    if dict_ok
    then if buckets_ok
      then some (record {
        buckets = replicate dictionary_initial_buckets [];
        bucket_count = dictionary_initial_buckets;
        item_count = 0;
      })
      else none
    else none

-- The bucket of a key among `n` buckets.
abbrev pub slot : Key → ℕ → ℕ
slot k n = hash k % n

-- One round of the inner loop of `Dictionary_increaseBuckets`: the item goes to the front.
unfoldable pub move_item : ℕ → Item → List (List Item) → List (List Item)
move_item n item new_buckets =
    let bucket = slot item.k n in set new_buckets bucket (item ∷ get_or new_buckets bucket [])

-- The inner loop: the items of one old bucket.
unfoldable pub move_bucket : ℕ → List Item → List (List Item) → List (List Item)
unfolding move_item
move_bucket n [] new_buckets = new_buckets
move_bucket n (item ∷ items) new_buckets = move_bucket n items (move_item n item new_buckets)

-- The outer loop: all old buckets.
unfoldable pub move_buckets : ℕ → List (List Item) → List (List Item) → List (List Item)
move_buckets n [] new_buckets = new_buckets
move_buckets n (b ∷ bs) new_buckets = move_buckets n bs (move_bucket n b new_buckets)

-- `Dictionary_increaseBuckets`
unfoldable pub increase_buckets : Dictionary → Dictionary
increase_buckets dict =
    let n = dict.bucket_count * 2 in
    record dict { buckets = move_buckets n dict.buckets (replicate n []); bucket_count = n }

-- The walk of `Dictionary_getItem` along a bucket.
unfoldable pub find_item : Key → List Item → Option Item
find_item k [] = none
find_item k (item ∷ items) = if same_key k item then some item else find_item k items

-- `Dictionary_getItem`
unfoldable pub get_item : Dictionary → Key → Option Item
get_item dict k = find_item k (get_or dict.buckets (slot k dict.bucket_count) [])

-- The walk of `Dictionary_setData`: the value of the item with the key is replaced, or a new item
-- is put behind the last one; the Boolean says whether the item is new.
unfoldable pub store : Key → Ptr → List Item → List Item × Bool
store k v [] = (record { k = k; v = v } ∷ [], true)
store k v (item ∷ items) =
    let (items', fresh) = store k v items in
    if same_key k item then (record item { v = v } ∷ items, false) else (item ∷ items', fresh)

-- The end of `Dictionary_setData` for a new item: count it and resize over the load factor.
unfoldable pub count_item : Dictionary → Dictionary
count_item dict =
    let counted = record dict { item_count = dict.item_count + 1 } in
    if ltb dictionary_load_factor (counted.item_count / counted.bucket_count)
      && ltb counted.bucket_count dictionary_maximum_buckets
    then increase_buckets counted
    else counted

-- `Dictionary_setData`
unfoldable pub set_data : Dictionary → Key → Ptr → Dictionary
set_data dict k v =
    let bucket = slot k dict.bucket_count in
    let (items, fresh) = store k v (get_or dict.buckets bucket []) in
    let dict' = record dict { buckets = set dict.buckets bucket items } in
    if fresh then count_item dict' else dict'

-- `Dictionary_getData`
unfoldable pub get_data : Dictionary → Key → Ptr
get_data dict k = elim (get_item dict k) [ none ↦ null | some item ↦ item.v ]

-- `Dictionary_existsData`
unfoldable pub exists_data : Dictionary → Key → Bool
exists_data dict k = elim (get_item dict k) [ none ↦ false | some item ↦ true ]

-- The walk of `Dictionary_removeData`: the bucket without the item, and whether it was there.
unfoldable pub unlink : Key → List Item → List Item × Bool
unlink k [] = ([], false)
unlink k (item ∷ items) =
    let (items', removed) = unlink k items in
    if same_key k item then (items, true) else (item ∷ items', removed)

-- `Dictionary_removeData`
unfoldable pub remove_data : Dictionary → Key → ℤ × Dictionary
remove_data dict k =
    let bucket = slot k dict.bucket_count in
    let (items, removed) = unlink k (get_or dict.buckets bucket []) in
    if removed
    then (
      pos 0,
      record dict { buckets = set dict.buckets bucket items; item_count = dict.item_count - 1 },
    )
    else (minus_one, dict)

-- The keys of a bucket, and of all buckets in order.
unfoldable pub bucket_keys : List Item → List Key
bucket_keys [] = []
bucket_keys (item ∷ items) = item.k ∷ bucket_keys items

-- `Dictionary_getKeys`, as the items of the list that it fills.
unfoldable pub get_keys : List (List Item) → List Key
get_keys [] = []
get_keys (b ∷ bs) = bucket_keys b ++ get_keys bs

-- The keys of the `Int` variants are the four bytes of the `int`, least significant first; those of
-- the string variants are the string's bytes with its NUL.
abbrev pub int_key : ℕ → Key
int_key i = (i % 256) ∷ (i / 2 ^ 8 % 256) ∷ (i / 2 ^ 16 % 256) ∷ (i / 2 ^ 24 % 256) ∷ []

abbrev pub string_key : List ℕ → Key
string_key s = s ++ 0 ∷ []

-- `Dictionary_set`, `Dictionary_get`, `Dictionary_exists`, `Dictionary_remove`
unfoldable pub set_string : Dictionary → List ℕ → Ptr → Dictionary
set_string dict s v = set_data dict (string_key s) v

unfoldable pub get_string : Dictionary → List ℕ → Ptr
get_string dict s = get_data dict (string_key s)

unfoldable pub exists_string : Dictionary → List ℕ → Bool
exists_string dict s = exists_data dict (string_key s)

unfoldable pub remove_string : Dictionary → List ℕ → ℤ × Dictionary
remove_string dict s = remove_data dict (string_key s)

-- `Dictionary_setInt`, `Dictionary_getInt`, `Dictionary_existsInt`, `Dictionary_removeInt`
unfoldable pub set_int : Dictionary → ℕ → Ptr → Dictionary
set_int dict i v = set_data dict (int_key i) v

unfoldable pub get_int : Dictionary → ℕ → Ptr
get_int dict i = get_data dict (int_key i)

unfoldable pub exists_int : Dictionary → ℕ → Bool
exists_int dict i = exists_data dict (int_key i)

unfoldable pub remove_int : Dictionary → ℕ → ℤ × Dictionary
remove_int dict i = remove_data dict (int_key i)
