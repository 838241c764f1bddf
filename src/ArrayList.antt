-- ===== src/ArrayList.antt =====
-- src/list.c and include/seawolf/list.h: the growing array of pointers. A `void*` is a number,
-- `null` is 0. Each operation returns the new list beside its result. Memory that `malloc` or
-- `realloc` hands out holds an unknown word, the parameter `indet`; a failing `realloc`, which the
-- C code does not check, is not modelled.
pub mod Shift
pub mod Ops
pub mod Search
pub mod Sort
mod Tests
use libseawolf.Base.{
  ℕ, zero, suc, ◌+◌, ◌-◌, ◌≤◌, ◌≡◌, Bool, true, false, Option, none, some, List, [], ◌∷◌, ◌++◌,
  length, get_or, set, take, replicate, ltb, ◌==◌, if◌then◌else◌,
}
use libseawolf.Base.Int.{ℤ, pos, negsuc, minus_one}

abbrev pub Ptr : Type 0
Ptr = ℕ

abbrev pub null : Ptr
null = 0

abbrev pub list_block_size : ℕ
list_block_size = 16

pub record ArrayList : Type 0 where
  pub base : List Ptr
  pub items : ℕ
  pub space : ℕ

-- `realloc(base, n words)`: the first words stay, any new ones are unknown.
unfoldable pub realloc : Ptr → List Ptr → ℕ → List Ptr
realloc indet base n = take n (base ++ replicate (n - length base) indet)

-- `List_new`. The Booleans say whether each of the two calls of `malloc` succeeds.
unfoldable pub new : Ptr → Bool → Bool → Option ArrayList
new indet list_ok base_ok =
    if list_ok
    then if base_ok
      then some
          (record { base = replicate list_block_size indet; items = 0; space = list_block_size })
      else none
    else none

-- The loop of `List_insert`: `for(i = n + rounds; i > n; i--) base[i] = base[i-1]`.
unfoldable pub shift_down : ℕ → ℕ → List Ptr → List Ptr
shift_down zero n base = base
shift_down (suc rounds) n base =
    shift_down rounds n (set base (n + suc rounds) (get_or base (n + rounds) null))

-- `List_insert` at an index that is not negative.
unfoldable pub insert : Ptr → ArrayList → Ptr → ℕ → ArrayList
unfolding realloc shift_down
insert indet list v n =
    let grown =
      if list.items == list.space
      then record list {
        base = realloc indet list.base (list.space + list_block_size);
        space = list.space + list_block_size;
      }
      else list in
    record grown {
      base = set (shift_down (list.items - n) n grown.base) n v;
      items = list.items + 1;
    }

-- `List_append`, with the index of the new item.
unfoldable pub append : Ptr → ArrayList → Ptr → ℕ × ArrayList
unfolding insert
append indet list v = let list' = insert indet list v list.items in (list'.items - 1, list')

-- `List_set`
unfoldable pub set_at : ArrayList → Ptr → ℤ → ArrayList
set_at list v (pos n) = if ltb n list.items then record list { base = set list.base n v } else list
set_at list v (negsuc n) = list

-- `List_get`
unfoldable pub get : ArrayList → ℤ → Ptr
get list (pos n) = if ltb n list.items then get_or list.base n null else null
get list (negsuc n) = null

-- The loop of `List_remove`: `rounds` times `base[i] = base[i+1]`, `i` going up.
unfoldable pub shift_up : ℕ → ℕ → List Ptr → List Ptr
shift_up zero i base = base
shift_up (suc rounds) i base = shift_up rounds (i + 1) (set base i (get_or base (i + 1) null))

-- The part of `List_remove` behind the check: close the gap, and shrink the allocation.
unfoldable pub close_gap : Ptr → ArrayList → ℕ → ArrayList
unfolding realloc shift_up
close_gap indet list n =
    let items = list.items - 1 in
    let moved = shift_up (items - n) n list.base in
    if ltb list_block_size (list.space - items)
    then record {
      base = realloc indet moved (list.space - list_block_size);
      items = items;
      space = list.space - list_block_size;
    }
    else record { base = moved; items = items; space = list.space }

-- `List_remove`
unfoldable pub remove : Ptr → ArrayList → ℤ → Ptr × ArrayList
unfolding get close_gap
remove indet list (negsuc n) = (null, list)
remove indet list (pos n) =
    let v = get list (pos n) in if v == null then (null, list) else (v, close_gap indet list n)

-- The loop of `List_indexOf` from index `i` on, over `rounds` items.
unfoldable pub index_from : ArrayList → Ptr → ℕ → ℕ → ℤ
unfolding get
index_from list v zero i = minus_one
index_from list v (suc rounds) i =
    let rest = index_from list v rounds (i + 1) in if get list (pos i) == v then pos i else rest

-- `List_indexOf`
unfoldable pub index_of : ArrayList → Ptr → ℤ
unfolding index_from
index_of list v = index_from list v list.items 0

-- `List_getSize`
unfoldable pub get_size : ArrayList → ℕ
get_size list = list.items

-- `List_copy`. The Booleans say whether each of the two calls of `malloc` succeeds.
unfoldable pub copy : ArrayList → Bool → Bool → Option ArrayList
copy list list_ok base_ok =
    if list_ok
    then if base_ok
      then some
          (record { base = take list.space list.base; items = list.items; space = list.space })
      else none
    else none

-- What a list holds, for its users.
abbrev pub contents : ArrayList → List Ptr
contents list = take list.items list.base

-- The allocation has `space` words, and the items lie inside it.
pub record IsValid (list : ArrayList) : Type 0 where
  pub allocated : length list.base ≡ list.space
  pub within : list.items ≤ list.space
