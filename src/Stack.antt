-- ===== src/Stack.antt =====
-- src/stack.c: the growing stack of pointers. As in ArrayList, `indet` is what unwritten memory
-- holds, and a failing `realloc`, which the C code does not check, is not modelled.
pub mod Lifo
mod Tests
use libseawolf.Base.{
  ℕ, ◌+◌, ◌-◌, ◌*◌, ◌/◌, ◌%◌, ◌≤◌, ◌<◌, Bool, Option, none, some, List, length, get_or, set, take,
  replicate, ltb, ◌==◌, if◌then◌else◌,
}
use libseawolf.ArrayList.{Ptr, null, realloc}

abbrev pub stack_block_size : ℕ
stack_block_size = 16

pub record Stack : Type 0 where
  pub base : List Ptr
  pub index : ℕ

-- `Stack_new`. The Booleans say whether each of the two calls of `malloc` succeeds.
unfoldable pub new : Ptr → Bool → Bool → Option Stack
new indet stack_ok base_ok =
    if stack_ok
    then if base_ok
      then some (record { base = replicate stack_block_size indet; index = 0 })
      else none
    else none

-- `Stack_push`
unfoldable pub push : Ptr → Stack → Ptr → Stack
unfolding realloc
push indet stack v =
    let base = set stack.base stack.index v in
    let index = stack.index + 1 in
    if index % stack_block_size == 0
    then record { base = realloc indet base (index + stack_block_size); index = index }
    else record { base = base; index = index }

-- `Stack_pop`
unfoldable pub pop : Ptr → Stack → Ptr × Stack
unfolding realloc
pop indet stack =
    if stack.index == 0
    then (null, stack)
    else let index = stack.index - 1 in
      let v = get_or stack.base index null in
      if (index + 1) % stack_block_size == 0
      then (v, record { base = realloc indet stack.base (index + 1); index = index })
      else (v, record { base = stack.base; index = index })

-- `Stack_top`. On an empty stack the C code reads in front of the array: `none`.
unfoldable pub top : Stack → Option Ptr
top stack = if stack.index == 0 then none else some (get_or stack.base (stack.index - 1) null)

-- `Stack_getSize`
unfoldable pub get_size : Stack → ℕ
get_size stack = stack.index

-- The allocation reaches to the end of the block of 16 words that the next push writes into.
abbrev pub IsValid : Stack → Type 0
IsValid stack =
    (stack.index / stack_block_size) * stack_block_size + stack_block_size ≤ length stack.base
