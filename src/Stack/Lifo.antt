-- ===== src/Stack/Lifo.antt =====
-- The stack against a list of its items, the top one last.
use libseawolf.Base.{
  suc, ◌+◌, ◌-◌, ◌%◌, ◌<◌, ◌≡◌, ◌≢◌, sym, ap, ◌∙◌, false, some, List, [], ◌∷◌, ◌++◌, arith, length,
  get_or, set, take, length-set, snoc-injective, take-set_last, take-suc, Bool-cases, ◌==◌, inl,
  inr,
}
use libseawolf.ArrayList.{Ptr, null}
use libseawolf.ArrayList.Ops.{length-realloc, take-realloc}
use libseawolf.Stack.{Stack, stack_block_size, push, pop, top, IsValid}

abbrev pub items : Stack → List Ptr
items stack = take stack.index stack.base

module _ (indet : Ptr) where
  -- `Stack_push` writes inside the allocation, adds the item on top of the others, and leaves room
  -- for the next push, across every resize.
  pub push-items :
      (stack : Stack) (v : Ptr)
      → IsValid stack
      → (stack.index < length stack.base)
        × (items (push indet stack v) ≡ items stack ++ v ∷ [])
        × IsValid (push indet stack v)
  unfolding push
  push-items stack v valid =
      let inside : stack.index < length stack.base = omega arith in
      let one : stack.index + 1 ≡ suc stack.index = omega arith in
      let grown = set stack.base stack.index v in
      let kept = take-set_last stack.base stack.index v inside in
      elim (Bool-cases ((stack.index + 1) % stack_block_size == 0)) [
        | inl t ↦ rw t (
          inside,
          take-realloc indet grown (stack.index + 1) (stack.index + 1 + stack_block_size)
                (omega arith) (omega (arith, length-set stack.base stack.index v))
              ∙ ap (λ n. take n grown) one
              ∙ kept,
          omega (arith, length-realloc indet grown (stack.index + 1 + stack_block_size)),
        )
        | inr f ↦ rw f (
          inside,
          ap (λ n. take n grown) one ∙ kept,
          ground (arith, length-set stack.base stack.index v),
        )
      ]

  -- `Stack_pop` on a stack that is not empty returns the top item and takes it off, and keeps the
  -- others and the room for the next push, across every resize.
  pub pop-items :
      (stack : Stack)
      → IsValid stack
      → stack.index ≢ 0
      → let (v, stack') = pop indet stack in
        (items stack ≡ items stack' ++ v ∷ []) × (stack'.index + 1 ≡ stack.index) × IsValid stack'
  unfolding pop
  pop-items stack valid ne =
      let i = stack.index - 1 in
      let e : stack.index ≡ suc i = omega arith in
      let e' : i + 1 ≡ suc i = omega arith in
      let split : items stack ≡ take i stack.base ++ get_or stack.base i null ∷ [] =
        ap (λ n. take n stack.base) e ∙ take-suc stack.base i null (omega arith) in
      let nonzero : stack.index == 0 ≡ false = ground arith in
      elim (Bool-cases ((i + 1) % stack_block_size == 0)) [
        | inl t ↦
            rw (nonzero, t)
              (
                split
                    ∙ ap (λ l. l ++ get_or stack.base i null ∷ [])
                        (sym (take-realloc indet stack.base i (i + 1) (omega arith) (omega arith))),
                omega arith,
                ground (arith, length-realloc indet stack.base (i + 1)),
              )
        | inr f ↦ rw (nonzero, f) (split, omega arith, ground arith)
      ]

  top-pop : (stack : Stack) → stack.index ≢ 0 → top stack ≡ some (pop indet stack).0
  unfolding top pop
  top-pop stack ne = ground arith

  -- A pop right after a push returns the pushed value and leaves the items that were there before
  -- the push; `Stack_top` sees the pushed value in between.
  pub pop-push :
      (stack : Stack) (v : Ptr)
      → IsValid stack
      → (top (push indet stack v) ≡ some v)
        × ((pop indet (push indet stack v)).0 ≡ v)
        × (items (pop indet (push indet stack v)).1 ≡ items stack)
        × IsValid (pop indet (push indet stack v)).1
  pop-push stack v valid =
      let (inside, pushed, valid') = push-items stack v valid in
      let index : (push indet stack v).index ≡ stack.index + 1 = unfold push in ground arith in
      let (split, below, valid'') = pop-items (push indet stack v) valid' (omega arith) in
      let (rest, value) =
        snoc-injective (items (pop indet (push indet stack v)).1) (items stack)
          (pop indet (push indet stack v)).0 v (sym split ∙ pushed) in
      (top-pop (push indet stack v) (omega arith) ∙ ap some value, value, rest, valid'')
