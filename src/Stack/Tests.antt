-- ===== src/Stack/Tests.antt =====
-- The stack on concrete values.
use libseawolf.Base.{◌+◌, ◌<◌, ◌≡◌, [], ◌∷◌, ◌++◌, arith}
use libseawolf.Stack.{Stack, push, pop, IsValid}
use libseawolf.Stack.Lifo.{items, push-items, pop-items}

-- One push away from the end of its first block.
abbrev fifteen : Stack
fifteen = record {
  base = 1 ∷ 2 ∷ 3 ∷ 4 ∷ 5 ∷ 6 ∷ 7 ∷ 8 ∷ 9 ∷ 10 ∷ 11 ∷ 12 ∷ 13 ∷ 14 ∷ 15 ∷ 99 ∷ [];
  index = 15;
}

fifteen-IsValid : IsValid fifteen
fifteen-IsValid = omega arith

push-items_example :
    (15 < 16)
    × (items (push 99 fifteen 16)
        ≡ 1 ∷ 2 ∷ 3 ∷ 4 ∷ 5 ∷ 6 ∷ 7 ∷ 8 ∷ 9 ∷ 10 ∷ 11 ∷ 12 ∷ 13 ∷ 14 ∷ 15 ∷ 16 ∷ [])
    × IsValid (push 99 fifteen 16)
push-items_example = push-items 99 fifteen 16 fifteen-IsValid

pop-items_example :
    (items fifteen ≡ items (pop 99 fifteen).1 ++ (pop 99 fifteen).0 ∷ [])
    × ((pop 99 fifteen).1.index + 1 ≡ 15)
    × IsValid (pop 99 fifteen).1
pop-items_example = pop-items 99 fifteen fifteen-IsValid (λ e. omega arith)
