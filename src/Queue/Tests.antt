-- ===== src/Queue/Tests.antt =====
-- The queue on concrete values.
use libseawolf.Base.{◌≡◌, refl, List, [], ◌∷◌, arith}
use libseawolf.ArrayList.{IsValid}
use libseawolf.Queue.{Queue, Call, put, take_now, take_wait, done, item, waits, run}
use libseawolf.Queue.Fifo.{fifo, run-fifo}

abbrev two : Queue
two = record {
  list = record {
    base = 4 ∷ 5 ∷ 9 ∷ 9 ∷ 9 ∷ 9 ∷ 9 ∷ 9 ∷ 9 ∷ 9 ∷ 9 ∷ 9 ∷ 9 ∷ 9 ∷ 9 ∷ 9 ∷ [];
    items = 2;
    space = 16;
  };
}

two-IsValid : IsValid two.list
two-IsValid = record { allocated = refl; within = omega arith }

-- A NULL at the head, and an item behind it.
abbrev null_first : Queue
null_first = record {
  list = record {
    base = 0 ∷ 5 ∷ 9 ∷ 9 ∷ 9 ∷ 9 ∷ 9 ∷ 9 ∷ 9 ∷ 9 ∷ 9 ∷ 9 ∷ 9 ∷ 9 ∷ 9 ∷ 9 ∷ [];
    items = 2;
    space = 16;
  };
}

null_first-IsValid : IsValid null_first.list
null_first-IsValid = record { allocated = refl; within = omega arith }

abbrev calls : List Call
calls = take_wait ∷ put 6 ∷ take_now ∷ take_wait ∷ take_wait ∷ put 7 ∷ take_now ∷ take_now ∷ []

run-fifo_example :
    run 99 two calls ≡ item 4 ∷ done ∷ item 5 ∷ item 6 ∷ waits ∷ done ∷ item 7 ∷ item 0 ∷ []
unfolding fifo
run-fifo_example =
    run-fifo 99 calls two two-IsValid (λ e. omega arith, (λ e. omega arith, tt))
      (λ e. omega arith, (λ e. omega arith, tt))
