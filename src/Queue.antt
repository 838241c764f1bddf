-- ===== src/Queue.antt =====
-- src/queue.c: the thread safe queue. Each function holds the queue's mutex from its first access
-- to its last one, so a call is one step. A pop that waits on the condition variable for an item
-- is `none`: the call has not returned, and can be tried again after another thread's append.
pub mod Fifo
mod Tests
use libseawolf.Base.{
  ℕ, ◌≡◌, Bool, true, false, ◌&&◌, Option, none, some, List, [], ◌∷◌, ◌==◌, replicate,
  if◌then◌else◌,
}
use libseawolf.Base.Int.{pos}
use libseawolf.ArrayList
use libseawolf.ArrayList.{list_block_size, Ptr, ArrayList}

pub record Queue : Type 0 where
  pub list : ArrayList

-- `Queue_new`, where memory is available.
unfoldable pub new : Ptr → Queue
new indet = record {
  list = record { base = replicate list_block_size indet; items = 0; space = list_block_size };
}

-- `Queue_getSize`
unfoldable pub get_size : Queue → ℕ
unfolding ArrayList.get_size
get_size queue = ArrayList.get_size queue.list

-- `Queue_append`
unfoldable pub append : Ptr → Queue → Ptr → Queue
unfolding ArrayList.append
append indet queue v = record { list = (ArrayList.append indet queue.list v).1 }

-- `Queue_pop`
unfoldable pub pop : Ptr → Queue → Bool → Option (Ptr × Queue)
unfolding ArrayList.remove get_size
pop indet queue wait =
    if wait && get_size queue == 0
    then none
    else let (v, list) = ArrayList.remove indet queue.list (pos 0) in
      some (v, record { list = list })

-- What a thread asks of the queue, and what it is answered; `none` is a call that still waits.
pub data Call : Type 0 where
  put : Ptr → Call
  take_now take_wait : Call

pub data Answer : Type 0 where
  done : Answer
  item : Ptr → Answer
  waits : Answer

-- The calls of all threads in the order in which they hold the lock.
unfoldable pub run : Ptr → Queue → List Call → List Answer
run indet queue [] = []
run indet queue (put v ∷ calls) = done ∷ run indet (append indet queue v) calls
run indet queue (take_now ∷ calls) = elim (pop indet queue false) [
  | none ↦ waits ∷ run indet queue calls
  | some (v, queue') ↦ item v ∷ run indet queue' calls
]
run indet queue (take_wait ∷ calls) = elim (pop indet queue true) [
  | none ↦ waits ∷ run indet queue calls
  | some (v, queue') ↦ item v ∷ run indet queue' calls
]
