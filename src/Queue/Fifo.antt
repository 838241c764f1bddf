-- ===== src/Queue/Fifo.antt =====
-- The queue against a list of the items, oldest first.
use libseawolf.Base.{
  ◌<◌, ◌≡◌, ◌≢◌, refl, sym, ap, ◌∙◌, Bool, true, false, none, some, List, [], ◌∷◌, ◌++◌, arith,
  length, get_or, drop, length-take,
}
use libseawolf.Base.Int.{pos}
use libseawolf.ArrayList
use libseawolf.ArrayList.{Ptr, null, ArrayList, IsValid, contents}
use libseawolf.ArrayList.Ops.{append-contents, remove-contents, remove_nothing}
use libseawolf.Queue.{
  Queue, get_size, append, pop, Call, put, take_now, take_wait, Answer, done, item, waits, run,
}

abbrev pub items : Queue → List Ptr
items queue = contents queue.list

-- The queue that the documentation promises.
unfoldable pub fifo : List Ptr → List Call → List Answer
fifo q [] = []
fifo q (put v ∷ calls) = done ∷ fifo (q ++ v ∷ []) calls
fifo [] (take_now ∷ calls) = item null ∷ fifo [] calls
fifo (x ∷ q) (take_now ∷ calls) = item x ∷ fifo q calls
fifo [] (take_wait ∷ calls) = waits ∷ fifo [] calls
fifo (x ∷ q) (take_wait ∷ calls) = item x ∷ fifo q calls

-- No item that is put is NULL.
abbrev pub NonNull : List Ptr → Type 0
NonNull [] = Unit
NonNull (x ∷ xs) = (x ≢ null) × NonNull xs

abbrev pub PutsNonNull : List Call → Type 0
PutsNonNull [] = Unit
PutsNonNull (put v ∷ calls) = (v ≢ null) × PutsNonNull calls
PutsNonNull (take_now ∷ calls) = PutsNonNull calls
PutsNonNull (take_wait ∷ calls) = PutsNonNull calls

NonNull-snoc : (xs : List Ptr) (v : Ptr) → NonNull xs → v ≢ null → NonNull (xs ++ v ∷ [])
NonNull-snoc [] v h h' = (h', tt)
NonNull-snoc (x ∷ xs) v h h' = (h.0, NonNull-snoc xs v h.1 h')

module _ (indet : Ptr) where
  -- `Queue_append` adds the item behind the others.
  pub append-items :
      (queue : Queue) (v : Ptr)
      → IsValid queue.list
      → (items (append indet queue v) ≡ items queue ++ v ∷ []) × IsValid (append indet queue v).list
  unfolding append
  append-items queue v valid = let p = append-contents indet queue.list v valid in (p.0, p.2)

  pub pop_empty :
      (queue : Queue)
      → IsValid queue.list
      → items queue ≡ []
      → (pop indet queue true ≡ none) × (pop indet queue false ≡ some (null, queue))
  unfolding pop get_size ArrayList.remove ArrayList.get
  pop_empty queue valid e =
      let l = ap length e in
      let z : queue.list.items ≡ 0 = omega (arith, length-take queue.list.items queue.list.base) in
      ground arith

  pub pop-some :
      (queue : Queue) (wait : Bool) (x : Ptr) (q : List Ptr)
      → IsValid queue.list
      → items queue ≡ x ∷ q
      → x ≢ null
      → (queue' : Queue) × (pop indet queue wait ≡ some (x, queue'))
        × (items queue' ≡ q)
        × IsValid queue'.list
  unfolding pop get_size
  pop-some queue wait x q valid e nonnull =
      let l = ap length e in
      let p : 0 < queue.list.items = omega (arith, length-take queue.list.items queue.list.base) in
      let first : get_or (items queue) 0 null ≡ x = ap (λ l. get_or l 0 null) e in
      let r = remove-contents indet queue.list 0 valid p (λ b. nonnull (sym first ∙ b)) in
      (
        record { list = (ArrayList.remove indet queue.list (pos 0)).1 },
        ground (arith, r.0, first),
        r.1 ∙ ap (drop 1) e,
        r.2,
      )

  run-fifo_from :
      (calls : List Call) (queue : Queue) (q : List Ptr)
      → IsValid queue.list
      → items queue ≡ q
      → NonNull q
      → PutsNonNull calls
      → run indet queue calls ≡ fifo q calls
  unfolding run fifo
  run-fifo_from [] queue q valid e nn puts = refl
  run-fifo_from (put v ∷ calls) queue q valid e nn puts =
      let a = append-items queue v valid in
      ap (λ l. done ∷ l)
        (run-fifo_from calls (append indet queue v) (q ++ v ∷ []) a.1
          (a.0 ∙ ap (λ l. l ++ v ∷ []) e) (NonNull-snoc q v nn puts.0) puts.1)
  run-fifo_from (take_now ∷ calls) queue [] valid e nn puts =
      rw ((pop_empty queue valid e).1, run)
        (ap (λ l. item null ∷ l) (run-fifo_from calls queue [] valid e nn puts))
  run-fifo_from (take_now ∷ calls) queue (x ∷ q) valid e nn puts =
      let (queue', popped, e', valid') = pop-some queue false x q valid e nn.0 in
      rw (popped, run) (ap (λ l. item x ∷ l) (run-fifo_from calls queue' q valid' e' nn.1 puts))
  run-fifo_from (take_wait ∷ calls) queue [] valid e nn puts =
      rw ((pop_empty queue valid e).0, run)
        (ap (λ l. waits ∷ l) (run-fifo_from calls queue [] valid e nn puts))
  run-fifo_from (take_wait ∷ calls) queue (x ∷ q) valid e nn puts =
      let (queue', popped, e', valid') = pop-some queue true x q valid e nn.0 in
      rw (popped, run) (ap (λ l. item x ∷ l) (run-fifo_from calls queue' q valid' e' nn.1 puts))

  -- For any order in which the threads' calls take the lock, the queue answers them as a first in,
  -- first out list does: an item is popped once, in the order of the appends, a pop that may not
  -- wait finds NULL only in an empty queue, and one that may wait waits only there. The queue is
  -- well formed and no item is NULL.
  pub run-fifo :
      (calls : List Call) (queue : Queue)
      → IsValid queue.list
      → NonNull (items queue)
      → PutsNonNull calls
      → run indet queue calls ≡ fifo (items queue) calls
  run-fifo calls queue valid nn puts = run-fifo_from calls queue (items queue) valid refl nn puts

  -- A pop of a well formed queue whose oldest item is NULL returns NULL and leaves the queue as it
  -- is, so that the items behind the NULL stay out of reach.
  pub pop-null_head :
      (queue : Queue) (wait : Bool) (q : List Ptr)
      → IsValid queue.list
      → items queue ≡ null ∷ q
      → pop indet queue wait ≡ some (null, queue)
  unfolding pop get_size
  pop-null_head queue wait q valid e =
      let l = ap length e in
      let p : 0 < queue.list.items = omega (arith, length-take queue.list.items queue.list.base) in
      ground (arith, remove_nothing indet queue.list 0 (λ _. ap (λ l. get_or l 0 null) e))
