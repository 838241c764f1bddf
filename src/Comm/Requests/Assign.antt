-- ===== src/Comm/Requests/Assign.antt =====
-- `Comm_assignRequestID` of src/comm.c gives every request an identifier of its own.
pub mod Search
use native.Mathlib.Nat.{mod_self, mod-eq_of_lt}
use libseawolf.Base.{
  ltb, ℕ, zero, suc, ◌+◌, ◌-◌, ◌%◌, ◌≤◌, ◌<◌, ◌≡◌, ◌≢◌, ◌⊎◌, inl, inr, refl, sym, ap, subst, ◌∙◌,
  Bool, true, false, none, some, List, [], ◌∷◌, ◌++◌, arith, length, length-append, length-set,
  get_or, get_or-set_self, get_or-set_ne, get_or-replicate, set, replicate, ◌==◌, Bool-cases,
}
use libseawolf.Comm.Message.{Message}
use libseawolf.Comm.Requests.{
  Requests, response_set_grow, max_request_id, grow, next_id, search_id, mark_pending,
  assign_request_id, store_response, fetch_response, IsValid, pending, Found,
}
use libseawolf.Comm.Requests.Assign.Search.{
  get_or-append_default, grow_lem, step_lem, beyond, Away, search_id_here, step_out,
  search_id_around, away_step, Searches, onward,
}

search_step :
    (d : ℕ) (r : Requests)
    → IsValid r
    → r.response_set_size + response_set_grow < max_request_id
    → ((k : ℕ) → suc k ≡ d → Searches k r)
    → Searches d r
search_step d r valid room ih id h h' away = elim (Bool-cases (pending r id)) [
  | inr f ↦ search_id_here (suc d) id r valid h h' f
  | inl t ↦ elim (Bool-cases (id % (r.response_set_size - 1) + 1 == r.last_id)) [
    | inl around ↦ search_id_around d id r valid room t (ground arith)
    | inr other ↦
        onward d id r t (ground arith)
          (away_step d id r.response_set_size r.last_id (id % (r.response_set_size - 1) + 1)
            valid.last_positive valid.last_inside (ground arith)
            (step_lem id r.response_set_size h h') away)
          ih
  ]
]

search_lem :
    (d : ℕ) (r : Requests)
    → IsValid r
    → r.response_set_size + response_set_grow < max_request_id
    → Searches d r
search_lem zero r valid room = search_step zero r valid room (λ k e. absurd (omega arith))
search_lem (suc d) r valid room = search_step (suc d) r valid room (λ k e.
    let same : d ≡ k = omega arith in subst (λ n. Searches n r) same (search_lem d r valid room))

-- What a call that returned `id` has done to the table.
pub record Assigned (r : Requests) (id : ℕ) (r' : Requests) : Type 0 where
  pub valid : IsValid r'
  pub positive : 0 < id
  pub was_unused : pending r id ≡ false
  pub now_pending : pending r' id ≡ true
  pub no_response : get_or r'.response_set id none ≡ none
  pub others : (j : ℕ) → j ≢ id → pending r' j ≡ pending r j

mark_lem :
    (r : Requests) (id : ℕ) (r' : Requests) → Found r id r' → Assigned r id (mark_pending id r')
unfolding mark_pending
mark_lem r id r' found = record {
  valid = record {
    set_sized = length-set r'.response_set id none ∙ found.valid.set_sized;
    pending_sized = length-set r'.response_pending id true ∙ found.valid.pending_sized;
    two = found.valid.two;
    last_positive = found.valid.last_positive;
    last_inside = found.valid.last_inside;
  };
  positive = found.positive;
  was_unused = found.unused;
  now_pending =
      get_or-set_self r'.response_pending id true false
        (omega (arith, found.inside, found.valid.pending_sized));
  no_response =
      get_or-set_self r'.response_set id none none
        (omega (arith, found.inside, found.valid.set_sized));
  others =
      λ j ne. get_or-set_ne r'.response_pending id j true false (λ e. ne (sym e)) ∙ found.same j;
}

-- While the table may still grow, `Comm_assignRequestID` ends: as many rounds as the table has
-- entries are enough for its loop. It gives the message an identifier that is not 0
-- and that no waiting request has, marks it as waiting with no response yet, and changes the mark
-- of no other identifier, also when it makes the table larger.
pub assign_request_id-Assigned :
    (r : Requests)
    → IsValid r
    → r.response_set_size + response_set_grow < max_request_id
    → (id : ℕ) × (r' : Requests) × (assign_request_id r.response_set_size r ≡ some (id, r'))
      × Assigned r id r'
unfolding assign_request_id
assign_request_id-Assigned r valid room =
    let d = r.response_set_size - 2 in
    let rounds : r.response_set_size ≡ suc (suc d) = omega (arith, valid.two) in
    let (id, r', run, found) =
      search_lem d r valid room r.last_id valid.last_positive valid.last_inside
        (inr (omega arith, omega (arith, valid.two))) in
    (
      id,
      mark_pending id r',
      rw (ap (λ n. search_id n r.last_id r) rounds ∙ run, assign_request_id) refl,
      mark_lem r id r' found,
    )

-- A response with an identifier inside the table is stored, and is what its request fetches;
-- fetching it takes it out of the table and frees the identifier, and leaves all others.
pub fetch-store :
    (m : Message) (r : Requests)
    → IsValid r
    → m.request_id < r.response_set_size
    → (r₁ : Requests) × (r' : Requests) × (store_response m r ≡ some r₁)
      × (fetch_response m.request_id r₁ ≡ some (m, r'))
      × (pending r' m.request_id ≡ false)
      × (get_or r'.response_set m.request_id none ≡ none)
      × ((j : ℕ)
          → j ≢ m.request_id
          → (pending r' j ≡ pending r j)
            × (get_or r'.response_set j none ≡ get_or r.response_set j none))
unfolding fetch_response store_response
fetch-store m r valid h =
    let id = m.request_id in
    let stored = set r.response_set id (some m) in
    let here = get_or-set_self r.response_set id (some m) none (omega (arith, valid.set_sized)) in
    let size = length-set r.response_set id (some m) in
    let inside : ltb id r.response_set_size ≡ true = ground arith in
    (
      record r { response_set = stored },
      record r {
        response_set = set stored id none;
        response_pending = set r.response_pending id false;
      },
      rw inside refl,
      rw (here, fetch_response) refl,
      get_or-set_self r.response_pending id false false (omega (arith, valid.pending_sized)),
      get_or-set_self stored id none none (omega (arith, valid.set_sized)),
      λ j ne.
          let ne' : id ≢ j = λ e. ne (sym e) in
          (
            get_or-set_ne r.response_pending id j false false ne',
            get_or-set_ne stored id j none none ne'
                ∙ get_or-set_ne r.response_set id j (some m) none ne',
          ),
    )
