-- ===== src/Comm/Requests/Assign/Search.antt =====
-- The cycle of identifiers that `Comm_assignRequestID` of src/comm.c goes through.
use native.Mathlib.Nat.{mod_self, mod-eq_of_lt}
use libseawolf.Base.{
  ℕ, zero, suc, ◌+◌, ◌-◌, ◌%◌, ◌≤◌, ◌<◌, ◌≡◌, ◌≢◌, ◌⊎◌, inl, inr, refl, sym, ap, ◌∙◌, Bool, true,
  false, none, some, List, [], ◌∷◌, ◌++◌, arith, length, length-append, get_or, get_or-replicate,
  replicate, ◌==◌, Bool-cases,
}
use libseawolf.Comm.Requests.{
  Requests, response_set_grow, max_request_id, grow, next_id, search_id, IsValid, pending, Found,
}

pub get_or-append_default :
    {A : Type 0} (xs : List A) (n i : ℕ) (a : A) → get_or (xs ++ replicate n a) i a ≡ get_or xs i a
get_or-append_default [] n i a = get_or-replicate n i a
get_or-append_default (x ∷ xs) n zero a = refl
get_or-append_default (x ∷ xs) n (suc i) a = get_or-append_default xs n i a

pub grow_lem :
    (r : Requests) → IsValid r → IsValid (grow r) × ((j : ℕ) → pending (grow r) j ≡ pending r j)
unfolding grow
grow_lem r valid = (
  record {
    set_sized =
        omega
          (arith, length-append r.response_set (replicate response_set_grow none), valid.set_sized);
    pending_sized = omega (
      arith,
      length-append r.response_pending (replicate response_set_grow false),
      valid.pending_sized,
    );
    two = omega (arith, valid.two);
    last_positive = omega (arith, valid.two);
    last_inside = omega arith;
  },
  λ j. get_or-append_default r.response_pending response_set_grow j false,
)

-- The identifier behind `id` in the cycle from 1 to below `size`.
pub step_lem :
    (id size : ℕ)
    → 0 < id
    → id < size
    → ((id + 1 < size) × (id % (size - 1) + 1 ≡ id + 1))
      ⊎ ((id + 1 ≡ size) × (id % (size - 1) + 1 ≡ 1))
step_lem id size h h' = elim (Bool-cases (id + 1 == size)) [
  | inl t ↦
      let e : size - 1 ≡ id = ground arith in
      inr (ground arith, ap (λ n. id % n + 1) e ∙ ap (λ n. n + 1) (mod_self id))
  | inr f ↦
      let e : id < size - 1 = ground arith in inl (ground arith, ap (λ n. n + 1) (mod-eq_of_lt e))
]

-- No entry behind the last one is pending.
pub beyond : (xs : List Bool) (i : ℕ) → length xs ≤ i → get_or xs i false ≡ false
beyond [] i h = refl
beyond (x ∷ xs) zero h = absurd (omega arith)
beyond (x ∷ xs) (suc i) h = beyond xs i (omega arith)

-- `d` more rounds lead from `id` around the cycle to the identifier where the search began.
abbrev pub Away : ℕ → ℕ → Requests → Type 0
Away d id r =
    ((id < r.last_id) × (id + d ≡ r.last_id))
    ⊎ ((r.last_id ≤ id) × (id + d + 1 ≡ r.response_set_size + r.last_id))

pub search_id_here :
    (rounds id : ℕ) (r : Requests)
    → IsValid r
    → 0 < id
    → id < r.response_set_size
    → pending r id ≡ false
    → (id' : ℕ) × (r' : Requests) × (search_id (suc rounds) id r ≡ some (id', r')) × Found r id' r'
unfolding search_id
search_id_here rounds id r valid h h' f = (
  id,
  r,
  rw f refl,
  record { valid = valid; positive = h; inside = h'; unused = f; same = λ j. refl },
)

pub step_out :
    (rounds id : ℕ) (r : Requests)
    → pending r id ≡ true
    → search_id (suc rounds) id r ≡ search_id rounds (next_id id r).0 (next_id id r).1
unfolding search_id
step_out rounds id r t = rw t refl

-- The search has come around: the table grows, and the first new identifier is free.
pub search_id_around :
    (rounds id : ℕ) (r : Requests)
    → IsValid r
    → r.response_set_size + response_set_grow < max_request_id
    → pending r id ≡ true
    → id % (r.response_set_size - 1) + 1 ≡ r.last_id
    → (id' : ℕ) × (r' : Requests) × (search_id (suc (suc rounds)) id r ≡ some (id', r'))
      × Found r id' r'
search_id_around rounds id r valid room t around =
    let n = r.response_set_size in
    let (valid', same) = grow_lem r valid in
    let unused : pending r n ≡ false =
      beyond r.response_pending n (omega (arith, valid.pending_sized)) in
    let moved : next_id id r ≡ (n, grow r) = unfold next_id in ground arith in
    let larger : n < (grow r).response_set_size = unfold grow in omega arith in
    let (id', r', run, found) =
      search_id_here rounds n (grow r) valid' (omega (arith, valid.two)) larger (same n ∙ unused) in
    (
      id',
      r',
      step_out (suc rounds) id r t
          ∙ ap (λ (s : ℕ × Requests). search_id (suc rounds) s.0 s.1) moved
          ∙ run,
      record {
        valid = found.valid;
        positive = found.positive;
        inside = found.inside;
        unused = sym (same id') ∙ found.unused;
        same = λ j. found.same j ∙ same j;
      },
    )

-- One step around the cycle that does not end at the start leaves one round less.
pub away_step :
    (d id n l m : ℕ)
    → 0 < l
    → l < n
    → m ≢ l
    → ((id + 1 < n) × (m ≡ id + 1)) ⊎ ((id + 1 ≡ n) × (m ≡ 1))
    → ((id < l) × (id + suc d ≡ l)) ⊎ ((l ≤ id) × (id + suc d + 1 ≡ n + l))
    → (0 < d) × (0 < m) × (m < n) × (((m < l) × (m + d ≡ l)) ⊎ ((l ≤ m) × (m + d + 1 ≡ n + l)))
away_step d id n l m h h' ne (inl (a, b)) (inl (x, y)) =
    (omega arith, omega arith, omega arith, inl (omega arith, omega arith))
away_step d id n l m h h' ne (inl (a, b)) (inr (x, y)) =
    (omega arith, omega arith, omega arith, inr (omega arith, omega arith))
away_step d id n l m h h' ne (inr (a, b)) (inl (x, y)) = absurd (omega arith)
away_step d id n l m h h' ne (inr (a, b)) (inr (x, y)) =
    (omega arith, omega arith, omega arith, inl (omega arith, omega arith))

-- With `d + 2` rounds the search returns, from any identifier that is `d + 1` rounds away.
abbrev pub Searches : ℕ → Requests → Type 0
Searches d r =
    (id : ℕ)
    → 0 < id
    → id < r.response_set_size
    → Away (suc d) id r
    → (id' : ℕ) × (r' : Requests) × (search_id (suc (suc d)) id r ≡ some (id', r')) × Found r id' r'

pub onward :
    (d id : ℕ) (r : Requests)
    → pending r id ≡ true
    → id % (r.response_set_size - 1) + 1 ≢ r.last_id
    → (0 < d)
      × (0 < id % (r.response_set_size - 1) + 1)
      × (id % (r.response_set_size - 1) + 1 < r.response_set_size)
      × Away d (id % (r.response_set_size - 1) + 1) r
    → ((k : ℕ) → suc k ≡ d → Searches k r)
    → (id' : ℕ) × (r' : Requests) × (search_id (suc (suc d)) id r ≡ some (id', r')) × Found r id' r'
onward zero id r t other (a, b, c, e) ih = absurd (omega arith)
onward (suc d) id r t other (a, b, c, e) ih =
    let id' = id % (r.response_set_size - 1) + 1 in
    let moved : next_id id r ≡ (id', r) = unfold next_id in ground arith in
    let (found_id, r', run, found) = ih d refl id' b c e in
    (
      found_id,
      r',
      step_out (suc (suc d)) id r t
          ∙ ap (λ (s : ℕ × Requests). search_id (suc (suc d)) s.0 s.1) moved
          ∙ run,
      found,
    )
