-- ===== src/Comm/Requests.antt =====
-- The request identifiers of src/comm.c: `Comm_assignRequestID`, the storing of a response by
-- `Comm_receiveThread`, and the fetching of it by `Comm_sendMessage`. Each holds the lock of the
-- response set, so each is one step.
pub mod Assign
use libseawolf.Base.{
  ℕ, zero, suc, ◌+◌, ◌-◌, ◌%◌, ◌≤◌, ◌<◌, ◌≡◌, ◌≢◌, ◌⊎◌, inl, inr, refl, sym, ap, subst, ◌∙◌, Bool,
  true, false, ◌&&◌, Option, none, some, List, [], ◌∷◌, ◌++◌, arith, length, length-append,
  length-set, length-replicate, get_or, get_or-append_left, get_or-set_self, get_or-set_ne, set,
  replicate, ltb, ◌==◌, if◌then◌else◌, Bool-cases,
}
use libseawolf.Comm.Message.{Message}

abbrev pub response_set_grow : ℕ
response_set_grow = 8

abbrev pub max_request_id : ℕ
max_request_id = 65535

-- `response_set`, `response_pending`, `response_set_size`, and the static `last_id`.
pub record Requests : Type 0 where
  pub response_set : List (Option Message)
  pub response_pending : List Bool
  pub response_set_size : ℕ
  pub last_id : ℕ

-- The growing of both arrays in `Comm_assignRequestID`.
unfoldable pub grow : Requests → Requests
grow r = record {
  response_set = r.response_set ++ replicate response_set_grow none;
  response_pending = r.response_pending ++ replicate response_set_grow false;
  response_set_size = r.response_set_size + response_set_grow;
  last_id = r.response_set_size;
}

-- The body of the loop of `Comm_assignRequestID`.
unfoldable pub next_id : ℕ → Requests → ℕ × Requests
unfolding grow
next_id id r =
    let id' = id % (r.response_set_size - 1) + 1 in
    if id' == r.last_id && ltb (r.response_set_size + response_set_grow) max_request_id
    then (r.response_set_size, grow r)
    else (id', r)

-- The loop, or `none` if the rounds are not enough.
unfoldable pub search_id : ℕ → ℕ → Requests → Option (ℕ × Requests)
search_id zero id r = none
search_id (suc rounds) id r =
    let rest = search_id rounds (next_id id r).0 (next_id id r).1 in
    if get_or r.response_pending id false then rest else some (id, r)

-- The marking of the identifier that was found.
unfoldable pub mark_pending : ℕ → Requests → Requests
mark_pending id r = record r {
  response_set = set r.response_set id none;
  response_pending = set r.response_pending id true;
}

-- `Comm_assignRequestID`
unfoldable pub assign_request_id : ℕ → Requests → Option (ℕ × Requests)
assign_request_id rounds r = elim (search_id rounds r.last_id r) [
  | none ↦ none
  | some (id, r') ↦ some (id, mark_pending id r')
]

-- The storing of a message with a request identifier in `Comm_receiveThread`. `none` is a write
-- behind the end of the table: the identifier comes from the hub and is not checked.
unfoldable pub store_response : Message → Requests → Option Requests
store_response m r =
    if ltb m.request_id r.response_set_size
    then some (record r { response_set = set r.response_set m.request_id (some m) })
    else none

-- The taking of a response in `Comm_sendMessage`, or `none` while it is not there. The wait, and the
-- return of NULL from it during a shutdown, are not part of it.
unfoldable pub fetch_response : ℕ → Requests → Option (Message × Requests)
fetch_response id r = elim (get_or r.response_set id none) [
  | none ↦ none
  | some m ↦ some (
    m,
    record r {
      response_set = set r.response_set id none;
      response_pending = set r.response_pending id false;
    },
  )
]

pub record IsValid (r : Requests) : Type 0 where
  pub set_sized : length r.response_set ≡ r.response_set_size
  pub pending_sized : length r.response_pending ≡ r.response_set_size
  pub two : 1 < r.response_set_size
  pub last_positive : 0 < r.last_id
  pub last_inside : r.last_id < r.response_set_size

-- Whether a request with the identifier waits for its response.
abbrev pub pending : Requests → ℕ → Bool
pending r id = get_or r.response_pending id false

-- What the search returns: an identifier that no request has, in a table with the same requests.
pub record Found (r : Requests) (id : ℕ) (r' : Requests) : Type 0 where
  pub valid : IsValid r'
  pub positive : 0 < id
  pub inside : id < r'.response_set_size
  pub unused : pending r id ≡ false
  pub same : (j : ℕ) → pending r' j ≡ pending r j
