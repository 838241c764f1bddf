-- ===== src/Comm/Tests.antt =====
-- Packing and unpacking of concrete messages.
use libseawolf.Base.{
  ℕ, ◌<◌, ◌≡◌, refl, none, some, [], ◌∷◌, ◌++◌, arith, length, replicate, length-replicate, true,
  false, get_or, ◌≢◌,
}
use libseawolf.MemPool.{Alloc, in_block}
use libseawolf.Comm.Message.{
  Message, Unpacked, write16, pack_message, unpack_message, view, total_data_length,
}
use libseawolf.Comm.Requests
use libseawolf.Comm.Requests.{Requests, assign_request_id, store_response, fetch_response, pending}
use libseawolf.Comm.Requests.Assign.{Assigned, assign_request_id-Assigned, fetch-store}
use libseawolf.Comm.Wire.{Fits, unpack-pack, pack-overflow, unpack-unterminated}

abbrev fresh : Alloc
fresh = record {
  base = in_block 512;
  write_index = 0;
  size = 512;
  block_index = 3;
  external = false;
}

-- COMM, OK
abbrev hello : Message
hello = record {
  request_id = 258;
  count = 2;
  components = (67 ∷ 79 ∷ 77 ∷ 77 ∷ []) ∷ (79 ∷ 75 ∷ []) ∷ [];
}

hello-Fits : Fits hello
unfolding total_data_length
hello-Fits = record {
  counted = refl;
  strings = (
    (λ e. omega arith, (λ e. omega arith, (λ e. omega arith, (λ e. omega arith, tt)))),
    ((λ e. omega arith, (λ e. omega arith, tt)), tt),
  );
  short = omega arith;
  id_small = omega arith;
  count_small = omega arith;
}

unpack-pack_example :
    (u : Unpacked) × ((unpack_message fresh (pack_message fresh hello).0.bytes).0 ≡ some u)
    × (view u ≡ some hello)
    × ((unpack_message fresh (pack_message fresh hello).0.bytes).2 ≡ false)
unpack-pack_example =
    unpack-pack fresh fresh hello hello-Fits
      (record { sized = refl; room = unfold total_data_length in omega arith })

abbrev byte : ℕ
byte = 1

-- One component of 65535 bytes.
abbrev huge : Message
huge = record { request_id = 0; count = 1; components = replicate 65535 byte ∷ [] }

pack-overflow_example : (pack_message fresh huge).0.size < length (pack_message fresh huge).0.bytes
pack-overflow_example =
    pack-overflow fresh huge
      (unfold total_data_length in omega (arith, length-replicate 65535 byte))

unpack-unterminated_example :
    (unpack_message fresh (write16 2 ++ (write16 7 ++ (write16 3 ++ (65 ∷ 66 ∷ []))))).0 ≡ none
unpack-unterminated_example =
    unpack-unterminated fresh 7 3 (65 ∷ 66 ∷ []) (omega arith) (omega arith) (omega arith)
      (λ e. omega arith, (λ e. omega arith, tt))

-- Identifiers 1 and 2 wait, and 2 is the last one assigned; with three entries the table is full.
abbrev busy : Requests
busy = record {
  response_set = none ∷ none ∷ none ∷ [];
  response_pending = false ∷ true ∷ true ∷ [];
  response_set_size = 3;
  last_id = 2;
}

busy-IsValid : Requests.IsValid busy
busy-IsValid = record {
  set_sized = refl;
  pending_sized = refl;
  two = omega arith;
  last_positive = omega arith;
  last_inside = omega arith;
}

assign_request_id-Assigned_example :
    (id : ℕ) × (r' : Requests) × (assign_request_id 3 busy ≡ some (id, r')) × Assigned busy id r'
assign_request_id-Assigned_example = assign_request_id-Assigned busy busy-IsValid (omega arith)

abbrev answer : Message
answer = record hello { request_id = 2 }

fetch-store_example :
    (r₁ : Requests) × (r' : Requests) × (store_response answer busy ≡ some r₁)
    × (fetch_response 2 r₁ ≡ some (answer, r'))
    × (pending r' 2 ≡ false)
    × (get_or r'.response_set 2 none ≡ none)
    × ((j : ℕ)
        → j ≢ 2
        → (pending r' j ≡ pending busy j)
          × (get_or r'.response_set j none ≡ get_or busy.response_set j none))
fetch-store_example = fetch-store answer busy busy-IsValid (omega arith)
