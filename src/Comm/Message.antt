-- ===== src/Comm/Message.antt =====
-- Messages of include/seawolf/comm.h, and `Comm_packMessage` and `Comm_unpackMessage` of
-- src/comm.c. A component is the bytes of a C string in front of its NUL. Space comes from the
-- message's allocation, which each function returns beside its result; the sizes are those of the
-- LP64 layout. The structs lie in that allocation too. Where a request moves it, the code goes on
-- with pointers to where it was: a Boolean says so, and what is returned beside it then is what
-- comes out as long as nobody else has written to the memory that was left.
use libseawolf.Base.{
  ℕ, zero, suc, Bool, ◌||◌, ◌+◌, ◌-◌, ◌*◌, ◌/◌, ◌%◌, ◌^◌, Option, none, some, List, [], ◌∷◌, ◌++◌,
  length, get_or, take, drop, ◌==◌, if◌then◌else◌,
}
use libseawolf.MemPool.{Alloc, reserve, moves}

abbrev pub Bytes : Type 0
Bytes = List ℕ

-- `Comm_Message`, without `alloc`.
pub record Message : Type 0 where
  pub request_id : ℕ
  pub count : ℕ
  pub components : List Bytes

-- `Comm_PackedMessage`, without `alloc`. `data` is what was written from its address on.
pub record Packed : Type 0 where
  pub size : ℕ
  pub bytes : Bytes

abbrev pub prefix_len : ℕ
prefix_len = 6

abbrev pub sizeof_message : ℕ
sizeof_message = 32

abbrev pub sizeof_packed : ℕ
sizeof_packed = 24

abbrev pub sizeof_word : ℕ
sizeof_word = 8

-- A `uint16_t` in network byte order, as `htons` leaves it in memory; `read16` is `ntohs` of the
-- two bytes at an offset.
abbrev pub write16 : ℕ → Bytes
write16 n = (n / 256 % 256) ∷ (n % 256) ∷ []

abbrev pub read16 : Bytes → ℕ → ℕ
read16 bytes i = get_or bytes i 0 * 256 + get_or bytes (i + 1) 0

-- `Comm_Message_newWithAlloc`
unfoldable pub new_with_alloc : Alloc → ℕ → Message × Alloc
new_with_alloc alloc component_count =
    let message : Message = record { request_id = 0; count = component_count; components = [] } in
    let alloc' = (reserve alloc sizeof_message).1 in
    if component_count == 0
    then (message, alloc')
    else (message, (reserve alloc' (sizeof_word * component_count)).1)

-- `Comm_PackedMessage_newWithAlloc`
unfoldable pub packed_with_alloc : Alloc → Packed × Alloc
packed_with_alloc alloc = (record { size = 0; bytes = [] }, (reserve alloc sizeof_packed).1)

-- The first loop of `Comm_packMessage`: the sum of the components' lengths with their NULs.
unfoldable pub total_data_length : List Bytes → ℕ
total_data_length [] = 0
total_data_length (c ∷ cs) = length c + 1 + total_data_length cs

-- The last loop of `Comm_packMessage`: the components, each with its NUL.
unfoldable pub copy_components : List Bytes → Bytes
copy_components [] = []
copy_components (c ∷ cs) = c ++ (0 ∷ copy_components cs)

-- `Comm_packMessage`, and whether it uses a stale pointer: to the message and its components, to
-- the lengths, or to the packed message. The packed length is a `uint16_t`, and so are the three header fields.
unfoldable pub pack_message : Alloc → Message → Packed × Alloc × Bool
pack_message alloc message =
    let total = total_data_length message.components in
    let size = (total + prefix_len) % 2 ^ 16 in
    let a1 = (reserve alloc sizeof_packed).1 in
    let a2 = (reserve a1 (sizeof_word * message.count)).1 in
    let a3 = (reserve a2 size).1 in
    (
      record {
        size = size;
        bytes =
            write16 total
            ++ (write16 message.request_id
                ++ (write16 message.count ++ copy_components message.components));
      },
      a3,
      moves alloc sizeof_packed || moves a1 (sizeof_word * message.count) || moves a2 size,
    )

-- The C string at an address: the bytes up to the next NUL, or `none` if the memory ends first.
unfoldable pub c_string : Bytes → Option Bytes
c_string [] = none
c_string (zero ∷ mem) = some []
c_string (suc b ∷ mem) = elim (c_string mem) [ none ↦ none | some s ↦ some (suc b ∷ s) ]

-- The loop of `Comm_unpackMessage`: the offsets of the further components in the storage of the
-- first one. `none` is a `strlen` that reads past the end of that storage.
unfoldable pub point_from : Bytes → ℕ → ℕ → Option (List ℕ)
point_from storage zero offset = some []
point_from storage (suc rounds) offset = elim (c_string (drop offset storage)) [
  | none ↦ none
  | some s ↦
      let next = offset + length s + 1 in
      elim (point_from storage rounds next) [ none ↦ none | some rest ↦ some (next ∷ rest) ]
]

-- An unpacked message: its components are offsets into `storage`.
pub record Unpacked : Type 0 where
  pub request_id : ℕ
  pub count : ℕ
  pub storage : Bytes
  pub offsets : List ℕ

-- `Comm_unpackMessage`, and whether it uses a stale pointer: to the packed message and its data, or
-- to the message.
unfoldable pub unpack_message : Alloc → Bytes → Option Unpacked × Alloc × Bool
unpack_message alloc bytes =
    let data_length = read16 bytes 0 in
    let request_id = read16 bytes 2 in
    let count = read16 bytes 4 in
    let a1 = (new_with_alloc alloc 0).1 in
    let storage = take data_length (drop prefix_len bytes) in
    let a2 = (reserve a1 (sizeof_word * count)).1 in
    let a3 = (reserve a2 data_length).1 in
    let moved = moves alloc sizeof_message in
    let moved' = moved || moves a1 (sizeof_word * count) || moves a2 data_length in
    if count == 0
    then (
      some (record { request_id = request_id; count = 0; storage = []; offsets = [] }),
      a1,
      moved,
    )
    else elim (point_from storage (count - 1) 0) [
      | none ↦ (none, a3, moved')
      | some rest ↦ (
        some (record {
          request_id = request_id;
          count = count;
          storage = storage;
          offsets = 0 ∷ rest;
        }),
        a3,
        moved',
      )
    ]

-- The strings at a list of offsets, as the users of an unpacked message read them.
unfoldable pub strings_at : Bytes → List ℕ → Option (List Bytes)
strings_at storage [] = some []
strings_at storage (o ∷ os) = elim (c_string (drop o storage)) [
  | none ↦ none
  | some s ↦ elim (strings_at storage os) [ none ↦ none | some ss ↦ some (s ∷ ss) ]
]

-- The message that a user sees, if each of its components is a string inside the storage.
unfoldable pub view : Unpacked → Option Message
view u = elim (strings_at u.storage u.offsets) [
  | none ↦ none
  | some cs ↦ some (record { request_id = u.request_id; count = u.count; components = cs })
]
