-- ===== src/Hub/State.antt =====
-- The state of the hub: include/seawolf/notify.h and src/hub/seawolf_hub.h, the static variables of
-- hub/netloop.c and hub/var.c, and what the hub calls in the C library. A client is named by a
-- number and kept in a store; a list of clients holds names. Diagnostics that the hub writes about
-- itself are not modelled.
use Prim.Native.Char.{code}
use Prim.Native.String.{String}
use libseawolf.Base.{ℕ, Bool, Option, some, List, [], ◌∷◌, bytes_eq, ◌==◌, if◌then◌else◌}
use libseawolf.Comm.Message.{Bytes, Message}

-- `Hub_Client_State`
pub data ClientState : Type 0 where
  unknown unauthenticated connected closed : ClientState

abbrev pub is_connected : ClientState → Bool
is_connected connected = Bool.true
is_connected unknown = Bool.false
is_connected unauthenticated = Bool.false
is_connected closed = Bool.false

abbrev pub is_closed : ClientState → Bool
is_closed closed = Bool.true
is_closed unknown = Bool.false
is_closed unauthenticated = Bool.false
is_closed connected = Bool.false

-- A stored filter: its first byte and the bytes behind it.
pub record Filter : Type 0 where
  pub kind : ℕ
  pub body : Bytes

-- `Hub_Client`, without its locks, its thread and its unused name. `subscribed_vars` holds the
-- variables' names.
pub record Client : Type 0 where
  pub sock : ℕ
  pub state : ClientState
  pub filters : List Filter
  pub subscribed_vars : List Bytes

-- `Hub_Var`. `stuck` says that a thread has left the write lock held for good.
pub record Var (V : Type 0) : Type 0 where
  pub value : V
  pub default_value : V
  pub persistent : Bool
  pub readonly : Bool
  pub stuck : Bool
  pub subscribers : List ℕ

pub record LogEntry : Type 0 where
  pub app_name : Bytes
  pub level : ℕ
  pub msg : Bytes

pub record Hub (V : Type 0) : Type 0 where
  pub client : ℕ → Client
  pub clients : List ℕ
  pub closed_clients : List ℕ
  pub var : Bytes → Option (Var V)
  pub do_flush_flag : Bool
  pub password : Option Bytes
  pub log : List LogEntry
  -- every message handed to `send`, with its client, oldest first, and the number of attempts
  pub sent : List (ℕ × Message)
  pub attempts : ℕ

-- What the hub calls and does not implement: `atof` and the `%f` of `printf`, `atoi` as the bit
-- pattern of its `int`, and, for a socket and the number of earlier attempts, whether `poll` finds
-- it writable and `send` succeeds.
pub record Libc (V : Type 0) : Type 0 where
  pub atof : Bytes → V
  pub format : V → Bytes
  pub atoi : Bytes → ℕ
  pub poll_out : ℕ → ℕ → Bool
  pub send_ok : ℕ → ℕ → Bool

abbrev pub codes : String → Bytes
codes String.[] = []
codes (String.◌∷◌ c s) = code c ∷ codes s

abbrev pub update_client : {V : Type 0} → Hub V → ℕ → Client → Hub V
update_client h c x = record h { client = λ d. if d == c then x else h.client d }

abbrev pub update_var : {V : Type 0} → Hub V → Bytes → Var V → Hub V
update_var h name x = record h { var = λ n. if bytes_eq n name then some x else h.var n }

abbrev pub message : ℕ → List Bytes → ℕ → Message
message request_id components count = record {
  request_id = request_id;
  count = count;
  components = components;
}
