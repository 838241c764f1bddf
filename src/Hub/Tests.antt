-- ===== src/Hub/Tests.antt =====
-- The hub on concrete values: client 1 is not connected, client 2 is connected and listens to all
-- notifications that start with "go", variable "x" is writable with client 2 as its subscriber.
use libseawolf.Base.{
  ℕ, ◌≡◌, ◌≢◌, ◌⊎◌, refl, true, false, none, some, [], ◌∷◌, bytes_eq, ◌==◌, if◌then◌else◌,
}
use libseawolf.Base.Int.{pos, minus_one}
use libseawolf.Comm.Message.{Bytes, Message}
use libseawolf.Hub.State.{
  Client, Var, Hub, Libc, Filter, unauthenticated, connected, codes, message, is_connected,
  update_var,
}
use libseawolf.Hub.Client.{kick, check_filters, filter_action, filter_prefix, send_message}
use libseawolf.Hub.Client.Filters.{prefix_filters_reject}
use libseawolf.Hub.Vars.{set_value, delete_subscriber, notify_subscribers, publish}
use libseawolf.Hub.Vars.Subscribe.{Sets, set_value-Sets}
use libseawolf.Hub.Process.Locked.{Later, Waits, delete_subscriber-stuck}
use libseawolf.Hub.Process.{process, authenticate, process_comm, dispatch, process_var, after_set}
use libseawolf.Hub.Process.ReadOnly.{Keeps, process-Keeps}
use libseawolf.Hub.Process.Access.{Authenticates, connected-process}

-- A library in which a value is its bytes and every socket takes every message.
abbrev libc : Libc Bytes
libc = record {
  atof = λ s. s;
  format = λ v. v;
  atoi = λ s. 2;
  poll_out = λ s n. true;
  send_ok = λ s n. true;
}

abbrev guest_name : ℕ
guest_name = 1

abbrev guest : Client
guest = record { sock = 11; state = unauthenticated; filters = []; subscribed_vars = [] }

abbrev go_filter : Filter
go_filter = record { kind = filter_action; body = codes "go" }

abbrev member : Client
member = record {
  sock = 12;
  state = connected;
  filters = go_filter ∷ [];
  subscribed_vars = codes "x" ∷ [];
}

abbrev x : Var Bytes
x = record {
  value = codes "0";
  default_value = codes "0";
  persistent = true;
  readonly = false;
  stuck = false;
  subscribers = 2 ∷ [];
}

abbrev hub : Hub Bytes
hub = record {
  client = λ c. if c == 1 then guest else member;
  clients = 1 ∷ 2 ∷ [];
  closed_clients = [];
  var = λ n. if bytes_eq n (codes "x") then some x else none;
  do_flush_flag = false;
  password = some (codes "pw");
  log = [];
  sent = [];
  attempts = 0;
}

abbrev auth : Message
auth = message 5 (codes "COMM" ∷ codes "AUTH" ∷ codes "pw" ∷ []) 3

abbrev notify : Message
notify = message 0 (codes "NOTIFY" ∷ codes "IN" ∷ codes "go north" ∷ []) 3

-- What the hub is after client 1 has sent the password.
abbrev joined : Hub Bytes
joined = record hub {
  client = λ c. if c == 1 then record guest { state = connected } else hub.client c;
  sent = (1, message 5 (codes "COMM" ∷ codes "SUCCESS" ∷ []) 2) ∷ [];
  attempts = 1;
}

join : process libc 1 auth hub ≡ some (pos 0, joined)
unfolding process process_comm authenticate bytes_eq send_message
join = refl

connected-process_example :
    (is_connected (hub.client 1).state ≡ true) ⊎ ((guest_name ≡ 1) × Authenticates libc auth hub)
connected-process_example = connected-process libc 1 auth hub join 1 refl

abbrev only_prefix : Client
only_prefix = record member { filters = record { kind = filter_prefix; body = codes "go" } ∷ [] }

prefix_filters_reject_example : check_filters only_prefix (codes "go") ≢ some true
prefix_filters_reject_example = prefix_filters_reject only_prefix (codes "go") (refl, tt)

delete_subscriber-stuck_example :
    (h' : Hub Bytes) × (delete_subscriber 1 (codes "x") hub ≡ some (minus_one, h'))
    × ((k : Hub Bytes) → Later libc h' k → Waits libc (codes "x") k)
unfolding bytes_eq
delete_subscriber-stuck_example =
    delete_subscriber-stuck libc 1 (codes "x") hub x refl refl refl refl

-- The hub after a write to "x".
abbrev written : Hub Bytes
written = record (update_var hub (codes "x") (record x { value = codes "1" })) {
  do_flush_flag = true;
  sent = (2, message 0 (codes "WATCH" ∷ codes "x" ∷ codes "1" ∷ []) 3) ∷ [];
  attempts = 1;
}

write : set_value libc (codes "x") (codes "1") hub ≡ some (pos 0, written)
unfolding set_value notify_subscribers publish send_message bytes_eq
write = refl

set_value-Sets_example : Sets libc (codes "x") (codes "1") hub (some x) (pos 0) written
unfolding bytes_eq
set_value-Sets_example = set_value-Sets libc (codes "x") (codes "1") hub write

-- Client 2 writes to the read-only variable "x" and is kicked.
abbrev fixed : Hub Bytes
fixed = record hub {
  var = λ n. if bytes_eq n (codes "x") then some (record x { readonly = true }) else none;
}

abbrev set_x : Message
set_x = message 0 (codes "VAR" ∷ codes "SET" ∷ codes "x" ∷ codes "1" ∷ []) 4

abbrev kicked : Hub Bytes
kicked = kick libc 2 (codes "Invalid variable access (x)") fixed

refused : process libc 2 set_x fixed ≡ some (minus_one, kicked)
unfolding process dispatch process_var after_set set_value bytes_eq
refused = refl

process-Keeps_example : Keeps fixed kicked
process-Keeps_example = process-Keeps libc 2 set_x fixed refused
