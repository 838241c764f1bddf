-- ===== src/Hub/Net/Tests.antt =====
-- The hub and its clients on concrete values.
use libseawolf.Base.{
  ℕ, ◌≡◌, ◌≤◌, refl, true, false, Option, none, some, [], ◌∷◌, ◌++◌, arith, bytes_eq, length, ◌==◌,
  if◌then◌else◌, Bool-cases, inl, inr,
}
use libseawolf.Base.Int.{ℤ, pos}
use libseawolf.MemPool.{Alloc, in_block}
use libseawolf.Comm.Message.{Bytes, Message, pack_message, total_data_length}
use libseawolf.Comm.Wire.{Fits}
use libseawolf.Hub.State.{
  Client, Var, Hub, Libc, unauthenticated, connected, closed, codes, message,
}
use libseawolf.Hub.Client.{send_message, mark_closed}
use libseawolf.Hub.Process.{
  process, process_comm, authenticate, dispatch, process_watch, kick_invalid,
}
use libseawolf.Hub.Vars.{add_subscriber}
use libseawolf.Hub.Process.Balance.{held, Balanced}
use libseawolf.Hub.Net.{receive_message, received, lost, stale, client_thread}
use libseawolf.Hub.Net.Receive.{Ready, receive-pack, receive_message-lost, receive_message-stale}
use libseawolf.Hub.Net.Receive.Space.{Small}
use libseawolf.Hub.Net.Thread.{wire, serve, client_thread-serve}
use libseawolf.Hub.Net.Removal.{accept_client}
use libseawolf.Hub.Net.Removal.Emptied.{Emptied}
use libseawolf.Hub.Net.Reachable.{Initial, starts, accepts, processes, Reachable-Sound}

abbrev libc : Libc Bytes
libc = record {
  atof = λ s. s;
  format = λ v. v;
  atoi = λ s. 2;
  poll_out = λ s n. true;
  send_ok = λ s n. true;
}

abbrev x : Var Bytes
x = record {
  value = codes "0";
  default_value = codes "0";
  persistent = false;
  readonly = false;
  stuck = false;
  subscribers = [];
}

abbrev nobody : Client
nobody = record { sock = 0; state = unauthenticated; filters = []; subscribed_vars = [] }

-- The hub at its start, with variable "x".
abbrev hub : Hub Bytes
hub = record {
  client = λ c. nobody;
  clients = [];
  closed_clients = [];
  var = λ n. if bytes_eq n (codes "x") then some x else none;
  do_flush_flag = false;
  password = some (codes "pw");
  log = [];
  sent = [];
  attempts = 0;
}

unheld : (d : ℕ) (n : Bytes) → held d (hub.var n) ≡ 0
unheld d n = elim (Bool-cases (bytes_eq n (codes "x"))) [ inl t ↦ rw t refl | inr f ↦ rw f refl ]

hub-Initial : Initial libc 8 hub
hub-Initial = (refl, (λ d. refl), unheld)

abbrev one : Hub Bytes
one = (accept_client 8 1 11 hub).1

abbrev auth : Message
auth = message 5 (codes "COMM" ∷ codes "AUTH" ∷ codes "pw" ∷ []) 3

-- What a call returned, or else the hub before it.
abbrev returned : Hub Bytes → Option (ℤ × Hub Bytes) → Hub Bytes
returned h none = h
returned h (some (code, h')) = h'

abbrev joined : Hub Bytes
joined = returned one (process libc 1 auth one)

join : process libc 1 auth one ≡ some (pos 0, joined)
unfolding process process_comm authenticate bytes_eq accept_client
join = refl

abbrev watch : Message
watch = message 0 (codes "WATCH" ∷ codes "ADD" ∷ codes "x" ∷ []) 3

abbrev watching : Hub Bytes
watching = returned joined (process libc 1 watch joined)

watched : process libc 1 watch joined ≡ some (pos 0, watching)
unfolding process process_comm authenticate dispatch process_watch bytes_eq accept_client
    kick_invalid add_subscriber send_message
watched = refl

Reachable-Sound_example : Balanced watching × (length watching.clients ≤ 8)
Reachable-Sound_example = Reachable-Sound 8 libc (
    processes 1 watch (pos 0) watched
      (processes 1 auth (pos 0) join (accepts 1 11 (unheld 1) (starts hub-Initial))))

-- Client 1 is subscribed to "x" and marked closed, client 2 is not.
abbrev leaver : Client
leaver = record { sock = 11; state = closed; filters = []; subscribed_vars = codes "x" ∷ [] }

abbrev stayer : Client
stayer = record { sock = 12; state = connected; filters = []; subscribed_vars = [] }

abbrev leaving : Hub Bytes
leaving = record hub {
  client = λ c. if c == 1 then leaver else stayer;
  clients = 1 ∷ 2 ∷ [];
  closed_clients = 1 ∷ [];
  var = λ n. if bytes_eq n (codes "x") then some (record x { subscribers = 1 ∷ [] }) else none;
}

abbrev fresh : Alloc
fresh = record {
  base = in_block 512;
  write_index = 0;
  size = 512;
  block_index = 3;
  external = false;
}

-- One component of one byte.
abbrev ping : Message
ping = record { request_id = 258; count = 1; components = (67 ∷ []) ∷ [] }

ping-Fits : Fits ping
unfolding total_data_length
ping-Fits = record {
  counted = refl;
  strings = ((λ e. omega arith, tt), tt);
  short = omega arith;
  id_small = omega arith;
  count_small = omega arith;
}

ping-Small : Small ping
unfolding total_data_length
ping-Small = omega arith

-- A socket that gives one byte at a time.
abbrev bytewise : ℕ → ℕ
bytewise k = 1

bytewise-Ready : Ready bytewise
bytewise-Ready k = omega arith

receive-pack_example :
    (alloc : Alloc) × (k : ℕ) × (receive_message bytewise fresh 1 hub 0
        ((pack_message fresh ping).0.bytes ++ 0 ∷ 9 ∷ [])
      ≡ received ping alloc k (0 ∷ 9 ∷ []))
receive-pack_example =
    receive-pack bytewise fresh fresh 1 hub ping 0 (0 ∷ 9 ∷ []) bytewise-Ready (refl, refl)
      ping-Fits ping-Small

receive_message-lost_example :
    (k : ℕ) × (receive_message bytewise fresh 1 hub 0 (0 ∷ 4 ∷ 0 ∷ 0 ∷ 0 ∷ 1 ∷ 67 ∷ [])
      ≡ lost (mark_closed 1 hub) k)
receive_message-lost_example =
    receive_message-lost bytewise fresh 1 hub 0 (0 ∷ 4 ∷ 0 ∷ 0 ∷ 0 ∷ 1 ∷ 67 ∷ []) bytewise-Ready
      (refl, refl) (omega arith) (omega arith)

-- A header that announces 512 bytes.
receive_message-stale_example :
    receive_message bytewise fresh 1 hub 0 (2 ∷ 0 ∷ 0 ∷ 0 ∷ 0 ∷ 1 ∷ 67 ∷ []) ≡ stale
receive_message-stale_example =
    receive_message-stale bytewise fresh 1 hub 0 (2 ∷ 0 ∷ 0 ∷ 0 ∷ 0 ∷ 1 ∷ 67 ∷ []) bytewise-Ready
      (refl, refl) (omega arith) (omega arith) (omega arith)

client_thread-serve_example :
    client_thread libc bytewise (λ k. fresh) 3 1 hub 0 (wire fresh (ping ∷ ping ∷ []))
    ≡ serve libc 1 (ping ∷ ping ∷ []) hub
client_thread-serve_example =
    client_thread-serve libc bytewise (λ k. fresh) 3 1 (ping ∷ ping ∷ []) hub 0 fresh bytewise-Ready
      (λ n. (refl, refl)) ((ping-Fits, ping-Small), ((ping-Fits, ping-Small), tt)) (omega arith)
