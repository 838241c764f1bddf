-- ===== src/Notify/Tests.antt =====
-- Notifications on concrete values: an inbox with the text "go north", and a hub whose client 2
-- listens to what starts with "go".
use libseawolf.Base.{bytes_eq, ◌≡◌, refl, true, false, none, some, [], ◌∷◌, arith}
use libseawolf.Base.Int.{pos}
use libseawolf.Comm.Message.{Bytes}
use libseawolf.Hub.State.{Client, Hub, Libc, connected, codes, message}
use libseawolf.Hub.Client.{filter_action, starts_with}
use libseawolf.Hub.Client.Filters.{action_of}
use libseawolf.Hub.Client.Broadcast.{audience, reached}
use libseawolf.Hub.Process.{process}
use libseawolf.Notify.{Inbox, got, get, send_message}
use libseawolf.Notify.Delivery.{Holds, get-Holds}
use libseawolf.Notify.Requests.{send_message-process}

abbrev inbox : Inbox
inbox = record {
  initialized = true;
  notification_queue = record {
    list = record {
      base = 1 ∷ 9 ∷ 9 ∷ 9 ∷ 9 ∷ 9 ∷ 9 ∷ 9 ∷ 9 ∷ 9 ∷ 9 ∷ 9 ∷ 9 ∷ 9 ∷ 9 ∷ 9 ∷ [];
      items = 1;
      space = 16;
    };
  };
  strings = codes "go north" ∷ [];
}

inbox-Holds : Holds inbox (codes "go north" ∷ [])
inbox-Holds = record {
  valid = record { allocated = refl; within = omega arith };
  reads = (((λ e. omega arith), omega arith, refl), tt);
}

get-Holds_example :
    (inbox' : Inbox) × (get 99 inbox ≡ got (codes "go") (codes "north") inbox') × Holds inbox' []
get-Holds_example =
    get-Holds 99 inbox (codes "go") (codes "north") [] inbox-Holds
      ((λ e. omega arith), ((λ e. omega arith), tt))

abbrev blank_free : Inbox
blank_free = record inbox { strings = codes "go" ∷ [] }

blank_free-Holds : Holds blank_free (codes "go" ∷ [])
blank_free-Holds = record {
  valid = record { allocated = refl; within = omega arith };
  reads = (((λ e. omega arith), omega arith, refl), tt);
}

abbrev libc : Libc Bytes
libc = record {
  atof = λ s. s;
  format = λ v. v;
  atoi = λ s. 2;
  poll_out = λ s n. true;
  send_ok = λ s n. true;
}

abbrev member : Client
member = record {
  sock = 12;
  state = connected;
  filters = record { kind = filter_action; body = codes "go" } ∷ [];
  subscribed_vars = [];
}

abbrev hub : Hub Bytes
hub = record {
  client = λ c. member;
  clients = 2 ∷ [];
  closed_clients = [];
  var = λ n. none;
  do_flush_flag = false;
  password = none;
  log = [];
  sent = [];
  attempts = 0;
}

send_message-process_example :
    (h' : Hub Bytes) × (process libc 3 (send_message (codes "go") (codes "up")) hub
      ≡ some (pos 0, h'))
    × (h'.sent ≡ (2, message 0 (codes "NOTIFY" ∷ codes "IN" ∷ codes "go up" ∷ []) 3) ∷ [])
unfolding audience reached starts_with action_of bytes_eq
send_message-process_example =
    send_message-process libc 3 (codes "go") (codes "up") hub refl
      (((λ e. omega arith), λ e t. refl, tt), tt)
