-- ===== src/Var/Tests.antt =====
-- Applications and the hub on concrete values: a value is its text, and two values differ if their
-- texts do. Client 1 has a subscription to "x", which can be written; "r" is read-only.
use libseawolf.Base.{
  ◌≡◌, refl, true, false, not, none, some, [], ◌∷◌, arith, bytes_eq, if◌then◌else◌,
}
use libseawolf.Comm.Message.{Bytes, Message}
use libseawolf.Hub.State.{Client, Var, Hub, Libc, connected, codes}
use libseawolf.Hub.Client.{send_message}
use libseawolf.Hub.Process.{process, dispatch, process_var, process_get}
use libseawolf.Var.{
  Floats, Vars, Subscription, get, set, stale, is_poked, input_message, ask_hub, read_response,
}
use libseawolf.Var.Stale
use libseawolf.Var.Stale.{comes, run, run-answers}
use libseawolf.Var.HubLink.{hub_link, value_message, answer, find_answer}
use libseawolf.Var.Cache
use libseawolf.Var.Cache.{get-hub, begins, gets, get-transparent}
use libseawolf.Var.Shared.{watch_message, Written, set-shared}

abbrev floats : Floats Bytes
floats = record {
  atof = λ s. s;
  format = λ v. v;
  differ = λ a b. not (bytes_eq a b);
  zero_value = codes "0";
}

abbrev libc : Libc Bytes
libc = record {
  atof = λ s. s;
  format = λ v. v;
  atoi = λ s. 2;
  poll_out = λ s n. true;
  send_ok = λ s n. true;
}

abbrev member : Client
member = record { sock = 11; state = connected; filters = []; subscribed_vars = [] }

abbrev x : Var Bytes
x = record {
  value = codes "0";
  default_value = codes "0";
  persistent = false;
  readonly = false;
  stuck = false;
  subscribers = 1 ∷ [];
}

abbrev r : Var Bytes
r = record x { readonly = true; value = codes "7"; subscribers = [] }

abbrev hub : Hub Bytes
hub = record {
  client = λ c. member;
  clients = 1 ∷ 2 ∷ [];
  closed_clients = [];
  var = λ n.
      if bytes_eq n (codes "x") then some x else if bytes_eq n (codes "r") then some r else none;
  do_flush_flag = false;
  password = none;
  log = [];
  sent = [];
  attempts = 0;
}

abbrev vars : Vars Bytes
vars = record {
  notify = false;
  initialized = true;
  ro_cache = λ n. none;
  subscriptions = λ n. none;
  data_available = false;
  cells = λ p. codes "0";
}

abbrev sub : Subscription Bytes
sub = record { writeback = some 3; last = codes "0"; current = codes "0"; poked = false }

abbrev subscribed : Vars Bytes
subscribed = record vars { subscriptions = λ n. if bytes_eq n (codes "x") then some sub else none }

run-answers_example :
    (vs' : Vars Bytes) × (run floats
        (hub_link libc 1 5)
        (codes "x")
        (comes (codes "2") ∷ Stale.gets ∷ comes (codes "1") ∷ [])
        (subscribed, hub)
      ≡ some (vs', hub))
    × (is_poked (codes "x") vs' ≡ some true)
    × (stale floats (codes "x") vs' ≡ some true)
    × ((vs'' : Vars Bytes) × (get floats (hub_link libc 1 5) (codes "x") vs' hub
          ≡ some (codes "2", vs'', hub)))
unfolding bytes_eq
run-answers_example =
    run-answers floats (hub_link libc 1 5) (codes "x")
      (comes (codes "2") ∷ Stale.gets ∷ comes (codes "1") ∷ []) subscribed hub sub refl refl refl

-- The answer of the hub, and what the application and the hub are after it.
abbrev answered : Hub Bytes
answered = (send_message libc 2 (value_message libc 2 5 r) hub).1

abbrev informed : Vars Bytes
informed = Cache.cached floats libc 2 5 (codes "r") r vars

read : get floats (hub_link libc 2 5) (codes "r") vars hub ≡ some (codes "7", informed, answered)
unfolding get ask_hub read_response answer find_answer process dispatch process_var process_get
    send_message bytes_eq
read = refl

read_again :
    get floats (hub_link libc 2 5) (codes "r") informed answered
    ≡ some (codes "7", informed, answered)
unfolding get bytes_eq
read_again = refl

get-transparent_example :
    (v : Var Bytes) × (answered.var (codes "r") ≡ some v) × (codes "7" ≡ v.value)
get-transparent_example =
    get-transparent floats libc 2 5 vars hub (codes "r") (omega arith) (λ n. refl)
      (gets (codes "r") (codes "7") refl read begins) refl read_again

abbrev told : Message
told = watch_message libc (codes "x") (codes "4")

set-shared_example :
    (vs' : Vars Bytes) × (h' : Hub Bytes) × (set floats
        (hub_link libc 2 5)
        (codes "x")
        (codes "4")
        vars
        hub
      ≡ some (vs', h'))
    × Written floats libc (codes "x") (codes "4") x hub h'
    × ((other' : Vars Bytes) × (input_message floats told subscribed ≡ some other')
        × ((other'' : Vars Bytes) × (get floats (hub_link libc 1 6) (codes "x") other' hub
              ≡ some (codes "4", other'', hub))))
unfolding bytes_eq
set-shared_example =
    set-shared floats libc (hub_link libc 1 6) 2 5 (codes "x") (codes "4") vars hub x subscribed sub
      hub refl refl refl refl refl refl
