-- ===== src/Comm/Receive/Tests.antt =====
-- An application whose value of a variable is its text, and that gets a response and a COMM message.
use libseawolf.Base.{◌≡◌, refl, false, none, [], ◌∷◌, replicate, arith}
use libseawolf.MemPool.{Alloc, in_block}
use libseawolf.Comm.Message.{Bytes, Message, total_data_length}
use libseawolf.Comm.Wire.{Fits}
use libseawolf.Comm.Receive.{App, receive_thread}
use libseawolf.Comm.Receive.Thread.{handle_all, finished, receive_thread-handle_all}
use libseawolf.Hub.Net.Receive.Space.{Small}
use libseawolf.Hub.Net.Thread.{wire}
use libseawolf.Queue
use libseawolf.Var.{Floats}

abbrev floats : Floats Bytes
floats = record { atof = λ s. s; format = λ v. v; differ = λ a b. false; zero_value = [] }

abbrev app : App Bytes
app = record {
  requests = record {
    response_set = replicate 8 none;
    response_pending = replicate 8 false;
    response_set_size = 8;
    last_id = 1;
  };
  inbox = record { initialized = false; notification_queue = Queue.new 99; strings = [] };
  vars = record {
    notify = false;
    initialized = false;
    ro_cache = λ n. none;
    subscriptions = λ n. none;
    data_available = false;
    cells = λ p. [];
  };
  hub_shutdown = false;
}

abbrev fresh : Alloc
fresh = record {
  base = in_block 512;
  write_index = 0;
  size = 512;
  block_index = 3;
  external = false;
}

-- A response to request 3, and COMM, OK.
abbrev response : Message
response = record { request_id = 3; count = 1; components = (67 ∷ []) ∷ [] }

abbrev comm : Message
comm = record {
  request_id = 0;
  count = 2;
  components = (67 ∷ 79 ∷ 77 ∷ 77 ∷ []) ∷ (79 ∷ 75 ∷ []) ∷ [];
}

response-Fits : Fits response
unfolding total_data_length
response-Fits = record {
  counted = refl;
  strings = ((λ e. omega arith, tt), tt);
  short = omega arith;
  id_small = omega arith;
  count_small = omega arith;
}

comm-Fits : Fits comm
unfolding total_data_length
comm-Fits = record {
  counted = refl;
  strings = (
    (λ e. omega arith, (λ e. omega arith, (λ e. omega arith, (λ e. omega arith, tt)))),
    ((λ e. omega arith, (λ e. omega arith, tt)), tt),
  );
  short = omega arith;
  id_small = omega arith;
  count_small = omega arith;
}

response-Small : Small response
unfolding total_data_length
response-Small = omega arith

comm-Small : Small comm
unfolding total_data_length
comm-Small = omega arith

receive_thread-handle_all_example :
    receive_thread floats 99 (λ n. fresh) false 8 0 app (wire fresh (response ∷ comm ∷ []))
    ≡ finished floats 99 (handle_all floats 99 (response ∷ comm ∷ []) app)
receive_thread-handle_all_example =
    receive_thread-handle_all floats 99 (λ n. fresh) fresh (response ∷ comm ∷ []) 8 app
      (λ n. (refl, refl)) ((response-Fits, response-Small), ((comm-Fits, comm-Small), tt))
      (omega arith)
