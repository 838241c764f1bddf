-- ===== src/Comm/Authenticate/Tests.antt =====
-- Client 1 of a hub with the password "pw".
use libseawolf.Base.{◌≡◌, refl, true, false, none, some, [], ◌∷◌, bytes_eq}
use libseawolf.Comm.Message.{Bytes}
use libseawolf.Comm.Authenticate
use libseawolf.Comm.Authenticate.{authenticated}
use libseawolf.Comm.Authenticate.Hub.{authenticate-hub}
use libseawolf.Hub.State
use libseawolf.Hub.State.{Client, Libc, unauthenticated, codes, is_connected}
use libseawolf.Var.HubLink.{hub_link}

abbrev libc : Libc Bytes
libc = record {
  atof = λ s. s;
  format = λ v. v;
  atoi = λ s. 2;
  poll_out = λ s n. true;
  send_ok = λ s n. true;
}

abbrev guest : Client
guest = record { sock = 11; state = unauthenticated; filters = []; subscribed_vars = [] }

abbrev hub : State.Hub Bytes
hub = record {
  client = λ c. guest;
  clients = 1 ∷ [];
  closed_clients = [];
  var = λ n. none;
  do_flush_flag = false;
  password = some (codes "pw");
  log = [];
  sent = [];
  attempts = 0;
}

authenticate-hub_example :
    (h' : State.Hub Bytes) × (Authenticate.authenticate (hub_link libc 1 5) (some (codes "pw")) hub
      ≡ authenticated h')
    × (is_connected (h'.client 1).state ≡ true)
unfolding bytes_eq
authenticate-hub_example = authenticate-hub libc 1 5 (codes "pw") (codes "pw") hub refl refl
