-- ===== src/Comm/Authenticate.antt =====
-- `Comm_authenticate` of src/comm.c, and what the hub of src/hub makes of it.
pub mod Hub
mod Tests
use libseawolf.Base.{Bool, Option, none, some, List, [], ◌∷◌, bytes_eq, get_elem?, if◌then◌else◌}
use libseawolf.Comm.Message.{Bytes, Message}
use libseawolf.Hub.State.{codes, message}
use libseawolf.Var.{Link}

-- What a call of `Comm_authenticate` comes to: it returns, it ends the program, it waits for a
-- response for ever, or it reads behind the components of the response.
pub data Outcome (E : Type 0) : Type 0 where
  authenticated exited : E → Outcome E
  no_password waits bad_access : Outcome E

abbrev pub auth_message : Bytes → Message
auth_message password = message 0 (codes "COMM" ∷ codes "AUTH" ∷ password ∷ []) 3

module _ {E : Type 0} where
  -- The test of the response.
  unfoldable pub check_response : Option Message → E → Outcome E
  check_response none e = exited e
  check_response (some response) e = elim (get_elem? response.components 1) [
    | none ↦ bad_access
    | some result ↦ if bytes_eq result (codes "SUCCESS") then authenticated e else exited e
  ]

module _ {E : Type 0} (link : Link E) where
  -- `Comm_authenticate`, for the password that is set.
  unfoldable pub authenticate : Option Bytes → E → Outcome E
  authenticate none e = no_password
  authenticate (some password) e = elim (link.ask (auth_message password) e) [
    | none ↦ waits
    | some (response, e') ↦ check_response response e'
  ]
