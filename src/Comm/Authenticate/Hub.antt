-- ===== src/Comm/Authenticate/Hub.antt =====
-- `Comm_authenticate` of src/comm.c next to the hub: the answer to the password.
use libseawolf.Base.{
  Bool, append-nil, ℕ, ◌≡◌, refl, sym, ap, ◌∙◌, true, false, some, List, [], ◌∷◌, ◌++◌, arith,
  append_assoc, bytes_eq, length, drop, drop_all, ◌==◌, if◌then◌else◌, Bool-cases, inl, inr,
}
use libseawolf.Base.Int.{pos}
use libseawolf.Comm.Message.{Bytes, Message}
use libseawolf.Comm.Authenticate
use libseawolf.Comm.Authenticate.{Outcome, authenticated, exited, auth_message, check_response}
use libseawolf.Hub.State.{
  Hub, Libc, Client, ClientState, connected, closed, unknown, unauthenticated, codes, message,
  is_connected, is_closed,
}
use libseawolf.Hub.Client.{send_message, mark_closed, kick}
use libseawolf.Hub.Vars.Subscribe.{send_lem}
use libseawolf.Hub.Process
use libseawolf.Hub.Process.{process, process_comm}
use libseawolf.Var.HubLink.{hub_link, find_answer, answer, answer-found, mark_closed-sent, takes}

closed_unconnected : (s : ClientState) → is_closed s ≡ true → is_connected s ≡ false
closed_unconnected connected e = cc
closed_unconnected closed e = refl
closed_unconnected unknown e = refl
closed_unconnected unauthenticated e = refl

module _ {V : Type 0} (libc : Libc V) (c id : ℕ) where
  -- The hub's answer to an AUTH request.
  abbrev reply : Bytes → Message
  reply result = message id (codes "COMM" ∷ result ∷ []) 2

  auth_message-process :
      (password actual : Bytes) (h : Hub V)
      → h.password ≡ some actual
      → process libc c (record (auth_message password) { request_id = id }) h
        ≡ some (
          pos 0,
          Process.authenticate libc c
              (message id (codes "COMM" ∷ codes "AUTH" ∷ password ∷ []) 3)
              actual
              h,
        )
  unfolding process process_comm bytes_eq
  auth_message-process password actual h e = simp e refl

  -- The first new message is the answer.
  first_answer :
      (m : Message) (h h' : Hub V) (more : List (ℕ × Message))
      → m.request_id ≡ id
      → h'.sent ≡ h.sent ++ ((c, m) ∷ more)
      → find_answer c id (drop (length h.sent) h'.sent) ≡ some m
  unfolding find_answer
  first_answer m h h' more e s =
      let new : drop (length h.sent) h'.sent ≡ (c, m) ∷ more =
        ap (drop (length h.sent)) s ∙ drop_all h.sent ((c, m) ∷ more) (length h.sent) refl in
      let k : (c == c) ≡ true = ground arith in
      let l : (m.request_id == id) ≡ true = ground arith in rw (new, k, l) refl

  sent_taken :
      (m : Message) (h : Hub V)
      → takes libc c id h ≡ true
      → (send_message libc c m h).1.sent ≡ h.sent ++ ((c, m) ∷ [])
  sent_taken m h t = let log = (send_lem libc m c h).0 in rw t at log

  sent_more :
      (m : Message) (h : Hub V)
      → (more : List (ℕ × Message)) × ((send_message libc c m h).1.sent ≡ h.sent ++ more)
  sent_more m h = elim (Bool-cases (takes libc c id h)) [
    | inl t ↦ ((c, m) ∷ [], sent_taken m h t)
    | inr f ↦ ([], (let log = (send_lem libc m c h).0 in rw f at log) ∙ sym (append-nil h.sent))
  ]

  -- The request as the hub gets it.
  abbrev request : Bytes → Message
  request password = message id (codes "COMM" ∷ codes "AUTH" ∷ password ∷ []) 3

  asked :
      (password actual : Bytes) (h : Hub V) (m : Message) (more : List (ℕ × Message))
      → h.password ≡ some actual
      → m.request_id ≡ id
      → (Process.authenticate libc c (request password) actual h).sent ≡ h.sent ++ ((c, m) ∷ more)
      → Authenticate.authenticate (hub_link libc c id) (some password) h
        ≡ check_response (some m) (Process.authenticate libc c (request password) actual h)
  unfolding Authenticate.authenticate
  asked password actual h m more e i s =
      let h' = Process.authenticate libc c (request password) actual h in
      let found = answer-found libc c id h h' (pos 0) m (first_answer m h h' more i s) in
      let got = ap (answer libc c id h) (auth_message-process password actual h e) ∙ found in
      rw (got, Authenticate.authenticate) refl

  now_closed :
      (h : Hub V) (b : Bool)
      → is_closed (h.client c).state ≡ b
      → is_closed ((mark_closed c h).client c).state ≡ true
  unfolding mark_closed
  now_closed h true e = ground arith
  now_closed h false e = ground arith

  closed_after_kick :
      (reason : Bytes) (h : Hub V) → is_connected ((kick libc c reason h).client c).state ≡ false
  unfolding kick
  closed_after_kick reason h =
      let m = message 0 (codes "COMM" ∷ codes "KICKING" ∷ reason ∷ []) 3 in
      let same = (send_lem libc m c (mark_closed c h)).2 in
      ap (λ (f : ℕ → Client). is_connected (f c).state) same
      ∙ closed_unconnected ((mark_closed c h).client c).state
          (now_closed h (is_closed (h.client c).state) refl)

  right_password :
      (password actual : Bytes) (h : Hub V)
      → bytes_eq password actual ≡ true
      → let h' = Process.authenticate libc c (request password) actual h in
        (h'.sent ≡ (send_message libc c (reply (codes "SUCCESS")) h).1.sent)
        × (is_connected (h'.client c).state ≡ true)
  unfolding Process.authenticate
  right_password password actual h r =
      let k : (c == c) ≡ true = ground arith in rw r (refl, rw k refl)

  wrong_password :
      (password actual : Bytes) (h : Hub V)
      → bytes_eq password actual ≡ false
      → let h' = Process.authenticate libc c (request password) actual h in
        ((more : List (ℕ × Message)) × (h'.sent
            ≡ (send_message libc c (reply (codes "FAILURE")) h).1.sent ++ more))
        × (is_connected (h'.client c).state ≡ false)
  unfolding Process.authenticate
  wrong_password password actual h f =
      let told = (send_message libc c (reply (codes "FAILURE")) h).1 in
      let reason = codes "Authentication failure" in
      let m = message 0 (codes "COMM" ∷ codes "KICKING" ∷ reason ∷ []) 3 in
      let (more, log) = sent_more m (mark_closed c told) in
      rw f (
        (more, unfold kick in log ∙ ap (λ l. l ++ more) (mark_closed-sent libc c id c told)),
        closed_after_kick reason told,
      )

  -- An application that authenticates at a hub that has a password and can send it a message: with
  -- the hub's password the call returns and the application is a connected client; with another one
  -- its program ends and it is no connected client.
  pub authenticate-hub :
      (password actual : Bytes) (h : Hub V)
      → h.password ≡ some actual
      → takes libc c id h ≡ true
      → (h' : Hub V) × (Authenticate.authenticate (hub_link libc c id) (some password) h
          ≡ (if bytes_eq password actual then authenticated h' else exited h'))
        × (is_connected (h'.client c).state ≡ bytes_eq password actual)
  unfolding check_response bytes_eq
  authenticate-hub password actual h e t = elim (Bool-cases (bytes_eq password actual)) [
    | inl right ↦
        let (log, state) = right_password password actual h right in
        let m = reply (codes "SUCCESS") in
        let run = asked password actual h m [] e refl (log ∙ sent_taken m h t) in
        (Process.authenticate libc c (request password) actual h, rw right run, rw right state)
    | inr wrong ↦
        let ((more, log), state) = wrong_password password actual h wrong in
        let m = reply (codes "FAILURE") in
        let sent =
          log ∙ ap (λ l. l ++ more) (sent_taken m h t) ∙ append_assoc h.sent ((c, m) ∷ []) more in
        let run = asked password actual h m more e refl sent in
        (Process.authenticate libc c (request password) actual h, rw wrong run, rw wrong state)
  ]
