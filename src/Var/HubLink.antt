-- ===== src/Var/HubLink.antt =====
-- An application of src/var.c as a client of the hub of src/hub: each message that it sends is
-- processed by the hub before it goes on, and a request is answered by the first message that the
-- hub then sends to this client with the request's identifier. Without such a message the
-- application waits for ever. The carrying of messages as bytes is not repeated here.
use libseawolf.Base.{
  Bool, ◌<◌, subst, ℕ, ◌≡◌, ◌⊎◌, refl, ap, sym, ◌∙◌, true, false, ◌&&◌, Option, none, some, List,
  [], ◌∷◌, bytes_eq, length, ◌==◌, if◌then◌else◌, Bool-cases, Option-cases, inl, inr, drop_all,
  append-nil, drop, arith,
}
use libseawolf.Base.Int.{ℤ, pos, minus_one}
use libseawolf.Comm.Message.{Bytes, Message}
use libseawolf.Hub.State.{Hub, Var, Libc, codes, message, is_connected}
use libseawolf.Hub.Client.{send_message, kick, mark_closed}
use libseawolf.Hub.Process.{process, dispatch, process_var, process_get, invalid_access}
use libseawolf.Var.{Link, get_request}

-- The first answer to a client's request on a list of messages that are sent.
unfoldable pub find_answer : ℕ → ℕ → List (ℕ × Message) → Option Message
find_answer c id [] = none
find_answer c id ((d, m) ∷ sent) =
    if d == c && m.request_id == id then some m else find_answer c id sent

module _ {V : Type 0} (libc : Libc V) (c id : ℕ) where
  unfoldable pub answer : Hub V → Option (ℤ × Hub V) → Option (Option Message × Hub V)
  answer h none = none
  answer h (some (code, h')) = elim (find_answer c id (drop (length h.sent) h'.sent)) [
    | none ↦ none
    | some m ↦ some (some m, h')
  ]

  abbrev pub hub_link : Link (Hub V)
  hub_link = record {
    ask = λ m h. answer h (process libc c (record m { request_id = id }) h);
    tell = λ m h. elim (process libc c m h) [ none ↦ none | some (code, h') ↦ some h' ];
  }

  pub tell-run :
      (m : Message) (h h' : Hub V) (code : ℤ)
      → process libc c m h ≡ some (code, h')
      → hub_link.tell m h ≡ some h'
  tell-run m h h' code run = rw (run, hub_link) refl

  -- What the hub sends for the value of a variable.
  abbrev pub value_message : Var V → Message
  value_message v =
      message id
        (codes "VAR"
          ∷ codes "VALUE"
          ∷ (if v.readonly then codes "RO" else codes "RW")
          ∷ libc.format v.value
          ∷ [])
        4

  pub answer-found :
      (h h' : Hub V) (code : ℤ) (m : Message)
      → find_answer c id (drop (length h.sent) h'.sent) ≡ some m
      → answer h (some (code, h')) ≡ some (some m, h')
  unfolding answer
  answer-found h h' code m e = rw (e, answer) refl

  answer-missing :
      (h h' : Hub V) (code : ℤ)
      → find_answer c id (drop (length h.sent) h'.sent) ≡ none
      → answer h (some (code, h')) ≡ none
  unfolding answer
  answer-missing h h' code e = rw (e, answer) refl

  get_request-process :
      (name : Bytes) (h : Hub V)
      → process libc c (record (get_request name) { request_id = id }) h ≡ (
          if is_connected (h.client c).state
          then process_get libc c (message id (codes "VAR" ∷ codes "GET" ∷ name ∷ []) 3) h
          else some (minus_one, h))
  unfolding process dispatch process_var bytes_eq
  get_request-process name h = refl

  -- The hub's socket takes a message for the client.
  abbrev pub takes : Hub V → Bool
  takes h = libc.poll_out (h.client c).sock h.attempts && libc.send_ok (h.client c).sock h.attempts

  sent-new :
      (d : ℕ) (m : Message) (h : Hub V)
      → drop (length h.sent) (send_message libc d m h).1.sent ≡ (
          if libc.poll_out (h.client d).sock h.attempts && libc.send_ok (h.client d).sock h.attempts
          then (d, m) ∷ []
          else [])
  unfolding send_message
  sent-new d m h =
      elim (Bool-cases
        (libc.poll_out (h.client d).sock h.attempts && libc.send_ok (h.client d).sock h.attempts)) [
          | inl t ↦ rw t (drop_all h.sent ((d, m) ∷ []) (length h.sent) refl)
          | inr f ↦ rw f (
              ap (drop (length h.sent)) (sym (append-nil h.sent))
              ∙ drop_all h.sent [] (length h.sent) refl)
        ]

  pub mark_closed-sent : (d : ℕ) (h : Hub V) → (mark_closed d h).sent ≡ h.sent
  unfolding mark_closed
  mark_closed-sent d h = ground arith

  other_answer :
      (m : Message) (b : Bool)
      → (m.request_id == id) ≡ false
      → find_answer c id (if b then (c, m) ∷ [] else []) ≡ none
  unfolding find_answer
  other_answer m false e = refl
  other_answer m true e = let k : (c == c) ≡ true = ground arith in rw (k, e) refl

  -- A kick is no answer to a request.
  kick-answer :
      (reason : Bytes) (h : Hub V)
      → 0 < id
      → find_answer c id (drop (length h.sent) (kick libc c reason h).sent) ≡ none
  unfolding kick
  kick-answer reason h lt =
      let m = message 0 (codes "COMM" ∷ codes "KICKING" ∷ reason ∷ []) 3 in
      let h' = mark_closed c h in
      let none_new = other_answer m _ (ground arith) in
      let new = sent-new c m h' in
      let before : length h'.sent ≡ length h.sent = ap length (mark_closed-sent c h) in
      ap (λ n. find_answer c id (drop n (send_message libc c m h').1.sent)) (sym before)
      ∙ ap (find_answer c id) new
      ∙ none_new

  value-answer :
      (m : Message) (h : Hub V)
      → takes h ≡ true
      → m.request_id ≡ id
      → find_answer c id (drop (length h.sent) (send_message libc c m h).1.sent) ≡ some m
  unfolding find_answer
  value-answer m h t e =
      let k : (c == c) ≡ true = ground arith in
      let l : (m.request_id == id) ≡ true = ground arith in rw (sent-new c m h, t, k, l) refl

  no_answer :
      (m : Message) (h : Hub V)
      → takes h ≡ false
      → find_answer c id (drop (length h.sent) (send_message libc c m h).1.sent) ≡ none
  unfolding find_answer
  no_answer m h f = rw (sent-new c m h, f) refl

  value-get :
      (name : Bytes) (v : Var V) (h : Hub V)
      → h.var name ≡ some v
      → v.stuck ≡ false
      → process_get libc c (message id (codes "VAR" ∷ codes "GET" ∷ name ∷ []) 3) h
        ≡ some (pos 0, (send_message libc c (value_message v) h).1)
  unfolding process_get
  value-get name v h e f = rw (e, process_get, f) refl

  refused : (h : Hub V) → answer h (some (minus_one, h)) ≡ none
  unfolding find_answer
  refused h =
      let e : drop (length h.sent) h.sent ≡ [] =
        ap (drop (length h.sent)) (sym (append-nil h.sent))
        ∙ drop_all h.sent [] (length h.sent) refl in
      answer-missing h h minus_one (ap (find_answer c id) e)

  -- What the asking for a variable comes to: no answer, or the value that the hub has.
  abbrev pub Asked : Bytes → Hub V → Option (Option Message × Hub V) → Type 0
  Asked name h r =
      (r ≡ none)
      ⊎ ((v : Var V) × (h.var name ≡ some v)
          × (r ≡ some (some (value_message v), (send_message libc c (value_message v) h).1)))

  get-Asked :
      (name : Bytes) (h : Hub V)
      → 0 < id
      → Asked name h
          (answer h (process_get libc c (message id (codes "VAR" ∷ codes "GET" ∷ name ∷ []) 3) h))
  get-Asked name h lt = elim (Option-cases (h.var name)) [
    | inl e ↦
        unfold process_get in
        rw (e, process_get)
          (inl (answer-missing h _ minus_one (kick-answer (invalid_access libc name) h lt)))
    | inr (v, e) ↦ elim (Bool-cases v.stuck) [
      | inl t ↦ unfold process_get answer in rw (e, process_get, t) (inl refl)
      | inr f ↦
          subst (λ r. Asked name h (answer h r)) (sym (value-get name v h e f))
            (elim (Bool-cases (takes h)) [
              | inl t ↦ inr (
                v,
                e,
                answer-found h _ (pos 0) (value_message v)
                    (value-answer (value_message v) h t refl),
              )
              | inr g ↦ inl (answer-missing h _ (pos 0) (no_answer (value_message v) h g))
            ])
    ]
  ]

  -- Asking for a variable over the hub.
  pub hub_link-Asked :
      (name : Bytes) (h : Hub V) → 0 < id → Asked name h (hub_link.ask (get_request name) h)
  hub_link-Asked name h lt =
      subst (λ r. Asked name h (answer h r)) (sym (get_request-process name h))
        (elim (Bool-cases (is_connected (h.client c).state)) [
          | inl t ↦ rw t (get-Asked name h lt)
          | inr f ↦ rw f (inl (refused h))
        ])

  -- A connected client whose socket takes the message is answered.
  pub hub_link-answers :
      (name : Bytes) (h : Hub V) (v : Var V)
      → is_connected (h.client c).state ≡ true
      → h.var name ≡ some v
      → v.stuck ≡ false
      → takes h ≡ true
      → hub_link.ask (get_request name) h
        ≡ some (some (value_message v), (send_message libc c (value_message v) h).1)
  hub_link-answers name h v on e f t =
      ap (answer h) (get_request-process name h ∙ rw on refl ∙ value-get name v h e f)
      ∙ answer-found h _ (pos 0) (value_message v) (value-answer (value_message v) h t refl)
