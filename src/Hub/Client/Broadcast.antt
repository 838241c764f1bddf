-- ===== src/Hub/Client/Broadcast.antt =====
-- `Hub_Net_broadcastNotification` of src/hub/netio.c: who gets a notification.
use libseawolf.Base.{
  ℕ, ◌+◌, ◌≡◌, refl, sym, ap, ap₂, fun_ext, ◌∙◌, ◌&&◌, some, List, [], ◌∷◌, ◌++◌, append_assoc,
  append-nil, arith, if◌then◌else◌, Bool-cases, inl, inr, get_or,
}
use libseawolf.Comm.Message.{Bytes, Message}
use libseawolf.Hub.State.{Hub, Libc, is_connected}
use libseawolf.Hub.Client.{
  send_message, mark_closed, recipients, deliver, deliver_all, broadcast_notification,
}
use libseawolf.Hub.Client.Filters.{Documentable, documented_any, check_filters-documented}

module _ {V : Type 0} (libc : Libc V) where
  -- The connected clients with a filter that the documentation lets the text pass, in the order of the clients list.
  unfoldable pub audience : Hub V → Bytes → List ℕ → List ℕ
  audience h msg [] = []
  audience h msg (c ∷ cs) =
      if is_connected (h.client c).state && documented_any (h.client c).filters msg
      then c ∷ audience h msg cs
      else audience h msg cs

  -- Every client of a list has only filters for which the code does what is documented.
  abbrev pub AllDocumentable : Hub V → Bytes → List ℕ → Type 0
  AllDocumentable h msg [] = Unit
  AllDocumentable h msg (c ∷ cs) = Documentable (h.client c).filters msg × AllDocumentable h msg cs

  recipients-audience :
      (h : Hub V) (msg : Bytes) (cs : List ℕ)
      → AllDocumentable h msg cs
      → recipients libc h msg cs ≡ some (audience h msg cs)
  unfolding recipients audience
  recipients-audience h msg [] np = refl
  recipients-audience h msg (c ∷ cs) np =
      rw (recipients-audience h msg cs np.1, check_filters-documented (h.client c) msg np.0)
        (ground arith)

  -- The messages that reach their sockets, from a number of attempts on.
  unfoldable pub reached : (ℕ → ℕ) → Message → List ℕ → ℕ → List (ℕ × Message)
  reached sock m [] n = []
  reached sock m (c ∷ cs) n =
      if libc.poll_out (sock c) n && libc.send_ok (sock c) n
      then (c, m) ∷ reached sock m cs (n + 1)
      else reached sock m cs (n + 1)

  -- What one delivery does to the log of messages, the attempts and the sockets.
  deliver_lem :
      (m : Message) (c : ℕ) (h : Hub V)
      → ((deliver libc m c h).sent ≡ (
          if libc.poll_out (h.client c).sock h.attempts && libc.send_ok (h.client c).sock h.attempts
          then h.sent ++ (c, m) ∷ []
          else h.sent))
        × ((deliver libc m c h).attempts ≡ h.attempts + 1)
        × ((d : ℕ) → ((deliver libc m c h).client d).sock ≡ (h.client d).sock)
  unfolding deliver send_message mark_closed
  deliver_lem m c h = (ground arith, ground arith, λ d. ground arith)

  -- Two hubs whose clients have the same sockets.
  pub reached-sock :
      (f g : ℕ → ℕ) (m : Message) (cs : List ℕ) (n : ℕ)
      → ((d : ℕ) → f d ≡ g d)
      → reached f m cs n ≡ reached g m cs n
  reached-sock f g m cs n same = ap (λ s. reached s m cs n) (fun_ext same)

  deliver_all-sent :
      (m : Message) (cs : List ℕ) (h : Hub V)
      → (deliver_all libc m cs h).sent ≡ h.sent ++ reached (λ d. (h.client d).sock) m cs h.attempts
  unfolding deliver_all reached
  deliver_all-sent m [] h = sym (append-nil h.sent)
  deliver_all-sent m (c ∷ cs) h =
      let (log, tries, socks) = deliver_lem m c h in
      let h' = deliver libc m c h in
      let ih =
        deliver_all-sent m cs h'
        ∙ ap₂ (λ l n. l ++ reached (λ d. (h'.client d).sock) m cs n) log tries
        ∙ ap
            (λ r.
              (if libc.poll_out (h.client c).sock h.attempts
                  && libc.send_ok (h.client c).sock h.attempts
                then h.sent ++ (c, m) ∷ []
                else h.sent)
              ++ r)
            (reached-sock (λ d. (h'.client d).sock) (λ d. (h.client d).sock) m cs (h.attempts + 1)
              socks) in
      elim (Bool-cases
        (libc.poll_out (h.client c).sock h.attempts && libc.send_ok (h.client c).sock h.attempts)) [
          | inl t ↦ rw t (rw t at ih ∙ append_assoc h.sent ((c, m) ∷ []) _)
          | inr f ↦ rw f (rw f at ih)
        ]

  pub broadcast-audience :
      (m : Message) (h : Hub V)
      → AllDocumentable h (get_or m.components 2 []) h.clients
      → (h' : Hub V) × (broadcast_notification libc m h ≡ some h')
        × (h'.sent
            ≡ h.sent
              ++ reached
                  (λ d. (h.client d).sock)
                  m
                  (audience h (get_or m.components 2 []) h.clients)
                  h.attempts)
  unfolding broadcast_notification
  broadcast-audience m h np =
      let to = audience h (get_or m.components 2 []) h.clients in
      (
        deliver_all libc m to h,
        rw (recipients-audience h (get_or m.components 2 []) h.clients np, broadcast_notification),
        deliver_all-sent m to h,
      )
