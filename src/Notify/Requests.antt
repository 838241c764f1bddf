-- ===== src/Notify/Requests.antt =====
-- What the hub of src/hub makes of the requests that src/notify.c sends.
use libseawolf.Base.{ℕ, ◌≡◌, refl, true, Option, none, some, [], ◌∷◌, ◌++◌, bytes_eq}
use libseawolf.Base.Int.{pos}
use libseawolf.Comm.Message.{Bytes}
use libseawolf.Hub.State.{Hub, Libc, is_connected, codes, message}
use libseawolf.Hub.Client.{add_filter, clear_filters}
use libseawolf.Hub.Client.Broadcast.{AllDocumentable, audience, reached, broadcast-audience}
use libseawolf.Hub.Process.{process, dispatch, process_notify}
use libseawolf.Notify.{send_message, filter_message}

module _ {V : Type 0} (libc : Libc V) where
  -- A notification that a connected client sends with `Notify_send` is passed on by the hub, as a
  -- NOTIFY IN with the text "action param", to exactly the connected clients with a filter that, as
  -- documented, lets this text pass: a MATCH filter that is the text, or an ACTION filter that is
  -- the text's action. They get it in the order of the clients list, and of those it reaches the
  -- ones whose sockets take it. The clients have no PREFIX filters, and an ACTION filter with which
  -- the text begins is its whole action.
  pub send_message-process :
      (c : ℕ) (action param : Bytes) (h : Hub V)
      → is_connected (h.client c).state ≡ true
      → AllDocumentable libc h (action ++ (b' ' ∷ param)) h.clients
      → let text = action ++ (b' ' ∷ param) in
        let out = message 0 (codes "NOTIFY" ∷ codes "IN" ∷ text ∷ []) 3 in
        (h' : Hub V) × (process libc c (send_message action param) h ≡ some (pos 0, h'))
        × (h'.sent
            ≡ h.sent
              ++ reached libc
                  (λ d. (h.client d).sock)
                  out
                  (audience libc h text h.clients)
                  h.attempts)
  unfolding process dispatch process_notify send_message bytes_eq
  send_message-process c action param h on np =
      let text = action ++ (b' ' ∷ param) in
      let (h', done, log) =
        broadcast-audience libc (message 0 (codes "NOTIFY" ∷ codes "IN" ∷ text ∷ []) 3) h np in
      (h', rw (on, done) refl, log)

  -- `Notify_filter` on a connected client adds the filter with its type to the client's filters at
  -- the hub, or with NULL takes all of them away, if the hub's `atoi` reads what the client's `%d`
  -- prints.
  pub filter_message-process :
      (print_int : ℕ → Bytes) (c filter_type : ℕ) (filter : Option Bytes) (h : Hub V)
      → is_connected (h.client c).state ≡ true
      → libc.atoi (print_int filter_type) ≡ filter_type
      → process libc c (filter_message print_int filter_type filter) h
        ≡ some (
          pos 0,
          (elim filter [ none ↦ clear_filters c h | some f ↦ add_filter c filter_type f h ]),
        )
  unfolding process dispatch process_notify filter_message bytes_eq
  filter_message-process print_int c filter_type none h on reads = rw on refl
  filter_message-process print_int c filter_type (some f) h on reads = rw (on, reads) refl
