-- ===== src/Hub/Client.antt =====
-- src/hub/client.c, with the sending functions of src/hub/netio.c and `Hub_Net_markClientClosed` of
-- src/hub/netloop.c.
pub mod Filters
pub mod Broadcast
use libseawolf.Base.{
  ℕ, zero, suc, ◌+◌, ◌%◌, Bool, true, false, ◌&&◌, Option, none, some, List, [], ◌∷◌, ◌++◌,
  bytes_eq, get_or, ◌==◌, if◌then◌else◌,
}
use libseawolf.Comm.Message.{Bytes, Message}
use libseawolf.Hub.State.{
  ClientState, unauthenticated, closed, is_connected, is_closed, Filter, Client, Hub, Libc, codes,
  update_client, message,
}

abbrev pub filter_match : ℕ
filter_match = 1

abbrev pub filter_action : ℕ
filter_action = 2

abbrev pub filter_prefix : ℕ
filter_prefix = 3

-- `Hub_Client_new`
abbrev pub new_client : ℕ → Client
new_client sock = record {
  sock = sock;
  state = unauthenticated;
  filters = [];
  subscribed_vars = [];
}

-- `strncmp(msg, body, strlen(body)) == 0`
unfoldable pub starts_with : Bytes → Bytes → Bool
starts_with msg [] = true
starts_with [] (b ∷ body) = false
starts_with (m ∷ msg) (b ∷ body) = m == b && starts_with msg body

-- The loop of the FILTER_PREFIX case. The filter's NUL stands behind `body`; `none` is a read
-- behind that NUL.
unfoldable pub prefix_loop : Bytes → Bytes → Bool → Option Bool
prefix_loop [] body r = some r
prefix_loop (m ∷ msg) (b ∷ body) r = prefix_loop msg body r
prefix_loop (m ∷ []) [] r = some (if m == b' ' then false else r)
prefix_loop (m ∷ n ∷ msg) [] r = if m == b' ' then none else some r

-- One round of the loop of `Hub_Client_checkFilters`.
unfoldable pub check_filter : Filter → Bytes → Bool → Option Bool
check_filter f msg r =
    if f.kind == filter_match
    then some (if bytes_eq msg f.body then true else r)
    else if f.kind == filter_prefix
    then prefix_loop msg f.body r
    else if f.kind == filter_action
    then some (if starts_with msg f.body then true else r)
    else some r

unfoldable pub check_from : List Filter → Bytes → Bool → Option Bool
check_from [] msg r = some r
check_from (f ∷ fs) msg r = elim (check_filter f msg r) [
  | none ↦ none
  | some r' ↦ check_from fs msg r'
]

-- `Hub_Client_checkFilters`, for a message whose third component is `msg`.
unfoldable pub check_filters : Client → Bytes → Option Bool
check_filters client msg = check_from client.filters msg false

module _ {V : Type 0} where
  -- `Hub_Client_addFilter`. The type is cast to `unsigned char`.
  unfoldable pub add_filter : ℕ → ℕ → Bytes → Hub V → Hub V
  add_filter c type_ filter h =
      let client = h.client c in
      update_client h c (record client {
        filters = client.filters ++ record { kind = type_ % 256; body = filter } ∷ [];
      })

  -- `Hub_Client_clearFilters`
  unfoldable pub clear_filters : ℕ → Hub V → Hub V
  clear_filters c h = update_client h c (record (h.client c) { filters = [] })

  -- `Hub_Net_markClientClosed`
  unfoldable pub mark_closed : ℕ → Hub V → Hub V
  mark_closed c h =
      if is_closed (h.client c).state
      then h
      else record (update_client h c (record (h.client c) { state = closed })) {
        closed_clients = h.closed_clients ++ c ∷ [];
      }

module _ {V : Type 0} (libc : Libc V) where
  -- `Hub_Net_sendPackedMessage`: whether the result is not negative, and the hub. A message counts
  -- as sent when the socket takes it.
  unfoldable pub send_message : ℕ → Message → Hub V → Bool × Hub V
  send_message c m h =
      let tried = record h { attempts = h.attempts + 1 } in
      if libc.poll_out (h.client c).sock h.attempts && libc.send_ok (h.client c).sock h.attempts
      then (true, record tried { sent = h.sent ++ (c, m) ∷ [] })
      else (false, tried)

  -- `Hub_Client_kick`
  unfoldable pub kick : ℕ → Bytes → Hub V → Hub V
  kick c reason h =
      (send_message c (message 0 (codes "COMM" ∷ codes "KICKING" ∷ reason ∷ []) 3)
        (mark_closed c h)).1

  -- `Hub_Client_close`. The new message keeps the request identifier 0 that it was made with.
  unfoldable pub close : ℕ → Hub V → Hub V
  close c h = mark_closed c (send_message c (message 0 (codes "COMM" ∷ codes "CLOSING" ∷ []) 2) h).1

  -- The first loop of `Hub_Net_broadcastNotification`: the connected clients whose filters pass.
  -- `none` is a fault of a filter.
  unfoldable pub recipients : Hub V → Bytes → List ℕ → Option (List ℕ)
  recipients h msg [] = some []
  recipients h msg (c ∷ cs) = elim (recipients h msg cs) [
    | none ↦ none
    | some rest ↦
        if is_connected (h.client c).state
        then elim (check_filters (h.client c) msg) [
          | none ↦ none
          | some true ↦ some (c ∷ rest)
          | some false ↦ some rest
        ]
        else some rest
  ]

  -- One round of its second loop: send, and mark the client closed if that fails.
  unfoldable pub deliver : Message → ℕ → Hub V → Hub V
  deliver m c h = let (ok, h') = send_message c m h in if ok then h' else mark_closed c h'

  unfoldable pub deliver_all : Message → List ℕ → Hub V → Hub V
  deliver_all m [] h = h
  deliver_all m (c ∷ cs) h = deliver_all m cs (deliver m c h)

  -- `Hub_Net_broadcastNotification`
  unfoldable pub broadcast_notification : Message → Hub V → Option (Hub V)
  broadcast_notification m h = elim (recipients h (get_or m.components 2 []) h.clients) [
    | none ↦ none
    | some to ↦ some (deliver_all m to h)
  ]

  -- The loop of `Hub_Net_broadcastMessage`: every client that is connected when its turn comes.
  unfoldable pub broadcast_to : Message → List ℕ → Hub V → Hub V
  broadcast_to m [] h = h
  broadcast_to m (c ∷ cs) h =
      broadcast_to m cs (if is_connected (h.client c).state then deliver m c h else h)

  -- `Hub_Net_broadcastMessage`
  unfoldable pub broadcast_message : Message → Hub V → Hub V
  broadcast_message m h = broadcast_to m h.clients h
