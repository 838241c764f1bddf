-- ===== src/Hub/Net/Removal.antt =====
-- How src/hub/netloop.c takes in a new client and takes out those that are marked closed. Closing
-- the sockets is not modelled, and of the other threads only whether they are waited for in vain;
-- the memory of a client that is out keeps its number in the store and is not used again.
pub mod Removed
pub mod Emptied
pub mod Ends
use libseawolf.Base.{
  ℕ, zero, suc, leb, Bool, not, ◌||◌, Option, none, some, List, [], ◌∷◌, ◌++◌, length, ◌==◌,
  if◌then◌else◌,
}
use libseawolf.Base.Int.{ℤ}
use libseawolf.Hub.State.{Hub, update_client}
use libseawolf.Hub.Client.{new_client, clear_filters}
use libseawolf.Hub.Vars.{remove_client, delete_subscriber}

-- `List_remove(clients, List_indexOf(clients, client))`: without the client on the list, the index
-- is -1 and nothing is removed.
unfoldable pub without_client : ℕ → List ℕ → List ℕ
without_client c cs = elim (remove_client c cs) [ none ↦ cs | some rest ↦ rest ]

abbrev pub on_list : ℕ → List ℕ → Bool
on_list c cs = elim (remove_client c cs) [ none ↦ Bool.false | some rest ↦ Bool.true ]

module _ {V : Type 0} where
  -- `Hub_Net_acceptClient`, for a limit on the clients and a number that is free. The result says
  -- whether the client is taken in.
  unfoldable pub accept_client : ℕ → ℕ → ℕ → Hub V → Bool × Hub V
  accept_client max_clients c sock h =
      if leb max_clients (length h.clients) then (Bool.false, h) else (
        Bool.true,
        record (update_client h c (new_client sock)) { clients = h.clients ++ c ∷ [] },
      )

  -- The inner loop of `Hub_Net_removeMarkedClosedClients`: while the client has a first variable,
  -- delete its subscription to it. `none` is a loop that waits for a lock or is not done.
  unfoldable pub drop_subscriptions : ℕ → ℕ → Hub V → Option (Hub V)
  drop_subscriptions zero c h = none
  drop_subscriptions (suc rounds) c h = elim (h.client c).subscribed_vars [
    | [] ↦ some h
    | name ∷ names ↦ elim (delete_subscriber c name h) [
      | none ↦ none
      | some (code, h') ↦ drop_subscriptions rounds c h'
    ]
  ]

  -- `Hub_Net_removeMarkedClosedClients`, with the rounds of its outer and of its inner loop, up to
  -- the empty queue: there it returns, or waits for the next client where `blocking_close_clients`
  -- is set. `waits` says for which clients it waits for ever, for the end of the client's thread or
  -- for another thread that keeps using the client. A client that is on the list no more is one
  -- that has been freed. `none` is a wait for ever, the use of a freed client, or a lack of rounds.
  unfoldable pub remove_marked_closed : (ℕ → Bool) → ℕ → ℕ → Hub V → Option (Hub V)
  remove_marked_closed waits zero rounds h = none
  remove_marked_closed waits (suc removals) rounds h = elim h.closed_clients [
    | [] ↦ some h
    | c ∷ rest ↦
        if waits c || not (on_list c h.clients)
        then none
        else elim (drop_subscriptions rounds c
            (record h { closed_clients = rest; clients = without_client c h.clients })) [
              | none ↦ none
              | some h' ↦ remove_marked_closed waits removals rounds (clear_filters c h')
            ]
  ]
