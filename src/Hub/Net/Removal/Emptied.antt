-- ===== src/Hub/Net/Removal/Emptied.antt =====
-- The whole queue of clients that are marked closed, as `Hub_Net_removeMarkedClosedClients` of
-- src/hub/netloop.c works it off.
use libseawolf.Base.{ℕ, ◌≡◌, ◌<◌, true, false, List, [], ◌∷◌, ◌==◌, length}
use libseawolf.Comm.Message.{Bytes}
use libseawolf.Hub.State.{Client, Hub}
use libseawolf.Hub.Vars.Subscribe.{subscriptions}
use libseawolf.Hub.Process.Balance.{held, Balanced}
use libseawolf.Hub.Net.Removal.{without_client, on_list}
use libseawolf.Hub.Net.Removal.Removed.{Free, SameBut}

-- The list without one occurrence of each of the clients.
abbrev pub without_all : List ℕ → List ℕ → List ℕ
without_all [] cs = cs
without_all (d ∷ ds) cs = without_all ds (without_client d cs)

-- Each client of a queue is on a list, once for each time that it is queued.
abbrev pub OnList : List ℕ → List ℕ → Type 0
OnList [] cs = Unit
OnList (c ∷ queue) cs = (on_list c cs ≡ true) × OnList queue (without_client c cs)

module _ {V : Type 0} where
  -- The loop over the client's subscriptions can end within the rounds.
  abbrev pub Removable : ℕ → Hub V → ℕ → Type 0
  Removable rounds h c = (length (h.client c).subscribed_vars < rounds) × Free h c

  -- The client is in the hub as it is after its removal: no variable lists it, and it has no
  -- filters.
  abbrev pub Gone : Hub V → ℕ → Type 0
  Gone h c = ((n : Bytes) → held c (h.var n) ≡ 0) × ((h.client c).filters ≡ [])

  -- The hub after one round of the outer loop.
  abbrev Cleared : ℕ → Hub V → Hub V → Type 0
  Cleared c h h' =
      ((h'.client c).subscribed_vars ≡ [])
      × Balanced h'
      × ((d : ℕ) → (d == c) ≡ false → h'.client d ≡ h.client d)
      × ((n : Bytes) → SameBut (h.var n) (h'.var n))

  -- What the removal of the clients of a queue does to the hub.
  abbrev pub Emptied : List ℕ → Hub V → Hub V → Type 0
  Emptied queue h h' =
      (h'.closed_clients ≡ [])
      × (h'.clients ≡ without_all queue h.clients)
      × ((d : ℕ) → 0 < subscriptions d queue → Gone h' d)
      × ((d : ℕ) → subscriptions d queue ≡ 0 → h'.client d ≡ h.client d)
      × ((n : Bytes) → SameBut (h.var n) (h'.var n))
      × Balanced h'
