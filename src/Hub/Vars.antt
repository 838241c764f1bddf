-- ===== src/Hub/Vars.antt =====
-- src/hub/var.c: the variables. The dictionary `var_cache` is a function from names. A result of
-- `none` is a call that waits for a lock that is never released.
pub mod Subscribe
pub mod Counts
pub mod Database
use libseawolf.Base.{
  ℕ, zero, suc, ◌+◌, Bool, true, false, Option, none, some, List, [], ◌∷◌, ◌++◌, bytes_eq, take,
  ◌==◌, if◌then◌else◌,
}
use libseawolf.Base.Int.{ℤ, pos, minus_one, minus_two}
use libseawolf.Comm.Message.{Bytes, Message}
use libseawolf.Hub.State.{Client, Var, Hub, Libc, codes, update_client, update_var, message}
use libseawolf.Hub.Client.{send_message}

-- `List_indexOf` followed by `List_remove`: the list without the first occurrence, if there is one.
unfoldable pub remove_client : ℕ → List ℕ → Option (List ℕ)
remove_client c [] = none
remove_client c (d ∷ ds) =
    if d == c then some ds else elim (remove_client c ds) [ none ↦ none | some r ↦ some (d ∷ r) ]

unfoldable pub remove_name : Bytes → List Bytes → Option (List Bytes)
remove_name n [] = none
remove_name n (m ∷ ms) =
    if bytes_eq m n
    then some ms
    else elim (remove_name n ms) [ none ↦ none | some r ↦ some (m ∷ r) ]

module _ {V : Type 0} where
  -- `Hub_Var_addSubscriber`
  unfoldable pub add_subscriber : ℕ → Bytes → Hub V → Option (ℤ × Hub V)
  add_subscriber c name h = elim (h.var name) [
    | none ↦ some (minus_one, h)
    | some v ↦
        if v.stuck
        then none
        else let h' = update_var h name (record v { subscribers = v.subscribers ++ c ∷ [] }) in
          let client = h'.client c in
          some (
            pos 0,
            update_client h' c
                (record client { subscribed_vars = client.subscribed_vars ++ name ∷ [] }),
          )
  ]

  -- `Hub_Var_deleteSubscriber`. For a client that is no subscriber it returns without releasing the
  -- variable's write lock.
  unfoldable pub delete_subscriber : ℕ → Bytes → Hub V → Option (ℤ × Hub V)
  delete_subscriber c name h = elim (h.var name) [
    | none ↦ some (minus_one, h)
    | some v ↦ if v.stuck then none else elim (remove_client c v.subscribers) [
      | none ↦ some (minus_one, update_var h name (record v { stuck = true }))
      | some rest ↦
          let h' = update_var h name (record v { subscribers = rest }) in
          let client = h'.client c in
          elim (remove_name name client.subscribed_vars) [
            | none ↦ some (minus_two, h')
            | some names ↦
                some (pos 0, update_client h' c (record client { subscribed_vars = names }))
          ]
    ]
  ]

module _ {V : Type 0} (libc : Libc V) where
  -- The loop of `Hub_Var_setValue` over the subscribers.
  unfoldable pub publish : Message → List ℕ → Hub V → Hub V
  publish m [] h = h
  publish m (c ∷ cs) h = publish m cs (send_message libc c m h).1

  -- The last part of `Hub_Var_setValue`, from its test for subscribers on. The value is printed into
  -- a buffer of 32 bytes.
  unfoldable pub notify_subscribers : Bytes → V → List ℕ → Hub V → Hub V
  notify_subscribers name value [] h = h
  notify_subscribers name value (c ∷ cs) h =
      publish (message 0 (codes "WATCH" ∷ name ∷ take 31 (libc.format value) ∷ []) 3) (c ∷ cs) h

  -- `Hub_Var_setValue`
  unfoldable pub set_value : Bytes → V → Hub V → Option (ℤ × Hub V)
  set_value name value h = elim (h.var name) [
    | none ↦ some (minus_one, h)
    | some v ↦
        if v.readonly
        then some (minus_two, h)
        else if v.stuck
        then none
        else let h1 = update_var h name (record v { value = value }) in
          let h2 = if v.persistent then record h1 { do_flush_flag = true } else h1 in
          some (pos 0, notify_subscribers name value v.subscribers h2)
  ]
