-- ===== src/Var/Shared.antt =====
-- A variable between the applications: `Var_set` of src/var.c in one, the hub of src/hub, and
-- `Var_inputMessage` and `Var_get` in those that are subscribed.
use libseawolf.Base.{
  ℕ, ◌≡◌, refl, sym, ap, subst, ◌∙◌, true, false, Option, none, some, [], ◌∷◌, ◌++◌, bytes_eq,
  bytes_eq_refl, take, inl, inr,
}
use libseawolf.Base.Int.{ℤ, pos}
use libseawolf.Comm.Message.{Bytes, Message}
use libseawolf.Hub.State.{Hub, Var, Libc, is_connected, codes, message}
use libseawolf.Hub.Client.Broadcast.{reached}
use libseawolf.Hub.Vars.{set_value, notify_subscribers}
use libseawolf.Hub.Vars.Subscribe.{stored, set_value-stored, set_value-Sets, Sets}
use libseawolf.Hub.Process.{process, dispatch, process_var, after_set}
use libseawolf.Var.{
  Floats, Link, Vars, Subscription, get, set, set_request, notify_updated, input_message,
  input_new_value, put_subscription, read_value,
}
use libseawolf.Var.HubLink.{hub_link, tell-run}
use libseawolf.Var.Stale.{input_new_value-subscription, get-subscribed}

-- The message of the hub that a variable has a new value, printed into a buffer of 32 bytes.
abbrev pub watch_message : {V : Type 0} → Libc V → Bytes → V → Message
watch_message libc name value =
    message 0 (codes "WATCH" ∷ name ∷ take 31 (libc.format value) ∷ []) 3

module _ {V : Type 0} (floats : Floats V) (libc : Libc V) where
  set_request-process :
      (a : ℕ) (name : Bytes) (x : V) (h : Hub V)
      → is_connected (h.client a).state ≡ true
      → process libc a (set_request floats name x) h
        ≡ after_set libc a name (set_value libc name (libc.atof (floats.format x)) h)
  unfolding process dispatch process_var bytes_eq
  set_request-process a name x h on = rw on refl

  after_set-done :
      (a : ℕ) (name : Bytes) (h : Hub V) (r : Option (ℤ × Hub V))
      → r ≡ some (pos 0, h)
      → after_set libc a name r ≡ some (pos 0, h)
  unfolding after_set
  after_set-done a name h r e = rw e refl

  -- What a write to a variable that can be written leaves in the hub.
  abbrev pub Written : Bytes → V → Var V → Hub V → Hub V → Type 0
  Written name y v h h' =
      (h'.var name ≡ some (record v { value = y }))
      × (h'.sent
          ≡ h.sent
            ++ reached libc (λ d. (h.client d).sock) (watch_message libc name y) v.subscribers
                h.attempts)

  written :
      (name : Bytes) (y : V) (v : Var V) (h : Hub V)
      → h.var name ≡ some v
      → v.readonly ≡ false
      → v.stuck ≡ false
      → (h' : Hub V) × (set_value libc name y h ≡ some (pos 0, h')) × Written name y v h h'
  written name y v h e f g =
      let run = set_value-stored libc name y h v e f g in
      let h' = notify_subscribers libc name y v.subscribers (stored libc name y h v v.persistent) in
      (
        h',
        run,
        by_sets h'
            (subst (λ o. Sets libc name y h o (pos 0) h') e (set_value-Sets libc name y h run)),
      )
    where
      by_sets : (h' : Hub V) → Sets libc name y h (some v) (pos 0) h' → Written name y v h h'
      by_sets h' (inl (t, code, same)) = (let k = sym f ∙ t in cc)
      by_sets h' (inr (k, code, vars, flag, log)) =
          let r = bytes_eq_refl name in
          (ap (λ (l : Bytes → Option (Var V)). l name) vars ∙ rw r refl, log)

module _ {V : Type 0} (floats : Floats V) (libc : Libc V) {E : Type 0} (link : Link E) where
  -- A subscribed application that takes in the hub's message.
  watch-get :
      (name : Bytes) (y : V) (vs : Vars V) (s : Subscription V) (e : E)
      → vs.subscriptions name ≡ some s
      → (vs' : Vars V) × (input_message floats (watch_message libc name y) vs ≡ some vs')
        × ((vs'' : Vars V) × (get floats link name vs' e
              ≡ some (floats.atof (take 31 (libc.format y)), vs'', e)))
  unfolding input_message
  watch-get name y vs s e q =
      let x = floats.atof (take 31 (libc.format y)) in
      let s' : Subscription V = record s { current = x; poked = true } in
      let vs' = input_new_value name x vs in
      (
        vs',
        refl,
        (
          put_subscription name (read_value s') vs',
          get-subscribed floats link name vs' e s' (input_new_value-subscription name x vs s q),
        ),
      )

  set-told :
      {F : Type 0} (other : Link F) (name : Bytes) (x : V) (vs : Vars V) (e e' : F)
      → other.tell (set_request floats name x) e ≡ some e'
      → vs.notify ≡ false
      → (vs' : Vars V) × (set floats other name x vs e ≡ some (vs', e'))
  unfolding set notify_updated
  set-told other name x vs e e' told quiet = (
    (elim (vs.subscriptions name) [ none ↦ vs | some s ↦ input_new_value name x vs ]),
    rw (told, set, quiet) refl,
  )

  -- Without the notifications of `Var_set`, a connected application that sets a variable that is
  -- there, can be written and is not locked for good, sets it at the hub to what the hub reads of
  -- its message, and the hub tries every subscriber, in the order of the subscriptions. An
  -- application that is subscribed to the variable and takes in the message that they are
  -- sent has, in its next `Var_get`, the new value as it reads it there.
  pub set-shared :
      (a id : ℕ) (name : Bytes) (x : V) (vs : Vars V) (h : Hub V) (v : Var V) (other : Vars V)
      (s : Subscription V) (e : E)
      → vs.notify ≡ false
      → is_connected (h.client a).state ≡ true
      → h.var name ≡ some v
      → v.readonly ≡ false
      → v.stuck ≡ false
      → other.subscriptions name ≡ some s
      → let y = libc.atof (floats.format x) in
        (vs' : Vars V) × (h' : Hub V) × (set floats (hub_link libc a id) name x vs h
          ≡ some (vs', h'))
        × Written floats libc name y v h h'
        × ((other' : Vars V) × (input_message floats (watch_message libc name y) other
              ≡ some other')
            × ((other'' : Vars V) × (get floats link name other' e
                  ≡ some (floats.atof (take 31 (libc.format y)), other'', e))))
  set-shared a id name x vs h v other s e quiet on found writable free q =
      let y = libc.atof (floats.format x) in
      let (h', run, done) = written floats libc name y v h found writable free in
      let told =
        set_request-process floats libc a name x h on
        ∙ after_set-done floats libc a name h' (set_value libc name y h) run in
      let (vs', set_run) =
        set-told (hub_link libc a id) name x vs h h'
          (tell-run libc a id (set_request floats name x) h h' (pos 0) told) quiet in
      (vs', h', set_run, done, watch-get name y other s e q)
