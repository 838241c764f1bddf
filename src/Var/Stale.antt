-- ===== src/Var/Stale.antt =====
-- What `Var_get`, `Var_poked` and `Var_stale` of src/var.c say about a variable that an application
-- is subscribed to.
use libseawolf.Base.{
  ◌≡◌, refl, ap, ap₂, inl, inr, Option-cases, ◌∙◌, Bool, true, false, ◌&&◌, Option, none, some,
  List, [], ◌∷◌, bytes_eq_refl,
}
use libseawolf.Comm.Message.{Bytes}
use libseawolf.Var.{
  Floats, Link, Subscription, Vars, put_subscription, read_value, write_back, input_new_value,
  is_poked, stale, touch, get,
}

-- What can happen to the subscription of one variable: a new value comes in, or its value is read,
-- by `Var_get` or by `Var_touch`.
pub data Event (V : Type 0) : Type 0 where
  comes : V → Event V
  gets : Event V
  touches : Event V

module _ {V : Type 0} where
  -- The newest value, the value that was newest at the last reading, and whether a value has come in
  -- since then, for a history with the newest event first, of a variable that began with a value.
  abbrev pub newest : V → List (Event V) → V
  newest v [] = v
  newest v (comes w ∷ es) = w
  newest v (gets ∷ es) = newest v es
  newest v (touches ∷ es) = newest v es

  abbrev pub last_read : V → List (Event V) → V
  last_read v [] = v
  last_read v (comes w ∷ es) = last_read v es
  last_read v (gets ∷ es) = newest v es
  last_read v (touches ∷ es) = newest v es

  abbrev pub unread : List (Event V) → Bool
  unread (comes w ∷ es) = true
  unread [] = false
  unread (gets ∷ es) = false
  unread (touches ∷ es) = false

  -- The subscription after a history.
  abbrev pub after : Subscription V → V → List (Event V) → Subscription V
  after s v es = record s { last = last_read v es; current = newest v es; poked = unread es }

  pub write_back-subscriptions :
      (s : Subscription V) (vs : Vars V) → (write_back s vs).subscriptions ≡ vs.subscriptions
  write_back-subscriptions s vs = elim (Option-cases s.writeback) [
    | inl e ↦ rw e refl
    | inr (p, e) ↦ rw e refl
  ]

  pub put_subscription_self :
      (name : Bytes) (s : Subscription V) (vs : Vars V)
      → (put_subscription name s vs).subscriptions name ≡ some s
  put_subscription_self name s vs = let r = bytes_eq_refl name in rw r refl

  pub input_new_value-subscription :
      (name : Bytes) (w : V) (vs : Vars V) (s : Subscription V)
      → vs.subscriptions name ≡ some s
      → (input_new_value name w vs).subscriptions name
        ≡ some (record s { current = w; poked = true })
  unfolding input_new_value
  input_new_value-subscription name w vs s e =
      rw (e, input_new_value)
        (ap (λ f. f name)
            (write_back-subscriptions (record s { current = w; poked = true })
              (put_subscription name (record s { current = w; poked = true }) vs))
          ∙ put_subscription_self name (record s { current = w; poked = true }) vs)

  touch_lem :
      (name : Bytes) (vs : Vars V) (s : Subscription V)
      → vs.subscriptions name ≡ some s
      → touch name vs ≡ some (put_subscription name (read_value s) vs)
  unfolding touch
  touch_lem name vs s e = rw (e, touch) refl

module _ {V : Type 0} (floats : Floats V) {E : Type 0} (link : Link E) where
  pub get-subscribed :
      (name : Bytes) (vs : Vars V) (e : E) (s : Subscription V)
      → vs.subscriptions name ≡ some s
      → get floats link name vs e ≡ some (s.current, put_subscription name (read_value s) vs, e)
  unfolding get
  get-subscribed name vs e s q = rw (q, get) refl

  -- The run of a history on the variable of a name.
  abbrev pub run : Bytes → List (Event V) → Vars V × E → Option (Vars V × E)
  run name [] s = some s
  run name (comes w ∷ es) s = elim (run name es s) [
    | none ↦ none
    | some (vs, e) ↦ some (input_new_value name w vs, e)
  ]
  run name (gets ∷ es) s = elim (run name es s) [
    | none ↦ none
    | some (vs, e) ↦ elim (get floats link name vs e) [
      | none ↦ none
      | some (value, vs', e') ↦ some (vs', e')
    ]
  ]
  run name (touches ∷ es) s = elim (run name es s) [
    | none ↦ none
    | some (vs, e) ↦ elim (touch name vs) [ none ↦ none | some vs' ↦ some (vs', e) ]
  ]

  run-after :
      (name : Bytes) (es : List (Event V)) (vs : Vars V) (e : E) (s : Subscription V)
      → vs.subscriptions name ≡ some s
      → s ≡ after s s.current []
      → (vs' : Vars V) × (run name es (vs, e) ≡ some (vs', e))
        × (vs'.subscriptions name ≡ some (after s s.current es))
  run-after name [] vs e s q fresh = (vs, refl, q ∙ ap some fresh)
  run-after name (comes w ∷ es) vs e s q fresh =
      let (vs', r, t) = run-after name es vs e s q fresh in
      (
        input_new_value name w vs',
        rw r refl,
        input_new_value-subscription name w vs' (after s s.current es) t,
      )
  run-after name (gets ∷ es) vs e s q fresh =
      let (vs', r, t) = run-after name es vs e s q fresh in
      let s' = after s s.current es in
      (
        put_subscription name (read_value s') vs',
        rw (r, get-subscribed name vs' e s' t) refl,
        put_subscription_self name (read_value s') vs',
      )
  run-after name (touches ∷ es) vs e s q fresh =
      let (vs', r, t) = run-after name es vs e s q fresh in
      let s' = after s s.current es in
      (
        put_subscription name (read_value s') vs',
        rw (r, touch_lem name vs' s' t) refl,
        put_subscription_self name (read_value s') vs',
      )

  -- A variable that an application is subscribed to and that no value has come in for since it was
  -- last read, after any history of values that come in and of readings: nothing is asked of the
  -- hub, `Var_get` returns the newest value, `Var_poked` says whether a value has come in since the
  -- last reading, and `Var_stale` whether one has and the newest value differs from the one that was
  -- the newest at the last reading.
  pub run-answers :
      (name : Bytes) (es : List (Event V)) (vs : Vars V) (e : E) (s : Subscription V)
      → vs.subscriptions name ≡ some s
      → s.last ≡ s.current
      → s.poked ≡ false
      → let v = s.current in
        (vs' : Vars V) × (run name es (vs, e) ≡ some (vs', e))
        × (is_poked name vs' ≡ some (unread es))
        × (stale floats name vs' ≡ some (unread es && floats.differ (last_read v es) (newest v es)))
        × ((vs'' : Vars V) × (get floats link name vs' e ≡ some (newest v es, vs'', e)))
  unfolding is_poked stale
  run-answers name es vs e s q old idle =
      let (vs', r, t) =
        run-after name es vs e s q (ap₂ (λ l p. record s { last = l; poked = p }) old idle) in
      let s' = after s s.current es in
      (
        vs',
        r,
        rw (t, is_poked) refl,
        rw (t, stale) refl,
        (put_subscription name (read_value s') vs', get-subscribed name vs' e s' t),
      )
