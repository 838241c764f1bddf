-- ===== src/Var/Cache.antt =====
-- The cache of read-only variables of src/var.c, next to the hub of src/hub that has the variables.
use libseawolf.Base.{
  ℕ, ◌≡◌, ◌<◌, refl, sym, ap, subst, ◌∙◌, true, false, Option, none, some, bytes_eq, bytes_eq_sound,
  if◌then◌else◌, Bool-cases, Option-cases, inl, inr,
}
use libseawolf.Base.Int.{ℤ}
use libseawolf.Comm.Message.{Bytes, Message}
use libseawolf.Hub.State.{Hub, Var, Libc, is_connected}
use libseawolf.Hub.Client.{send_message}
use libseawolf.Hub.Vars.Subscribe.{send_lem}
use libseawolf.Hub.Process.{process}
use libseawolf.Hub.Process.ReadOnly.{Keeps, process-Keeps}
use libseawolf.Var.{Floats, Link, Vars, get, ask_hub, read_response, get_request, set_entry}
use libseawolf.Var.HubLink.{hub_link, value_message, takes, hub_link-Asked, hub_link-answers}

module _ {V : Type 0} (floats : Floats V) {E : Type 0} (link : Link E) where
  pub get-cached :
      (name : Bytes) (vs : Vars V) (e : E) (x : V)
      → vs.subscriptions name ≡ none
      → vs.ro_cache name ≡ some x
      → get floats link name vs e ≡ some (x, vs, e)
  unfolding get
  get-cached name vs e x no_sub found = rw (no_sub, get, found) refl

  get-asks :
      (name : Bytes) (vs : Vars V) (e : E)
      → vs.subscriptions name ≡ none
      → vs.ro_cache name ≡ none
      → get floats link name vs e ≡ ask_hub floats link name vs e
  unfolding get
  get-asks name vs e no_sub uncached = rw (no_sub, get, uncached) refl

  ask_hub-answered :
      (name : Bytes) (vs vs' : Vars V) (e e' : E) (m : Message) (x : V)
      → link.ask (get_request name) e ≡ some (some m, e')
      → read_response floats name m vs ≡ some (x, vs')
      → ask_hub floats link name vs e ≡ some (x, vs', e')
  unfolding ask_hub
  ask_hub-answered name vs vs' e e' m x asked read = rw (asked, ask_hub, read) refl

  ask_hub-unanswered :
      (name : Bytes) (vs : Vars V) (e : E)
      → link.ask (get_request name) e ≡ none
      → ask_hub floats link name vs e ≡ none
  unfolding ask_hub
  ask_hub-unanswered name vs e asked = rw (asked, ask_hub) refl

module _ {V : Type 0} (floats : Floats V) (libc : Libc V) (c id : ℕ) where
  -- The value of a variable as an application reads it from the hub's message.
  abbrev pub as_read : Var V → V
  as_read v = floats.atof (libc.format v.value)

  -- The application's variables after it has asked for one.
  abbrev pub cached : Bytes → Var V → Vars V → Vars V
  cached name v vs =
      if v.readonly
      then record vs { ro_cache = set_entry vs.ro_cache name (some (as_read v)) }
      else vs

  read_value_message :
      (name : Bytes) (v : Var V) (vs : Vars V)
      → read_response floats name (value_message libc c id v) vs
        ≡ some (as_read v, cached name v vs)
  unfolding read_response bytes_eq
  read_value_message name v vs = elim (Bool-cases v.readonly) [
    | inl t ↦ rw t refl
    | inr f ↦ rw f refl
  ]

  -- A variable without a subscription that is not in the cache, of a connected client whose socket
  -- takes the answer: `Var_get` returns the hub's value as its message is read, and keeps it in
  -- the cache exactly if the variable is read-only.
  pub get-hub :
      (name : Bytes) (vs : Vars V) (h : Hub V) (v : Var V)
      → vs.subscriptions name ≡ none
      → vs.ro_cache name ≡ none
      → is_connected (h.client c).state ≡ true
      → h.var name ≡ some v
      → v.stuck ≡ false
      → takes libc c id h ≡ true
      → get floats (hub_link libc c id) name vs h
        ≡ some (as_read v, cached name v vs, (send_message libc c (value_message libc c id v) h).1)
  get-hub name vs h v no_sub uncached on e f t =
      let link = hub_link libc c id in
      get-asks floats link name vs h no_sub uncached
      ∙ ask_hub-answered floats link name vs (cached name v vs) h _ (value_message libc c id v)
          (as_read v) (hub_link-answers libc c id name h v on e f t) (read_value_message name v vs)

  -- Every value in the cache is the one that the hub has, of a variable that is read-only there.
  abbrev pub Coherent : Vars V → Hub V → Type 0
  Coherent vs h =
      (name : Bytes) (x : V)
      → vs.ro_cache name ≡ some x
      → (v : Var V) × (h.var name ≡ some v) × (v.readonly ≡ true) × (x ≡ as_read v)

  Coherent-Keeps : (vs : Vars V) (h h' : Hub V) → Keeps h h' → Coherent vs h → Coherent vs h'
  Coherent-Keeps vs h h' keeps coherent name x e =
      let (v, found, ro, is) = coherent name x e in
      let (v', found', ro', same) = keeps name v found ro in
      (v', found', ro', is ∙ ap (λ y. floats.atof (libc.format y)) (sym same))

  Coherent-cached :
      (name : Bytes) (v : Var V) (vs : Vars V) (h : Hub V)
      → h.var name ≡ some v
      → Coherent vs h
      → Coherent (cached name v vs) h
  Coherent-cached name v vs h found coherent = elim (Bool-cases v.readonly) [
    | inr f ↦ rw f coherent
    | inl t ↦ rw t (λ n x e. elim (Bool-cases (bytes_eq n name)) [
      | inl same ↦
          let is : as_read v ≡ x = (let k = rw same at e in cc) in
          (v, ap h.var (bytes_eq_sound n name same) ∙ found, t, sym is)
      | inr other ↦ coherent n x (rw other at e)
    ])
  ]

  -- The hub after the sending of a message.
  Coherent-sent :
      (m : Message) (vs : Vars V) (h : Hub V)
      → Coherent vs h
      → Coherent vs (send_message libc c m h).1
  Coherent-sent m vs h coherent n x e =
      let (v, found, ro, is) = coherent n x e in
      (v, ap (λ (k : Bytes → Option (Var V)). k n) (send_lem libc m c h).3 ∙ found, ro, is)

  -- A run of `Var_get` that asks the hub.
  asked-Coherent :
      (name : Bytes) (vs : Vars V) (h : Hub V) {value : V} {vs' : Vars V} {h' : Hub V}
      → 0 < id
      → Coherent vs h
      → ask_hub floats (hub_link libc c id) name vs h ≡ some (value, vs', h')
      → Coherent vs' h' × ((v : Var V) × (h.var name ≡ some v) × (value ≡ as_read v))
  asked-Coherent name vs h {value} {vs'} {h'} lt coherent run =
      let link = hub_link libc c id in
      elim (hub_link-Asked libc c id name h lt) [
        | inl e ↦
            let none_run = ask_hub-unanswered floats link name vs h e in
            (let k = sym none_run ∙ run in cc)
        | inr (v, found, e) ↦
            let m = value_message libc c id v in
            let after = (send_message libc c m h).1 in
            let same =
              sym (
                ask_hub-answered floats link name vs (cached name v vs) h after m (as_read v) e
                  (read_value_message name v vs))
              ∙ run in
            let value_same : as_read v ≡ value = cc in
            let vs_same : cached name v vs ≡ vs' = cc in
            let h_same : after ≡ h' = cc in
            (
              subst (λ k. Coherent k h') vs_same
                  (subst (Coherent (cached name v vs)) h_same (
                    Coherent-sent m (cached name v vs) h
                      (Coherent-cached name v vs h found coherent))),
              (v, found, sym value_same),
            )
      ]

  -- `Var_get` of a variable without a subscription.
  get-Coherent :
      (name : Bytes) (vs : Vars V) (h : Hub V) {value : V} {vs' : Vars V} {h' : Hub V}
      → 0 < id
      → vs.subscriptions name ≡ none
      → Coherent vs h
      → get floats (hub_link libc c id) name vs h ≡ some (value, vs', h')
      → Coherent vs' h' × ((v : Var V) × (h.var name ≡ some v) × (value ≡ as_read v))
  get-Coherent name vs h {value} {vs'} {h'} lt no_sub coherent run =
      let link = hub_link libc c id in
      elim (Option-cases (vs.ro_cache name)) [
        | inl uncached ↦
            asked-Coherent name vs h lt coherent
              (sym (get-asks floats link name vs h no_sub uncached) ∙ run)
        | inr (x, found) ↦
            let same = sym (get-cached floats link name vs h x no_sub found) ∙ run in
            let value_same : x ≡ value = cc in
            let vs_same : vs ≡ vs' = cc in
            let h_same : h ≡ h' = cc in
            let (v, there, ro, is) = coherent name x found in
            (
              subst (λ k. Coherent k h') vs_same (subst (Coherent vs) h_same coherent),
              (v, there, sym value_same ∙ is),
            )
      ]

  -- The application and the hub, from a start on: the hub processes messages of any clients, and the
  -- application reads variables, in any order.
  pub data Together (vs0 : Vars V) (h0 : Hub V) : Vars V → Hub V → Type 0 where
    begins : Together vs0 h0 vs0 h0
    processes :
        {vs : Vars V} {h h' : Hub V} (d : ℕ) (m : Message) (code : ℤ)
        → process libc d m h ≡ some (code, h')
        → Together vs0 h0 vs h
        → Together vs0 h0 vs h'
    gets :
        {vs vs' : Vars V} {h h' : Hub V} (name : Bytes) (value : V)
        → vs.subscriptions name ≡ none
        → get floats (hub_link libc c id) name vs h ≡ some (value, vs', h')
        → Together vs0 h0 vs h
        → Together vs0 h0 vs' h'

  Together-Coherent :
      (vs0 : Vars V) (h0 : Hub V) {vs : Vars V} {h : Hub V}
      → 0 < id
      → ((n : Bytes) → vs0.ro_cache n ≡ none)
      → Together vs0 h0 vs h
      → Coherent vs h
  Together-Coherent vs0 h0 lt empty begins = λ n x e. (let k = sym (empty n) ∙ e in cc)
  Together-Coherent vs0 h0 lt empty (processes {vs = vs} {h = h} {h' = h'} d m code run t) =
      Coherent-Keeps vs h h' (process-Keeps libc d m h run) (Together-Coherent vs0 h0 lt empty t)
  Together-Coherent vs0 h0 lt empty (gets {vs = vs} {h = h} name value no_sub run t) =
      (get-Coherent name vs h lt no_sub (Together-Coherent vs0 h0 lt empty t) run).0

  -- The cache is never seen: from an empty cache on, after any messages of any clients and any
  -- readings of variables without subscriptions, whatever `Var_get` returns for a variable without a
  -- subscription is the value that the hub has for it then, as its message is read, also when it
  -- comes from the cache.
  pub get-transparent :
      (vs0 : Vars V) (h0 : Hub V) {vs vs' : Vars V} {h h' : Hub V} (name : Bytes) {value : V}
      → 0 < id
      → ((n : Bytes) → vs0.ro_cache n ≡ none)
      → Together vs0 h0 vs h
      → vs.subscriptions name ≡ none
      → get floats (hub_link libc c id) name vs h ≡ some (value, vs', h')
      → (v : Var V) × (h.var name ≡ some v) × (value ≡ floats.atof (libc.format v.value))
  get-transparent vs0 h0 {vs} {vs'} {h} {h'} name lt empty t no_sub run =
      (get-Coherent name vs h lt no_sub (Together-Coherent vs0 h0 lt empty t) run).1
