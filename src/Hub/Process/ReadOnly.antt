-- ===== src/Hub/Process/ReadOnly.antt =====
-- What the requests of src/hub/process.c can do to read-only variables.
use libseawolf.Base.{
  ℕ, ◌≡◌, ◌≢◌, inl, inr, refl, sym, ap, ◌∙◌, true, false, Option, some, bytes_eq, bytes_eq_sound,
  if◌then◌else◌, Bool-cases, Option-cases,
}
use libseawolf.Base.Int.{ℤ}
use libseawolf.Comm.Message.{Bytes, Message}
use libseawolf.Hub.Process.Preserve.{Returning, Covers, process_covered}
use libseawolf.Hub.State.{update_var, Var, Hub, Libc, is_closed}
use libseawolf.Hub.Client.{add_filter, clear_filters, mark_closed, send_message}
use libseawolf.Hub.Vars.{remove_client, remove_name, add_subscriber, delete_subscriber}
use libseawolf.Hub.Vars.Subscribe.{send_lem}
use libseawolf.Hub.Process.{process}

module _ {V : Type 0} where
  -- Every read-only variable is there, read-only, with the value that it had.
  abbrev pub KeepsVars : (Bytes → Option (Var V)) → (Bytes → Option (Var V)) → Type 0
  KeepsVars f g =
      (name : Bytes) (v : Var V)
      → f name ≡ some v
      → v.readonly ≡ true
      → (v' : Var V) × (g name ≡ some v') × (v'.readonly ≡ true) × (v'.value ≡ v.value)

  abbrev pub Keeps : Hub V → Hub V → Type 0
  Keeps h h' = KeepsVars h.var h'.var

  same_vars : {f g : Bytes → Option (Var V)} → g ≡ f → KeepsVars f g
  same_vars e name v found ro = (v, ap (λ k. k name) e ∙ found, ro, refl)

  pub some_eq : {v w : Var V} → ◌≡◌ {A = Option (Var V)} (some v) (some w) → v ≡ w
  some_eq e = cc

  Keeps-trans : {f g k : Bytes → Option (Var V)} → KeepsVars f g → KeepsVars g k → KeepsVars f k
  Keeps-trans p q name v found ro =
      let (w, found', ro', same) = p name v found ro in
      let (u, found'', ro'', same') = q name w found' ro' in (u, found'', ro'', same' ∙ same)

  -- A write to one variable that keeps its value and whether it is read-only.
  update_lem :
      (f : Bytes → Option (Var V)) (name : Bytes) (v x : Var V)
      → f name ≡ some v
      → x.readonly ≡ v.readonly
      → x.value ≡ v.value
      → KeepsVars f (λ n. if bytes_eq n name then some x else f n)
  update_lem f name v x found ro_same value_same n w found' ro =
      elim (Bool-cases (bytes_eq n name)) [
        | inl t ↦
            let here : f n ≡ some v = ap f (bytes_eq_sound n name t) ∙ found in
            let same : v ≡ w = some_eq (sym here ∙ found') in
            (
              x,
              rw t refl,
              ro_same ∙ ap (λ (u : Var V). u.readonly) same ∙ ro,
              value_same ∙ ap (λ (u : Var V). u.value) same,
            )
        | inr other ↦ (w, rw other found', ro, refl)
      ]

  pub mark_closed-var : (c : ℕ) (h : Hub V) → (mark_closed c h).var ≡ h.var
  unfolding mark_closed
  mark_closed-var c h = elim (Bool-cases (is_closed (h.client c).state)) [
    | inl t ↦ rw t refl
    | inr f ↦ rw f refl
  ]

  stores-Keeps :
      (name : Bytes) (value : V) (v : Var V) (h : Hub V)
      → h.var name ≡ some v
      → v.readonly ≡ false
      → Keeps h (update_var h name (record v { value = value }))
  stores-Keeps name value v h e f n w found ro = elim (Bool-cases (bytes_eq n name)) [
    | inl t ↦
        let same : v ≡ w = some_eq (sym (ap h.var (bytes_eq_sound n name t) ∙ e) ∙ found) in
        absurd (true_false (sym ro ∙ ap (λ (u : Var V). u.readonly) (sym same) ∙ f))
    | inr g ↦ (w, rw g found, ro, refl)
  ]
    where
      true_false : true ≢ false
      true_false = λ e. cc

  add_subscriber-Keeps :
      (c : ℕ) (name : Bytes) (h : Hub V) → Returning Keeps h (add_subscriber c name h)
  unfolding add_subscriber
  add_subscriber-Keeps c name h = elim (Option-cases (h.var name)) [
    | inl e ↦ rw (e, add_subscriber) (same_vars refl)
    | inr (v, e) ↦ elim (Bool-cases v.stuck) [
      | inl t ↦ rw (e, add_subscriber, t) tt
      | inr f ↦ rw (e, add_subscriber, f) (update_lem h.var name v _ e refl refl)
    ]
  ]

  delete_subscriber-Keeps :
      (c : ℕ) (name : Bytes) (h : Hub V) → Returning Keeps h (delete_subscriber c name h)
  unfolding delete_subscriber
  delete_subscriber-Keeps c name h = elim (Option-cases (h.var name)) [
    | inl e ↦ rw (e, delete_subscriber) (same_vars refl)
    | inr (v, e) ↦ elim (Bool-cases v.stuck) [
      | inl t ↦ rw (e, delete_subscriber, t) tt
      | inr f ↦ elim (Option-cases (remove_client c v.subscribers)) [
        | inl e' ↦ rw (e, delete_subscriber, f, e') (update_lem h.var name v _ e refl refl)
        | inr (rest, e') ↦ elim (Option-cases (remove_name name (h.client c).subscribed_vars)) [
          | inl e'' ↦ rw (e, delete_subscriber, f, e', e'') (update_lem h.var name v _ e refl refl)
          | inr (names, e'') ↦
              rw (e, delete_subscriber, f, e', e'') (update_lem h.var name v _ e refl refl)
        ]
      ]
    ]
  ]

module _ {V : Type 0} (libc : Libc V) where
  pub send_message-var : (c : ℕ) (m : Message) (h : Hub V) → (send_message libc c m h).1.var ≡ h.var
  send_message-var c m h = (send_lem libc m c h).3

  abbrev Keeps-Covers : Covers libc Keeps
  Keeps-Covers = record {
    idle = λ h. same_vars refl;
    also = λ h k l. Keeps-trans;
    sends = λ c m h. same_vars (send_message-var c m h);
    closes = λ c h. same_vars (mark_closed-var c h);
    adds_filter = λ c n filter h. unfold add_filter in same_vars refl;
    clears_filters = λ c h. unfold clear_filters in same_vars refl;
    logs = λ entries h. same_vars refl;
    flushes = λ h. same_vars refl;
    stores = stores-Keeps;
    subscribes = add_subscriber-Keeps;
    unsubscribes = delete_subscriber-Keeps;
  }

  -- Whatever message any client sends, when its processing returns, every read-only variable is
  -- there, is read-only, and has the value that it had.
  pub process-Keeps :
      (c : ℕ) (m : Message) (h : Hub V) {code : ℤ} {h' : Hub V}
      → process libc c m h ≡ some (code, h')
      → Keeps h h'
  process-Keeps c m h run =
      process_covered libc Keeps Keeps-Covers (λ d k. same_vars refl) c m h run
