-- ===== src/Hub/Vars/Subscribe.antt =====
-- Subscriptions and writes of src/hub/var.c.
use libseawolf.Base.{
  ℕ, ◌+◌, ◌≡◌, ◌≢◌, ◌⊎◌, refl, sym, ap₂, ◌∙◌, Bool, true, false, ◌&&◌, ◌||◌, Option, none, some,
  List, [], ◌∷◌, ◌++◌, append_assoc, append-nil, arith, bytes_eq, ◌==◌, if◌then◌else◌, Bool-cases,
  subst, inl, inr, take,
}
use libseawolf.Base.Int.{ℤ, pos, minus_one, minus_two}
use libseawolf.Comm.Message.{Bytes, Message}
use libseawolf.Hub.State.{Client, Var, Hub, Libc, codes, update_var, message}
use libseawolf.Hub.Client.{send_message}
use libseawolf.Hub.Client.Broadcast.{reached}
use libseawolf.Hub.Vars.{remove_client, publish, notify_subscribers, set_value}

-- How often a client is on a list of subscribers.
abbrev pub subscriptions : ℕ → List ℕ → ℕ
subscriptions c [] = 0
subscriptions c (d ∷ ds) = (if d == c then 1 else 0) + subscriptions c ds

pub remove_client-none : (c : ℕ) (ds : List ℕ) → subscriptions c ds ≡ 0 → remove_client c ds ≡ none
unfolding remove_client
remove_client-none c [] h = refl
remove_client-none c (d ∷ ds) h = ground (arith, remove_client-none c ds)

module _ {V : Type 0} (libc : Libc V) where
  pub send_lem :
      (m : Message) (c : ℕ) (h : Hub V)
      → let h' = (send_message libc c m h).1 in
        (h'.sent ≡ (
          if libc.poll_out (h.client c).sock h.attempts && libc.send_ok (h.client c).sock h.attempts
          then h.sent ++ (c, m) ∷ []
          else h.sent))
        × (h'.attempts ≡ h.attempts + 1)
        × (h'.client ≡ h.client)
        × (h'.var ≡ h.var)
        × (h'.do_flush_flag ≡ h.do_flush_flag)
  unfolding send_message
  send_lem m c h =
      elim (Bool-cases
        (libc.poll_out (h.client c).sock h.attempts && libc.send_ok (h.client c).sock h.attempts)) [
          | inl t ↦ rw t (refl, refl, refl, refl, refl)
          | inr f ↦ rw f (refl, refl, refl, refl, refl)
        ]

  publish_step :
      (m : Message) (c : ℕ) (cs : List ℕ) (h : Hub V)
      → let h' = (send_message libc c m h).1 in
        let r = publish libc m cs h' in
        ((r.sent ≡ h'.sent ++ reached libc (λ d. (h'.client d).sock) m cs h'.attempts)
          × (r.var ≡ h'.var)
          × (r.do_flush_flag ≡ h'.do_flush_flag))
        → (r.sent ≡ h.sent ++ reached libc (λ d. (h.client d).sock) m (c ∷ cs) h.attempts)
          × (r.var ≡ h.var)
          × (r.do_flush_flag ≡ h.do_flush_flag)
  unfolding reached
  publish_step m c cs h (logged, vars, flag) =
      let (log, tries, clients, same_vars, same_flag) = send_lem m c h in
      let rest = ap₂ (λ (f : ℕ → Client) n. reached libc (λ d. (f d).sock) m cs n) clients tries in
      (
        elim (Bool-cases (
            libc.poll_out (h.client c).sock h.attempts
            && libc.send_ok (h.client c).sock h.attempts)) [
              | inl t ↦
                  rw t (logged ∙ ap₂ ◌++◌ (rw t at log) rest ∙ append_assoc h.sent ((c, m) ∷ []) _)
              | inr f ↦ rw f (logged ∙ ap₂ ◌++◌ (rw f at log) rest)
            ],
        vars ∙ same_vars,
        flag ∙ same_flag,
      )

  publish-sent :
      (m : Message) (cs : List ℕ) (h : Hub V)
      → ((publish libc m cs h).sent
          ≡ h.sent ++ reached libc (λ d. (h.client d).sock) m cs h.attempts)
        × ((publish libc m cs h).var ≡ h.var)
        × ((publish libc m cs h).do_flush_flag ≡ h.do_flush_flag)
  unfolding publish
  publish-sent m [] h = (unfold reached in sym (append-nil h.sent), refl, refl)
  publish-sent m (c ∷ cs) h = publish_step m c cs h (publish-sent m cs (send_message libc c m h).1)

  -- What a write to a variable does, by the variable that the name has.
  abbrev pub Sets : Bytes → V → Hub V → Option (Var V) → ℤ → Hub V → Type 0
  Sets name value h none code h' = (code ≡ minus_one) × (h' ≡ h)
  Sets name value h (some v) code h' =
      ((v.readonly ≡ true) × (code ≡ minus_two) × (h' ≡ h))
      ⊎ ((v.readonly ≡ false)
          × (code ≡ pos 0)
          × (h'.var ≡ (λ n. if bytes_eq n name then some (record v { value = value }) else h.var n))
          × (h'.do_flush_flag ≡ (v.persistent || h.do_flush_flag))
          × (h'.sent
              ≡ h.sent
                ++ reached libc (λ d. (h.client d).sock)
                    (message 0 (codes "WATCH" ∷ name ∷ take 31 (libc.format value) ∷ []) 3)
                    v.subscribers h.attempts))

  notify-sent :
      (name : Bytes) (value : V) (cs : List ℕ) (h : Hub V)
      → let h' = notify_subscribers libc name value cs h in
        (h'.sent
          ≡ h.sent
            ++ reached libc
                (λ d. (h.client d).sock)
                (message 0 (codes "WATCH" ∷ name ∷ take 31 (libc.format value) ∷ []) 3)
                cs
                h.attempts)
        × (h'.var ≡ h.var)
        × (h'.do_flush_flag ≡ h.do_flush_flag)
  unfolding notify_subscribers
  notify-sent name value [] h = (unfold reached in sym (append-nil h.sent), refl, refl)
  notify-sent name value (c ∷ cs) h = publish-sent _ (c ∷ cs) h

  returned :
      {z z' : ℤ} {k k' : Hub V} (P : ℤ → Hub V → Type 0)
      → ◌≡◌ {A = Option (ℤ × Hub V)} (some (z, k)) (some (z', k'))
      → P z k
      → P z' k'
  returned {z} {z'} {k} {k'} P e p =
      let code : z ≡ z' = cc in
      let hub : k ≡ k' = cc in subst (λ h. P z' h) hub (subst (λ c. P c k) code p)

  -- The hub in which the value is stored and, if `p`, a flush is asked for.
  abbrev pub stored : Bytes → V → Hub V → Var V → Bool → Hub V
  stored name value h v p =
      let h1 = update_var h name (record v { value = value }) in
      if p then record h1 { do_flush_flag = true } else h1

  Sets_stored :
      (name : Bytes) (value : V) (h : Hub V) (v : Var V) (p : Bool)
      → let h' = notify_subscribers libc name value v.subscribers (stored name value h v p) in
        (h'.var ≡ (λ n. if bytes_eq n name then some (record v { value = value }) else h.var n))
        × (h'.do_flush_flag ≡ (p || h.do_flush_flag))
        × (h'.sent
            ≡ h.sent
              ++ reached libc
                  (λ d. (h.client d).sock)
                  (message 0 (codes "WATCH" ∷ name ∷ take 31 (libc.format value) ∷ []) 3)
                  v.subscribers
                  h.attempts)
  Sets_stored name value h v true =
      let (log, vars, flag) = notify-sent name value v.subscribers (stored name value h v true) in
      (vars, flag, log)
  Sets_stored name value h v false =
      let (log, vars, flag) = notify-sent name value v.subscribers (stored name value h v false) in
      (vars, flag, log)

  pub set_value-stored :
      (name : Bytes) (value : V) (h : Hub V) (v : Var V)
      → h.var name ≡ some v
      → v.readonly ≡ false
      → v.stuck ≡ false
      → set_value libc name value h
        ≡ some (
          pos 0,
          notify_subscribers libc name value v.subscribers (stored name value h v v.persistent),
        )
  unfolding set_value
  set_value-stored name value h v e f g = rw (e, set_value, f, g) refl

  Sets-run :
      (name : Bytes) (value : V) (h : Hub V) (o : Option (Var V))
      → h.var name ≡ o
      → {code : ℤ} {h' : Hub V} → set_value libc name value h ≡ some (code, h')
      → Sets name value h o code h'
  unfolding set_value
  Sets-run name value h none e {code} {h'} run =
      returned (Sets name value h none) (rw (e, set_value) at run) (refl, refl)
  Sets-run name value h (some v) e {code} {h'} run = elim (Bool-cases v.readonly) [
    | inl t ↦
        returned (Sets name value h (some v)) (rw (e, set_value, t) at run) (inl (t, refl, refl))
    | inr f ↦ elim (Bool-cases v.stuck) [
      | inl t ↦ absurd (none_some (rw (e, set_value, f, t) at run))
      | inr g ↦
          returned (Sets name value h (some v)) (sym (set_value-stored name value h v e f g) ∙ run)
            (let (vars, flag, log) = Sets_stored name value h v v.persistent in
              inr (f, refl, vars, flag, log))
    ]
  ]
    where
      none_some : {x : ℤ × Hub V} → none ≢ some x
      none_some = λ e. cc

  -- What `Hub_Var_setValue` does whenever it returns: an unknown or read-only variable is refused
  -- with its code and nothing changes; otherwise the value is stored and no other variable changes,
  -- a persistent variable asks for a flush, and every subscriber is tried in the order of the
  -- subscriptions, and those whose sockets take it are sent the printed value.
  pub set_value-Sets :
      (name : Bytes) (value : V) (h : Hub V) {code : ℤ} {h' : Hub V}
      → set_value libc name value h ≡ some (code, h')
      → Sets name value h (h.var name) code h'
  set_value-Sets name value h run = Sets-run name value h (h.var name) refl run
