-- ===== src/Hub/Client/Filters.antt =====
-- The notification filters of src/hub/client.c.
use libseawolf.Base.{
  ℕ, ◌≡◌, ◌≢◌, refl, sym, subst, ap, ap₂, ◌∙◌, Bool, true, false, ◌&&◌, ◌||◌, none, some, List, [],
  ◌∷◌, ◌++◌, arith, bytes_eq, bytes_eq_sound, bytes_eq_refl, ◌==◌, if◌then◌else◌, Bool-cases, inl,
  inr,
}
use libseawolf.Comm.Message.{Bytes}
use libseawolf.Hub.State.{Filter, Client}
use libseawolf.Hub.Client.{
  filter_match, filter_action, filter_prefix, starts_with, prefix_loop, check_filter, check_from,
  check_filters,
}

-- Whether a filter that is not of the PREFIX kind lets a message pass: the whole message for MATCH,
-- its first bytes for ACTION; another kind lets nothing pass.
abbrev pub admits : Filter → Bytes → Bool
admits f msg =
    f.kind == filter_match && bytes_eq msg f.body
    || f.kind == filter_action && starts_with msg f.body

abbrev pub admits_any : List Filter → Bytes → Bool
admits_any [] msg = false
admits_any (f ∷ fs) msg = admits f msg || admits_any fs msg

-- What include/seawolf/notify.h says that a filter lets pass: MATCH the message that it is, ACTION
-- the messages with this action, PREFIX those that begin so.
unfoldable pub action_of : Bytes → Bytes
action_of [] = []
action_of (b ∷ msg) = let rest = action_of msg in if b == b' ' then [] else b ∷ rest

abbrev pub documented : Filter → Bytes → Bool
documented f msg =
    f.kind == filter_match && bytes_eq msg f.body
    || f.kind == filter_action && bytes_eq (action_of msg) f.body
    || f.kind == filter_prefix && starts_with msg f.body

abbrev pub documented_any : List Filter → Bytes → Bool
documented_any [] msg = false
documented_any (f ∷ fs) msg = documented f msg || documented_any fs msg

-- Filters for which the code can do what is documented: none of the PREFIX kind, and an ACTION
-- filter with which the message begins is the whole action of the message.
abbrev pub Documentable : List Filter → Bytes → Type 0
Documentable [] msg = Unit
Documentable (f ∷ fs) msg =
    (f.kind ≢ filter_prefix)
    × (f.kind ≡ filter_action → starts_with msg f.body ≡ true → action_of msg ≡ f.body)
    × Documentable fs msg

abbrev pub NoPrefix : List Filter → Type 0
NoPrefix [] = Unit
NoPrefix (f ∷ fs) = (f.kind ≢ filter_prefix) × NoPrefix fs

abbrev pub OnlyPrefix : List Filter → Type 0
OnlyPrefix [] = Unit
OnlyPrefix (f ∷ fs) = (f.kind ≡ filter_prefix) × OnlyPrefix fs

check_filter-admits :
    (f : Filter) (msg : Bytes) (r : Bool)
    → f.kind ≢ filter_prefix
    → check_filter f msg r ≡ some (r || admits f msg)
unfolding check_filter
check_filter-admits f msg r ne = ground arith

check_from-admits :
    (fs : List Filter) (msg : Bytes) (r : Bool)
    → NoPrefix fs
    → check_from fs msg r ≡ some (r || admits_any fs msg)
unfolding check_from
check_from-admits [] msg r np = ground arith
check_from-admits (f ∷ fs) msg r np =
    rw (check_filter-admits f msg r np.0, check_from)
      (check_from-admits fs msg (r || admits f msg) np.1 ∙ ground arith)

-- With MATCH and ACTION filters only, a message passes exactly when one of the filters admits it;
-- with no filters at all, none passes.
pub check_filters-admits :
    (client : Client) (msg : Bytes)
    → NoPrefix client.filters
    → check_filters client msg ≡ some (admits_any client.filters msg)
unfolding check_filters
check_filters-admits client msg np = check_from-admits client.filters msg false np

starts_with-action_of : (msg : Bytes) → starts_with msg (action_of msg) ≡ true
unfolding starts_with action_of
starts_with-action_of [] = refl
starts_with-action_of (b ∷ msg) = elim (Bool-cases (b == b' ')) [
  | inl t ↦ rw t refl
  | inr f ↦ rw f (let ih = starts_with-action_of msg in ground arith)
]

starts_with-action :
    (msg body : Bytes)
    → (starts_with msg body ≡ true → action_of msg ≡ body)
    → starts_with msg body ≡ bytes_eq (action_of msg) body
starts_with-action msg body whole = elim (Bool-cases (starts_with msg body)) [
  | inl t ↦ t ∙ sym (bytes_eq_refl body) ∙ ap (λ a. bytes_eq a body) (sym (whole t))
  | inr f ↦ elim (Bool-cases (bytes_eq (action_of msg) body)) [
    | inl e ↦
        let same = bytes_eq_sound (action_of msg) body e in
        let starts = subst (λ a. starts_with msg a ≡ true) same (starts_with-action_of msg) in cc
    | inr e ↦ f ∙ sym e
  ]
]

admits-documented :
    (f : Filter) (msg : Bytes)
    → f.kind ≢ filter_prefix
    → (f.kind ≡ filter_action → starts_with msg f.body ≡ true → action_of msg ≡ f.body)
    → admits f msg ≡ documented f msg
admits-documented f msg np whole = elim (Bool-cases (f.kind == filter_action)) [
  | inl t ↦
      let kind : f.kind ≡ filter_action = ground arith in
      let same = starts_with-action msg f.body (whole kind) in rw same (ground arith)
  | inr e ↦ ground arith
]

-- Filters for which this can be are checked as it is documented.
pub check_filters-documented :
    (client : Client) (msg : Bytes)
    → Documentable client.filters msg
    → check_filters client msg ≡ some (documented_any client.filters msg)
check_filters-documented client msg d =
    check_filters-admits client msg (no_prefix client.filters d) ∙ ap some (same client.filters d)
  where
    no_prefix : (fs : List Filter) → Documentable fs msg → NoPrefix fs
    no_prefix [] d = tt
    no_prefix (f ∷ fs) (np, _, d) = (np, no_prefix fs d)

    same : (fs : List Filter) → Documentable fs msg → admits_any fs msg ≡ documented_any fs msg
    same [] d = refl
    same (f ∷ fs) (np, whole, d) =
        ap₂ (λ a b. a || b) (admits-documented f msg np whole) (same fs d)

prefix_loop-false : (msg body : Bytes) → prefix_loop msg body false ≢ some true
unfolding prefix_loop
prefix_loop-false [] body e = cc
prefix_loop-false (m ∷ msg) (b ∷ body) e = prefix_loop-false msg body e
prefix_loop-false (m ∷ []) [] e = ground arith
prefix_loop-false (m ∷ n ∷ msg) [] e = ground arith

check_from-prefix :
    (fs : List Filter) (msg : Bytes) → OnlyPrefix fs → check_from fs msg false ≢ some true
unfolding check_from check_filter
check_from-prefix [] msg only e = cc
check_from-prefix (f ∷ fs) msg only e =
    ground (arith, check_from-prefix fs msg only.1, prefix_loop-false msg f.body)

-- A client whose filters are all of the PREFIX kind never gets a notification, whatever its text
-- and whatever the prefixes are.
pub prefix_filters_reject :
    (client : Client) (msg : Bytes)
    → OnlyPrefix client.filters
    → check_filters client msg ≢ some true
unfolding check_filters
prefix_filters_reject client msg only = check_from-prefix client.filters msg only

prefix_loop_overruns :
    (body rest : Bytes) (n : ℕ) (r : Bool) → prefix_loop (body ++ (b' ' ∷ n ∷ rest)) body r ≡ none
unfolding prefix_loop
prefix_loop_overruns [] rest n r = refl
prefix_loop_overruns (b ∷ body) rest n r = prefix_loop_overruns body rest n r

-- A filter of the PREFIX kind makes the check of a message read behind the end of the stored filter
-- when the message starts with the filter's text, a blank and one more byte.
pub prefix_filter_overruns :
    (body rest : Bytes) (n : ℕ) (r : Bool)
    → check_filter (record { kind = filter_prefix; body = body }) (body ++ (b' ' ∷ n ∷ rest)) r
      ≡ none
unfolding check_filter
prefix_filter_overruns body rest n r = prefix_loop_overruns body rest n r
