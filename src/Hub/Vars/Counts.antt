-- ===== src/Hub/Vars/Counts.antt =====
-- How often a client is on a list of subscribers, and a name on a list of names, before and after
-- the removals of src/hub/var.c.
use libseawolf.Base.{
  length, ℕ, ◌+◌, ◌≡◌, ◌<◌, refl, sym, none, some, List, [], ◌∷◌, ◌++◌, arith, bytes_eq,
  bytes_eq_sound, ◌==◌, if◌then◌else◌, Bool-cases, Option-cases, inl, inr,
}
use libseawolf.Comm.Message.{Bytes}
use libseawolf.Hub.Vars.{remove_client, remove_name}
use libseawolf.Hub.Vars.Subscribe.{subscriptions}

-- How often a name is on a list of names.
abbrev pub occurrences : Bytes → List Bytes → ℕ
occurrences n [] = 0
occurrences n (m ∷ ms) = (if bytes_eq m n then 1 else 0) + occurrences n ms

pub subscriptions-snoc :
    (d c : ℕ) (ds : List ℕ)
    → subscriptions d (ds ++ c ∷ []) ≡ (if c == d then 1 else 0) + subscriptions d ds
subscriptions-snoc d c [] = refl
subscriptions-snoc d c (e ∷ ds) = let rest = subscriptions-snoc d c ds in ground arith

pub occurrences-snoc :
    (n m : Bytes) (ms : List Bytes)
    → occurrences n (ms ++ m ∷ []) ≡ (if bytes_eq m n then 1 else 0) + occurrences n ms
occurrences-snoc n m [] = refl
occurrences-snoc n m (k ∷ ms) = let rest = occurrences-snoc n m ms in ground arith

pub remove_client-counts :
    (c : ℕ) (ds rest : List ℕ)
    → remove_client c ds ≡ some rest
    → (d : ℕ) → subscriptions d ds ≡ (if c == d then 1 else 0) + subscriptions d rest
unfolding remove_client
remove_client-counts c [] rest e d = cc
remove_client-counts c (b ∷ ds) rest e d = elim (Bool-cases (b == c)) [
  | inl t ↦ let same : ds ≡ rest = (let k = rw t at e in cc) in rw (sym same) (ground arith)
  | inr f ↦ elim (Option-cases (remove_client c ds)) [
    | inl n ↦ (let k = rw (f, n) at e in cc)
    | inr (r, s) ↦
        let ind = remove_client-counts c ds r s d in
        let same : b ∷ r ≡ rest = (let k = rw (f, s) at e in cc) in rw (sym same) (ground arith)
  ]
]

pub remove_client-found :
    (c : ℕ) (ds : List ℕ)
    → 0 < subscriptions c ds
    → (rest : List ℕ) × (remove_client c ds ≡ some rest)
unfolding remove_client
remove_client-found c [] lt = ground arith
remove_client-found c (b ∷ ds) lt = elim (Bool-cases (b == c)) [
  | inl t ↦ (ds, rw t refl)
  | inr f ↦ let (r, s) = remove_client-found c ds (ground arith) in (b ∷ r, rw (f, s) refl)
]

pub remove_name-counts :
    (m : Bytes) (ms rest : List Bytes)
    → remove_name m ms ≡ some rest
    → (n : Bytes) → occurrences n ms ≡ (if bytes_eq m n then 1 else 0) + occurrences n rest
unfolding remove_name
remove_name-counts m [] rest e n = cc
remove_name-counts m (b ∷ ms) rest e n = elim (Bool-cases (bytes_eq b m)) [
  | inl t ↦
      let same : ms ≡ rest = (let k = rw t at e in cc) in
      let b_is : b ≡ m = bytes_eq_sound b m t in rw (sym same, b_is) refl
  | inr f ↦ elim (Option-cases (remove_name m ms)) [
    | inl s ↦ (let k = rw (f, s) at e in cc)
    | inr (r, s) ↦
        let ind = remove_name-counts m ms r s n in
        let same : b ∷ r ≡ rest = (let k = rw (f, s) at e in cc) in rw (sym same) (ground arith)
  ]
]

pub remove_name-none :
    (m : Bytes) (ms : List Bytes) → remove_name m ms ≡ none → occurrences m ms ≡ 0
unfolding remove_name
remove_name-none m [] e = refl
remove_name-none m (b ∷ ms) e = elim (Bool-cases (bytes_eq b m)) [
  | inl t ↦ (let k = rw t at e in cc)
  | inr f ↦ elim (Option-cases (remove_name m ms)) [
    | inl s ↦ let ind = remove_name-none m ms s in rw f (ground arith)
    | inr (r, s) ↦ (let k = rw (f, s) at e in cc)
  ]
]

pub remove_client-length :
    (c : ℕ) (ds rest : List ℕ) → remove_client c ds ≡ some rest → length ds ≡ 1 + length rest
unfolding remove_client
remove_client-length c [] rest e = cc
remove_client-length c (b ∷ ds) rest e = elim (Bool-cases (b == c)) [
  | inl t ↦ let same : ds ≡ rest = (let k = rw t at e in cc) in rw same (ground arith)
  | inr f ↦ elim (Option-cases (remove_client c ds)) [
    | inl n ↦ (let k = rw (f, n) at e in cc)
    | inr (r, s) ↦
        let ind = remove_client-length c ds r s in
        let same : b ∷ r ≡ rest = (let k = rw (f, s) at e in cc) in rw (sym same) (ground arith)
  ]
]
