-- ===== src/ArrayList/Search.antt =====
-- `List_indexOf` of src/list.c finds the first place of an item.
use libseawolf.Base.{ℕ, zero, suc, ◌+◌, ◌≤◌, ◌<◌, ◌≡◌, ◌≢◌, refl, arith, Bool-cases, ◌==◌, inl, inr}
use libseawolf.Base.Int.{ℤ, pos, negsuc}
use libseawolf.ArrayList.{Ptr, ArrayList, get, index_from, index_of}

-- What a search of the places from `i` to before `stop` may answer.
abbrev pub Located : ArrayList → Ptr → ℕ → ℕ → ℤ → Type 0
Located list v i stop (pos n) =
    (i ≤ n) × (n < stop) × (get list (pos n) ≡ v) × ((j : ℕ) → i ≤ j → j < n → get list (pos j) ≢ v)
Located list v i stop (negsuc n) = (n ≡ 0) × ((j : ℕ) → i ≤ j → j < stop → get list (pos j) ≢ v)

extend :
    (list : ArrayList) (v : Ptr) (i stop : ℕ) (z : ℤ)
    → get list (pos i) ≢ v
    → Located list v (i + 1) stop z
    → Located list v i stop z
extend list v i stop (pos n) miss (a, b, c, d) = (omega arith, b, c, first)
  where
    first : (j : ℕ) → i ≤ j → j < n → get list (pos j) ≢ v
    first j h h' = elim (Bool-cases (j == i)) [
      | inl t ↦ let e : j ≡ i = ground arith in subst_get e
      | inr f ↦ d j (ground arith) h'
    ]
      where
        subst_get : j ≡ i → get list (pos j) ≢ v
        subst_get e = λ q. miss (cc)
extend list v i stop (negsuc n) miss (a, d) = (
  a,
  λ j h h'. elim (Bool-cases (j == i)) [
    | inl t ↦ let e : j ≡ i = ground arith in λ q. miss (cc)
    | inr f ↦ d j (ground arith) h'
  ],
)

index_from-Located :
    (list : ArrayList) (v : Ptr) (rounds i stop : ℕ)
    → i + rounds ≡ stop
    → Located list v i stop (index_from list v rounds i)
unfolding index_from
index_from-Located list v zero i stop e = (refl, λ j h h'. absurd (omega arith))
index_from-Located list v (suc rounds) i stop e = elim (Bool-cases (get list (pos i) == v)) [
  | inl t ↦ rw t (omega arith, omega arith, ground arith, λ j h h'. absurd (omega arith))
  | inr f ↦ rw f (
      extend list v i stop (index_from list v rounds (i + 1)) (λ q. ground arith)
        (index_from-Located list v rounds (i + 1) stop (omega arith)))
]

-- `List_indexOf` returns the first index in range whose item is the given one, and -1 when no
-- item in range is the given one.
pub index_of-Located : (list : ArrayList) (v : Ptr) → Located list v 0 list.items (index_of list v)
unfolding index_of
index_of-Located list v = index_from-Located list v list.items 0 list.items (omega arith)
