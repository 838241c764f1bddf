-- ===== src/ArrayList/Shift.antt =====
-- The two loops that move items by one place, as what they leave in the array.
use libseawolf.Base.{
  ℕ, zero, suc, ◌+◌, ◌<◌, ◌≡◌, refl, ap, ◌∙◌, List, [], ◌∷◌, ◌++◌, arith, length, get_or, set, take,
  drop, length-set, get_or-set_ne,
}
use libseawolf.ArrayList.{Ptr, null, shift_down, shift_up}

pub length-shift_down : (k n : ℕ) (b : List Ptr) → length (shift_down k n b) ≡ length b
unfolding shift_down
length-shift_down zero n b = refl
length-shift_down (suc k) n b =
    length-shift_down k n (set b (n + suc k) (get_or b (n + k) null))
    ∙ length-set b (n + suc k) (get_or b (n + k) null)

pub length-shift_up : (k i : ℕ) (b : List Ptr) → length (shift_up k i b) ≡ length b
unfolding shift_up
length-shift_up zero i b = refl
length-shift_up (suc k) i b =
    length-shift_up k (i + 1) (set b i (get_or b (i + 1) null))
    ∙ length-set b i (get_or b (i + 1) null)

-- Both loops leave the items below their lowest index alone.
shift_down-cons :
    (k n : ℕ) (x : Ptr) (b : List Ptr) → shift_down k (suc n) (x ∷ b) ≡ x ∷ shift_down k n b
unfolding shift_down
shift_down-cons zero n x b = refl
shift_down-cons (suc k) n x b =
    let e : suc n + suc k ≡ suc (n + suc k) = omega arith in
    let e' : suc n + k ≡ suc (n + k) = omega arith in
    rw (e, e') (shift_down-cons k n x (set b (n + suc k) (get_or b (n + k) null)))

shift_up-cons : (k n : ℕ) (x : Ptr) (b : List Ptr) → shift_up k (suc n) (x ∷ b) ≡ x ∷ shift_up k n b
unfolding shift_up
shift_up-cons zero n x b = refl
shift_up-cons (suc k) n x b =
    let e : suc n + 1 ≡ suc (n + 1) = omega arith in
    rw e (shift_up-cons k (n + 1) x (set b n (get_or b (n + 1) null)))

-- The last round of the downward loop, split off.
shift_down_last :
    (k n : ℕ) (b : List Ptr)
    → shift_down (suc k) n b ≡ set (shift_down k (suc n) b) (suc n) (get_or b n null)
unfolding shift_down
shift_down_last zero n b =
    let e : n + 1 ≡ suc n = omega arith in let e' : n + 0 ≡ n = omega arith in rw (e, e')
shift_down_last (suc k) n b =
    let b' = set b (n + suc (suc k)) (get_or b (n + suc k) null) in
    let e : suc n + suc k ≡ n + suc (suc k) = omega arith in
    let e' : suc n + k ≡ n + suc k = omega arith in
    rw (e, e')
      (shift_down_last k n b'
        ∙ ap (λ w. set (shift_down k (suc n) b') (suc n) w)
            (get_or-set_ne b (n + suc (suc k)) n (get_or b (n + suc k) null) null (omega arith)))

shift_down_front :
    (k : ℕ) (v : Ptr) (b : List Ptr)
    → k < length b
    → take (suc k) (set (shift_down k 0 b) 0 v) ≡ v ∷ take k b
shift_down_front k v [] h = absurd (omega arith)
shift_down_front zero v (x ∷ b) h = unfold shift_down in refl
shift_down_front (suc k) v (x ∷ b) h =
    rw (shift_down_last k 0 (x ∷ b), shift_down-cons k 0 x b)
      (ap (λ l. v ∷ l) (shift_down_front k x b (omega arith)))

-- Opening a gap at `n` and writing it puts `v` between the first `n` items and the next `k`.
pub take-shift_down :
    (k n : ℕ) (v : Ptr) (b : List Ptr)
    → n + k < length b
    → take (n + suc k) (set (shift_down k n b) n v) ≡ take n b ++ v ∷ take k (drop n b)
take-shift_down k n v [] h = absurd (omega arith)
take-shift_down k zero v (x ∷ b) h =
    let e : 0 + suc k ≡ suc k = omega arith in rw e (shift_down_front k v (x ∷ b) (omega arith))
take-shift_down k (suc n) v (x ∷ b) h =
    let e : suc n + suc k ≡ suc (n + suc k) = omega arith in
    rw (e, shift_down-cons k n x b) (ap (λ l. x ∷ l) (take-shift_down k n v b (omega arith)))

shift_up_front : (k : ℕ) (b : List Ptr) → k < length b → take k (shift_up k 0 b) ≡ take k (drop 1 b)
unfolding shift_up
shift_up_front k [] h = absurd (omega arith)
shift_up_front zero (x ∷ b) h = refl
shift_up_front (suc k) (x ∷ []) h = absurd (omega arith)
shift_up_front (suc k) (x ∷ y ∷ b) h =
    rw (shift_up-cons k 0 y (y ∷ b)) (ap (λ l. y ∷ l) (shift_up_front k (y ∷ b) (omega arith)))

-- Closing the gap at `n` drops that item and keeps the `k` items behind it.
pub take-shift_up :
    (k n : ℕ) (b : List Ptr)
    → n + k < length b
    → take (n + k) (shift_up k n b) ≡ take n b ++ take k (drop (suc n) b)
take-shift_up k n [] h = absurd (omega arith)
take-shift_up k zero (x ∷ b) h =
    let e : 0 + k ≡ k = omega arith in rw e (shift_up_front k (x ∷ b) (omega arith))
take-shift_up k (suc n) (x ∷ b) h =
    let e : suc n + k ≡ suc (n + k) = omega arith in
    rw (e, shift_up-cons k n x b) (ap (λ l. x ∷ l) (take-shift_up k n b (omega arith)))
