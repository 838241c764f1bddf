-- ===== src/Pid/Buffer.antt =====
-- The moving average of src/pid.c: which values its buffer holds, and when it stays in bounds.
use native.Mathlib.Nat.{mod-lt, mod_self, mod-eq_of_lt}
use libseawolf.Base.{
  ℕ, zero, suc, ◌+◌, ◌-◌, ◌%◌, ◌≡◌, ◌≢◌, ◌≤◌, ◌<◌, ◌⊎◌, refl, ap, ◌∙◌, true, false, Option, none,
  some, List, [], ◌∷◌, length, set, ltb, ◌==◌, if◌then◌else◌, get_or, get_or-set_self,
  get_or-set_ne, length-set, length-replicate, inl, inr, Bool-cases, arith,
}
use libseawolf.Pid.{
  running_error, Doubles, Lpf, Pid, sum_buffer, step_lpf, update, set_derivative_buffer_size,
}

module _ {D : Type 0} where
  -- The buffer has the size that the filter knows, and the next place is in it.
  abbrev pub WellFormed : Lpf D → Type 0
  WellFormed lpf = (length lpf.buf ≡ lpf.n) × (lpf.head < lpf.n)

  -- The place of the value that was written `j` steps ago.
  abbrev pub place : Lpf D → ℕ → ℕ
  place lpf j = if ltb j lpf.head then lpf.head - 1 - j else lpf.head + lpf.n - 1 - j

module _ {D : Type 0} (doubles : Doubles D) where
  open doubles use {add, div, of_nat}

  abbrev pub total : List D → D → D
  total [] sum = sum
  total (x ∷ xs) sum = total xs (add sum x)

  sum_buffer-total :
      (n : ℕ) (buf : List D) (sum : D)
      → length buf ≡ n
      → sum_buffer doubles n buf sum ≡ some (total buf sum)
  unfolding sum_buffer
  sum_buffer-total zero [] sum e = refl
  sum_buffer-total zero (x ∷ buf) sum e = ground arith
  sum_buffer-total (suc n) [] sum e = ground arith
  sum_buffer-total (suc n) (x ∷ buf) sum e = sum_buffer-total n buf (add sum x) (ground arith)

  next_place : (head n : ℕ) → head < n → ((head + 1) % n ≡ (if head + 1 == n then 0 else head + 1))
  next_place head n lt = elim (Bool-cases (head + 1 == n)) [
    | inl t ↦ let same : head + 1 ≡ n = ground arith in rw t (ap (λ k. k % n) same ∙ mod_self n)
    | inr f ↦ rw f (mod-eq_of_lt (ground arith))
  ]

  step_lpf-run :
      (lpf : Lpf D) (val : D)
      → WellFormed lpf
      → step_lpf doubles lpf val
        ≡ some (record lpf {
          value = div (total (set lpf.buf lpf.head val) (of_nat 0)) (of_nat lpf.n);
          buf = set lpf.buf lpf.head val;
          head = (lpf.head + 1) % lpf.n;
        })
  unfolding step_lpf
  step_lpf-run lpf val (size, lt) =
      let inside : ltb lpf.head (length lpf.buf) ≡ true = ground arith in
      let some_places : lpf.n == 0 ≡ false = ground arith in
      let summed =
        sum_buffer-total lpf.n (set lpf.buf lpf.head val) (of_nat 0)
          (length-set lpf.buf lpf.head val ∙ size) in
      rw (inside, summed, some_places) refl

  -- The filter after a step.
  abbrev pub stepped : Lpf D → D → Lpf D
  stepped lpf val = record lpf {
    value = div (total (set lpf.buf lpf.head val) (of_nat 0)) (of_nat lpf.n);
    buf = set lpf.buf lpf.head val;
    head = (lpf.head + 1) % lpf.n;
  }

  stepped-WellFormed : (lpf : Lpf D) (val : D) → WellFormed lpf → WellFormed (stepped lpf val)
  stepped-WellFormed lpf val (size, lt) =
      (length-set lpf.buf lpf.head val ∙ size, mod-lt (lpf.head + 1) (ground arith))

  -- The last values, newest first, at their places.
  abbrev pub Window : Lpf D → List D → Type 0
  Window lpf vals =
      (x : D) (j : ℕ)
      → j < lpf.n
      → j < length vals
      → get_or lpf.buf (place lpf j) x ≡ get_or vals j x

  newest_place : (lpf : Lpf D) (val : D) → WellFormed lpf → place (stepped lpf val) 0 ≡ lpf.head
  newest_place lpf val (size, lt) = let next = next_place lpf.head lpf.n lt in ground arith

  older_place :
      (lpf : Lpf D) (val : D) (j : ℕ)
      → WellFormed lpf
      → suc j < lpf.n
      → (place (stepped lpf val) (suc j) ≡ place lpf j) × (lpf.head ≢ place lpf j)
  older_place lpf val j (size, lt) h =
      let next = next_place lpf.head lpf.n lt in (ground arith, λ e. ground arith)

  stepped-Window :
      (lpf : Lpf D) (val : D) (vals : List D)
      → WellFormed lpf
      → Window lpf vals
      → Window (stepped lpf val) (val ∷ vals)
  stepped-Window lpf val vals (size, lt) window x zero h l =
      ap (λ k. get_or (set lpf.buf lpf.head val) k x) (newest_place lpf val (size, lt))
      ∙ get_or-set_self lpf.buf lpf.head val x (ground arith)
  stepped-Window lpf val vals (size, lt) window x (suc j) h l =
      let (older, other) = older_place lpf val j (size, lt) h in
      ap (λ k. get_or (set lpf.buf lpf.head val) k x) older
      ∙ get_or-set_ne lpf.buf lpf.head (place lpf j) val x other
      ∙ window x j (ground arith) (ground arith)

  -- `PID_stepLPF` for each of the values; the newest comes first.
  abbrev pub steps : List D → Lpf D → Option (Lpf D)
  steps [] lpf = some lpf
  steps (val ∷ vals) lpf = elim (steps vals lpf) [
    | none ↦ none
    | some lpf' ↦ step_lpf doubles lpf' val
  ]

  -- From a filter on whose next place is in its buffer, any number of steps succeeds and leaves the
  -- place in the buffer, whose size stays: of the values of the steps, the last ones, up to the
  -- size of the buffer, are in it, each at a place of its own, and after a step the
  -- filter's value is the sum of the buffer divided by its size.
  pub steps-Window :
      (vals : List D) (lpf : Lpf D)
      → WellFormed lpf
      → (lpf' : Lpf D) × (steps vals lpf ≡ some lpf')
        × WellFormed lpf'
        × (lpf'.n ≡ lpf.n)
        × Window lpf' vals
        × ((vals ≡ []) ⊎ (lpf'.value ≡ div (total lpf'.buf (of_nat 0)) (of_nat lpf.n)))
  steps-Window [] lpf well = (lpf, refl, well, refl, λ x j h l. ground arith, inl refl)
  steps-Window (val ∷ vals) lpf well =
      let (k, run, well', size, window, average) = steps-Window vals lpf well in
      (
        stepped k val,
        rw run (step_lpf-run k val well'),
        stepped-WellFormed k val well',
        size,
        stepped-Window k val vals well' window,
        inr (ap (λ n. div (total (set k.buf k.head val) (of_nat 0)) (of_nat n)) size),
      )

  -- The error of an update, and the value that it gives to the filter.
  abbrev error : Pid D → D → D
  error pid pv = doubles.sub pid.sp pv

  abbrev slope : D → Pid D → D → D
  slope delta_t pid pv = div (doubles.sub (error pid pv) pid.e_last) delta_t

  -- The controller and its output after an update with a filter.
  abbrev updated : D → Pid D → D → Lpf D → D × Pid D
  updated delta_t pid pv lpf =
      let e = error pid pv in
      let e_dt = if pid.paused then pid.e_dt else running_error doubles pid delta_t e in
      let mv = doubles.mul pid.p e in
      let mv' = if pid.paused then mv else add mv (doubles.mul pid.i e_dt) in
      (
        add mv' (doubles.mul pid.d lpf.value),
        record pid { e_dt = e_dt; d_lpf = lpf; paused = false; e_last = e },
      )

  update-step :
      (delta_t : D) (pid : Pid D) (pv : D) (lpf : Lpf D)
      → step_lpf doubles pid.d_lpf (slope delta_t pid pv) ≡ some lpf
      → update doubles delta_t pid pv ≡ some (updated delta_t pid pv lpf)
  unfolding update
  update-step delta_t pid pv lpf e = rw (e, update) refl

  update-fault :
      (delta_t : D) (pid : Pid D) (pv : D)
      → step_lpf doubles pid.d_lpf (slope delta_t pid pv) ≡ none
      → update doubles delta_t pid pv ≡ none
  unfolding update
  update-fault delta_t pid pv e = rw (e, update) refl

  -- An update of a controller whose next place is in the buffer succeeds, leaves it so, and ends a
  -- pause; during a pause it leaves the running error as it is.
  pub update-WellFormed :
      (delta_t : D) (pid : Pid D) (pv : D)
      → WellFormed pid.d_lpf
      → (mv : D) × (pid' : Pid D) × (update doubles delta_t pid pv ≡ some (mv, pid'))
        × WellFormed pid'.d_lpf
        × (pid'.paused ≡ false)
        × (pid.paused ≡ true → pid'.e_dt ≡ pid.e_dt)
  update-WellFormed delta_t pid pv well =
      let val = slope delta_t pid pv in
      let lpf = stepped pid.d_lpf val in
      (
        (updated delta_t pid pv lpf).0,
        (updated delta_t pid pv lpf).1,
        update-step delta_t pid pv lpf (step_lpf-run pid.d_lpf val well),
        stepped-WellFormed pid.d_lpf val well,
        refl,
        λ p. rw p refl,
      )

  step_lpf-outside :
      (lpf : Lpf D) (val : D) → length lpf.buf ≤ lpf.head → step_lpf doubles lpf val ≡ none
  unfolding step_lpf
  step_lpf-outside lpf val le =
      let outside : ltb lpf.head (length lpf.buf) ≡ false = ground arith in rw outside refl

  -- A buffer that is made smaller, down to the next place or below it, makes the next update access
  -- memory behind the buffer.
  pub set_derivative_buffer_size-overruns :
      (n : ℕ) (delta_t : D) (pid : Pid D) (pv : D)
      → n ≤ pid.d_lpf.head
      → update doubles delta_t (set_derivative_buffer_size doubles n pid) pv ≡ none
  unfolding set_derivative_buffer_size
  set_derivative_buffer_size-overruns n delta_t pid pv le =
      let pid' = set_derivative_buffer_size doubles n pid in
      let size = length-replicate n (of_nat 0) in
      update-fault delta_t pid' pv
        (step_lpf-outside pid'.d_lpf (slope delta_t pid' pv) (rw size le))
