-- ===== src/Pid.antt =====
-- src/pid.c: the PID controller. The timer's delta is an argument. An index out of bounds and the
-- remainder of a division by 0 are `none`; allocations do not fail.
pub mod Buffer
mod Tests
use libseawolf.Base.{
  ℕ, zero, suc, ◌+◌, ◌%◌, Bool, true, false, Option, none, some, List, [], ◌∷◌, length, set, ltb,
  replicate, ◌==◌, if◌then◌else◌,
}

-- What the code does with a `double` of type `D`: its operators, the `double` of an `int` that is
-- not negative, and `abs`, which takes the integer part.
pub record Doubles (D : Type 0) : Type 0 where
  pub add : D → D → D
  pub sub : D → D → D
  pub mul : D → D → D
  pub div : D → D → D
  pub less : D → D → Bool
  pub of_nat : ℕ → D
  pub minus_one : D
  pub abs : D → D

-- `PID_LPF_t`
pub record Lpf (D : Type 0) : Type 0 where
  pub value : D
  pub buf : List D
  pub head : ℕ
  pub n : ℕ

-- `PID`, without its timer.
pub record Pid (D : Type 0) : Type 0 where
  pub p : D
  pub i : D
  pub d : D
  pub sp : D
  pub active_region : D
  pub e_last : D
  pub e_dt : D
  pub paused : Bool
  pub d_lpf : Lpf D

module _ {D : Type 0} (doubles : Doubles D) where
  open doubles use {add, sub, mul, div, less, of_nat, minus_one, abs}

  -- `PID_new`, with what the allocated buffer holds.
  unfoldable pub new : D → D → D → D → D → Pid D
  new indet sp p i d = record {
    p = p;
    i = i;
    d = d;
    sp = sp;
    active_region = minus_one;
    e_last = of_nat 0;
    e_dt = of_nat 0;
    paused = true;
    d_lpf = record { value = of_nat 0; buf = indet ∷ []; head = 0; n = 1 };
  }

  -- `PID_pause`
  unfoldable pub pause : Pid D → Pid D
  pause pid = record pid { paused = true }

  -- The loop of `PID_stepLPF`: the sum of the first `n` places of the buffer.
  unfoldable pub sum_buffer : ℕ → List D → D → Option D
  sum_buffer zero buf sum = some sum
  sum_buffer (suc n) [] sum = none
  sum_buffer (suc n) (x ∷ buf) sum = sum_buffer n buf (add sum x)

  -- `PID_stepLPF`, on the filter.
  unfoldable pub step_lpf : Lpf D → D → Option (Lpf D)
  step_lpf lpf val =
      if ltb lpf.head (length lpf.buf)
      then (let buf = set lpf.buf lpf.head val in
          elim (sum_buffer lpf.n buf (of_nat 0)) [
            | none ↦ none
            | some sum ↦
                if lpf.n == 0
                then none
                else some (record lpf {
                  value = div sum (of_nat lpf.n);
                  buf = buf;
                  head = (lpf.head + 1) % lpf.n;
                })
          ])
      else none

  -- The part of `PID_update` for a controller that is not paused: the running error.
  unfoldable pub running_error : Pid D → D → D → D
  running_error pid delta_t e =
      let e_dt = add pid.e_dt (mul delta_t e) in
      let bounded =
        if less (of_nat 1) (mul e_dt pid.i)
        then div (of_nat 1) pid.i
        else if less (mul e_dt pid.i) minus_one
        then div minus_one pid.i
        else e_dt in
      if less (of_nat 0) pid.active_region
      then if less pid.active_region (abs e) then of_nat 0 else bounded
      else bounded

  -- `PID_update`
  unfoldable pub update : D → Pid D → D → Option (D × Pid D)
  update delta_t pid pv =
      let e = sub pid.sp pv in
      let e_dt = if pid.paused then pid.e_dt else running_error pid delta_t e in
      let mv = mul pid.p e in
      let mv' = if pid.paused then mv else add mv (mul pid.i e_dt) in
      elim (step_lpf pid.d_lpf (div (sub e pid.e_last) delta_t)) [
        | none ↦ none
        | some lpf ↦ some (
          add mv' (mul pid.d lpf.value),
          record pid { e_dt = e_dt; d_lpf = lpf; paused = false; e_last = e },
        )
      ]

  -- `PID_resetIntegral`
  unfoldable pub reset_integral : Pid D → Pid D
  reset_integral pid = record pid { e_dt = of_nat 0 }

  -- `PID_setDerivativeBufferSize`. The place of the next value stays as it is.
  unfoldable pub set_derivative_buffer_size : ℕ → Pid D → Pid D
  set_derivative_buffer_size n pid = record pid {
    d_lpf = record pid.d_lpf { buf = replicate n (of_nat 0); n = n };
  }

module _ {D : Type 0} where
  -- `PID_setSetPoint`
  unfoldable pub set_set_point : D → Pid D → Pid D
  set_set_point sp pid = record pid { sp = sp; paused = true }

  -- `PID_setCoefficients`
  unfoldable pub set_coefficients : D → D → D → Pid D → Pid D
  set_coefficients p i d pid = record pid { p = p; i = i; d = d }

  -- `PID_setActiveRegion`
  unfoldable pub set_active_region : D → Pid D → Pid D
  set_active_region active_region pid = record pid { active_region = active_region }
