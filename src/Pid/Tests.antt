-- ===== src/Pid/Tests.antt =====
-- A controller over whole numbers.
use libseawolf.Base.{
  ℕ, ◌+◌, ◌-◌, ◌*◌, ◌/◌, ◌≡◌, ◌⊎◌, refl, true, false, none, some, List, [], ◌∷◌, ltb, arith,
}
use libseawolf.Pid.{Doubles, Lpf, Pid, update, set_derivative_buffer_size}
use libseawolf.Pid.Buffer.{
  WellFormed, Window, total, steps, steps-Window, update-WellFormed,
  set_derivative_buffer_size-overruns,
}

abbrev whole : Doubles ℕ
whole = record {
  add = λ a b. a + b;
  sub = λ a b. a - b;
  mul = λ a b. a * b;
  div = λ a b. a / b;
  less = ltb;
  of_nat = λ n. n;
  minus_one = 0;
  abs = λ a. a;
}

abbrev lpf : Lpf ℕ
lpf = record { value = 0; buf = 0 ∷ 0 ∷ []; head = 1; n = 2 }

abbrev pid : Pid ℕ
pid = record {
  p = 2;
  i = 1;
  d = 1;
  sp = 10;
  active_region = 0;
  e_last = 0;
  e_dt = 3;
  paused = true;
  d_lpf = lpf;
}

abbrev values : List ℕ
values = 30 ∷ 20 ∷ 10 ∷ []

lpf-WellFormed : WellFormed lpf
lpf-WellFormed = (refl, omega arith)

steps-Window_example :
    (lpf' : Lpf ℕ) × (steps whole values lpf ≡ some lpf')
    × WellFormed lpf'
    × (lpf'.n ≡ 2)
    × Window whole lpf' values
    × ((values ≡ []) ⊎ (lpf'.value ≡ total whole lpf'.buf 0 / 2))
steps-Window_example = steps-Window whole values lpf lpf-WellFormed

update-WellFormed_example :
    (mv : ℕ) × (pid' : Pid ℕ) × (update whole 1 pid 4 ≡ some (mv, pid'))
    × WellFormed pid'.d_lpf
    × (pid'.paused ≡ false)
    × (pid.paused ≡ true → pid'.e_dt ≡ 3)
update-WellFormed_example = update-WellFormed whole 1 pid 4 lpf-WellFormed

set_derivative_buffer_size-overruns_example :
    update whole 1 (set_derivative_buffer_size whole 1 pid) 4 ≡ none
set_derivative_buffer_size-overruns_example =
    set_derivative_buffer_size-overruns whole 1 1 pid 4 (omega arith)
