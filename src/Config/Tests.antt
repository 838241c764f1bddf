-- ===== src/Config/Tests.antt =====
-- Reading of concrete files.
use libseawolf.Base.{◌≡◌, refl, [], ◌∷◌, some, arith}
use libseawolf.Hub.State.{codes}
use libseawolf.Util.{strip, strip_left, strip_right}
use libseawolf.Config.{read_file, config, empty_config}
use libseawolf.Config.Laws.{Clean, render, stored, read_file-render}

first-Clean : Clean (codes "a") (codes "1")
unfolding strip strip_left strip_right
first-Clean = record {
  plain = (
    (λ e. omega arith),
    (λ e. omega arith),
    (λ e. omega arith),
    (
      (λ e. omega arith),
      (λ e. omega arith),
      (λ e. omega arith),
      ((λ e. omega arith), (λ e. omega arith), (λ e. omega arith), tt),
    ),
  );
  short = omega arith;
  no_equals = ((λ e. omega arith), tt);
  line_stripped = refl;
  option_stripped = refl;
  value_stripped = refl;
}

read_file-render_example :
    read_file (some (codes "a=1\n"))
    ≡ config (stored ((codes "a", codes "1") ∷ []) empty_config []).0 (codes "1" ∷ []) 2
unfolding render stored
read_file-render_example = read_file-render ((codes "a", codes "1") ∷ []) (first-Clean, tt)
