-- ===== src/Util/Tests.antt =====
-- Stripping and splitting of concrete texts.
use libseawolf.Base.{◌≡◌, refl, none, some, [], ◌∷◌, arith}
use libseawolf.Util.{strip, split}
use libseawolf.Util.Laws.{strip_overruns, split_lem}

strip_overruns_example : strip (32 ∷ 32 ∷ []) ≡ none
strip_overruns_example = strip_overruns 32 (32 ∷ []) (refl, (refl, tt))

-- "a=b=c" at the sign "=".
split_lem_example :
    (split (97 ∷ 61 ∷ 98 ∷ 61 ∷ 99 ∷ []) 61 ≡ (0, 97 ∷ [], some (98 ∷ 61 ∷ 99 ∷ [])))
    × (split (97 ∷ []) 61 ≡ (1, 97 ∷ [], none))
split_lem_example = split_lem (97 ∷ []) (98 ∷ 61 ∷ 99 ∷ []) 61 ((λ e. omega arith), tt)
