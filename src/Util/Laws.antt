-- ===== src/Util/Laws.antt =====
-- What `Util_strip` and `Util_split` of src/util.c do to a text.
use libseawolf.Base.{
  ℕ, ◌≡◌, ◌≢◌, refl, ap, ◌∙◌, true, false, none, some, [], ◌∷◌, ◌++◌, arith, ◌==◌, ==_refl,
}
use libseawolf.Util.{Text, is_space, strip_left, strip_right, strip, split}

-- All bytes are spaces, or no byte is the given one.
abbrev pub Spaces : Text → Type 0
Spaces [] = Unit
Spaces (c ∷ text) = (is_space c ≡ true) × Spaces text

abbrev pub Without : ℕ → Text → Type 0
Without c [] = Unit
Without c (b ∷ text) = (b ≢ c) × Without c text

strip_left-Spaces :
    (before text : Text) → Spaces before → strip_left (before ++ text) ≡ strip_left text
unfolding strip_left
strip_left-Spaces [] text s = refl
strip_left-Spaces (c ∷ before) text s = rw (s.0) (strip_left-Spaces before text s.1)

strip_right-Spaces : (after : Text) → Spaces after → strip_right after ≡ none
unfolding strip_right
strip_right-Spaces [] s = refl
strip_right-Spaces (c ∷ after) s = rw (strip_right-Spaces after s.1, strip_right, s.0) refl

strip_right_lem :
    (core after : Text) (c : ℕ)
    → is_space c ≡ false
    → Spaces after
    → strip_right (core ++ (c ∷ after)) ≡ some (core ++ (c ∷ []))
unfolding strip_right
strip_right_lem [] after c n s = rw (strip_right-Spaces after s, strip_right, n) refl
strip_right_lem (b ∷ core) after c n s = rw (strip_right_lem core after c n s, strip_right) refl

strip_nonempty :
    (before text : Text)
    → text ≢ []
    → strip (before ++ text) ≡ strip_right (strip_left (before ++ text))
unfolding strip
strip_nonempty [] [] ne = absurd (ne refl)
strip_nonempty [] (c ∷ text) ne = refl
strip_nonempty (b ∷ before) text ne = refl

strip_left-all : (text : Text) → Spaces text → strip_left text ≡ []
unfolding strip_left
strip_left-all [] s = refl
strip_left-all (c ∷ text) s = rw (s.0) (strip_left-all text s.1)

-- `Util_strip` takes away the spaces in front of a text and behind it, and keeps all from its first
-- byte that is no space to its last one, spaces in between included.
pub strip-core :
    (before core after : Text) (b c : ℕ)
    → Spaces before
    → is_space b ≡ false
    → is_space c ≡ false
    → Spaces after
    → strip (before ++ (b ∷ core ++ (c ∷ after))) ≡ some (b ∷ core ++ (c ∷ []))
strip-core before core after b c sb nb nc sa =
    strip_nonempty before (b ∷ core ++ (c ∷ after)) (λ e. ground arith)
    ∙ ap strip_right (strip_left-Spaces before (b ∷ core ++ (c ∷ after)) sb ∙ here)
    ∙ strip_right_lem (b ∷ core) after c nc sa
  where
    here : strip_left (b ∷ core ++ (c ∷ after)) ≡ b ∷ core ++ (c ∷ after)
    here = unfold strip_left in rw nb refl

-- `Util_strip` of a text of spaces only reads in front of the buffer.
pub strip_overruns : (c : ℕ) (text : Text) → Spaces (c ∷ text) → strip (c ∷ text) ≡ none
unfolding strip
strip_overruns c text s = ap strip_right (strip_left-all (c ∷ text) s) ∙ unfold strip_right in refl

-- `Util_split` cuts a text at the first split character, and without one returns 1 with all of the
-- text in the first part.
pub split_lem :
    (text rest : Text) (c : ℕ)
    → Without c text
    → (split (text ++ (c ∷ rest)) c ≡ (0, text, some rest)) × (split text c ≡ (1, text, none))
unfolding split
split_lem [] rest c w = rw (==_refl c) (refl, refl)
split_lem (b ∷ text) rest c w =
    let (found, missing) = split_lem text rest c w.1 in
    let other : b == c ≡ false = ground arith in rw (other, found, missing) (refl, refl)
