-- ===== src/Util.antt =====
-- src/util.c: `Util_strip` and `Util_split`. A buffer is the bytes in front of its NUL, and no byte
-- of it is NUL.
pub mod Laws
mod Tests
use libseawolf.Base.{
  ℕ, Bool, true, false, ◌&&◌, ◌||◌, Option, none, some, List, [], ◌∷◌, ◌++◌, leb, ◌==◌,
  if◌then◌else◌,
}

abbrev pub Text : Type 0
Text = List ℕ

-- `isspace` in the C locale: the blank, and the bytes from tab to carriage return.
abbrev pub is_space : ℕ → Bool
is_space c = c == 32 || leb 9 c && leb c 13

-- The first loop of `Util_strip`, with the move to the front: the text from its first byte that is
-- no space on.
unfoldable pub strip_left : Text → Text
strip_left [] = []
strip_left (c ∷ text) = let rest = strip_left text in if is_space c then rest else c ∷ text

-- The last loop of `Util_strip`: the text without its trailing spaces. `none` is a read in front
-- of the buffer, when there is no byte that stops the loop.
unfoldable pub strip_right : Text → Option Text
strip_right [] = none
strip_right (c ∷ text) = elim (strip_right text) [
  | some rest ↦ some (c ∷ rest)
  | none ↦ if is_space c then none else some (c ∷ [])
]

-- `Util_strip`
unfoldable pub strip : Text → Option Text
strip [] = some []
strip (c ∷ text) = strip_right (strip_left (c ∷ text))

-- `Util_split`: the int and the two parts. Without the split character the second buffer is not
-- written.
unfoldable pub split : Text → ℕ → ℕ × Text × Option Text
split [] c = (1, [], none)
split (b ∷ text) c =
    let (code, p1, p2) = split text c in if b == c then (0, [], some text) else (code, b ∷ p1, p2)
