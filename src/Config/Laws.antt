-- ===== src/Config/Laws.antt =====
-- `Config_readFile` of src/config.c on files that are lists of options, and on blank lines.
use libseawolf.Base.{
  ℕ, zero, suc, ◌+◌, ◌≤◌, ◌<◌, ◌≡◌, ◌≢◌, refl, ap, ◌∙◌, false, some, List, [], ◌∷◌, ◌++◌, arith,
  length, length-append, leb, ◌==◌,
}
use libseawolf.Dictionary.{Dictionary, set_string}
use libseawolf.Util.{Text, strip}
use libseawolf.Util.Laws.{Spaces, strip_overruns}
use libseawolf.Config.{
  c_string, max_line, line, read_line, next_line, finished, overrun, read_nonempty, split_option,
  config, fault, read_options, empty_config, read_file,
}

-- A text inside one line, with no comment and no NUL.
abbrev pub Plain : Text → Type 0
Plain [] = Unit
Plain (c ∷ text) = (c ≢ 0) × (c ≢ b'\n') × (c ≢ b'#') × Plain text

abbrev pub NoEquals : Text → Type 0
NoEquals [] = Unit
NoEquals (c ∷ text) = (c ≢ b'=') × NoEquals text

read_line-Plain :
    (text rest : Text) (i : ℕ)
    → Plain text
    → i + length text < max_line
    → read_line i false (text ++ (b'\n' ∷ rest)) ≡ line text rest false
unfolding read_line
read_line-Plain [] rest i p h = refl
read_line-Plain (c ∷ text) rest i (_, a, b, p) h =
    let ih = read_line-Plain text rest (i + 1) p (omega arith) in
    let newline : c == b'\n' ≡ false = ground arith in
    let hash : c == b'#' ≡ false = ground arith in
    let short : leb max_line (i + 1) ≡ false = ground arith in
    rw (newline, hash, short, ih) (rw hash refl)

c_string-Plain : (text : Text) → Plain text → c_string text ≡ text
unfolding c_string
c_string-Plain [] p = refl
c_string-Plain (c ∷ text) (nonzero, _, _, p) =
    let other : c == 0 ≡ false = ground arith in rw (other, c_string-Plain text p) refl

split_option_lem :
    (option value : Text)
    → NoEquals option
    → split_option (option ++ (b'=' ∷ value)) ≡ some (option, value)
unfolding split_option
split_option_lem [] value w = refl
split_option_lem (c ∷ option) value w =
    let other : c == b'=' ≡ false = ground arith in
    rw (split_option_lem option value w.1, split_option, other) refl

-- An option that fits a line, with no spaces around its two parts.
pub record Clean (option value : Text) : Type 0 where
  pub plain : Plain (option ++ (b'=' ∷ value))
  pub short : length (option ++ (b'=' ∷ value)) < max_line
  pub no_equals : NoEquals option
  pub line_stripped : strip (option ++ (b'=' ∷ value)) ≡ some (option ++ (b'=' ∷ value))
  pub option_stripped : strip option ≡ some option
  pub value_stripped : strip value ≡ some value

abbrev pub AllClean : List (Text × Text) → Type 0
AllClean [] = Unit
AllClean ((option, value) ∷ pairs) = Clean option value × AllClean pairs

-- The file with one option in each line.
unfoldable pub render : List (Text × Text) → Text
render [] = []
render ((option, value) ∷ pairs) = (option ++ (b'=' ∷ value)) ++ (b'\n' ∷ render pairs)

-- The dictionary and the stored values after the options, in their order.
unfoldable pub stored : List (Text × Text) → Dictionary → List Text → Dictionary × List Text
stored [] dict strings = (dict, strings)
stored ((option, value) ∷ pairs) dict strings =
    stored pairs (set_string dict option (length strings + 1)) (strings ++ value ∷ [])

zeros : (n : ℕ) → n + 1 ≡ n + 0 + 1
zeros n = omega arith

shifted : (n k : ℕ) → n + 1 + k + 1 ≡ n + suc k + 1
shifted n k = omega arith

start : (k : ℕ) → 0 + k + 1 ≡ k + 1
start k = omega arith

one_more : (n : ℕ) → n + 1 ≡ suc n
one_more n = omega arith

nonempty_line :
    (rounds : ℕ) (option value rest : Text) (n : ℕ)
    → Clean option value
    → read_nonempty (suc rounds) ((option ++ (b'=' ∷ value)) ++ (b'\n' ∷ rest)) n
      ≡ next_line (option ++ (b'=' ∷ value)) rest (n + 1)
unfolding read_nonempty
nonempty_line rounds [] value rest n c =
    rw
      (
        read_line-Plain (b'=' ∷ value) rest 0 c.plain (omega (arith, c.short)),
        read_nonempty,
        c_string-Plain (b'=' ∷ value) c.plain,
        c.line_stripped,
      )
      refl
nonempty_line rounds (b ∷ option) value rest n c =
    rw
      (
        read_line-Plain (b ∷ option ++ (b'=' ∷ value)) rest 0 c.plain (omega (arith, c.short)),
        read_nonempty,
        c_string-Plain (b ∷ option ++ (b'=' ∷ value)) c.plain,
        c.line_stripped,
      )
      refl

empty_file : (n : ℕ) → read_nonempty 1 [] n ≡ finished (n + 1)
unfolding read_nonempty read_line strip c_string
empty_file n = refl

read_options-render :
    (pairs : List (Text × Text)) (rounds n : ℕ) (dict : Dictionary) (strings : List Text)
    → AllClean pairs
    → length pairs < rounds
    → read_options rounds (render pairs) n dict strings
      ≡ config (stored pairs dict strings).0 (stored pairs dict strings).1 (n + length pairs + 1)
unfolding read_options render stored
read_options-render pairs zero n dict strings c h = absurd (omega arith)
read_options-render [] (suc rounds) n dict strings c h =
    rw (empty_file n, read_options) (ap (config dict strings) (zeros n))
read_options-render ((option, value) ∷ pairs) (suc rounds) n dict strings (c, cs) h =
    let file = render ((option, value) ∷ pairs) in
    let found =
      ap (λ k. read_nonempty k file n) (one_more (length file))
      ∙ nonempty_line (length file) option value (render pairs) n c in
    let after =
      stored pairs (set_string dict option (length strings + 1)) (strings ++ value ∷ []) in
    rw
      (
        found,
        read_options,
        split_option_lem option value c.no_equals,
        c.option_stripped,
        c.value_stripped,
      )
      (read_options-render pairs rounds (n + 1) (set_string dict option (length strings + 1))
          (strings ++ value ∷ []) cs (omega arith)
        ∙ ap (config after.0 after.1) (shifted n (length pairs)))

length-render : (pairs : List (Text × Text)) → length pairs ≤ length (render pairs)
unfolding render
length-render [] = omega arith
length-render ((option, value) ∷ pairs) =
    omega
      (arith, length-append (option ++ (b'=' ∷ value)) (b'\n' ∷ render pairs), length-render pairs)

-- A file with one option "option=value" in each line, each of less than 512 bytes, without a NUL,
-- a "#" or a line break, with no "=" in the option, and with nothing to strip, is read, in as many
-- lines, as the dictionary in which the options are set to their values one after the other.
pub read_file-render :
    (pairs : List (Text × Text))
    → AllClean pairs
    → read_file (some (render pairs))
      ≡ config (stored pairs empty_config []).0 (stored pairs empty_config []).1 (length pairs + 1)
unfolding read_file
read_file-render pairs c =
    read_options-render pairs (length (render pairs) + 1) 0 empty_config [] c
      (omega (arith, length-render pairs))
    ∙ ap (config (stored pairs empty_config []).0 (stored pairs empty_config []).1)
        (start (length pairs))

blank_line :
    (rounds : ℕ) (c : ℕ) (text rest : Text)
    → Spaces (c ∷ text)
    → Plain (c ∷ text)
    → length (c ∷ text) < max_line
    → read_nonempty (suc rounds) (c ∷ text ++ (b'\n' ∷ rest)) 0 ≡ overrun 1
unfolding read_nonempty
blank_line rounds c text rest s p h =
    rw
      (
        read_line-Plain (c ∷ text) rest 0 p (omega arith),
        read_nonempty,
        c_string-Plain (c ∷ text) p,
        strip_overruns c text s,
      )
      refl

read_options_fault :
    (rounds : ℕ) (file : Text)
    → read_nonempty (length file + 1) file 0 ≡ overrun 1
    → read_options (suc rounds) file 0 empty_config [] ≡ fault 1
unfolding read_options
read_options_fault rounds file e = rw (e, read_options) refl

-- A first line of spaces only, shorter than a line may be, makes `Config_readFile` access memory in
-- front of its line buffer.
pub read_file_overruns :
    (c : ℕ) (text rest : Text)
    → Spaces (c ∷ text)
    → Plain (c ∷ text)
    → length (c ∷ text) < max_line
    → read_file (some (c ∷ text ++ (b'\n' ∷ rest))) ≡ fault 1
unfolding read_file
read_file_overruns c text rest s p h =
    let file = c ∷ text ++ (b'\n' ∷ rest) in
    ap (λ k. read_options k file 0 empty_config []) (one_more (length file))
    ∙ read_options_fault (length file) file (
        ap (λ k. read_nonempty k file 0) (one_more (length file))
        ∙ blank_line (length file) c text rest s p h)
