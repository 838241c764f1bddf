-- ===== src/Config.antt =====
-- src/config.c: the reading of configuration files, over the bytes of the file. A stored value is a
-- pointer that `strdup` made: pointer `p` is the string at place `p - 1` of `strings`.
pub mod Laws
mod Tests
use libseawolf.Base.{
  ℕ, zero, suc, ◌+◌, Bool, true, false, ◌&&◌, ◌||◌, Option, none, some, List, [], ◌∷◌, ◌++◌, length,
  bytes_eq, ltb, leb, map, ◌==◌, if◌then◌else◌, replicate,
}
use libseawolf.Dictionary.{Dictionary, set_string, dictionary_initial_buckets}
use libseawolf.Hub.State.{codes}
use libseawolf.Util.{Text, strip}

abbrev pub max_line : ℕ
max_line = 512

-- The line up to the next newline or the end of the file, without its comment.
pub data Line : Type 0 where
  line : Text → Text → Bool → Line
  too_long : Line

-- The innermost loop of `Config_readFile`, with `i` characters in the buffer: the line, what is
-- left of the file, and whether the file has ended.
unfoldable pub read_line : ℕ → Bool → Text → Line
read_line i comment [] = line [] [] true
read_line i comment (c ∷ file) =
    let comment' = comment || c == b'#' in
    let i' = if comment' then i else i + 1 in
    let rest = read_line i' comment' file in
    if c == b'\n' then line [] file false else if leb max_line i' then too_long else elim rest [
      | too_long ↦ too_long
      | line text file' ended ↦ line (if comment' then text else c ∷ text) file' ended
    ]

-- `Config_getError`
pub data Error : Type 0 where
  file_access line_too_long parse : Error

-- What the search for the next line that is not empty comes to. The number is `config_lineno`.
pub data Next : Type 0 where
  finished : ℕ → Next
  next_line : Text → Text → ℕ → Next
  long_line : ℕ → Next
  overrun : ℕ → Next
  more_rounds : Next

-- The line in its buffer is a C string: it ends at its first NUL.
unfoldable pub c_string : Text → Text
c_string [] = []
c_string (b ∷ bs) = let rest = c_string bs in if b == 0 then [] else b ∷ rest

-- The middle loop. `overrun` is the fault of `Util_strip` on a line of spaces.
unfoldable pub read_nonempty : ℕ → Text → ℕ → Next
read_nonempty zero file n = more_rounds
read_nonempty (suc rounds) file n = elim (read_line 0 false file) [
  | too_long ↦ long_line n
  | line text rest ended ↦ elim (strip (c_string text)) [
    | none ↦ overrun (n + 1)
    | some [] ↦ if ended then finished (n + 1) else read_nonempty rounds rest (n + 1)
    | some (c ∷ stripped) ↦ next_line (c ∷ stripped) rest (n + 1)
  ]
]

-- The split of a line at its first "=".
unfoldable pub split_option : Text → Option (Text × Text)
split_option [] = none
split_option (c ∷ text) =
    let rest = split_option text in
    if c == b'='
    then some ([], text)
    else elim rest [ none ↦ none | some (option, value) ↦ some (c ∷ option, value) ]

-- What `Config_readFile` comes to.
pub data Result : Type 0 where
  config : Dictionary → List Text → ℕ → Result
  failed : Error → ℕ → Result
  fault : ℕ → Result
  out_of_rounds : Result

-- The outer loop.
unfoldable pub read_options : ℕ → Text → ℕ → Dictionary → List Text → Result
read_options zero file n dict strings = out_of_rounds
read_options (suc rounds) file n dict strings = elim (read_nonempty (length file + 1) file n) [
  | more_rounds ↦ out_of_rounds
  | finished n' ↦ config dict strings n'
  | long_line n' ↦ failed line_too_long n'
  | overrun n' ↦ fault n'
  | next_line text rest n' ↦ elim (split_option text) [
    | none ↦ failed parse n'
    | some (option, value) ↦ elim (strip option) [
      | none ↦ fault n'
      | some option' ↦ elim (strip value) [
        | none ↦ fault n'
        | some value' ↦
            read_options rounds rest n' (set_string dict option' (length strings + 1))
              (strings ++ value' ∷ [])
      ]
    ]
  ]
]

abbrev empty_config : Dictionary
empty_config = record {
  buckets = replicate dictionary_initial_buckets [];
  bucket_count = dictionary_initial_buckets;
  item_count = 0;
}

-- `Config_readFile`; no file is one that does not open.
unfoldable pub read_file : Option Text → Result
read_file none = failed file_access 0
read_file (some file) = read_options (length file + 1) file 0 empty_config []

-- `tolower` in the C locale.
abbrev pub to_lower : ℕ → ℕ
to_lower c = if leb b'A' c && leb c b'Z' then c + 32 else c

-- `Config_truth`
unfoldable pub truth : Text → Bool
truth value =
    let lower = map to_lower value in
    bytes_eq lower (codes "1")
    || bytes_eq lower (codes "true")
    || bytes_eq lower (codes "yes")
    || bytes_eq lower (codes "on")
