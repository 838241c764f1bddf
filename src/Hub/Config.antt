-- ===== src/Hub/Config.antt =====
-- src/hub/config.c: the options of the hub. The table `config` is a function from names.
pub mod Options
mod Tests
use libseawolf.Base.{
  ℕ, Bool, true, false, Option, none, some, List, [], ◌∷◌, ◌++◌, ◌-◌, ◌==◌, map, get_or, bytes_eq,
  if◌then◌else◌,
}
use libseawolf.Comm.Message.{Bytes}
use libseawolf.Config.{c_string, Result, config, failed, fault, out_of_rounds, read_file}
use libseawolf.Dictionary.{get_data, get_keys}
use libseawolf.Util.{Text}
use libseawolf.Hub.State.{codes}

-- `valid_options`
abbrev pub valid_options : List (Bytes × Bytes)
valid_options =
    (codes "bind_address", codes "127.0.0.1")
    ∷ (codes "bind_port", codes "31427")
    ∷ (codes "password", [])
    ∷ (codes "var_db", codes "seawolf_var.db")
    ∷ (codes "var_defs", codes "seawolf_var.defs")
    ∷ (codes "log_file", [])
    ∷ (codes "log_replicate_stdout", codes "1")
    ∷ (codes "log_level", codes "NORMAL")
    ∷ []

abbrev pub Table : Type 0
Table = Bytes → Option Bytes

abbrev pub set_option : Table → Bytes → Bytes → Table
set_option table option value n = if bytes_eq n option then some value else table n

-- The loop over `valid_options`.
unfoldable pub set_all : List (Bytes × Bytes) → Table → Table
set_all [] table = table
set_all ((option, value) ∷ options) table = set_all options (set_option table option value)

abbrev pub is_some : Option Bytes → Bool
is_some none = false
is_some (some value) = true

-- The loop over the options of the file: unknown ones are left out.
unfoldable pub apply_options : List (Bytes × Bytes) → Table → Table
apply_options [] table = table
apply_options ((option, value) ∷ options) table =
    apply_options options (if is_some (table option) then set_option table option value else table)

-- `Hub_Config_chooseConfigFile`, for the file that was asked for, the value of HOME, and which files
-- exist.
unfoldable pub choose_config_file : Option Bytes → Option Bytes → (Bytes → Bool) → Option Bytes
choose_config_file (some file) home exists = some file
choose_config_file none (some home) exists =
    let mine = home ++ codes "/.swhubrc" in
    let etc = codes "/etc/seawolf_hub.conf" in
    if exists mine then some mine else if exists etc then some etc else none
choose_config_file none none exists =
    let etc = codes "/etc/seawolf_hub.conf" in if exists etc then some etc else none

-- The string that a pointer of `Config_readFile` points to.
unfoldable pub string_at : ℕ → List Text → Text
string_at p strings = get_or strings (p - 1) []

-- The options of the file with their values, in the order of `Dictionary_getKeys`. None stands for
-- an error, which ends the hub.
unfoldable pub options_of : Result → Option (List (Bytes × Bytes))
options_of (config table strings n) =
    some
      (map (λ key. (c_string key, string_at (get_data table key) strings)) (get_keys table.buckets))
options_of (failed error n) = none
options_of (fault n) = none
options_of out_of_rounds = none

-- `Hub_Config_processConfig`, for the file that is chosen and the contents of the files that open.
unfoldable pub process_config : Option Bytes → (Bytes → Option Text) → Option Table
process_config none contents = some (set_all valid_options (λ n. none))
process_config (some file) contents = elim (options_of (read_file (contents file))) [
  | none ↦ none
  | some options ↦ some (apply_options options (set_all valid_options (λ n. none)))
]

-- `Hub_Config_getOption`
unfoldable pub get_option : Bytes → Table → Option Bytes
get_option config_key table = table config_key
