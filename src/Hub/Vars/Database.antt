-- ===== src/Hub/Vars/Database.antt =====
-- The definitions of the variables and the database of the persistent ones, of src/hub/var.c. What
-- `Config_readFile` stored is a list of options and values, in the order of `Dictionary_getKeys`;
-- NULL is none. A result of `none` is `Hub_exitError` or, in the flush, a NULL dereference.
pub mod Restored
pub mod Start
mod Tests
use libseawolf.Base.{
  ℕ, ◌+◌, ◌-◌, Bool, true, false, ◌||◌, Option, none, some, List, [], ◌∷◌, ◌++◌, bytes_eq, length,
  replicate, ◌==◌, if◌then◌else◌,
}
use libseawolf.Comm.Message.{Bytes}
use libseawolf.Hub.State.{Var, Hub, codes}

-- `sscanf` with "%f , %d , %d" and with "%f", where `none` is a result that is too small, with the
-- ints as bit patterns, and the `%.4f` of `printf`.
pub record Scanf (V : Type 0) : Type 0 where
  pub definition : Bytes → Option (V × ℕ × ℕ)
  pub value : Bytes → Option V
  pub format : V → Bytes

-- The flag is 0 or 1.
abbrev pub is_flag : ℕ → Bool
is_flag n = n == 0 || n == 1

-- A `%-20s`, or with another width.
abbrev pub padded : ℕ → Bytes → Bytes
padded width name = name ++ replicate (width - length name) b' '

module _ {V : Type 0} where
  -- `var_cache` after a `Dictionary_set`.
  abbrev pub with_var : (Bytes → Option (Var V)) → Bytes → Var V → Bytes → Option (Var V)
  with_var vars name v n = if bytes_eq n name then some v else vars n

  -- The new variable of a definition.
  abbrev pub defined : V → ℕ → ℕ → Var V
  defined default_value persistent readonly = record {
    value = default_value;
    default_value = default_value;
    persistent = persistent == 1;
    readonly = readonly == 1;
    stuck = false;
    subscribers = [];
  }

module _ {V : Type 0} (scanf : Scanf V) where
  -- The loop of `Hub_Var_readDefinitions`, with `var_cache` and `persistent_variables`.
  unfoldable pub read_definitions :
      List (Bytes × Bytes)
      → (Bytes → Option (Var V))
      → List Bytes
      → Option ((Bytes → Option (Var V)) × List Bytes)
  read_definitions [] vars names = some (vars, names)
  read_definitions ((name, text) ∷ entries) vars names = elim (scanf.definition text) [
    | none ↦ none
    | some (default_value, persistent, readonly) ↦
        if is_flag persistent
        then if is_flag readonly
          then read_definitions entries
              (with_var vars name (defined default_value persistent readonly))
              (if persistent == 1 then names ++ name ∷ [] else names)
          else none
        else none
  ]

  -- The loop of `Hub_Var_readPersistentValues`.
  unfoldable pub read_persistent_values :
      List (Bytes × Bytes) → (Bytes → Option (Var V)) → Option (Bytes → Option (Var V))
  read_persistent_values [] vars = some vars
  read_persistent_values ((name, text) ∷ entries) vars = elim (scanf.value text) [
    | none ↦ none
    | some x ↦ elim (vars name) [
      | none ↦ none
      | some v ↦ read_persistent_values entries (with_var vars name (record v { value = x }))
    ]
  ]

  -- `Hub_Var_init`, with what the two files hold: the variables and the names of the persistent ones.
  unfoldable pub init :
      Option (List (Bytes × Bytes))
      → Option (List (Bytes × Bytes))
      → Option ((Bytes → Option (Var V)) × List Bytes)
  init none db = none
  init (some defs) db = elim (read_definitions defs (λ n. none) []) [
    | none ↦ none
    | some (vars, []) ↦ some (vars, [])
    | some (vars, name ∷ names) ↦ elim db [
      | none ↦ none
      | some entries ↦ elim (read_persistent_values entries vars) [
        | none ↦ none
        | some vars' ↦ some (vars', name ∷ names)
      ]
    ]
  ]

  -- The loop of `Hub_Var_dbFlusher` over the persistent variables.
  unfoldable pub flush_lines : List Bytes → (Bytes → Option (Var V)) → Option Bytes
  flush_lines [] vars = some []
  flush_lines (name ∷ names) vars = elim (vars name) [
    | none ↦ none
    | some v ↦ elim (flush_lines names vars) [
      | none ↦ none
      | some lines ↦
          some (padded 20 name ++ (codes " = " ++ (scanf.format v.value ++ (b'\n' ∷ lines))))
    ]
  ]

  -- What a round of the endless loop of `Hub_Var_dbFlusher` comes to.
  pub data Flush : Type 0 where
    waits : Flush
    faults : Flush
    writes : Bytes → Hub V → Flush

  -- A round of `Hub_Var_dbFlusher`, whose file opens: the text that replaces the database.
  unfoldable pub db_flusher : List Bytes → Hub V → Flush
  db_flusher names h =
      if h.do_flush_flag
      then elim (flush_lines names h.var) [
        | none ↦ faults
        | some lines ↦
            writes
              (codes "# "
                ++ (padded 18 (codes "VARIABLE") ++ (codes " = VALUE" ++ (b'\n' ∷ lines))))
              (record h { do_flush_flag = false })
      ]
      else waits
