-- ===== src/Hub/Config/Options.antt =====
-- The options of the hub after the reading of its configuration file.
pub mod Defaults
use libseawolf.Hub.Config.Options.Defaults.{
  value_in, documented, or_before-none, set_all-value, defaults_lem,
}
use libseawolf.Base.{
  ◌≡◌, refl, sym, subst, ap, ◌∙◌, true, false, Option, none, some, List, [], ◌∷◌, bytes_eq,
  bytes_eq_sound, if◌then◌else◌, Bool-cases, Option-cases, inl, inr,
}
use libseawolf.Comm.Message.{Bytes}
use libseawolf.Config.{read_file}
use libseawolf.Util.{Text}
use libseawolf.Hub.State.{codes}
use libseawolf.Hub.Config.{
  Table, options_of, set_option, set_all, is_some, apply_options, process_config, get_option,
  valid_options,
}

-- The value of an option with a default, by a file.
abbrev pub chosen : Option Bytes → Option Bytes → Option Bytes
chosen none in_file = none
chosen (some default) none = some default
chosen (some default) (some value) = some value

-- The two sides of a step over an option of the file.
unchanged :
    (n option value : Bytes) (before later : Option Bytes)
    → bytes_eq n option ≡ false
    → chosen before later
      ≡ chosen before
          (elim later [ some v ↦ some v | none ↦ if bytes_eq n option then some value else none ])
unchanged n option value before none other = rw other refl
unchanged n option value before (some v) other = refl

replaced :
    (n option value default : Bytes) (later : Option Bytes)
    → bytes_eq n option ≡ true
    → chosen (some value) later
      ≡ chosen
          (some default)
          (elim later [ some v ↦ some v | none ↦ if bytes_eq n option then some value else none ])
replaced n option value default none same = rw same refl
replaced n option value default (some v) same = refl

chosen_step :
    (n option value : Bytes) (config : Table) (later : Option Bytes)
    → chosen ((if is_some (config option) then set_option config option value else config) n) later
      ≡ chosen
          (config n)
          (elim later [ some v ↦ some v | none ↦ if bytes_eq n option then some value else none ])
chosen_step n option value config later = elim (Bool-cases (bytes_eq n option)) [
  | inr other ↦
      let kept = unchanged n option value (config n) later other in
      elim (Option-cases (config option)) [
        | inl e ↦ rw e kept
        | inr (d, e) ↦
            rw e (ap (λ b. chosen (if b then some value else config n) later) other ∙ kept)
      ]
  | inl same ↦
      let here : config n ≡ config option = ap config (bytes_eq_sound n option same) in
      elim (Option-cases (config option)) [
        | inl e ↦ rw (e, here, e) refl
        | inr (d, e) ↦
            rw (e, here ∙ e)
              (ap (λ b. chosen (if b then some value else some d) later) same
                ∙ replaced n option value d later same)
      ]
]

apply_options-value :
    (options : List (Bytes × Bytes)) (config : Table) (n : Bytes)
    → apply_options options config n ≡ chosen (config n) (value_in n options)
unfolding apply_options
apply_options-value [] config n = elim (Option-cases (config n)) [
  | inl e ↦ rw e refl
  | inr (v, e) ↦ rw e refl
]
apply_options-value ((option, value) ∷ options) config n =
    apply_options-value options _ n ∙ chosen_step n option value config (value_in n options)

-- If the chosen file can be read, an option of the hub has afterwards the value that the file gives
-- to it, or else its documented default, and a name that is no option of the hub has none, also if
-- the file gives it a value. If no file is found every option has its documented default, and the
-- hub ends without a table if the file cannot be read.
pub process_config-value :
    (file : Bytes) (contents : Bytes → Option Text) (options : List (Bytes × Bytes)) (n : Bytes)
    → options_of (read_file (contents file)) ≡ some options
    → ((config : Table) × (process_config (some file) contents ≡ some config)
        × (get_option n config ≡ chosen (value_in n documented) (value_in n options)))
      × ((config : Table) × (process_config none contents ≡ some config)
          × (get_option n config ≡ value_in n documented))
      × (process_config (some file) (λ f. none) ≡ none)
unfolding process_config get_option read_file options_of
process_config-value file contents options n e =
    let defaults = set_all valid_options (λ k. none) in
    let default : defaults n ≡ value_in n documented =
      set_all-value valid_options (λ k. none) n
      ∙ or_before-none (value_in n valid_options)
      ∙ defaults_lem n in
    (
      (
        apply_options options defaults,
        rw (e, process_config) refl,
        apply_options-value options defaults n ∙ ap (λ d. chosen d (value_in n options)) default,
      ),
      (defaults, refl, default),
      refl,
    )
