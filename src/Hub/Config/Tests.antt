-- ===== src/Hub/Config/Tests.antt =====
-- Reading of a concrete configuration.
use libseawolf.Base.{◌≡◌, refl, Bool, Option, none, some, List, [], ◌∷◌, bytes_eq, if◌then◌else◌}
use libseawolf.Comm.Message.{Bytes}
use libseawolf.Config.{c_string, read_file, read_options, read_nonempty, read_line, split_option}
use libseawolf.Util.{Text, strip, strip_right, strip_left}
use libseawolf.Dictionary.{
  get_keys, set_string, set_data, store, hash, hash_from, count_item, bucket_keys, find_item,
  get_data, get_item,
}
use libseawolf.Hub.State.{codes}
use libseawolf.Hub.Config.{
  Table, process_config, get_option, choose_config_file, options_of, string_at,
}
use libseawolf.Hub.Config.Options.{chosen, process_config-value}
use libseawolf.Hub.Config.Options.Defaults.{value_in, documented}

abbrev etc : Bytes
etc = codes "/etc/seawolf_hub.conf"

abbrev contents : Bytes → Option Text
contents name = if bytes_eq name etc then some (codes "bind_port=1\ncolor=red\n") else none

abbrev exists : Bytes → Bool
exists name = bytes_eq name etc

chosen_etc : choose_config_file none (some (codes "/root")) exists ≡ some etc
unfolding choose_config_file bytes_eq
chosen_etc = refl

abbrev in_file : List (Bytes × Bytes)
in_file = (codes "color", codes "red") ∷ (codes "bind_port", codes "1") ∷ []

file_options : options_of (read_file (contents etc)) ≡ some in_file
unfolding options_of read_file bytes_eq read_options read_nonempty read_line strip strip_right
    strip_left split_option get_keys set_string set_data store hash hash_from count_item bucket_keys
    find_item get_data get_item c_string string_at
file_options = refl

process_config-value_example :
    ((config : Table) × (process_config (some etc) contents ≡ some config)
      × (get_option (codes "bind_port") config
          ≡ chosen
              (value_in (codes "bind_port") documented)
              (value_in (codes "bind_port") in_file)))
    × ((config : Table) × (process_config none contents ≡ some config)
        × (get_option (codes "bind_port") config ≡ value_in (codes "bind_port") documented))
    × (process_config (some etc) (λ f. none) ≡ none)
process_config-value_example =
    process_config-value etc contents in_file (codes "bind_port") file_options
