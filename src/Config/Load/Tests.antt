-- ===== src/Config/Load/Tests.antt =====
-- Runs of the constructor of the configuration, and the examples of the theorems.
use nonsense.Base.{String, ◌≡◌, refl, true, false, none, some}
use nonsense.Base.Order.{str_lt}
use nonsense.Base.Action.{Outcome, done, throws}
use nonsense.Json.Tree.{
  tree_json, Tree, object, number, string, boolean, field, end, file_of, file_text, digit_text,
}
use nonsense.Config.Add.{Config}
use nonsense.Config.Valid.{ValidConfig}
use nonsense.Config.Load.{load_config}
use nonsense.Config.Load.Ends.{load_config_total}
use nonsense.Config.Load.Sound.{load_config-ValidConfig}
use nonsense.Config.Load.Claimed.{load_config-default}

-- What the file comes to: the role is kept, and the default network namespace is claimed.
abbrev loaded : Config tree_json
loaded = record {
  mutable_ = false;
  configuration = object (
      field "!metadata" (object (field "version" (number 1) end)) (
        field ":default-netns" (string "uplink") (
          field "uplink"
            (object (
              field "network"
                (object (
                  field ":role" (number 0)
                    (field "default" (boolean true) (field "role" (string "root") end))))
                end))
            end)));
}

load_uplink :
    load_config tree_json "/etc/nonsense/nonsensed.json" (some file_text) ≡ some (done loaded)
unfolding load_config
load_uplink = refl

load_missing :
    load_config tree_json "/none" none ≡ some (throws "Failed to open the configuration file /none")
unfolding load_config
load_missing = refl

-- The name 1 sorts before ":default-netns": the loop comes to the key that the entity has claimed.
load_digit :
    load_config tree_json "/etc/nonsense/nonsensed.json" (some digit_text)
    ≡ some (throws "Invalid configuration for entity :default-netns: unknown component type ''.")
unfolding load_config
load_digit = refl

load_config_total_example :
    (o : Outcome (Config tree_json)) × (load_config tree_json "/etc/nonsense/nonsensed.json"
        (some digit_text)
      ≡ some o)
load_config_total_example =
    load_config_total tree_json "/etc/nonsense/nonsensed.json" (some digit_text)

load_config-ValidConfig_example :
    (loaded.mutable_ ≡ false)
    × ValidConfig tree_json loaded.configuration
    × ((name : String) (e : Tree)
        → tree_json.find (file_of "uplink") name ≡ some e
        → tree_json.is_object e ≡ true
        → (e' : Tree) × (tree_json.find loaded.configuration name ≡ some e')
          × (tree_json.is_object e' ≡ true))
load_config-ValidConfig_example =
    load_config-ValidConfig tree_json "/etc/nonsense/nonsensed.json" file_text (file_of "uplink")
      loaded refl refl load_uplink

load_config-default_example : str_lt "uplink" ":default-netns" ≡ false
load_config-default_example =
    load_config-default tree_json "/etc/nonsense/nonsensed.json" file_text "uplink"
      (file_of "uplink") loaded refl refl load_uplink refl
