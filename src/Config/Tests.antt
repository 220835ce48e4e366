-- ===== src/Config/Tests.antt =====
-- Runs of `add` on parameters as the test suite gives them, and the examples of the theorems.
use nonsense.Base.{String, ◌↔◌, ◌≡◌, refl, true, List, [], ◌∷◌, arith}
use nonsense.Base.Action.{done, aborts}
use nonsense.Json.Tree.{tree_json, object, number, string, field, end}
use nonsense.Config.Names.{ParameterValue}
use nonsense.Config.Validate.{get}
use nonsense.Config.Add.{Config, success, segments, value_of, add}
use nonsense.Config.Kept.{Kept}
use nonsense.Config.Valid.{ValidConfig}
use nonsense.Config.Sound.{add-Kept, add-ValidConfig}
use nonsense.Config.Crash.{add-aborts}
use nonsense.Config.Metadata.{GoodMetadata, validate_metadata, validate_metadata-GoodMetadata}

abbrev par : String → String → ParameterValue
par k v = record { parameter = k; value = v }

-- etc/nonsense/nonsense.json, copied to a mutable configuration
abbrev start : Config tree_json
start = record {
  mutable_ = true;
  configuration = object (field "!metadata" (object (field "version" (number 1) end)) end);
}

start-ValidConfig : ValidConfig tree_json start.configuration
start-ValidConfig = record {
  object_ = refl;
  netns_plain = refl;
  metadata_plain = refl;
  entities = λ name o e m f. absurd (ground arith);
}

abbrev root_pars : List ParameterValue
root_pars = par "network.role" "root" ∷ par "network.default" "true" ∷ []

with_root : Config tree_json
unfolding add
with_root = (add tree_json "uplink" root_pars start).1

add_root : (add tree_json "uplink" root_pars start).0 ≡ done success
unfolding add
add_root = refl

abbrev switch_pars : List ParameterValue
switch_pars =
    par "network.role" "switch"
    ∷ par "network.address" "192.168.2.0/24"
    ∷ par "network.uplink" "uplink"
    ∷ []

add_switch : (add tree_json "test" switch_pars with_root).0 ≡ done success
unfolding add with_root
add_switch = refl

-- An entity may name itself as its uplink.
add_self :
    (add tree_json "x" (par "network.role" "root" ∷ par "network.uplink" "x" ∷ []) start).0
    ≡ done success
unfolding add
add_self = refl

-- A path that goes through a value is refused, and the entity stays.
add_left :
    get tree_json (add tree_json "x" (par "a" "v" ∷ par "a.b.c" "w" ∷ []) start).1.configuration "x"
    ≡ object (field "a" (string "v") end)
unfolding add
add_left = refl

add-ValidConfig_example :
    ValidConfig tree_json (add tree_json "uplink" root_pars start).1.configuration
add-ValidConfig_example =
    (add-ValidConfig tree_json "uplink" refl root_pars start start-ValidConfig refl success add_root
      refl).3

add-Kept_example :
    Kept tree_json "test" refl start.configuration
      (add tree_json "test" switch_pars start).1.configuration
add-Kept_example = add-Kept tree_json "test" refl switch_pars start start-ValidConfig

add-aborts_example :
    (add tree_json "x" (par "network" "y" ∷ par "network.role" "root" ∷ []) start).0 ≡ aborts
unfolding segments value_of
add-aborts_example =
    add-aborts tree_json "x" "network" "role" (par "network" "y") (par "network.role" "root") refl
      refl refl refl [] start refl refl refl

validate_metadata-GoodMetadata_example :
    (validate_metadata tree_json start.configuration ≡ done tt)
    ↔ GoodMetadata tree_json start.configuration
validate_metadata-GoodMetadata_example =
    validate_metadata-GoodMetadata tree_json start.configuration

start_metadata : validate_metadata tree_json start.configuration ≡ done tt
unfolding validate_metadata
start_metadata = refl
