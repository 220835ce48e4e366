-- ===== src/Config/Names.antt =====
-- daemon/common_definitions.h and the tables of daemon/config.cpp: components, roles, parameters.
use nonsense.Base.{ℕ, String, Option, none, some, str_eq, if◌then◌else◌}

pub data ComponentType : Type 0 where
  network : ComponentType

unfoldable pub known_components : String → Option ComponentType
known_components type = if str_eq type "network" then some network else none

pub data NetworkRole : Type 0 where
  root interface router switch_ client : NetworkRole

unfoldable pub known_network_roles : String → Option NetworkRole
known_network_roles role =
    if str_eq role "root"
    then some root
    else if str_eq role "interface"
    then some interface
    else if str_eq role "router"
    then some router
    else if str_eq role "switch"
    then some switch_
    else if str_eq role "client"
    then some client
    else none

-- The value of an enumerator, which is what a JSON value keeps of it.
abbrev pub role_number : NetworkRole → ℕ
role_number root = 0
role_number interface = 1
role_number router = 2
role_number switch_ = 3
role_number client = 4

pub data NetworkParameter : Type 0 where
  role external default_ address uplink : NetworkParameter

unfoldable pub known_parameters : String → Option NetworkParameter
known_parameters key =
    if str_eq key "role"
    then some role
    else if str_eq key "external"
    then some external
    else if str_eq key "default"
    then some default_
    else if str_eq key "address"
    then some address
    else if str_eq key "uplink"
    then some uplink
    else none

pub record ParameterValue : Type 0 where
  pub parameter : String
  pub value : String
