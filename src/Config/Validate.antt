-- ===== src/Config/Validate.antt =====
-- `_validate_entity` and `_validate_network` of daemon/config.cpp, over the JSON value of the whole
-- configuration. A reference into it is the path of keys that leads there.
use Prim.Native.String.{◌++◌}
use nonsense.Base.{String, Option, none, some, List, [], ◌∷◌, if◌then◌else◌}
use nonsense.Base.Text.{first_is}
use nonsense.Base.Action.{Action, done, throws, aborts, pure, throw, gets, ◌>>=◌, ◌>>◌}
use nonsense.Json.{JsonLib}
use nonsense.Config.Names.{
  network, switch_, role_number, known_components, known_network_roles, NetworkParameter, role,
  external, default_, address, uplink, known_parameters,
}

module _ (json : JsonLib) where
  open json use {
    Value, null, object, string, number, is_null, is_object, as_string, equal, find, insert, items,
    what_subscript, what_ref, what_convert,
  }

  -- What a reference to a key of an object shows: a key that is not there appears with null.
  abbrev pub get : Value → String → Value
  get v k = elim (find v k) [ none ↦ null | some x ↦ x ]

  -- v[k]: null becomes an object, a missing key gets null, and any other value refuses (`none`).
  unfoldable pub subscript : Value → String → Option Value
  subscript v k =
      if is_null v
      then some (insert object k null)
      else if is_object v
      then some (elim (find v k) [ none ↦ insert v k null | some x ↦ v ])
      else none

  -- A value written at root[name]["network"].
  abbrev pub set_network : String → Value → Value → Value
  set_network name component r = insert r name (insert (get r name) "network" component)

  abbrev pub or_throw {ℓ} : {S A : Type ℓ} → Option A → String → Action S A
  or_throw none what = throw what
  or_throw (some a) what = pure a

  abbrev pub component_of : String → Value → Value
  component_of name r = get (get r name) "network"

  -- case network_parameter::default_
  unfoldable pub check_default : String → Action Value Unit
  check_default name r =
      let default_netns = get r ":default-netns" in
      if is_null default_netns
      then (done tt, insert r ":default-netns" (string name))
      else if equal default_netns (string name)
      then (done tt, r)
      else elim (as_string default_netns) [
        | none ↦ (throws (what_convert default_netns), r)
        | some other ↦ (
          throws (
              "Invalid configuration: multiple entities specified as having their network "
              ++ "components be the default netns: '" ++ name ++ "' and '" ++ other ++ "'."),
          r,
        )
      ]

  -- case network_parameter::address
  unfoldable pub check_address : String → Action Value Unit
  check_address name r =
      if equal (get (component_of name r) ":role") (number (role_number switch_))
      then (done tt, r)
      else (
        throws (
            "Invalid configuration: an address is specified for the network component of entity '"
            ++ name ++ "', but the role of the network component role is not 'switch'."),
        r,
      )

  -- The tests on the network component of the uplink; a missing "role" is created there.
  unfoldable pub check_uplink_role : String → String → Value → Action Value Unit
  check_uplink_role name uplink_name uplink_net r =
      let r' : Value = elim (find uplink_net "role") [
        | none ↦ set_network uplink_name (insert uplink_net "role" null) r
        | some x ↦ r
      ] in
      if equal (get uplink_net "role") (string "client")
      then (
        throws (
            "Invalid configuration: the role of the network component of entity '" ++ uplink_name
            ++ "', specified as the uplink for the network component of entity '" ++ name
            ++ "', is 'client', which cannot be used as an uplink.'"),
        r',
      )
      else (done tt, r')

  unfoldable pub check_uplink_network : String → String → Value → Action Value Unit
  unfolding check_uplink_role
  check_uplink_network name uplink_name net r = elim (as_string net) [
    | some delegate ↦ (aborts, r)
    | none ↦ if is_object net then check_uplink_role name uplink_name net r else (
      throws (
          "Invalid configuration: the network component of entity '" ++ uplink_name
          ++ "' is not a JSON object."),
      r,
    )
  ]

  unfoldable pub check_uplink_entity : String → String → Value → Action Value Unit
  unfolding check_uplink_network
  check_uplink_entity name uplink_name entity r =
      if is_object entity
      then elim (find entity "network") [
        | none ↦ (
          throws (
              "Invalid configuration: the entity '" ++ uplink_name
              ++ "', specified as the uplink of the network component of entity '" ++ name
              ++ "', does not have a network component."),
          r,
        )
        | some net ↦ check_uplink_network name uplink_name net r
      ]
      else (
        throws ("Invalid configuration: the entity '" ++ uplink_name ++ "' is not a JSON object."),
        r,
      )

  abbrev unknown_uplink : String → String
  unknown_uplink name =
      "Invalid configuration: unknown entity specified as the uplink of the network component of "
      ++ "entity '" ++ name ++ "'."

  -- case network_parameter::uplink. A value that is no text equals no key of the configuration.
  unfoldable pub check_uplink : String → Action Value Unit
  unfolding check_uplink_entity
  check_uplink name r = elim (as_string (get (component_of name r) "uplink")) [
    | none ↦ (throws (unknown_uplink name), r)
    | some uplink_name ↦ elim (find r uplink_name) [
      | none ↦ (throws (unknown_uplink name), r)
      | some entity ↦ check_uplink_entity name uplink_name entity r
    ]
  ]

  unfoldable pub check_parameter : String → NetworkParameter → Action Value Unit
  unfolding check_default check_address check_uplink
  check_parameter name role = pure tt
  check_parameter name external = pure tt
  check_parameter name default_ = check_default name
  check_parameter name address = check_address name
  check_parameter name uplink = check_uplink name

  -- The body of the loop over the items of the component.
  unfoldable pub check_key : String → String → Action Value Unit
  unfolding check_parameter known_parameters
  check_key name key = if first_is b':' key then pure tt else elim (known_parameters key) [
    | none ↦ throw (
        "Invalid configuration: uknown parameter '" ++ key
        ++ "' of the network component of entity '" ++ name ++ "'.")
    | some parameter ↦ check_parameter name parameter
  ]

  unfoldable pub check_keys : String → List (String × Value) → Action Value Unit
  unfolding check_key
  check_keys name [] = pure tt
  check_keys name ((key, value) ∷ rest) = check_key name key >> check_keys name rest

  -- What stands before the loop: the role is read, looked up and kept as ":role".
  unfoldable pub check_role : String → Action Value Unit
  unfolding known_network_roles subscript
  check_role name r = elim (subscript (component_of name r) "role") [
    | none ↦ (throws (what_subscript (component_of name r)), r)
    | some component ↦
        let r' = set_network name component r in
        elim (as_string (get component "role")) [
          | none ↦ (throws (what_ref (get component "role")), r')
          | some text ↦ elim (known_network_roles text) [
            | none ↦ (
              throws (
                  "Invalid configuration: unknown role '" ++ text
                  ++ "' of the network component of entity '" ++ name ++ "'."),
              r',
            )
            | some found ↦ (
              done tt,
              set_network name (insert component ":role" (number (role_number found))) r,
            )
          ]
        ]
  ]

  -- The loop inserts no key into the component, so it visits the items that are there at its start.
  unfoldable pub validate_network : String → Action Value Unit
  unfolding check_role check_keys
  validate_network name = do
    check_role name
    component ← gets (component_of name)
    check_keys name (items component)

  unfoldable pub validate_component : String → String → Action Value Unit
  unfolding validate_network known_components
  validate_component name type = elim (known_components type) [
    | none ↦ throw (
        "Invalid configuration for entity " ++ name ++ ": unknown component type '" ++ type ++ "'.")
    | some network ↦ validate_network name
  ]

  unfoldable pub validate_components : String → List (String × Value) → Action Value Unit
  unfolding validate_component
  validate_components name [] = pure tt
  validate_components name ((type, component) ∷ rest) =
      validate_component name type >> validate_components name rest

  unfoldable pub validate_entity : String → Action Value Unit
  unfolding validate_components
  validate_entity name = do ns ← gets (λ r. get r name); validate_components name (items ns)
