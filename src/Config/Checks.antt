-- ===== src/Config/Checks.antt =====
-- What each check of `_validate_network` establishes, and what it leaves as it was.
use nonsense.Base.{
  String, ◌≡◌, ◌⊎◌, inl, inr, true, false, some, arith, eq_iff, Bool-cases, Option-cases,
}
use nonsense.Base.Action.{done}
use nonsense.Json.{JsonLib}
use nonsense.Config.Names.{
  switch_, role_number, NetworkParameter, role, external, default_, address, uplink,
}
use nonsense.Config.Validate.{
  get, component_of, check_default, check_address, check_uplink_role, check_uplink_network,
  check_uplink_entity, check_uplink,
}
use nonsense.Config.Paths.{get-insert_self}

abbrev pub netns_key : String
netns_key = ":default-netns"

module _ (json : JsonLib) where
  open json use {
    Value, null, string, number, is_null, is_object, as_string, equal, find, insert, is_null-null,
    is_null-string, string_of_as_string, equal-string, as_string-string,
  }

  -- The network component of every entity has a role.
  abbrev pub HasRoles : Value → Type 0
  HasRoles r =
      (un : String) (e n : Value)
      → find r un ≡ some e
      → find e "network" ≡ some n
      → is_object n ≡ true
      → (x : Value) × (find n "role" ≡ some x)

  -- The configuration is as it was, or the entity has become the default network namespace.
  abbrev pub Claims : String → Value → Value → Type 0
  Claims name r r' =
      (r' ≡ r) ⊎ ((is_null (get json r netns_key) ≡ true) × (r' ≡ insert r netns_key (string name)))

  -- An uplink that the program accepts.
  pub record HasUplink (component r : Value) : Type 0 where
    pub uplink_name : String
    pub entity : Value
    pub net : Value
    pub named : as_string (get json component "uplink") ≡ some uplink_name
    pub found : find r uplink_name ≡ some entity
    pub entity_object : is_object entity ≡ true
    pub net_found : find entity "network" ≡ some net
    pub net_object : is_object net ≡ true
    pub not_client : equal (get json net "role") (string "client") ≡ false

  -- What the presence of a parameter of the entity promises.
  abbrev pub Meets : String → Value → Value → NetworkParameter → Type 0
  Meets name component r role = Unit
  Meets name component r external = Unit
  Meets name component r default_ = get json r netns_key ≡ string name
  Meets name component r address =
      equal (get json component ":role") (number (role_number switch_)) ≡ true
  Meets name component r uplink = HasUplink component r

  string_of_equal : (v : Value) (s : String) → equal v (string s) ≡ true → v ≡ string s
  string_of_equal v s h = elim (Option-cases (as_string v)) [
    | inl e ↦ ground (arith, equal-string v s)
    | inr (t, e) ↦ string_of_as_string v s (ground (arith, equal-string v s, eq_iff t s))
  ]

  pub check_default-Claims :
      (name : String) (r : Value) → Claims name r (check_default json name r).1
  unfolding check_default
  check_default-Claims name r = ground arith

  pub check_default-Meets :
      (name : String) (r : Value)
      → is_object r ≡ true
      → (check_default json name r).0 ≡ done tt
      → get json (check_default json name r).1 netns_key ≡ string name
  unfolding check_default
  check_default-Meets name r o h = ground (
    arith,
    get-insert_self json r netns_key (string name) o,
    string_of_equal (get json r netns_key) name,
  )

  pub check_address-Claims : (name : String) (r : Value) → (check_address json name r).1 ≡ r
  unfolding check_address
  check_address-Claims name r = ground arith

  pub check_address-Meets :
      (name : String) (r : Value)
      → (check_address json name r).0 ≡ done tt
      → equal (get json (component_of json name r) ":role") (number (role_number switch_)) ≡ true
  unfolding check_address
  check_address-Meets name r h = ground arith

  module _ (name uplink_name : String) (r : Value) where
    check_uplink_role-eq :
        (net x : Value)
        → find net "role" ≡ some x
        → (check_uplink_role json name uplink_name net r).1 ≡ r
    unfolding check_uplink_role
    check_uplink_role-eq net x h = ground arith

    check_uplink_role-done :
        (net : Value)
        → (check_uplink_role json name uplink_name net r).0 ≡ done tt
        → equal (get json net "role") (string "client") ≡ false
    unfolding check_uplink_role
    check_uplink_role-done net h = ground arith

    check_uplink_network-eq :
        (net : Value)
        → (is_object net ≡ true → (x : Value) × (find net "role" ≡ some x))
        → (check_uplink_network json name uplink_name net r).1 ≡ r
    unfolding check_uplink_network
    check_uplink_network-eq net has = elim (Bool-cases (is_object net)) [
      | inl e ↦ let (x, f) = has e in ground (arith, check_uplink_role-eq net x f)
      | inr e ↦ ground arith
    ]

    check_uplink_network-done :
        (net : Value)
        → (check_uplink_network json name uplink_name net r).0 ≡ done tt
        → (is_object net ≡ true) × (equal (get json net "role") (string "client") ≡ false)
    unfolding check_uplink_network
    check_uplink_network-done net h = ground (arith, check_uplink_role-done net)

    check_uplink_entity-eq :
        (entity : Value)
        → HasRoles r
        → find r uplink_name ≡ some entity
        → (check_uplink_entity json name uplink_name entity r).1 ≡ r
    unfolding check_uplink_entity
    check_uplink_entity-eq entity roles f = elim (Option-cases (find entity "network")) [
      | inl e ↦ ground arith
      | inr (net, e) ↦
          ground (arith, check_uplink_network-eq net (roles uplink_name entity net f e))
    ]

    check_uplink_entity-done :
        (entity : Value)
        → (check_uplink_entity json name uplink_name entity r).0 ≡ done tt
        → (is_object entity ≡ true)
          × (net : Value) × (find entity "network" ≡ some net)
          × (is_object net ≡ true)
          × (equal (get json net "role") (string "client") ≡ false)
    unfolding check_uplink_entity
    check_uplink_entity-done entity h = elim (Option-cases (find entity "network")) [
      | inl e ↦ absurd (ground arith)
      | inr (net, e) ↦
          let k = check_uplink_network-done net (ground arith) in (ground arith, net, e, k.0, k.1)
    ]

  pub check_uplink-eq : (name : String) (r : Value) → HasRoles r → (check_uplink json name r).1 ≡ r
  unfolding check_uplink
  check_uplink-eq name r roles =
      elim (Option-cases (as_string (get json (component_of json name r) "uplink"))) [
        | inl e ↦ ground arith
        | inr (un, e) ↦ elim (Option-cases (find r un)) [
          | inl f ↦ ground arith
          | inr (entity, f) ↦ ground (arith, check_uplink_entity-eq name un r entity roles f)
        ]
      ]

  pub check_uplink-HasUplink :
      (name : String) (r : Value)
      → (check_uplink json name r).0 ≡ done tt
      → HasUplink (component_of json name r) r
  unfolding check_uplink
  check_uplink-HasUplink name r h =
      elim (Option-cases (as_string (get json (component_of json name r) "uplink"))) [
        | inl e ↦ absurd (ground arith)
        | inr (un, e) ↦ elim (Option-cases (find r un)) [
          | inl f ↦ absurd (ground arith)
          | inr (entity, f) ↦
              let k = check_uplink_entity-done name un r entity (ground arith) in
              record {
                uplink_name = un;
                entity = entity;
                net = k.1;
                named = e;
                found = f;
                entity_object = k.0;
                net_found = k.2;
                net_object = k.3;
                not_client = k.4;
              }
        ]
      ]
