-- ===== src/Config/Loop.antt =====
-- The loop of `_validate_network` over the parameters of a network component.
use nonsense.Base.{
  String, ◌≡◌, ◌⊎◌, inl, inr, refl, sym, ap, ◌∙◌, subst, true, false, some, arith, str_eq, eq_iff,
  Bool-cases, Option-cases,
}
use nonsense.Base.Text.{first_is}
use nonsense.Base.Action.{done}
use nonsense.Json.{JsonLib}
use nonsense.Config.Names.{
  NetworkParameter, role, external, default_, address, uplink, known_parameters,
}
use nonsense.Config.Validate.{get, component_of, check_parameter, check_key}
use nonsense.Config.Paths.{get-insert_self, get-insert_ne, find-insert_ne}
use nonsense.Config.Checks.{
  netns_key, HasRoles, Claims, HasUplink, Meets, check_default-Claims, check_default-Meets,
  check_address-Claims, check_address-Meets, check_uplink-eq, check_uplink-HasUplink,
}

module _ (json : JsonLib) (name : String) (ordinary : str_eq netns_key name ≡ false) where
  open json use {
    Value, null, string, number, is_null, is_object, as_string, equal, find, insert, is_null-null,
    is_null-string, is_object-null, is_object-string, find-other, find-insert, is_object-insert,
    null_of_is_null,
  }

  pub Claims-object :
      (r r' : Value) → is_object r ≡ true → Claims json name r r' → is_object r' ≡ true
  Claims-object r r' o (inl e) = rw e o
  Claims-object r r' o (inr (n, e)) = rw e (is_object-insert r netns_key (string name) o)

  pub Claims-trans :
      (r s t : Value)
      → is_object r ≡ true
      → Claims json name r s
      → Claims json name s t
      → Claims json name r t
  Claims-trans r s t o (inl e) c = subst (λ x. Claims json name x t) e c
  Claims-trans r s t o (inr (n, e)) (inl f) = inr (n, f ∙ e)
  Claims-trans r s t o (inr (n, e)) (inr (m, f)) =
      absurd (ground (arith, get-insert_self json r netns_key (string name) o, is_null-string name))

  pub Claims-component :
      (r r' : Value)
      → is_object r ≡ true
      → Claims json name r r'
      → component_of json name r' ≡ component_of json name r
  Claims-component r r' o (inl e) = rw e
  Claims-component r r' o (inr (n, e)) = rw e (
      ap (λ (v : Value). get json v "network")
        (get-insert_ne json r netns_key (string name) name o ordinary))

  pub Claims-HasRoles :
      (r r' : Value)
      → is_object r ≡ true
      → Claims json name r r'
      → HasRoles json r
      → HasRoles json r'
  Claims-HasRoles r r' o (inl e) roles = subst (HasRoles json) (sym e) roles
  Claims-HasRoles r r' o (inr (z, e)) roles = λ un x n f g h.
      elim (Bool-cases (str_eq netns_key un)) [
        | inl same ↦ absurd (
            ground (
              arith,
              find-insert r netns_key (string name) un o,
              find-other (string name) "network" (is_object-string name),
            ))
        | inr other ↦ roles un x n (ground (arith, find-insert r netns_key (string name) un o)) g h
      ]

  Claims-HasUplink :
      (c r r' : Value)
      → is_object r ≡ true
      → Claims json name r r'
      → HasUplink json c r
      → HasUplink json c r'
  Claims-HasUplink c r r' o (inl e) u = subst (HasUplink json c) (sym e) u
  Claims-HasUplink c r r' o (inr (z, e)) u = record {
    uplink_name = u.uplink_name;
    entity = u.entity;
    net = u.net;
    named = u.named;
    found = rw e (find-insert_ne json r netns_key (string name) u.uplink_name o other ∙ u.found);
    entity_object = u.entity_object;
    net_found = u.net_found;
    net_object = u.net_object;
    not_client = u.not_client;
  }
    where
      other : str_eq netns_key u.uplink_name ≡ false
      other = elim (Bool-cases (str_eq netns_key u.uplink_name)) [
        | inr ne ↦ ne
        | inl same ↦ absurd (
            ground (
              arith,
              (eq_iff netns_key u.uplink_name).0 same,
              null_of_is_null (get json r netns_key),
              u.found,
              u.entity_object,
              is_object-null,
            ))
      ]

  pub Claims-Meets :
      (c r r' : Value) (p : NetworkParameter)
      → is_object r ≡ true
      → Claims json name r r'
      → Meets json name c r p
      → Meets json name c r' p
  Claims-Meets c r r' role o k m = tt
  Claims-Meets c r r' external o k m = tt
  Claims-Meets c r r' default_ o (inl e) m = rw e m
  Claims-Meets c r r' default_ o (inr (z, e)) m =
      rw e (get-insert_self json r netns_key (string name) o)
  Claims-Meets c r r' address o k m = m
  Claims-Meets c r r' uplink o k m = Claims-HasUplink c r r' o k m

  -- What an accepted key of the component says.
  abbrev pub Accepted : Value → Value → String → Type 0
  Accepted c r key =
      (first_is b':' key ≡ true)
      ⊎ ((p : NetworkParameter) × (known_parameters key ≡ some p) × Meets json name c r p)

  check_parameter-Claims :
      (r : Value) (p : NetworkParameter)
      → HasRoles json r
      → Claims json name r (check_parameter json name p r).1
  unfolding check_parameter
  check_parameter-Claims r role roles = inl refl
  check_parameter-Claims r external roles = inl refl
  check_parameter-Claims r default_ roles = check_default-Claims json name r
  check_parameter-Claims r address roles = inl (check_address-Claims json name r)
  check_parameter-Claims r uplink roles = inl (check_uplink-eq json name r roles)

  check_parameter-Meets :
      (r : Value) (p : NetworkParameter)
      → is_object r ≡ true
      → HasRoles json r
      → (check_parameter json name p r).0 ≡ done tt
      → Meets json name (component_of json name r) (check_parameter json name p r).1 p
  unfolding check_parameter
  check_parameter-Meets r role o roles h = tt
  check_parameter-Meets r external o roles h = tt
  check_parameter-Meets r default_ o roles h = check_default-Meets json name r o h
  check_parameter-Meets r address o roles h = check_address-Meets json name r h
  check_parameter-Meets r uplink o roles h =
      rw (check_uplink-eq json name r roles) (check_uplink-HasUplink json name r h)

  pub check_key-Claims :
      (r : Value) (key : String)
      → HasRoles json r
      → Claims json name r (check_key json name key r).1
  unfolding check_key
  check_key-Claims r key roles = elim (Bool-cases (first_is b':' key)) [
    | inl e ↦ rw (e, check_key) (inl refl)
    | inr e ↦ elim (Option-cases (known_parameters key)) [
      | inl f ↦ rw (e, f, check_key) (inl refl)
      | inr (p, f) ↦ rw (e, f, check_key) (check_parameter-Claims r p roles)
    ]
  ]

  pub check_key-Accepted :
      (r : Value) (key : String)
      → is_object r ≡ true
      → HasRoles json r
      → (check_key json name key r).0 ≡ done tt
      → Accepted (component_of json name r) (check_key json name key r).1 key
  unfolding check_key
  check_key-Accepted r key o roles h = elim (Bool-cases (first_is b':' key)) [
    | inl e ↦ inl e
    | inr e ↦ elim (Option-cases (known_parameters key)) [
      | inl f ↦ absurd (ground arith)
      | inr (p, f) ↦ inr (
        p,
        f,
        rw (e, f, check_key) (check_parameter-Meets r p o roles (rw (e, f, check_key) at h)),
      )
    ]
  ]
