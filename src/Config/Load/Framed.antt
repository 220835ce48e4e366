-- ===== src/Config/Load/Framed.antt =====
-- Each check of `_validate_entity` stays within the frame of Config/Load/Frame, also where it
-- creates a key of another entity.
use nonsense.Base.{
  String, ◌≡◌, inl, inr, sym, subst, true, some, List, [], ◌∷◌, arith, Bool-cases, Option-cases,
}
use nonsense.Base.Text.{first_is}
use nonsense.Base.Action.{bind-state}
use nonsense.Json.{JsonLib}
use nonsense.Config.Names.{
  NetworkParameter, role, external, default_, address, uplink, known_parameters,
}
use nonsense.Config.Validate.{
  get, component_of, check_uplink_role, check_uplink_network, check_uplink_entity, check_uplink,
  check_parameter, check_key, check_keys,
}
use nonsense.Config.Checks.{check_default-Claims, check_address-Claims}
use nonsense.Config.Paths.{find-insert_self}
use nonsense.Config.Load.Frame.{
  Frame, SameRole, Frame-refl, Frame-trans, Frame-netns, Frame-set_network,
}

module _ (json : JsonLib) where
  open json use {
    Value, null, object, string, number, is_null, is_object, as_string, find, insert, items,
    is_object-insert, is_null-string, is_null-null, find-insert, is_object-null, find-other,
    null_of_is_null, items-other, find-object, is_object-object,
  }

  -- A role that appears with null is no text.
  pub null_role :
      (n : Value)
      → is_object n ≡ true
      → (is_object (insert n "role" null) ≡ true) × SameRole json n (insert n "role" null)
  null_role n o = (
    is_object-insert n "role" null o,
    λ s h.
        absurd
          (ground (arith, find-insert_self json n "role" null o, is_null-string s, is_null-null)),
  )

  module _ (name uplink_name : String) (r e : Value) (o : is_object r ≡ true)
      (f : find r uplink_name ≡ some e) where
    check_uplink_role-Frame :
        (net : Value)
        → is_object e ≡ true
        → find e "network" ≡ some net
        → is_object net ≡ true
        → Frame json r (check_uplink_role json name uplink_name net r).1
    unfolding check_uplink_role
    check_uplink_role-Frame net eo g ob = elim (Option-cases (find net "role")) [
      | inr (x, h) ↦ subst (Frame json r) (ground arith) (Frame-refl json r o)
      | inl h ↦ subst (Frame json r) (ground arith) (
          Frame-set_network json r e (insert net "role" null) uplink_name o f eo
            λ n k oc. let same : n ≡ net = ground arith in rw same (null_role net ob))
    ]

    check_uplink_network-Frame :
        (net : Value)
        → is_object e ≡ true
        → find e "network" ≡ some net
        → Frame json r (check_uplink_network json name uplink_name net r).1
    unfolding check_uplink_network
    check_uplink_network-Frame net eo g = elim (Option-cases (as_string net)) [
      | inr (x, h) ↦ rw (h, check_uplink_network) (Frame-refl json r o)
      | inl h ↦ elim (Bool-cases (is_object net)) [
        | inl k ↦ rw (h, k, check_uplink_network) (check_uplink_role-Frame net eo g k)
        | inr k ↦ rw (h, k, check_uplink_network) (Frame-refl json r o)
      ]
    ]

    check_uplink_entity-Frame : Frame json r (check_uplink_entity json name uplink_name e r).1
    unfolding check_uplink_entity
    check_uplink_entity-Frame = elim (Bool-cases (is_object e)) [
      | inr k ↦ rw (k, check_uplink_entity) (Frame-refl json r o)
      | inl k ↦ elim (Option-cases (find e "network")) [
        | inl g ↦ rw (k, g, check_uplink_entity) (Frame-refl json r o)
        | inr (net, g) ↦ rw (k, g, check_uplink_entity) (check_uplink_network-Frame net k g)
      ]
    ]

  check_uplink-Frame :
      (name : String) (r : Value) → is_object r ≡ true → Frame json r (check_uplink json name r).1
  unfolding check_uplink
  check_uplink-Frame name r o =
      elim (Option-cases (as_string (get json (component_of json name r) "uplink"))) [
        | inl e ↦ rw (e, check_uplink) (Frame-refl json r o)
        | inr (un, e) ↦ elim (Option-cases (find r un)) [
          | inl f ↦ rw (e, f, check_uplink) (Frame-refl json r o)
          | inr (entity, f) ↦
              rw (e, f, check_uplink) (check_uplink_entity-Frame name un r entity o f)
        ]
      ]

  check_parameter-Frame :
      (name : String) (p : NetworkParameter) (r : Value)
      → is_object r ≡ true
      → Frame json r (check_parameter json name p r).1
  unfolding check_parameter
  check_parameter-Frame name role r o = Frame-refl json r o
  check_parameter-Frame name external r o = Frame-refl json r o
  check_parameter-Frame name default_ r o = elim (check_default-Claims json name r) [
    | inl e ↦ subst (Frame json r) (sym e) (Frame-refl json r o)
    | inr (z, e) ↦ subst (Frame json r) (sym e) (Frame-netns json r _ o z)
  ]
  check_parameter-Frame name address r o =
      subst (Frame json r) (sym (check_address-Claims json name r)) (Frame-refl json r o)
  check_parameter-Frame name uplink r o = check_uplink-Frame name r o

  check_key-Frame :
      (name key : String) (r : Value)
      → is_object r ≡ true
      → Frame json r (check_key json name key r).1
  unfolding check_key
  check_key-Frame name key r o = elim (Bool-cases (first_is b':' key)) [
    | inl e ↦ rw (e, check_key) (Frame-refl json r o)
    | inr e ↦ elim (Option-cases (known_parameters key)) [
      | inl f ↦ rw (e, f, check_key) (Frame-refl json r o)
      | inr (p, f) ↦ rw (e, f, check_key) (check_parameter-Frame name p r o)
    ]
  ]

  pub check_keys-Frame :
      (name : String) (l : List (String × Value)) (r : Value)
      → is_object r ≡ true
      → Frame json r (check_keys json name l r).1
  unfolding check_keys
  check_keys-Frame name [] r o = Frame-refl json r o
  check_keys-Frame name ((key, x) ∷ l) r o =
      let first = check_key-Frame name key r o in
      bind-state (Frame json r) (check_key json name key) (λ _. check_keys json name l) r first
        λ _ _. Frame-trans json r _ _ first (check_keys-Frame name l _ first.object_)
