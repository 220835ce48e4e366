-- ===== src/Config/Load/Visits.antt =====
-- The validation of a whole entity stays within the frame of Config/Load/Frame.
use nonsense.Base.{
  String, ◌≡◌, inl, inr, refl, ◌∙◌, sym, subst, true, false, none, some, List, [], ◌∷◌, All, arith,
  str_eq, eq_iff, Bool-cases, Option-cases,
}
use nonsense.Base.Action.{gets, bind-state, ◌>>=◌}
use nonsense.Json.{JsonLib, is_index}
use nonsense.Config.Names.{known_components, role_number, known_network_roles, network}
use nonsense.Config.Validate.{
  get, subscript, set_network, component_of, check_keys, check_role, validate_network,
  validate_component, validate_components, validate_entity,
}
use nonsense.Config.Paths.{find-insert_ne}
use nonsense.Config.Load.Frame.{Frame, SameRole, Frame-refl, Frame-trans, Frame-set_network}
use nonsense.Config.Load.Framed.{null_role, check_keys-Frame}

module _ (json : JsonLib) where
  open json use {
    Value, null, object, string, number, is_null, is_object, as_string, find, insert, items,
    is_object-insert, is_null-string, is_null-null, find-insert, is_object-null, find-other,
    null_of_is_null, items-other, find-object, is_object-object,
  }

  -- What operator[] leaves of an object.
  subscript-SameRole :
      (v c : Value)
      → subscript json v "role" ≡ some c
      → is_object v ≡ true
      → (is_object c ≡ true) × SameRole json v c
  unfolding subscript
  subscript-SameRole v c h o = elim (Option-cases (find v "role")) [
    | inr (x, f) ↦
        let same : c ≡ v = ground (arith, is_object-null, null_of_is_null v) in
        rw same (o, λ s k. k)
    | inl f ↦
        let same : c ≡ insert v "role" null = ground (arith, is_object-null, null_of_is_null v) in
        rw same (null_role json v o)
  ]

  kept_role :
      (v c x : Value)
      → (is_object c ≡ true) × SameRole json v c
      → (is_object (insert c ":role" x) ≡ true) × SameRole json v (insert c ":role" x)
  kept_role v c x (o, k) = (
    is_object-insert c ":role" x o,
    λ s h. k s (sym (find-insert_ne json c ":role" x "role" o refl) ∙ h),
  )

  module _ (name : String) (r e : Value) (o : is_object r ≡ true) (f : find r name ≡ some e)
      (eo : is_object e ≡ true) where
    component_of_entity : (n : Value) → find e "network" ≡ some n → component_of json name r ≡ n
    component_of_entity n g = rw (f, g, get)

    set_component-Frame :
        (c : Value)
        → (is_object (component_of json name r) ≡ true
            → (is_object c ≡ true) × SameRole json (component_of json name r) c)
        → Frame json r (set_network json name c r)
    set_component-Frame c k = Frame-set_network json r e c name o f eo λ n g oc.
        subst (λ (v : Value). is_object v ≡ true → (is_object c ≡ true) × SameRole json v c)
          (component_of_entity n g) k oc

    pub check_role-Frame : Frame json r (check_role json name r).1
    unfolding check_role
    check_role-Frame = elim (Option-cases (subscript json (component_of json name r) "role")) [
      | inl a ↦ rw (a, check_role) (Frame-refl json r o)
      | inr (c, a) ↦
          let k = subscript-SameRole (component_of json name r) c a in
          elim (Option-cases (as_string (get json c "role"))) [
            | inl b ↦ rw (a, b, check_role) (set_component-Frame c k)
            | inr (s, b) ↦ elim (Option-cases (known_network_roles s)) [
              | inl g ↦ rw (a, b, g, check_role) (set_component-Frame c k)
              | inr (ro, g) ↦
                  rw (a, b, g, check_role)
                    (set_component-Frame _ λ oc. kept_role _ c (number (role_number ro)) (k oc))
            ]
          ]
    ]

    validate_network-Frame : Frame json r (validate_network json name r).1
    unfolding validate_network
    validate_network-Frame =
        bind-state (Frame json r) (check_role json name)
          (λ _. gets (component_of json name) >>= λ c. check_keys json name (items c)) r
          check_role-Frame
          λ _ _. Frame-trans json r _ _ check_role-Frame (
            check_keys-Frame json name (items (component_of json name (check_role json name r).1)) _
              check_role-Frame.object_)

    validate_component-Frame :
        (type : String) → Frame json r (validate_component json name type r).1
    unfolding validate_component
    validate_component-Frame type = elim (Option-cases (known_components type)) [
      | inl a ↦ rw (a, validate_component) (Frame-refl json r o)
      | inr (network, a) ↦ rw (a, validate_component) validate_network-Frame
    ]

  validate_components-Frame :
      (name : String) (l : List (String × Value)) (r e : Value)
      → is_object r ≡ true
      → find r name ≡ some e
      → is_object e ≡ true
      → Frame json r (validate_components json name l r).1
  unfolding validate_components
  validate_components-Frame name [] r e o f eo = Frame-refl json r o
  validate_components-Frame name ((type, c) ∷ l) r e o f eo =
      let first = validate_component-Frame name r e o f eo type in
      let (e', f', eo') = first.objects name e f eo in
      bind-state (Frame json r) (validate_component json name type)
        (λ _. validate_components json name l) r first
        λ _ _.
          Frame-trans json r _ _ first (validate_components-Frame name l _ e' first.object_ f' eo')

  -- No index is the name of a component.
  known_index : (type : String) → is_index type ≡ true → known_components type ≡ none
  unfolding known_components
  known_index type h = elim (Bool-cases (str_eq type "network")) [
    | inl e ↦
        let k : is_index "network" ≡ true =
          subst (λ (t : String). is_index t ≡ true) ((eq_iff type "network").0 e) h in
        cc
    | inr e ↦ ground arith
  ]

  -- An entity that is no object has no known component.
  validate_other :
      (name : String) (l : List (String × Value)) (r : Value)
      → All (λ (e : String × Value). is_index e.0 ≡ true) l
      → (validate_components json name l r).1 ≡ r
  unfolding validate_components validate_component
  validate_other name [] r a = refl
  validate_other name ((type, c) ∷ l) r (a, rest) = rw (known_index type a, validate_component) refl

  plain_items :
      (name : String) (r e : Value)
      → find r name ≡ some e
      → is_object e ≡ false
      → All (λ (x : String × Value). is_index x.0 ≡ true) (items (get json r name))
  plain_items name r e f eo = items-other (get json r name) (rw (f, get) eo)

  -- The validation of an entity that is no object changes nothing.
  pub validate_entity_other :
      (name : String) (r e : Value)
      → find r name ≡ some e
      → is_object e ≡ false
      → (validate_entity json name r).1 ≡ r
  unfolding validate_entity
  validate_entity_other name r e f eo = validate_other name _ r (plain_items name r e f eo)

  pub validate_entity-Frame :
      (name : String) (r e : Value)
      → is_object r ≡ true
      → find r name ≡ some e
      → Frame json r (validate_entity json name r).1
  unfolding validate_entity
  validate_entity-Frame name r e o f = elim (Bool-cases (is_object e)) [
    | inl eo ↦ validate_components-Frame name (items (get json r name)) r e o f eo
    | inr eo ↦
        subst (Frame json r) (sym (validate_entity_other name r e f eo)) (Frame-refl json r o)
  ]
