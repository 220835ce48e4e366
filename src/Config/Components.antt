-- ===== src/Config/Components.antt =====
-- The loop of `_validate_entity` over the components of an entity.
use nonsense.Base.{
  String, ◌≡◌, ◌⊎◌, inl, inr, refl, sym, ap, ◌∙◌, subst, true, false, some, List, [], ◌∷◌, All,
  arith, str_eq, eq_iff, Bool-cases, Option-cases,
}
use nonsense.Base.Action.{Outcome, done, bind-done, bind-state}
use nonsense.Json.{JsonLib, assoc}
use nonsense.Config.Names.{known_components, network}
use nonsense.Config.Validate.{
  get, component_of, validate_component, validate_components, validate_entity,
}
use nonsense.Config.Checks.{netns_key}
use nonsense.Config.Touches.{
  Touches, Touches-refl, Touches-trans, OthersHaveRoles, Touches-OthersHaveRoles,
}
use nonsense.Config.Network.{GoodNetwork}
use nonsense.Config.Entity.{validate_network-Touches, validate_network-GoodNetwork}

module _ (json : JsonLib) (name : String) (ordinary : str_eq netns_key name ≡ false) where
  open json use {Value, is_object, find, items, find-items}

  -- An entity as the program wants it, in the configuration `r`.
  pub record ValidEntity (r : Value) : Type 0 where
    pub known :
        (type : String) (c : Value)
        → find (get json r name) type ≡ some c
        → known_components type ≡ some network
    pub good :
        (c : Value) → find (get json r name) "network" ≡ some c → GoodNetwork json name ordinary c r

  abbrev pub Start : Value → Type 0
  Start r =
      (is_object r ≡ true)
      × (is_object (get json r name) ≡ true)
      × OthersHaveRoles json name ordinary r

  Start-Touches : (r s : Value) → Start r → Touches json name ordinary r s → Start s
  Start-Touches r s k t =
      (t.object, t.entity_object, Touches-OthersHaveRoles json name ordinary r s t k.2)

  -- The state after a component, whether it is accepted or not.
  component-Touches :
      (type : String) (r : Value)
      → Start r
      → Touches json name ordinary r (validate_component json name type r).1
  unfolding validate_component
  component-Touches type r k = elim (Option-cases (known_components type)) [
    | inl e ↦ rw (e, validate_component) (Touches-refl json name ordinary r k.0 k.1)
    | inr (network, e) ↦
        rw (e, validate_component) (validate_network-Touches json name ordinary r k.0 k.1 k.2)
  ]

  -- An accepted component is a network component.
  component-done :
      (type : String) (r : Value)
      → Start r
      → (validate_component json name type r).0 ≡ done tt
      → (known_components type ≡ some network)
        × GoodNetwork json name ordinary
            (component_of json name (validate_component json name type r).1)
            (validate_component json name type r).1
  unfolding validate_component
  component-done type r k h = elim (Option-cases (known_components type)) [
    | inl e ↦ absurd (ground arith)
    | inr (network, e) ↦ (
      e,
      rw (e, validate_component)
          (validate_network-GoodNetwork json name ordinary r k.0 k.1 k.2
            (rw (e, validate_component) at h)),
    )
  ]

  components-Touches :
      (l : List (String × Value)) (r : Value)
      → Start r
      → Touches json name ordinary r (validate_components json name l r).1
  unfolding validate_components
  components-Touches [] r k = Touches-refl json name ordinary r k.0 k.1
  components-Touches ((type, c) ∷ l) r k =
      bind-state (Touches json name ordinary r) (validate_component json name type)
        (λ _. validate_components json name l) r (component-Touches type r k)
        λ _ _.
          Touches-trans json name ordinary r _ _ (component-Touches type r k)
            (components-Touches l _ (Start-Touches r _ k (component-Touches type r k)))

  abbrev Passed : List (String × Value) → Value → Type 0
  Passed l r =
      All (λ (e : String × Value). known_components e.0 ≡ some network) l
      × ((l ≡ []) ⊎ GoodNetwork json name ordinary (component_of json name r) r)

  components-Passed :
      (l : List (String × Value)) (r : Value)
      → Start r
      → (validate_components json name l r).0 ≡ done tt
      → Passed l (validate_components json name l r).1
  unfolding validate_components
  components-Passed [] r k h = (tt, inl refl)
  components-Passed ((type, c) ∷ l) r k h =
      let rest =
        components-Passed l s (Start-Touches r s k (component-Touches type r k))
          (ap (λ (q : Outcome (Unit {0}) × Value). q.0) (sym step.2) ∙ h) in
      subst (λ (q : Outcome (Unit {0}) × Value). Passed ((type, c) ∷ l) q.1) (sym step.2)
        ((first.0, rest.0), inr (last rest.1))
    where
      s : Value
      s = (validate_component json name type r).1

      step :
          (a : Unit {0}) × ((validate_component json name type r).0 ≡ done a)
          × (validate_components json name ((type, c) ∷ l) r ≡ validate_components json name l s)
      step =
          bind-done (validate_component json name type) (λ _. validate_components json name l) r tt
            h

      first :
          (known_components type ≡ some network)
          × GoodNetwork json name ordinary (component_of json name s) s
      first = component-done type r k step.1

      last :
          (l ≡ [])
            ⊎ GoodNetwork json name ordinary
                (component_of json name (validate_components json name l s).1)
                (validate_components json name l s).1
          → GoodNetwork json name ordinary
              (component_of json name (validate_components json name l s).1)
              (validate_components json name l s).1
      last (inr g) = g
      last (inl z) =
          subst
            (λ (q : List (String × Value)).
              GoodNetwork json name ordinary
                (component_of json name (validate_components json name q s).1)
                (validate_components json name q s).1)
            (sym z) first.1

  pub validate_entity-Touches :
      (r : Value) → Start r → Touches json name ordinary r (validate_entity json name r).1
  unfolding validate_entity
  validate_entity-Touches r k = components-Touches (items (get json r name)) r k

  known_of_All :
      (l : List (String × Value)) (type : String) (c : Value)
      → All (λ (e : String × Value). known_components e.0 ≡ some network) l
      → assoc l type ≡ some c
      → known_components type ≡ some network
  known_of_All [] type c a h = cc
  known_of_All ((j, y) ∷ l) type c a h = elim (Bool-cases (str_eq j type)) [
    | inl e ↦ subst (λ (t : String). known_components t ≡ some network) ((eq_iff j type).0 e) a.0
    | inr e ↦ known_of_All l type c a.1 (ground arith)
  ]

  known_network :
      (type : String) → str_eq "network" type ≡ true → known_components type ≡ some network
  unfolding known_components
  known_network type e = ground (arith, eq_iff "network" type, eq_iff type "network")

  module _ (r : Value) (k : Start r) (h : (validate_entity json name r).0 ≡ done tt) where
    passed : Passed (items (get json r name)) (validate_entity json name r).1
    unfolding validate_entity
    passed = components-Passed (items (get json r name)) r k h

    items_find :
        (type : String) (c : Value)
        → find (get json r name) type ≡ some c
        → assoc (items (get json r name)) type ≡ some c
    items_find type c f = sym (find-items (get json r name) type k.1) ∙ f

    entity_known :
        (type : String) (c : Value)
        → find (get json (validate_entity json name r).1 name) type ≡ some c
        → known_components type ≡ some network
    entity_known type c f = elim (Bool-cases (str_eq "network" type)) [
      | inl e ↦ known_network type e
      | inr e ↦
          known_of_All (items (get json r name)) type c passed.0
            (items_find type c (sym ((validate_entity-Touches r k).components type e) ∙ f))
    ]

    network_good :
        ((items (get json r name) ≡ [])
          ⊎ GoodNetwork json name ordinary
              (component_of json name (validate_entity json name r).1)
              (validate_entity json name r).1)
        → (c : Value) → find (get json (validate_entity json name r).1 name) "network" ≡ some c
        → GoodNetwork json name ordinary c (validate_entity json name r).1
    unfolding validate_entity
    network_good (inr g) c f =
        subst (λ (x : Value). GoodNetwork json name ordinary x (validate_entity json name r).1)
          (ground arith) g
    network_good (inl z) c f = absurd (ground (arith, find-items (get json r name) "network" k.1))

    -- An entity that passes the validation is one that the program wants.
    pub validate_entity-ValidEntity : ValidEntity (validate_entity json name r).1
    validate_entity-ValidEntity = record { known = entity_known; good = network_good passed.1 }
