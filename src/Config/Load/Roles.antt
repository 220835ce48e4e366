-- ===== src/Config/Load/Roles.antt =====
-- Where the loop of Config/Load accepts a file, every network component in it has a role: a role
-- that a check creates with null is refused when the loop comes to its entity.
use nonsense.Base.{
  ℕ, zero, suc, String, ◌≡◌, inl, inr, refl, ◌∙◌, sym, true, false, Option, some, List, [], ◌∷◌,
  arith, str_eq, eq_iff, Option-cases,
}
use nonsense.Base.Order.{str_lt_total}
use nonsense.Base.Action.{Outcome, done, throws, aborts, bind-done, gets, ◌>>=◌}
use nonsense.Json.{JsonLib, assoc, has_key}
use nonsense.Config.Names.{known_components, network}
use nonsense.Config.Validate.{
  get, component_of, check_role, check_keys, validate_network, validate_component,
  validate_components, validate_entity,
}
use nonsense.Config.Checks.{netns_key}
use nonsense.Config.Network.{check_role-Ready}
use nonsense.Config.Valid.{metadata_key}
use nonsense.Config.Load.{behind, next_key, keys, load_entity, Loaded, go_on, load_entities}
use nonsense.Config.Load.Steps.{next_key-none, next_key-least, has_key-assoc}
use nonsense.Config.Load.Frame.{object_of_find}
use nonsense.Config.Load.Visits.{check_role-Frame}
use nonsense.Config.Load.Ends.{found, load_entity-Frame}

module _ (json : JsonLib) where
  open json use {Value, string, is_object, find, find-items, items}

  abbrev pub HasText : Value → Type 0
  HasText n = (s : String) × (find n "role" ≡ some (string s))

  module _ (name : String) (ordinary : str_eq netns_key name ≡ false) (r e n : Value)
      (o : is_object r ≡ true) (f : find r name ≡ some e) (g : find e "network" ≡ some n)
      (no_ : is_object n ≡ true) where
    eo : is_object e ≡ true
    eo = object_of_find json e n g

    network_role : (validate_network json name r).0 ≡ done tt → HasText n
    unfolding validate_network
    network_role h =
        let k =
          bind-done (check_role json name)
            (λ _. gets (component_of json name) >>= λ c. check_keys json name (items c)) r tt h in
        let ready = check_role-Ready json name ordinary r o (rw (f, get) eo) k.1 in
        let x = (check_role-Frame json name r e o f eo).roles name e n f g no_ in
        (ready.text, x.5 ready.text (rw (x.2, x.3, get) at ready.role_found))

    component_role : (type : String) → (validate_component json name type r).0 ≡ done tt → HasText n
    unfolding validate_component
    component_role type h = elim (Option-cases (known_components type)) [
      | inl k ↦ absurd (ground arith)
      | inr (network, k) ↦ network_role (rw (k, validate_component) at h)
    ]

    components_role :
        (l : List (String × Value))
        → (x : Value) → assoc l "network" ≡ some x
        → (validate_components json name l r).0 ≡ done tt
        → HasText n
    unfolding validate_components
    components_role [] x k h = cc
    components_role ((type, c) ∷ l) x k h =
        component_role type
          (bind-done (validate_component json name type) (λ _. validate_components json name l) r tt
            h).1

    -- An entity that is accepted has text for a role in its network component.
    entity_role : (validate_entity json name r).0 ≡ done tt → HasText n
    unfolding validate_entity
    entity_role h =
        components_role (items (get json r name)) n
          (sym (find-items (get json r name) "network" (rw (f, get) eo)) ∙ rw (f, get) g) h

  pub go_on-done :
      (rest : Value → Loaded json) (q : Outcome (Unit {0}) × Value) (r : Value)
      → go_on json rest q ≡ some (done tt, r)
      → (q.0 ≡ done tt) × (rest q.1 ≡ some (done tt, r))
  go_on-done rest (done u, s) r h = (refl, h)
  go_on-done rest (throws what, s) r h = absurd (ground arith)
  go_on-done rest (aborts, s) r h = absurd (ground arith)

  -- The entities behind the iterator have their roles.
  abbrev pub RolesBehind : Option String → Value → Type 0
  RolesBehind at r =
      (un : String) (e n : Value)
      → behind at un ≡ true
      → str_eq netns_key un ≡ false
      → str_eq metadata_key un ≡ false
      → find r un ≡ some e
      → find e "network" ≡ some n
      → is_object n ≡ true
      → HasText n

  pub has_key-find :
      (r e : Value) (un : String)
      → is_object r ≡ true
      → find r un ≡ some e
      → has_key un (keys json r) ≡ true
  has_key-find r e un o f = has_key-assoc (items r) un e (sym (find-items r un o) ∙ f)

  visited_role :
      (key un : String) (r e n : Value)
      → key ≡ un
      → is_object r ≡ true
      → str_eq netns_key un ≡ false
      → str_eq metadata_key un ≡ false
      → find r un ≡ some e
      → find e "network" ≡ some n
      → is_object n ≡ true
      → (load_entity json key r).0 ≡ done tt
      → HasText n
  unfolding load_entity
  visited_role key un r e n same o d m f g no_ h =
      entity_role un d r e n o f g no_
        (ground (arith, eq_iff metadata_key un, eq_iff un metadata_key))

  pub load_entities-RolesBehind :
      (fuel : ℕ) (at : Option String) (r r' : Value)
      → is_object r ≡ true
      → load_entities json fuel at r ≡ some (done tt, r')
      → RolesBehind at r
  unfolding load_entities
  load_entities-RolesBehind zero at r r' o h un e n b d m f g no_ = cc
  load_entities-RolesBehind (suc fuel) at r r' o h un e n b d m f g no_ =
      elim (Option-cases (next_key at (keys json r))) [
        | inl k ↦
            absurd (ground (arith, next_key-none at (keys json r) un k (has_key-find r e un o f)))
        | inr (key, k) ↦
            let step =
              go_on-done (load_entities json fuel (some key)) (load_entity json key r) r'
                (rw (k, load_entities) at h) in
            let frame = load_entity-Frame json key r _ o (found json at key r o k).1 in
            elim (str_lt_total key un) [
              | inl same ↦ visited_role key un r e n same o d m f g no_ step.0
              | inr (inr lt) ↦ absurd (
                  ground
                    (arith, next_key-least at (keys json r) key un k (has_key-find r e un o f) b))
              | inr (inl lt) ↦
                  let x = frame.roles un e n f g no_ in
                  let y =
                    load_entities-RolesBehind fuel (some key) _ r' frame.object_ step.1 un x.0 x.1
                      lt d m x.2 x.3 x.4 in
                  (y.0, x.5 y.0 y.1)
            ]
      ]
