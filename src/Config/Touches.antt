-- ===== src/Config/Touches.antt =====
-- What validating an entity may change: the entity itself at its "network" key, and the entry for
-- the default network namespace, which is claimed where nobody has it.
use nonsense.Base.{
  String, ◌≡◌, ◌⊎◌, inl, inr, refl, sym, ap, ◌∙◌, subst, true, false, some, arith, str_eq, eq_iff,
  Bool-cases,
}
use nonsense.Json.{JsonLib}
use nonsense.Config.Validate.{get, set_network, component_of}
use nonsense.Config.Paths.{
  find-insert_ne, find-insert_self, get-insert_self, get-insert_ne, str_eq_sym,
}
use nonsense.Config.Checks.{netns_key, HasRoles, Claims}

module _ (json : JsonLib) (name : String) (ordinary : str_eq netns_key name ≡ false) where
  open json use {
    Value, null, string, is_null, is_object, find, insert, is_null-string, is_object-string,
    find-other, is_object-insert, is_null-null,
  }

  pub record Touches (r r' : Value) : Type 0 where
    pub object : is_object r' ≡ true
    pub entity_object : is_object (get json r' name) ≡ true
    pub others :
        (j : String) → str_eq name j ≡ false → str_eq netns_key j ≡ false → find r' j ≡ find r j
    pub components :
        (type : String)
        → str_eq "network" type ≡ false
        → find (get json r' name) type ≡ find (get json r name) type
    pub netns :
        (find r' netns_key ≡ find r netns_key)
        ⊎ ((is_null (get json r netns_key) ≡ true) × (find r' netns_key ≡ some (string name)))

  module _ (r : Value) (o : is_object r ≡ true) (eo : is_object (get json r name) ≡ true) where
    pub Touches-refl : Touches r r
    Touches-refl = record {
      object = o;
      entity_object = eo;
      others = λ j n d. refl;
      components = λ type n. refl;
      netns = inl refl;
    }

    pub Touches-Claims : (r' : Value) → Claims json name r r' → Touches r r'
    Touches-Claims r' (inl e) = subst (Touches r) (sym e) Touches-refl
    Touches-Claims r' (inr (z, e)) = subst (Touches r) (sym e) (record {
      object = is_object-insert r netns_key (string name) o;
      entity_object = rw same eo;
      others = λ j n d. find-insert_ne json r netns_key (string name) j o d;
      components = λ type n. rw same;
      netns = inr (z, find-insert_self json r netns_key (string name) o);
    })
      where
        same : get json (insert r netns_key (string name)) name ≡ get json r name
        same = get-insert_ne json r netns_key (string name) name o ordinary

    pub get-set_network :
        (c : Value)
        → get json (set_network json name c r) name ≡ insert (get json r name) "network" c
    get-set_network c = get-insert_self json r name _ o

    pub component_of-set_network :
        (c : Value) → component_of json name (set_network json name c r) ≡ c
    component_of-set_network c =
        ap (λ (v : Value). get json v "network") (get-set_network c)
        ∙ get-insert_self json (get json r name) "network" c eo

    pub Touches-set_network : (c : Value) → Touches r (set_network json name c r)
    Touches-set_network c = record {
      object = is_object-insert r name _ o;
      entity_object = rw (get-set_network c) (is_object-insert _ "network" c eo);
      others = λ j n d. find-insert_ne json r name _ j o n;
      components = λ type n. rw (get-set_network c) (find-insert_ne json _ "network" c type eo n);
      netns =
          inl (find-insert_ne json r name _ netns_key o (str_eq_sym json netns_key name ordinary));
    }

  pub Touches-trans : (r s t : Value) → Touches r s → Touches s t → Touches r t
  Touches-trans r s t a b = record {
    object = b.object;
    entity_object = b.entity_object;
    others = λ j n d. b.others j n d ∙ a.others j n d;
    components = λ type n. b.components type n ∙ a.components type n;
    netns = join a.netns b.netns;
  }
    where
      join :
          (find s netns_key ≡ find r netns_key)
            ⊎ ((is_null (get json r netns_key) ≡ true) × (find s netns_key ≡ some (string name)))
          → (find t netns_key ≡ find s netns_key)
            ⊎ ((is_null (get json s netns_key) ≡ true) × (find t netns_key ≡ some (string name)))
          → (find t netns_key ≡ find r netns_key)
            ⊎ ((is_null (get json r netns_key) ≡ true) × (find t netns_key ≡ some (string name)))
      join (inl e) (inl f) = inl (f ∙ e)
      join (inl e) (inr (z, f)) = inr (ground arith, f)
      join (inr (z, e)) (inl f) = inr (z, f ∙ e)
      join (inr (z, e)) (inr (y, f)) = absurd (ground (arith, is_null-string name))

  -- Every other entity has a role in its network component.
  abbrev pub OthersHaveRoles : Value → Type 0
  OthersHaveRoles r =
      (un : String) (e n : Value)
      → str_eq name un ≡ false
      → find r un ≡ some e
      → find e "network" ≡ some n
      → is_object n ≡ true
      → (x : Value) × (find n "role" ≡ some x)

  pub Touches-OthersHaveRoles :
      (r r' : Value) → Touches r r' → OthersHaveRoles r → OthersHaveRoles r'
  Touches-OthersHaveRoles r r' t roles un e n ne f g h = elim (Bool-cases (str_eq netns_key un)) [
    | inr d ↦ roles un e n ne (sym (t.others un ne d) ∙ f) g h
    | inl d ↦ at_netns t.netns ((eq_iff netns_key un).0 d)
  ]
    where
      at_netns :
          (find r' netns_key ≡ find r netns_key)
            ⊎ ((is_null (get json r netns_key) ≡ true) × (find r' netns_key ≡ some (string name)))
          → netns_key ≡ un
          → (x : Value) × (find n "role" ≡ some x)
      at_netns (inl k) q = roles un e n ne (ground arith) g h
      at_netns (inr (z, k)) q =
          absurd (ground (arith, find-other (string name) "network" (is_object-string name)))

  pub HasRoles-others :
      (r : Value)
      → OthersHaveRoles r
      → ((x : Value) × (find (component_of json name r) "role" ≡ some x))
      → HasRoles json r
  HasRoles-others r roles own un e n f g h = elim (Bool-cases (str_eq name un)) [
    | inr ne ↦ roles un e n ne f g h
    | inl same ↦ (own.0, ground (arith, (eq_iff name un).0 same, own.1))
  ]
