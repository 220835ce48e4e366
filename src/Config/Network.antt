-- ===== src/Config/Network.antt =====
-- The role that `_validate_network` reads and keeps before its loop.
use nonsense.Base.{
  String, ◌≡◌, ◌⊎◌, inl, inr, refl, sym, ap, ◌∙◌, subst, true, false, some, arith, str_eq,
  Bool-cases, Option-cases,
}
use nonsense.Base.Action.{done}
use nonsense.Json.{JsonLib}
use nonsense.Config.Names.{NetworkRole, role_number, known_network_roles}
use nonsense.Config.Validate.{get, subscript, set_network, component_of, check_role}
use nonsense.Config.Paths.{find-insert_ne, find-insert_self, get-insert_self}
use nonsense.Config.Checks.{netns_key}
use nonsense.Config.Loop.{Accepted}
use nonsense.Config.Touches.{Touches, Touches-refl, Touches-set_network, component_of-set_network}

module _ (json : JsonLib) (name : String) (ordinary : str_eq netns_key name ≡ false) where
  open json use {
    Value, null, object, string, number, is_null, is_object, as_string, find, insert, items,
    is_null-string, is_object-string, find-other, is_object-insert, is_null-null, null_of_is_null,
    string_of_as_string, find-items, find-object, is_object-object,
  }

  -- A network component as the program wants it, in the configuration `r`.
  pub record GoodNetwork (c r : Value) : Type 0 where
    pub object_ : is_object c ≡ true
    pub text : String
    pub role : NetworkRole
    pub role_found : find c "role" ≡ some (string text)
    pub role_known : known_network_roles text ≡ some role
    pub role_kept : find c ":role" ≡ some (number (role_number role))
    pub accepted :
        (key : String) (x : Value) → find c key ≡ some x → Accepted json name ordinary c r key

  record ReadsRole (c r r' : Value) : Type 0 where
    object_ : is_object c ≡ true
    text : String
    role : NetworkRole
    role_found : find c "role" ≡ some (string text)
    role_known : known_network_roles text ≡ some role
    state : r' ≡ set_network json name (insert c ":role" (number (role_number role))) r

  not_text : (s : String) → as_string null ≡ some s → ⊥
  not_text s h = ground (arith, string_of_as_string null s h, is_null-null, is_null-string s)

  -- A role that is text was there before the access.
  subscript-text :
      (c c' : Value) (s : String)
      → subscript json c "role" ≡ some c'
      → as_string (get json c' "role") ≡ some s
      → (is_object c ≡ true) × (c' ≡ c) × (find c "role" ≡ some (string s))
  unfolding subscript
  subscript-text c c' s h a = elim (Bool-cases (is_null c)) [
    | inl e ↦
        absurd
          (not_text s (ground (arith, get-insert_self json object "role" null is_object-object)))
    | inr e ↦ elim (Bool-cases (is_object c)) [
      | inr f ↦ absurd (ground arith)
      | inl f ↦ elim (Option-cases (find c "role")) [
        | inl g ↦ absurd (not_text s (ground (arith, get-insert_self json c "role" null f)))
        | inr (x, g) ↦
            let same : c' ≡ c = ground arith in
            (f, same, ground (arith, same, string_of_as_string x s))
      ]
    ]
  ]

  check_role-ReadsRole :
      (r : Value)
      → (check_role json name r).0 ≡ done tt
      → ReadsRole (component_of json name r) r (check_role json name r).1
  unfolding check_role
  check_role-ReadsRole r h =
      elim (Option-cases (subscript json (component_of json name r) "role")) [
        | inl e ↦ absurd (ground arith)
        | inr (c, e) ↦ elim (Option-cases (as_string (get json c "role"))) [
          | inl f ↦ absurd (ground arith)
          | inr (s, f) ↦ elim (Option-cases (known_network_roles s)) [
            | inl g ↦ absurd (ground arith)
            | inr (ro, g) ↦
                let k = subscript-text (component_of json name r) c s e f in
                record {
                  object_ = k.0;
                  text = s;
                  role = ro;
                  role_found = k.2;
                  role_known = g;
                  state = ground (arith, k.1);
                }
          ]
        ]
      ]

  check_role-state :
      (r : Value)
      → ((check_role json name r).1 ≡ r)
        ⊎ ((c : Value) × ((check_role json name r).1 ≡ set_network json name c r))
  unfolding check_role
  check_role-state r = elim (Option-cases (subscript json (component_of json name r) "role")) [
    | inl e ↦ inl (ground arith)
    | inr (c, e) ↦ elim (Option-cases (as_string (get json c "role"))) [
      | inl f ↦ inr (c, ground arith)
      | inr (s, f) ↦ elim (Option-cases (known_network_roles s)) [
        | inl g ↦ inr (c, ground arith)
        | inr (ro, g) ↦ inr (insert c ":role" (number (role_number ro)), ground arith)
      ]
    ]
  ]

  module _ (r : Value) (o : is_object r ≡ true) (eo : is_object (get json r name) ≡ true) where
    pub check_role-Touches : Touches json name ordinary r (check_role json name r).1
    check_role-Touches = elim (check_role-state r) [
      | inl e ↦
          subst (Touches json name ordinary r) (sym e) (Touches-refl json name ordinary r o eo)
      | inr (c, e) ↦
          subst (Touches json name ordinary r) (sym e)
            (Touches-set_network json name ordinary r o eo c)
    ]

    -- The state between the role and the loop.
    pub record Ready (s : Value) : Type 0 where
      pub object_ : is_object s ≡ true
      pub entity_object : is_object (get json s name) ≡ true
      pub component_object : is_object (component_of json name s) ≡ true
      pub text : String
      pub role : NetworkRole
      pub role_found : find (component_of json name s) "role" ≡ some (string text)
      pub role_known : known_network_roles text ≡ some role
      pub role_kept : find (component_of json name s) ":role" ≡ some (number (role_number role))

    pub check_role-Ready : (check_role json name r).0 ≡ done tt → Ready (check_role json name r).1
    check_role-Ready h = record {
      object_ = t.object;
      entity_object = t.entity_object;
      component_object = rw same (is_object-insert c ":role" _ k.object_);
      text = k.text;
      role = k.role;
      role_found = rw same (find-insert_ne json c ":role" _ "role" k.object_ refl ∙ k.role_found);
      role_known = k.role_known;
      role_kept = rw same (find-insert_self json c ":role" _ k.object_);
    }
      where
        t : Touches json name ordinary r (check_role json name r).1
        t = check_role-Touches

        c : Value
        c = component_of json name r

        k : ReadsRole c r (check_role json name r).1
        k = check_role-ReadsRole r h

        same :
            component_of json name (check_role json name r).1
            ≡ insert c ":role" (number (role_number k.role))
        same =
            ap (component_of json name) k.state
            ∙ component_of-set_network json name ordinary r o eo _
