-- ===== src/Config/Entity.antt =====
-- `_validate_network` and `_validate_entity`: what they accept, and what they change.
use nonsense.Base.{String, ◌≡◌, sym, ap, ◌∙◌, subst, true, false, str_eq}
use nonsense.Base.Action.{Outcome, done, gets, bind-done, bind-state, ◌>>=◌}
use nonsense.Json.{JsonLib}
use nonsense.Config.Validate.{get, component_of, check_role, check_keys, validate_network}
use nonsense.Config.Checks.{netns_key, HasRoles}
use nonsense.Config.Loop.{Claims-component}
use nonsense.Config.Keys.{check_keys-Claims, check_keys-Accepted}
use nonsense.Config.Touches.{
  Touches, Touches-Claims, Touches-trans, OthersHaveRoles, Touches-OthersHaveRoles, HasRoles-others,
}
use nonsense.Config.Network.{GoodNetwork, Ready, check_role-Touches, check_role-Ready}

module _ (json : JsonLib) (name : String) (ordinary : str_eq netns_key name ≡ false) where
  open json use {Value, string, is_object, find, items, find-items}

  -- The loop, from the component as it stands.
  abbrev loop : Value → Outcome (Unit {0}) × Value
  loop s = check_keys json name (items (component_of json name s)) s

  module _ (r : Value) (o : is_object r ≡ true) (eo : is_object (get json r name) ≡ true)
      (roles : OthersHaveRoles json name ordinary r) where
    Ready-HasRoles :
        (s : Value)
        → Touches json name ordinary r s
        → Ready json name ordinary r o eo s
        → HasRoles json s
    Ready-HasRoles s t k =
        HasRoles-others json name ordinary s
          (Touches-OthersHaveRoles json name ordinary r s t roles) (string k.text, k.role_found)

    pub validate_network-Touches : Touches json name ordinary r (validate_network json name r).1
    unfolding validate_network
    validate_network-Touches =
        bind-state (Touches json name ordinary r) (check_role json name)
          (λ _. gets (component_of json name) >>= λ c. check_keys json name (items c)) r t
          λ _ h.
            let k = check_role-Ready json name ordinary r o eo h in
            Touches-trans json name ordinary r s _ t (
              Touches-Claims json name ordinary s t.object t.entity_object _ (
                check_keys-Claims json name ordinary (items (component_of json name s)) s t.object
                  (Ready-HasRoles s t k)))
      where
        s : Value
        s = (check_role json name r).1

        t : Touches json name ordinary r s
        t = check_role-Touches json name ordinary r o eo

    loop-GoodNetwork :
        (s : Value)
        → Touches json name ordinary r s
        → Ready json name ordinary r o eo s
        → (loop s).0 ≡ done tt
        → GoodNetwork json name ordinary (component_of json name (loop s).1) (loop s).1
    loop-GoodNetwork s t k h =
        subst (λ (c : Value). GoodNetwork json name ordinary c (loop s).1)
          (sym (
            Claims-component json name ordinary s (loop s).1 t.object
              (check_keys-Claims json name ordinary _ s t.object (Ready-HasRoles s t k))))
          (record {
            object_ = k.component_object;
            text = k.text;
            role = k.role;
            role_found = k.role_found;
            role_known = k.role_known;
            role_kept = k.role_kept;
            accepted =
                check_keys-Accepted json name ordinary s t.object (Ready-HasRoles s t k)
                  k.component_object h;
          })

    pub validate_network-GoodNetwork :
        (validate_network json name r).0 ≡ done tt
        → GoodNetwork json name ordinary
            (component_of json name (validate_network json name r).1)
            (validate_network json name r).1
    unfolding validate_network
    validate_network-GoodNetwork h =
        let k =
          bind-done (check_role json name)
            (λ _. gets (component_of json name) >>= λ c. check_keys json name (items c)) r tt h in
        subst
          (λ (q : Outcome (Unit {0}) × Value).
            GoodNetwork json name ordinary (component_of json name q.1) q.1)
          (sym k.2)
          (loop-GoodNetwork (check_role json name r).1
            (check_role-Touches json name ordinary r o eo)
            (check_role-Ready json name ordinary r o eo k.1)
            (ap (λ (q : Outcome (Unit {0}) × Value). q.0) (sym k.2) ∙ h))
