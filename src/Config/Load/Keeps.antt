-- ===== src/Config/Load/Keeps.antt =====
-- A step of the loop of Config/Load, and the entities that it has come by.
use nonsense.Base.{
  String, ◌≡◌, ◌⊎◌, inl, inr, refl, ◌∙◌, sym, true, false, none, some, arith, str_eq, eq_iff,
  Bool-cases,
}
use nonsense.Base.Action.{done}
use nonsense.Json.{JsonLib}
use nonsense.Config.Validate.{get, validate_entity}
use nonsense.Config.Checks.{netns_key}
use nonsense.Config.Touches.{Touches, OthersHaveRoles}
use nonsense.Config.Components.{
  ValidEntity, Start, validate_entity-Touches, validate_entity-ValidEntity,
}
use nonsense.Config.Kept.{Kept, Kept-Touches, Kept-ValidEntity, Kept-HasUplink, KeepsUplinks}
use nonsense.Config.Valid.{metadata_key}
use nonsense.Config.Load.Frame.{object_of_find}
use nonsense.Config.Load.Visits.{validate_entity-Frame}
use nonsense.Config.Load.Roles.{HasText}

module _ (json : JsonLib) where
  open json use {Value, string, is_object, is_null, find, find-other, is_object-string}

  -- What holds of the configuration while it is loaded.
  pub record Loading (r : Value) : Type 0 where
    pub object_ : is_object r ≡ true
    pub roles :
        (un : String) (e n : Value)
        → str_eq netns_key un ≡ false
        → str_eq metadata_key un ≡ false
        → find r un ≡ some e
        → find e "network" ≡ some n
        → is_object n ≡ true
        → HasText json n
    pub netns_other : is_object (get json r netns_key) ≡ false
    pub metadata_plain : find (get json r metadata_key) "network" ≡ none

  module _ (name : String) (ordinary : str_eq netns_key name ≡ false)
      (entity : str_eq metadata_key name ≡ false) where
    Loading-OthersHaveRoles : (r : Value) → Loading r → OthersHaveRoles json name ordinary r
    Loading-OthersHaveRoles r k un e n ne f g h = elim (Bool-cases (str_eq netns_key un)) [
      | inl d ↦ absurd (
          ground (
            arith,
            (eq_iff netns_key un).0 d,
            find-other (get json r netns_key) "network" k.netns_other,
          ))
      | inr d ↦ elim (Bool-cases (str_eq metadata_key un)) [
        | inl m ↦ absurd (ground (arith, (eq_iff metadata_key un).0 m, k.metadata_plain))
        | inr m ↦ let (s, x) = k.roles un e n d m f g h in (string s, x)
      ]
    ]

    module _ (r e : Value) (k : Loading r) (f : find r name ≡ some e) (eo : is_object e ≡ true)
        (ok : (validate_entity json name r).0 ≡ done tt) where
      abbrev after : Value
      after = (validate_entity json name r).1

      start : Start json name ordinary r
      start = (k.object_, rw (f, get) eo, Loading-OthersHaveRoles r k)

      touches : Touches json name ordinary r after
      touches = validate_entity-Touches json name ordinary r start

      kept : Kept json name ordinary r after
      kept = Kept-Touches json name ordinary r after touches

      pub entity-ValidEntity : ValidEntity json name ordinary after
      entity-ValidEntity = validate_entity-ValidEntity json name ordinary r start ok

      after_netns :
          (find after netns_key ≡ find r netns_key)
            ⊎ ((is_null (get json r netns_key) ≡ true)
                × (find after netns_key ≡ some (string name)))
          → is_object (get json after netns_key) ≡ false
      after_netns (inl x) = rw (x, get) k.netns_other
      after_netns (inr (z, x)) = rw (x, get) (is_object-string name)

      after_roles :
          (un : String) (x n : Value)
          → str_eq netns_key un ≡ false
          → str_eq metadata_key un ≡ false
          → find after un ≡ some x
          → find x "network" ≡ some n
          → is_object n ≡ true
          → HasText json n
      after_roles un x n d m g h ob = elim (Bool-cases (str_eq name un)) [
        | inr ne ↦ k.roles un x n d m (sym (touches.others un ne d) ∙ g) h ob
        | inl s ↦
            let good = entity-ValidEntity.good n (ground (arith, (eq_iff name un).0 s)) in
            (good.text, good.role_found)
      ]

      pub entity-Loading : Loading after
      entity-Loading = record {
        object_ = touches.object;
        roles = after_roles;
        netns_other = after_netns touches.netns;
        metadata_plain =
            rw
              (
                touches.others metadata_key
                    (ground (arith, eq_iff name metadata_key, eq_iff metadata_key name)) refl,
                get,
              )
              k.metadata_plain;
      }

      -- The uplinks of the others keep their network component and its role, also where it is the
      -- entity's.
      entity-KeepsUplinks : KeepsUplinks json name ordinary r after kept
      entity-KeepsUplinks c u = elim (Bool-cases (str_eq name u.uplink_name)) [
        | inr n ↦ Kept-HasUplink json name ordinary r after kept c u n
        | inl s ↦
            let x =
              (validate_entity-Frame json name r e k.object_ f).roles u.uplink_name u.entity u.net
                u.found u.net_found u.net_object in
            let (text, t) =
              after_roles u.uplink_name x.0 x.1 (ground (arith, (eq_iff name u.uplink_name).0 s))
                (ground (arith, (eq_iff name u.uplink_name).0 s)) x.2 x.3 x.4 in
            record {
              uplink_name = u.uplink_name;
              entity = x.0;
              net = x.1;
              named = u.named;
              found = x.2;
              entity_object = object_of_find json x.0 x.1 x.3;
              net_found = x.3;
              net_object = x.4;
              not_client = rw (t, get) (rw (x.5 text t, get) at u.not_client);
            }
      ]

      pub others-ValidEntity :
          (other : String) (plain : str_eq netns_key other ≡ false)
          → str_eq name other ≡ false
          → ValidEntity json other plain r
          → ValidEntity json other plain after
      others-ValidEntity other plain n v =
          Kept-ValidEntity json name ordinary r after kept entity-KeepsUplinks other plain n v

      pub others-find :
          (other : String)
          → str_eq netns_key other ≡ false
          → str_eq name other ≡ false
          → find after other ≡ find r other
      others-find other plain n = touches.others other n plain

      pub entity_netns :
          (find after netns_key ≡ find r netns_key) ⊎ (find after netns_key ≡ some (string name))
      entity_netns = elim touches.netns [ inl x ↦ inl x | inr (z, x) ↦ inr x ]
