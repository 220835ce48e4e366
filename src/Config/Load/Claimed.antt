-- ===== src/Config/Load/Claimed.antt =====
-- The loop of Config/Load comes to the key that it has inserted itself, and refuses it.
use nonsense.Base.{
  ℕ, zero, suc, String, ◌≡◌, ◌⊎◌, inl, inr, refl, ◌∙◌, sym, subst, true, false, Option, none, some,
  [], ◌∷◌, arith, str_eq, eq_iff, Bool-cases, Option-cases,
}
use nonsense.Base.Order.{str_lt, str_lt_total}
use nonsense.Base.Action.{done}
use nonsense.Json.{JsonLib}
use nonsense.Config.Names.{known_components}
use nonsense.Config.Validate.{get, validate_component, validate_components, validate_entity}
use nonsense.Config.Checks.{netns_key}
use nonsense.Config.Add.{Config}
use nonsense.Config.Valid.{metadata_key}
use nonsense.Config.Load.{behind, next_key, keys, load_entity, load_entities, load_config}
use nonsense.Config.Load.Steps.{next_key-none, next_key-least}
use nonsense.Config.Load.Visits.{validate_entity_other}
use nonsense.Config.Load.Ends.{found}
use nonsense.Config.Load.Roles.{go_on-done, has_key-find}
use nonsense.Config.Load.Keeps.{Loading, entity_netns}
use nonsense.Config.Load.Rounds.{all_loaded, round, Visited}
use nonsense.Config.Load.Sound.{load_value-done, start-Loading}
use nonsense.Config.Paths.{str_eq_sym}

module _ (json : JsonLib) where
  open json use {Value, string, is_object, find, items, items-string, parse, as_string-string}

  -- Text is no entity: it has an item without a name.
  string_refused :
      (r : Value) (name s : String)
      → find r name ≡ some (string s)
      → (validate_entity json name r).0 ≡ done tt
      → ⊥
  unfolding validate_entity validate_components validate_component known_components
  string_refused r name s f h =
      let k : items (get json r name) ≡ ("", string s) ∷ [] = rw (f, get) (items-string s) in
      absurd (ground (arith, k))

  -- The key for the default network namespace is in front of the iterator, or stands in front of
  -- the name of the entity that has claimed it.
  abbrev Claimed : Option String → Value → Type 0
  Claimed at r =
      (s : String)
      → find r netns_key ≡ some (string s)
      → (behind at netns_key ≡ true) ⊎ (str_lt s netns_key ≡ false)

  module _ (at : Option String) (key : String) (r e : Value)
      (k : next_key at (keys json r) ≡ some key) (f : find r key ≡ some e) (g : Loading json r)
      (v : Claimed at r) where
    -- A key that is passed by is not the one for the default network namespace, where that is
    -- claimed.
    still_Claimed : str_eq key netns_key ≡ false → Claimed (some key) r
    still_Claimed n s h = elim (v s h) [
      | inr x ↦ inr x
      | inl b ↦ inl (
          ground (
            arith,
            str_lt_total key netns_key,
            eq_iff key netns_key,
            next_key-least at (keys json r) key netns_key k
                (has_key-find json r (string s) netns_key g.object_ h) b,
          ))
    ]

    entity_Claimed :
        (m : str_eq metadata_key key ≡ false)
        → str_eq key netns_key ≡ false
        → (validate_entity json key r).0 ≡ done tt
        → Claimed (some key) (validate_entity json key r).1
    entity_Claimed m n ok = elim (Bool-cases (is_object e)) [
      | inr eo ↦ rw (validate_entity_other json key r e f eo) (still_Claimed n)
      | inl eo ↦ λ s h.
          elim (entity_netns json key (str_eq_sym json key netns_key n) m r e g f eo ok) [
            | inl x ↦ still_Claimed n s (sym x ∙ h)
            | inr x ↦
                let same : key ≡ s = ground (arith, as_string-string key, as_string-string s) in
                elim (Bool-cases (str_lt key netns_key)) [
                  | inl lt ↦ inl lt
                  | inr lt ↦ inr (ground arith)
                ]
          ]
    ]

    netns_Claimed :
        key ≡ netns_key
        → (validate_entity json key r).0 ≡ done tt
        → Claimed (some key) (validate_entity json key r).1
    netns_Claimed same ok =
        let eo : is_object e ≡ false = ground (arith, g.netns_other) in
        rw (validate_entity_other json key r e f eo)
          λ s h. absurd (string_refused r key s (ground arith) ok)

    round_Claimed :
        (load_entity json key r).0 ≡ done tt → Claimed (some key) (load_entity json key r).1
    unfolding load_entity
    round_Claimed ok = elim (Bool-cases (str_eq key "!metadata")) [
      | inl m ↦
          rw (m, load_entity)
            (still_Claimed (
              subst (λ (t : String). str_eq t netns_key ≡ false)
                (sym ((eq_iff key "!metadata").0 m)) refl))
      | inr m ↦ elim (Bool-cases (str_eq key netns_key)) [
        | inl n ↦
            rw (m, load_entity)
              (netns_Claimed ((eq_iff key netns_key).0 n) (rw (m, load_entity) at ok))
        | inr n ↦
            rw (m, load_entity)
              (entity_Claimed (str_eq_sym json key metadata_key m) n (rw (m, load_entity) at ok))
      ]
    ]

  load_entities-Claimed :
      (fuel : ℕ) (at : Option String) (r r' : Value)
      → Loading json r
      → Visited json at r
      → Claimed at r
      → load_entities json fuel at r ≡ some (done tt, r')
      → (s : String) → find r' netns_key ≡ some (string s)
      → str_lt s netns_key ≡ false
  unfolding load_entities
  load_entities-Claimed zero at r r' g v c h s f = cc
  load_entities-Claimed (suc fuel) at r r' g v c h s f =
      elim (Option-cases (next_key at (keys json r))) [
        | inl k ↦
            let same = all_loaded json r r' (rw (k, load_entities) at h) in
            elim (c s (ground arith)) [
              | inr x ↦ x
              | inl x ↦ absurd (
                  ground (
                    arith,
                    next_key-none at (keys json r) netns_key k
                        (has_key-find json r (string s) netns_key g.object_ (ground arith)),
                  ))
            ]
        | inr (key, k) ↦
            let step =
              go_on-done json (load_entities json fuel (some key)) (load_entity json key r) r'
                (rw (k, load_entities) at h) in
            let (e, p) = found json at key r g.object_ k in
            let next = round json at key r e k p g v step.0 in
            load_entities-Claimed fuel (some key) _ r' next.0 next.1
              (round_Claimed at key r e k p g c step.0) step.1 s f
      ]

  -- The loop also visits the key ":default-netns" that it has inserted behind the iterator, and
  -- refuses it: where a file without that key is accepted, and an entity has become the default
  -- network namespace, the name of the entity does not sort before ":default-netns".
  pub load_config-default :
      (config_path text name : String) (r : Value) (c : Config json)
      → parse text ≡ some r
      → find r netns_key ≡ none
      → load_config json config_path (some text) ≡ some (done c)
      → find c.configuration netns_key ≡ some (string name)
      → str_lt name netns_key ≡ false
  unfolding load_config
  load_config-default config_path text name r c p free h claimed =
      let (ok, r', l, m, same) = load_value-done json r c (rw (p, load_config) at h) in
      load_entities-Claimed _ none r r' (start-Loading json r ok free r' l)
        (λ j d e q f b. absurd (ground arith)) (λ s f. absurd (ground arith)) l name (ground arith)
