-- ===== src/Config/Load/Ends.antt =====
-- The loop of Config/Load ends, although it inserts a key into the map that it goes over.
use nonsense.Base.{
  ℕ, zero, suc, ◌+◌, ◌≤◌, String, ◌≡◌, inl, inr, refl, ◌∙◌, true, Option, none, some, arith, str_eq,
  length, Bool-cases, Option-cases,
}
use nonsense.Base.Action.{Outcome, done, throws, aborts}
use nonsense.Json.{JsonLib}
use nonsense.Config.Checks.{netns_key}
use nonsense.Config.Metadata.{validate_metadata, validate_metadata-GoodMetadata}
use nonsense.Config.Add.{Config}
use nonsense.Config.Load.{
  next_key, keys, load_entity, Loaded, go_on, load_entities, load_all, load_value, load_config,
}
use nonsense.Config.Load.Steps.{next_key-some, left-length, left-next_key, assoc-has_key}
use nonsense.Config.Load.Frame.{Frame, Frame-refl, ahead}
use nonsense.Config.Load.Visits.{validate_entity-Frame}

module _ (json : JsonLib) where
  open json use {Value, is_object, find, find-items, find-other, items, parse}

  -- A key that the iterator is at is in the configuration.
  pub found :
      (at : Option String) (key : String) (r : Value)
      → is_object r ≡ true
      → next_key at (keys json r) ≡ some key
      → (e : Value) × (find r key ≡ some e)
  found at key r o h =
      let (e, f) = assoc-has_key (items r) key (next_key-some at (keys json r) key h).0 in
      (e, find-items r key o ∙ f)

  pub load_entity-Frame :
      (key : String) (r e : Value)
      → is_object r ≡ true
      → find r key ≡ some e
      → Frame json r (load_entity json key r).1
  unfolding load_entity
  load_entity-Frame key r e o f = elim (Bool-cases (str_eq key "!metadata")) [
    | inl m ↦ rw (m, load_entity) (Frame-refl json r o)
    | inr m ↦ rw (m, load_entity) (validate_entity-Frame json key r e o f)
  ]

  abbrev Ends : Loaded json → Type 0
  Ends l = (q : Outcome (Unit {0}) × Value) × (l ≡ some q)

  go_on-Ends :
      (rest : Value → Loaded json) (q : Outcome (Unit {0}) × Value)
      → Ends (rest q.1)
      → Ends (go_on json rest q)
  go_on-Ends rest (done u, r) h = h
  go_on-Ends rest (throws what, r) h = ((throws what, r), refl)
  go_on-Ends rest (aborts, r) h = ((aborts, r), refl)

  load_entities_total :
      (n : ℕ) (at : Option String) (r : Value)
      → is_object r ≡ true
      → suc (ahead json at r) ≤ n
      → Ends (load_entities json n at r)
  unfolding load_entities
  load_entities_total zero at r o h = absurd (omega (arith, h))
  load_entities_total (suc n) at r o h = elim (Option-cases (next_key at (keys json r))) [
    | inl e ↦ rw (e, load_entities) ((done tt, r), refl)
    | inr (key, e) ↦
        let frame = load_entity-Frame key r _ o (found at key r o e).1 in
        let one_less = left-next_key at (keys json r) key e in
        rw (e, load_entities)
          (go_on-Ends (load_entities json n (some key)) (load_entity json key r) (
            load_entities_total n (some key) _ frame.object_
              (omega (arith, h, frame.fewer (some key), one_less))))
  ]

  fuel_enough : (r : Value) → suc (ahead json none r) ≤ 2 + length (keys json r)
  fuel_enough r = elim (Option-cases (find r netns_key)) [
    | inl e ↦ ground (arith, left-length none (keys json r))
    | inr (x, e) ↦ ground (arith, left-length none (keys json r))
  ]

  -- The metadata can be good in an object only.
  pub object_of_metadata : (r : Value) → validate_metadata json r ≡ done tt → is_object r ≡ true
  object_of_metadata r h = elim (Bool-cases (is_object r)) [
    | inl o ↦ o
    | inr o ↦ absurd (
        ground
          (arith, ((validate_metadata-GoodMetadata json r).0 h).there, find-other r "!metadata" o))
  ]

  load_all-Ends :
      (r : Value) (o : Outcome (Unit {0})) → validate_metadata json r ≡ o → Ends (load_all json o r)
  load_all-Ends r (done u) h = load_entities_total _ none r (object_of_metadata r h) (fuel_enough r)
  load_all-Ends r (throws what) h = (_, refl)
  load_all-Ends r aborts h = (_, refl)

  -- Whatever the file holds, if it opens at all, the constructor of the configuration comes to an
  -- end, by an exception or not: its loop never goes on for ever over the keys that it inserts
  -- itself.
  pub load_config_total :
      (config_path : String) (config_stream : Option String)
      → (o : Outcome (Config json)) × (load_config json config_path config_stream ≡ some o)
  unfolding load_config load_value
  load_config_total config_path none = (_, refl)
  load_config_total config_path (some text) = elim (Option-cases (parse text)) [
    | inl e ↦ rw (e, load_config) (_, refl)
    | inr (r, e) ↦
        let (q, f) = load_all-Ends r (validate_metadata json r) refl in
        rw (e, f, load_config, load_value) (_, refl)
  ]
