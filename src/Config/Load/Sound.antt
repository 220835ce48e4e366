-- ===== src/Config/Load/Sound.antt =====
-- The loop of Config/Load as a whole: what a file that is accepted has become.
use nonsense.Base.{
  ℕ, zero, suc, ◌+◌, String, ◌≡◌, inl, inr, refl, ◌∙◌, sym, subst, true, false, Option, none, some,
  List, [], ◌∷◌, All, arith, str_eq, eq_iff, length, Option-cases,
}
use nonsense.Base.Action.{Outcome, done, throws, aborts}
use nonsense.Json.{JsonLib, assoc}
use nonsense.Config.Validate.{get}
use nonsense.Config.Checks.{netns_key}
use nonsense.Config.Metadata.{validate_metadata, validate_metadata-GoodMetadata}
use nonsense.Config.Add.{Config}
use nonsense.Config.Valid.{ValidConfig}
use nonsense.Config.Load.{
  next_key, keys, load_entity, load_entities, load_all, load_value, load_config, Loaded,
  constructed,
}
use nonsense.Config.Load.Frame.{Frame, Frame-refl, Frame-trans}
use nonsense.Config.Load.Ends.{found, load_entity-Frame, object_of_metadata}
use nonsense.Config.Load.Roles.{go_on-done, load_entities-RolesBehind}
use nonsense.Config.Load.Keeps.{Loading}
use nonsense.Config.Load.Rounds.{all_loaded, load_entities-Visited}

module _ (json : JsonLib) where
  open json use {
    Value, string, null, parse, is_object, find, items, find-items, find-other, is_object-null,
  }

  only_version :
      (l : List (String × Value))
      → All (λ (kv : String × Value). str_eq kv.0 "version" ≡ true) l
      → assoc l "network" ≡ none
  only_version [] a = refl
  only_version ((k, x) ∷ l) (a, rest) =
      let other : str_eq k "network" ≡ false =
        subst (λ (t : String). str_eq t "network" ≡ false) (sym ((eq_iff k "version").0 a)) refl in
      ground (arith, other, only_version l rest)

  module _ (r : Value) (ok : validate_metadata json r ≡ done tt)
      (free : find r netns_key ≡ none) where
    -- The configuration in front of the loop, if the loop accepts it.
    pub start-Loading :
        (r' : Value)
        → load_entities json (2 + length (keys json r)) none r ≡ some (done tt, r')
        → Loading json r
    start-Loading r' h = record {
      object_ = object_of_metadata json r ok;
      roles = λ un e n d m f g ob.
          load_entities-RolesBehind json _ none r r' (object_of_metadata json r ok) h un e n refl d
            m f g ob;
      netns_other = rw (free, get) is_object-null;
      metadata_plain =
          let good = (validate_metadata-GoodMetadata json r).0 ok in
          rw (good.there, get)
            (find-items good.metadata "network" good.object_
              ∙ only_version (items good.metadata) good.only);
    }

    loaded-ValidConfig :
        (r' : Value)
        → load_entities json (2 + length (keys json r)) none r ≡ some (done tt, r')
        → ValidConfig json r'
    loaded-ValidConfig r' h =
        let (k, entities) =
          load_entities-Visited json _ none r r' (start-Loading r' h)
            (λ name d e m f b. absurd (ground arith)) h in
        record {
          object_ = k.object_;
          netns_plain = find-other (get json r' netns_key) "network" k.netns_other;
          metadata_plain = k.metadata_plain;
          entities = entities;
        }

  load_entities-Frame :
      (fuel : ℕ) (at : Option String) (r r' : Value)
      → is_object r ≡ true
      → load_entities json fuel at r ≡ some (done tt, r')
      → Frame json r r'
  unfolding load_entities
  load_entities-Frame zero at r r' o h = cc
  load_entities-Frame (suc fuel) at r r' o h = elim (Option-cases (next_key at (keys json r))) [
    | inl k ↦
        subst (Frame json r) (all_loaded json r r' (rw (k, load_entities) at h))
          (Frame-refl json r o)
    | inr (key, k) ↦
        let step =
          go_on-done json (load_entities json fuel (some key)) (load_entity json key r) r'
            (rw (k, load_entities) at h) in
        let first = load_entity-Frame json key r _ o (found json at key r o k).1 in
        Frame-trans json r _ r' first
          (load_entities-Frame fuel (some key) _ r' first.object_ step.1)
  ]

  done_inj :
      (r : Value) (c : Config json)
      → ◌≡◌ {A = Option (Outcome (Config json))}
          (some (done (record { mutable_ = false; configuration = r })))
          (some (done c))
      → (c.mutable_ ≡ false) × (c.configuration ≡ r)
  done_inj r c h = ground arith

  constructed-done :
      (l : Loaded json) (c : Config json)
      → (elim l [ none ↦ none | some q ↦ some (constructed json q) ]) ≡ some (done c)
      → (r' : Value) × (l ≡ some (done tt, r')) × (c.mutable_ ≡ false) × (c.configuration ≡ r')
  constructed-done none c h = cc
  constructed-done (some (done tt, r)) c h = (r, refl, (done_inj r c h).0, (done_inj r c h).1)
  constructed-done (some (throws what, r)) c h = absurd (ground arith)
  constructed-done (some (aborts, r)) c h = absurd (ground arith)

  load_all-done :
      (o : Outcome (Unit {0})) (r r' : Value)
      → load_all json o r ≡ some (done tt, r')
      → (o ≡ done tt) × (load_entities json (2 + length (keys json r)) none r ≡ some (done tt, r'))
  load_all-done (done tt) r r' h = (refl, h)
  load_all-done (throws what) r r' h = absurd (ground arith)
  load_all-done aborts r r' h = absurd (ground arith)

  -- A configuration that the constructor gives went through its loop.
  pub load_value-done :
      (r : Value) (c : Config json)
      → load_value json r ≡ some (done c)
      → (validate_metadata json r ≡ done tt)
        × (r' : Value) × (load_entities json (2 + length (keys json r)) none r ≡ some (done tt, r'))
        × (c.mutable_ ≡ false)
        × (c.configuration ≡ r')
  unfolding load_value
  load_value-done r c h =
      let (r', l, m, same) = constructed-done (load_all json (validate_metadata json r) r) c h in
      let (ok, k) = load_all-done (validate_metadata json r) r r' l in (ok, r', k, m, same)

  -- A file is accepted only as a valid configuration: where it parses as a JSON value that has no
  -- key ":default-netns", and the constructor of the configuration ends without an exception, the
  -- configuration may not be modified, it is valid, and every entity of the file that is an object
  -- is there as an object.
  pub load_config-ValidConfig :
      (config_path text : String) (r : Value) (c : Config json)
      → parse text ≡ some r
      → find r netns_key ≡ none
      → load_config json config_path (some text) ≡ some (done c)
      → (c.mutable_ ≡ false)
        × ValidConfig json c.configuration
        × ((name : String) (e : Value)
            → find r name ≡ some e
            → is_object e ≡ true
            → (e' : Value) × (find c.configuration name ≡ some e') × (is_object e' ≡ true))
  unfolding load_config
  load_config-ValidConfig config_path text r c p free h =
      let (ok, r', l, m, same) = load_value-done r c (rw (p, load_config) at h) in
      (
        m,
        rw same (loaded-ValidConfig r ok free r' l),
        rw same (load_entities-Frame _ none r r' (object_of_metadata json r ok) l).objects,
      )
