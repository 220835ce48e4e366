-- ===== src/Config/Load/Rounds.antt =====
-- The rounds of the loop of Config/Load: the entities that it has come by are valid.
use nonsense.Base.{
  ℕ, zero, suc, String, ◌≡◌, ◌⊎◌, inl, inr, ◌∙◌, sym, subst, true, false, Option, some, arith,
  str_eq, eq_iff, Bool-cases, Option-cases,
}
use nonsense.Base.Order.{str_lt_total}
use nonsense.Base.Action.{Outcome, done}
use nonsense.Json.{JsonLib}
use nonsense.Config.Validate.{validate_entity}
use nonsense.Config.Checks.{netns_key}
use nonsense.Config.Components.{ValidEntity}
use nonsense.Config.Valid.{metadata_key}
use nonsense.Config.Load.{behind, next_key, keys, load_entity, load_entities}
use nonsense.Config.Load.Steps.{next_key-none, next_key-least}
use nonsense.Config.Load.Visits.{validate_entity_other}
use nonsense.Config.Load.Ends.{found}
use nonsense.Config.Load.Roles.{go_on-done, has_key-find}
use nonsense.Config.Load.Keeps.{
  Loading, entity-ValidEntity, entity-Loading, others-ValidEntity, others-find,
}
use nonsense.Config.Sound.{of_other_name}

module _ (json : JsonLib) where
  open json use {
    Value, string, null, parse, is_object, find, items, find-items, find-other, is_object-null,
  }

  -- The entities that the iterator has come by are valid.
  abbrev pub Visited : Option String → Value → Type 0
  Visited at r =
      (name : String) (ordinary : str_eq netns_key name ≡ false) (e : Value)
      → str_eq metadata_key name ≡ false
      → find r name ≡ some e
      → behind at name ≡ false
      → ValidEntity json name ordinary r

  other_ValidEntity :
      (name : String) (ordinary : str_eq netns_key name ≡ false) (r e : Value)
      → find r name ≡ some e
      → is_object e ≡ false
      → ValidEntity json name ordinary r
  other_ValidEntity name ordinary r e f eo = record {
    known = λ type c g. absurd (ground (arith, find-other e type eo));
    good = λ c g. absurd (ground (arith, find-other e "network" eo));
  }

  -- A key that is not behind the next position is the one there, or not behind the last one.
  pub passed_by :
      (at : Option String) (key name : String) (r e : Value)
      → is_object r ≡ true
      → next_key at (keys json r) ≡ some key
      → find r name ≡ some e
      → behind (some key) name ≡ false
      → (key ≡ name) ⊎ ((str_eq key name ≡ false) × (behind at name ≡ false))
  passed_by at key name r e o k f b = elim (Bool-cases (str_eq key name)) [
    | inl s ↦ inl ((eq_iff key name).0 s)
    | inr n ↦ elim (Bool-cases (behind at name)) [
      | inr p ↦ inr (n, p)
      | inl p ↦ absurd (
          ground (
            arith,
            str_lt_total key name,
            eq_iff key name,
            next_key-least at (keys json r) key name k (has_key-find json r e name o f) p,
          ))
    ]
  ]

  module _ (at : Option String) (key : String) (r e : Value)
      (k : next_key at (keys json r) ≡ some key) (f : find r key ≡ some e) (g : Loading json r)
      (v : Visited at r) where
    -- A round that leaves the configuration alone.
    idle :
        ((name : String) (ordinary : str_eq netns_key name ≡ false)
          → str_eq metadata_key name ≡ false
          → key ≡ name
          → ValidEntity json name ordinary r)
        → Loading json r × Visited (some key) r
    idle own = (
      g,
      λ name d x m h b. elim (passed_by at key name r x g.object_ k h b) [
        | inl same ↦ own name d m same
        | inr (n, p) ↦ v name d x m h p
      ],
    )

    object_round :
        (d : str_eq netns_key key ≡ false) (m : str_eq metadata_key key ≡ false)
        → is_object e ≡ true
        → (validate_entity json key r).0 ≡ done tt
        → Loading json (validate_entity json key r).1
          × Visited (some key) (validate_entity json key r).1
    object_round d m eo ok = (
      entity-Loading json key d m r e g f eo ok,
      λ name p x q h b. elim (Bool-cases (str_eq key name)) [
        | inl s ↦
            of_other_name json key d _ (entity-ValidEntity json key d m r e g f eo ok) name p
              ((eq_iff key name).0 s)
        | inr n ↦
            let at_r = sym (others-find json key d m r e g f eo ok name p n) ∙ h in
            elim (passed_by at key name r x g.object_ k at_r b) [
              | inl s ↦ absurd (ground (arith, eq_iff key name))
              | inr (_, past) ↦
                  others-ValidEntity json key d m r e g f eo ok name p n (v name p x q at_r past)
            ]
      ],
    )

    entity_round :
        (m : str_eq metadata_key key ≡ false)
        → (validate_entity json key r).0 ≡ done tt
        → Loading json (validate_entity json key r).1
          × Visited (some key) (validate_entity json key r).1
    entity_round m ok = elim (Bool-cases (is_object e)) [
      | inr eo ↦
          rw (validate_entity_other json key r e f eo)
            (idle λ name d q same. other_ValidEntity name d r e (ground arith) eo)
      | inl eo ↦ elim (Bool-cases (str_eq netns_key key)) [
        | inr d ↦ object_round d m eo ok
        | inl d ↦ absurd (ground (arith, (eq_iff netns_key key).0 d, g.netns_other))
      ]
    ]

    -- What one round comes to.
    pub round :
        (load_entity json key r).0 ≡ done tt
        → Loading json (load_entity json key r).1 × Visited (some key) (load_entity json key r).1
    unfolding load_entity
    round ok = elim (Bool-cases (str_eq key "!metadata")) [
      | inl m ↦
          rw (m, load_entity)
            (idle λ name d q same.
              absurd (ground (arith, eq_iff key "!metadata", eq_iff metadata_key name)))
      | inr m ↦
          rw (m, load_entity)
            (entity_round (ground (arith, eq_iff key metadata_key, eq_iff metadata_key key))
              (rw (m, load_entity) at ok))
    ]

  abbrev pub Entities : Value → Type 0
  Entities r =
      (name : String) (ordinary : str_eq netns_key name ≡ false) (e : Value)
      → str_eq metadata_key name ≡ false
      → find r name ≡ some e
      → ValidEntity json name ordinary r

  pub all_loaded :
      (r r' : Value)
      → ◌≡◌ {A = Option (Outcome (Unit {0}) × Value)} (some (done tt, r)) (some (done tt, r'))
      → r ≡ r'
  all_loaded r r' h = cc

  pub load_entities-Visited :
      (fuel : ℕ) (at : Option String) (r r' : Value)
      → Loading json r
      → Visited at r
      → load_entities json fuel at r ≡ some (done tt, r')
      → Loading json r' × Entities r'
  unfolding load_entities
  load_entities-Visited zero at r r' g v h = cc
  load_entities-Visited (suc fuel) at r r' g v h = elim (Option-cases (next_key at (keys json r))) [
    | inl k ↦
        subst (λ (t : Value). Loading json t × Entities t)
          (all_loaded r r' (rw (k, load_entities) at h))
          (
            g,
            λ name d e m f.
                v name d e m f
                  (next_key-none at (keys json r) name k (has_key-find json r e name g.object_ f)),
          )
    | inr (key, k) ↦
        let step =
          go_on-done json (load_entities json fuel (some key)) (load_entity json key r) r'
            (rw (k, load_entities) at h) in
        let (e, f) = found json at key r g.object_ k in
        let next = round at key r e k f g v step.0 in
        load_entities-Visited fuel (some key) _ r' next.0 next.1 step.1
  ]
