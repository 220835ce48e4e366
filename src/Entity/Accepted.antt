-- ===== src/Entity/Accepted.antt =====
-- The start of an entity of a configuration that daemon/config.cpp has accepted: `entity::start` of
-- daemon/entity.cpp.
use nonsense.Base.{
  ℕ, suc, String, ◌≡◌, ◌≤◌, refl, ap, ◌∙◌, inl, inr, true, false, some, List, [], ◌∷◌, arith,
  str_eq, eq_iff, Bool-cases,
}
use nonsense.Bus.{go}
use nonsense.Json.{JsonLib}
use nonsense.Config.Names.{
  NetworkParameter, known_parameters, role, external, default_, address, uplink,
}
use nonsense.Config.Validate.{get}
use nonsense.Config.Checks.{HasUplink, Meets, netns_key}
use nonsense.Config.Loop.{Accepted}
use nonsense.Config.Valid.{ValidConfig, metadata_key}
use nonsense.Entity.Answers.{StartAnswers}
use nonsense.Entity.State.{Daemon, among}
use nonsense.Entity.Lifecycle.{uplink_in, start}
use nonsense.Entity.Supported.{Uplink, IsLive}
use nonsense.Entity.Starts.{start-Starts}
use nonsense.Entity.Total.{start-go}
use nonsense.Entity.Finishes.{Cooperative, Members}
use nonsense.Entity.Components.{Wire, Descends}

module _ (json : JsonLib) (config : json.Value) where
  open json use {Value, as_string, find, items, is_object, is_null, null_of_is_null, is_object-null}

  -- A parameter that the program knows as the uplink.
  Meets-HasUplink :
      (name : String) (net : Value) (p : NetworkParameter)
      → known_parameters "uplink" ≡ some p
      → Meets json name net config p
      → HasUplink json net config
  unfolding known_parameters
  Meets-HasUplink name net role k m = absurd (cc)
  Meets-HasUplink name net external k m = absurd (cc)
  Meets-HasUplink name net default_ k m = absurd (cc)
  Meets-HasUplink name net address k m = absurd (cc)
  Meets-HasUplink name net uplink k m = m

  object-there : (v : Value) → is_object v ≡ true → is_null v ≡ false
  object-there v h = elim (Bool-cases (is_null v)) [
    | inl y ↦ absurd (ground (arith, null_of_is_null v y, is_object-null))
    | inr n ↦ n
  ]

  -- What validation promises of uplinks.
  ValidConfig-Wire :
      ValidConfig json config
      → (name : String) (self net value : Value) → find config name ≡ some self
      → find self "network" ≡ some net
      → find net "uplink" ≡ some value
      → Wire json config value
  ValidConfig-Wire v name self net value f g h = elim (Bool-cases (str_eq netns_key name)) [
    | inl e ↦ absurd (ground (arith, (eq_iff netns_key name).0 e, v.netns_plain))
    | inr ordinary ↦ elim (Bool-cases (str_eq metadata_key name)) [
      | inl e ↦ absurd (ground (arith, (eq_iff metadata_key name).0 e, v.metadata_plain))
      | inr other ↦ from ordinary (
          ((v.entities name ordinary self other f).good net (ground arith)).accepted "uplink" value
            h)
    ]
  ]
    where
      same : value ≡ get json net "uplink"
      same = rw (h, get) refl

      from :
          (ordinary : str_eq netns_key name ≡ false)
          → Accepted json name ordinary net config "uplink"
          → Wire json config value
      from ordinary (inl e) = absurd (ground arith)
      from ordinary (inr (p, k, m)) =
          let u = Meets-HasUplink name net p k m in
          record {
            uplink = u.uplink_name;
            entity = u.entity;
            net = u.net;
            text = ap as_string same ∙ u.named;
            found = u.found;
            entity_object = u.entity_object;
            net_found = u.net_found;
            net_there = object-there u.net u.net_object;
          }

  pub ValidConfig-Descends :
      ValidConfig json config
      → (rank : String → ℕ)
      → ((name uplink : String) → Uplink json config name uplink → suc (rank uplink) ≤ rank name)
      → Descends json config rank
  ValidConfig-Descends v rank k = record {
    wire = λ name self net value f g h.
        let w = ValidConfig-Wire v name self net value f g h in
        (
          w,
          k name w.uplink (record {
            entity = self;
            value = value;
            found = f;
            there = ap (uplink_in json config) g ∙ h;
            text = w.text;
          }),
        );
  }

  nothing : (other : String) (held : List String) → held ≡ [] → among other held ≡ true → ⊥
  unfolding among
  nothing other [] e m = cc
  nothing other (x ∷ held) e m = cc

  -- On a configuration that validation accepts, and whose uplinks do not lead round in a circle,
  -- `start` comes to its end with success, and every token is free again, where no call fails. A
  -- rank that falls along every uplink tells that there is no circle, and bounds the fuel.
  pub start-finishes :
      ValidConfig json config
      → (rank : String → ℕ)
      → ((name uplink : String) → Uplink json config name uplink → suc (rank uplink) ≤ rank name)
      → (answers : String → StartAnswers) → ((name : String) → Cooperative (answers name))
      → ((name : String) (self : Value)
          → find config name ≡ some self
          → is_object self ≡ true
          → Members json self (items self))
      → (fuel : ℕ) (name : String) (self : Value) (s : Daemon json) → find config name ≡ some self
      → is_object self ≡ true
      → suc (suc (rank name)) ≤ fuel
      → s.held ≡ []
      → ((start json config answers fuel name self s).0 ≡ go tt)
        × IsLive name (start json config answers fuel name self s).1.live
        × ((start json config answers fuel name self s).1.held ≡ [])
  start-finishes v rank k answers c m fuel name self s f b h e =
      let r =
        start-go json config answers rank (ValidConfig-Descends v rank k) c m fuel name self s f b h
          (λ other o. absurd (nothing other s.held e o)) in
      (r.0, (start-Starts json config answers fuel name self s f).live r.0, r.1 ∙ e)
