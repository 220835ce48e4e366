-- ===== src/Entity/UplinkStarts.antt =====
-- Which entities are live after the start of an uplink in `entity::start` of daemon/entity.cpp.
use nonsense.Base.{String, ◌≡◌, refl, subst, Option, none, some, arith}
use nonsense.Bus.{Flow, Handler, go, crashes, ◌>>=◌}
use nonsense.Json.{JsonLib}
use nonsense.Entity.State.{Daemon}
use nonsense.Entity.Lifecycle.{uplink_name, entity_of, start_named}
use nonsense.Entity.Supported.{IsLive, Grows, Supported}

module _ (json : JsonLib) (config : json.Value) where
  open json use {Value, as_string, find}

  -- What a start comes to.
  pub record Starts (name : String) (s : Daemon json) (q : Flow (Unit {0}) × Daemon json)
      : Type 0 where
    pub grows : Grows s.live q.1.live
    pub supported : Supported json config s.live → Supported json config q.1.live
    pub live : q.0 ≡ go tt → IsLive name q.1.live

  pub record StartsUplink (o : Option Value) (s : Daemon json) (q : Flow (Unit {0}) × Daemon json)
      : Type 0 where
    pub grows : Grows s.live q.1.live
    pub supported : Supported json config s.live → Supported json config q.1.live
    pub live :
        q.0 ≡ go tt
        → (value : Value) (uplink : String) → o ≡ some value
        → as_string value ≡ some uplink
        → IsLive uplink q.1.live

  crashed : (o : Option Value) (s : Daemon json) → StartsUplink o s (crashes, s)
  crashed o s = record { grows = λ n i. i; supported = λ k. k; live = λ g. absurd (cc) }

  module _ (begin : String → Value → Handler (Daemon json) (Unit {0})) where
    entity-Starts :
        ((name : String) (self : Value) (s : Daemon json)
          → find config name ≡ some self
          → Starts name s (begin name self s))
        → (name : String) (o : Option Value) (s : Daemon json) → find config name ≡ o
        → Starts name s ((entity_of json o >>= begin name) s)
    entity-Starts b name none s f = record {
      grows = λ n i. i;
      supported = λ k. k;
      live = λ g. absurd (cc);
    }
    entity-Starts b name (some entity) s f = b name entity s f

    name-Starts :
        ((name : String) (self : Value) (s : Daemon json)
          → find config name ≡ some self
          → Starts name s (begin name self s))
        → (value : Value) (o : Option String) (s : Daemon json) → as_string value ≡ o
        → StartsUplink
            (some value)
            s
            ((uplink_name json o >>= λ name. entity_of json (find config name) >>= begin name) s)
    name-Starts b value none s e = crashed (some value) s
    name-Starts b value (some name) s e =
        let d = entity-Starts b name (find config name) s refl in
        record {
          grows = d.grows;
          supported = d.supported;
          live = λ g v u h k.
              subst (λ n. IsLive n ((entity_of json (find config name) >>= begin name) s).1.live)
                (same v u h k) (d.live g);
        }
      where
        same : (v : Value) (u : String) → some value ≡ some v → as_string v ≡ some u → name ≡ u
        same v u h k = ground arith

    pub named-Starts :
        ((name : String) (self : Value) (s : Daemon json)
          → find config name ≡ some self
          → Starts name s (begin name self s))
        → (o : Option Value) (s : Daemon json)
        → StartsUplink o s (start_named json config begin o s)
    named-Starts b none s = record {
      grows = λ n i. i;
      supported = λ k. k;
      live = λ g v u e. absurd (cc);
    }
    named-Starts b (some value) s = name-Starts b value (as_string value) s refl
