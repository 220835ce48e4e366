-- ===== src/Entity/Starts.antt =====
-- Which entities are live after `entity::start` of daemon/entity.cpp.
use nonsense.Base.{
  ℕ, zero, suc, String, ◌≡◌, refl, sym, ap, ◌∙◌, subst, inl, inr, Bool, true, false, Option, none,
  some, List, ◌∷◌, arith, if◌then◌else◌,
}
use nonsense.Bus.{Flow, Handler, go, replies, crashes, spins, ◌>>◌, Flow-cases}
use nonsense.Bus.Effects.{bind_after, bind-Stopped}
use nonsense.Json.{JsonLib}
use nonsense.Entity.Answers.{StartAnswers}
use nonsense.Entity.State.{Daemon, among, pid_of, restore, with_token}
use nonsense.Entity.Lifecycle.{uplink_in, start_uplink, start_self, start_unless, start}
use nonsense.Entity.Parts.{Core, Enlists, start_self-Enlists}
use nonsense.Entity.Supported.{
  IsLive, Grows, Grows-more, IsLive-more, Uplink, Supported, Supported-more,
}
use nonsense.Entity.UplinkStarts.{Starts, StartsUplink, named-Starts}

module _ (json : JsonLib) (config : json.Value) where
  open json use {Value, as_string, find}

  pub restore-live :
      (held : List String) (o : Flow (Unit {0})) (t : Daemon json)
      → ((restore json held (o, t)).1.live ≡ t.live) × ((restore json held (o, t)).0 ≡ o)
  restore-live held (go a) t = (refl, refl)
  restore-live held (replies r) t = (refl, refl)
  restore-live held crashes t = (refl, refl)
  restore-live held spins t = (refl, refl)

  module _ (name : String) (s : Daemon json) where
    held-Starts :
        (b : Bool) {q : Flow (Unit {0}) × Daemon json}
        → Starts json config name s q
        → Starts json config name s (if b then (spins, s) else q)
    held-Starts true d = record { grows = λ n i. i; supported = λ k. k; live = λ g. absurd (cc) }
    held-Starts false d = d

    restored-Starts :
        (q : Flow (Unit {0}) × Daemon json)
        → Starts json config name s q
        → Starts json config name s (restore json s.held q)
    restored-Starts (o, t) d =
        let (l, f) = restore-live s.held o t in
        record {
          grows = subst (Grows s.live) (sym l) d.grows;
          supported = λ k. subst (Supported json config) (sym l) (d.supported k);
          live = λ g. subst (IsLive name) (sym l) (d.live (sym f ∙ g));
        }

    -- The state in which the coroutine holds the token.
    abbrev taken : Daemon json
    taken = record s { held = name ∷ s.held }

    with_token-Starts :
        (body : Handler (Daemon json) (Unit {0}))
        → Starts json config name taken (body taken)
        → Starts json config name s (with_token json name body s)
    unfolding with_token
    with_token-Starts body d = held-Starts (among name s.held) (
        restored-Starts (body taken)
          (record { grows = d.grows; supported = d.supported; live = d.live }))

  -- The start of the entity itself, once the uplink's is over.
  self-Starts :
      (name : String) (s : Daemon json) (q : Flow (Unit {0}) × Daemon json)
      → ((uplink : String) → Uplink json config name uplink → IsLive uplink s.live)
      → Enlists json config name s q
      → Starts json config name s q
  self-Starts name s q up (inl (e, f)) =
      let same = ap (λ (c : Core json). c.live) e in
      record {
        grows = subst (Grows s.live) (sym same) (λ n i. i);
        supported = subst (Supported json config) (sym same);
        live = λ g. absurd (f g);
      }
  self-Starts name s q up (inr (pid, e)) =
      let same = ap (λ (c : Core json). c.live) e in
      record {
        grows = subst (Grows s.live) (sym same) (Grows-more s.live name pid);
        supported = λ k.
            subst (Supported json config) (sym same)
              (Supported-more json config s.live name pid up k);
        live = λ g. subst (IsLive name) (sym same) (IsLive-more s.live name pid);
      }

  sequence-Starts :
      (name : String) (self : Value) (m n : Handler (Daemon json) (Unit {0})) (s : Daemon json)
      → find config name ≡ some self
      → StartsUplink json config (uplink_in json config (find self "network")) s (m s)
      → ((t : Daemon json) → Enlists json config name t (n t))
      → Starts json config name s ((m >> n) s)
  sequence-Starts name self m n s f d e = elim (Flow-cases (m s).0) [
    | inl (u, g) ↦
        let next =
          self-Starts name (m s).1 (n (m s).1)
            (λ uplink w. d.live g w.value uplink (there uplink w) w.text) (e (m s).1) in
        subst (Starts json config name s) (sym (bind_after m (λ u. n) s u g)) (record {
          grows = λ other i. next.grows other (d.grows other i);
          supported = λ k. next.supported (d.supported k);
          live = next.live;
        })
    | inr k ↦
        let stopped = bind-Stopped m (λ u. n) s k in
        record {
          grows = subst (λ (t : Daemon json). Grows s.live t.live) (sym stopped.0) d.grows;
          supported = λ h.
              subst (λ (t : Daemon json). Supported json config t.live) (sym stopped.0)
                (d.supported h);
          live = λ g. absurd (stopped.1 tt g);
        }
  ]
    where
      there :
          (uplink : String) (w : Uplink json config name uplink)
          → uplink_in json config (find self "network") ≡ some w.value
      there uplink w =
          subst (λ entity. uplink_in json config (find entity "network") ≡ some w.value)
            (ground (arith, w.found)) w.there

  module _ (answers : String → StartAnswers) where
    unless-Starts :
        (name : String) (work : Handler (Daemon json) (Unit {0})) (o : Option ℕ) (s : Daemon json)
        → pid_of name s.live ≡ o
        → Starts json config name s (work s)
        → Starts json config name s (start_unless json config answers work o s)
    unless-Starts name work none s e d = d
    unless-Starts name work (some pid) s e d = record {
      grows = λ n i. i;
      supported = λ k. k;
      live = λ g. (pid, e);
    }

    pub start-Starts :
        (fuel : ℕ) (name : String) (self : Value) (s : Daemon json)
        → find config name ≡ some self
        → Starts json config name s (start json config answers fuel name self s)
    unfolding start
    start-Starts zero name self s f = record {
      grows = λ n i. i;
      supported = λ k. k;
      live = λ g. absurd (cc);
    }
    start-Starts (suc fuel) name self s f = with_token-Starts name s work (
        unless-Starts name both (pid_of name s.live) (taken name s) refl (
          sequence-Starts name self uplink own (taken name s) f
            (named-Starts json config (start json config answers fuel)
              (λ n v t e. start-Starts fuel n v t e) (uplink_in json config (find self "network"))
              (taken name s))
            (start_self-Enlists json config fuel name (answers name) self)))
      where
        uplink : Handler (Daemon json) (Unit {0})
        uplink = start_uplink json config (start json config answers fuel) self

        own : Handler (Daemon json) (Unit {0})
        own = start_self json config fuel name (answers name) self

        both : Handler (Daemon json) (Unit {0})
        both = do uplink; own

        work : Handler (Daemon json) (Unit {0})
        work t = start_unless json config answers both (pid_of name t.live) t

    -- Whatever the calls answer and however `start` ends: if the uplink of every live entity was
    -- live before, it is so after, and no entity has stopped being live.
    pub start-Supported :
        (fuel : ℕ) (name : String) (self : Value) (s : Daemon json)
        → find config name ≡ some self
        → Supported json config s.live
        → Supported json config (start json config answers fuel name self s).1.live
          × Grows s.live (start json config answers fuel name self s).1.live
    start-Supported fuel name self s f k =
        let d = start-Starts fuel name self s f in (d.supported k, d.grows)

    -- Where `start` succeeds, the entity is live, and so is its uplink, if the uplink of every live
    -- entity was live before.
    pub start-IsLive :
        (fuel : ℕ) (name : String) (self : Value) (s : Daemon json)
        → find config name ≡ some self
        → Supported json config s.live
        → (start json config answers fuel name self s).0 ≡ go tt
        → IsLive name (start json config answers fuel name self s).1.live
          × ((uplink : String)
              → Uplink json config name uplink
              → IsLive uplink (start json config answers fuel name self s).1.live)
    start-IsLive fuel name self s f k g =
        let d = start-Starts fuel name self s f in
        (d.live g, λ uplink u. d.supported k name uplink (d.live g) u)
