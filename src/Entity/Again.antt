-- ===== src/Entity/Again.antt =====
-- A second start after one that failed: `entity::start` of daemon/entity.cpp.
use nonsense.Base.{ℕ, suc, String, ◌≡◌, refl, sym, ap, ◌∙◌, subst, false, none, List, ◌∷◌, arith}
use nonsense.Bus.{Flow, Reply, go, replies, crashes, spins, modify, ◌>>◌}
use nonsense.Bus.Effects.{bind_after}
use nonsense.Json.{JsonLib}
use nonsense.Entity.Answers.{StartAnswers}
use nonsense.Entity.State.{Daemon, among, pid_of, restore, enlist}
use nonsense.Entity.Lifecycle.{
  launch, run_entity, start_named, uplink_in, start_uplink, start_self, start_unless, start,
}
use nonsense.Entity.Supported.{IsLive, IsLive-more}
use nonsense.Entity.Parts.{Core, launch-Keeps, run_entity-Keeps}
use nonsense.Entity.Waits.{start-free, started-new}

module _ (json : JsonLib) (config : json.Value) (answers : String → StartAnswers) where
  open json use {Value, find}

  -- A start of an entity that is live.
  pub start-live :
      (fuel : ℕ) (name : String) (self : Value) (s : Daemon json)
      → among name s.held ≡ false
      → IsLive name s.live
      → start json config answers (suc fuel) name self s ≡ (go tt, s)
  start-live fuel name self s f (pid, e) =
      start-free json config answers fuel name self s f
      ∙ ap
          (λ o. restore json s.held (
            start_unless json config answers
              (start_uplink json config (start json config answers fuel) self
                >> start_self json config fuel name (answers name) self)
              o (record s { held = name ∷ s.held })))
          e

  restore-replies :
      (held : List String) (q : Flow (Unit {0}) × Daemon json) (r : Reply)
      → q.0 ≡ replies r
      → restore json held q ≡ (replies r, record q.1 { held = held })
  restore-replies held (go a, s) r h = absurd (cc)
  restore-replies held (replies p, s) r h = ground arith
  restore-replies held (crashes, s) r h = absurd (cc)
  restore-replies held (spins, s) r h = absurd (cc)

  module _ (fuel : ℕ) (name : String) (self : Value) (s : Daemon json) where
    -- The state in which the entity has just become live.
    abbrev pub enlisted : ℕ → Daemon json
    enlisted pid = enlist json name pid (record s { held = name ∷ s.held })

    -- The start of an entity without an uplink, up to its process.
    start-run :
        (pid : ℕ)
        → among name s.held ≡ false
        → pid_of name s.live ≡ none
        → uplink_in json config (find self "network") ≡ none
        → (launch json (answers name) (record s { held = name ∷ s.held })).0 ≡ go pid
        → start json config answers (suc fuel) name self s
          ≡ restore json s.held
              (run_entity json config fuel name (answers name) self (enlisted pid))
    unfolding start_self
    start-run pid f n u l =
        start-free json config answers fuel name self s f
        ∙ ap (restore json s.held) (
            started-new json config answers (start json config answers fuel) fuel name self taken n
            ∙ ap
                (λ o.
                  (start_named json config (start json config answers fuel) o
                      >> start_self json config fuel name (answers name) self)
                    taken)
                u
            ∙ bind_after (launch json (answers name))
                (λ pid.
                  modify (enlist json name pid)
                  >> run_entity json config fuel name (answers name) self)
                taken pid l
            ∙ ap
                (λ t. run_entity json config fuel name (answers name) self (enlist json name pid t))
                ((launch-Keeps json {f = λ t. t} (answers name)).same taken))
      where
        taken : Daemon json
        taken = record s { held = name ∷ s.held }

    -- Where `start` has a process for an entity without an uplink, and then replies an error, the
    -- entity counts as live: the next `start` of it succeeds at once and does nothing.
    pub start-again :
        (pid : ℕ) (r : Reply)
        → among name s.held ≡ false
        → pid_of name s.live ≡ none
        → uplink_in json config (find self "network") ≡ none
        → (launch json (answers name) (record s { held = name ∷ s.held })).0 ≡ go pid
        → (run_entity json config fuel name (answers name) self (enlisted pid)).0 ≡ replies r
        → ((start json config answers (suc fuel) name self s).0 ≡ replies r)
          × (start json config answers
                (suc fuel)
                name
                self
                (start json config answers (suc fuel) name self s).1
              ≡ (go tt, (start json config answers (suc fuel) name self s).1))
    start-again pid r f n u l h =
        subst
          (λ (q : Flow (Unit {0}) × Daemon json).
            (q.0 ≡ replies r) × (start json config answers (suc fuel) name self q.1 ≡ (go tt, q.1)))
          (sym (start-run pid f n u l ∙ restore-replies s.held q r h))
          (
            refl,
            start-live fuel name self (record q.1 { held = s.held }) f
                (subst (IsLive name) (sym same) (IsLive-more s.live name pid)),
          )
      where
        q : Flow (Unit {0}) × Daemon json
        q = run_entity json config fuel name (answers name) self (enlisted pid)

        same : q.1.live ≡ (name, pid) ∷ s.live
        same =
            ap (λ (c : Core json). c.live)
              ((run_entity-Keeps json config fuel name (answers name) self).same (enlisted pid))
