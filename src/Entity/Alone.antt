-- ===== src/Entity/Alone.antt =====
-- A start by itself is one of the interleaved starts: `entity::start` of daemon/entity.cpp.
use nonsense.Base.{
  ℕ, zero, suc, String, ◌≡◌, refl, sym, ap, ◌∙◌, subst, inl, inr, true, false, Option, none, some,
  List, ◌∷◌, arith, str_eq, eq_iff, Bool-cases, Option-cases,
}
use nonsense.Bus.{Flow, Handler, go, ◌>>◌}
use nonsense.Bus.Effects.{bind-go}
use nonsense.Json.{JsonLib}
use nonsense.Entity.Answers.{StartAnswers}
use nonsense.Entity.State.{Daemon, among, pid_of}
use nonsense.Entity.Lifecycle.{start_named, uplink_in, start_uplink, start_self, started, start}
use nonsense.Entity.Parts.{Core, start_self-Enlists}
use nonsense.Entity.Starts.{restore-live}
use nonsense.Entity.Waits.{start-held, start-free, started-new, among_self}
use nonsense.Entity.Interleaved.{Run, name_in, uplink_at, next_token}
use nonsense.Entity.Refines.{
  one, Refines, named-Refines, enter-Run, leave-Run, enlist-Run, Run-trans,
}

module _ (json : JsonLib) (config : json.Value) where
  open json use {Value, find}

  -- An entity that is live behind those that were.
  kept-more :
      (name n : String) (pid : ℕ) (held : List String) (live : List (String × ℕ))
      → among name held ≡ false
      → among n held ≡ true
      → pid_of n ((name, pid) ∷ live) ≡ pid_of n live
  unfolding pid_of
  kept-more name n pid held live f a = elim (Bool-cases (str_eq name n)) [
    | inl y ↦
        absurd (ground (arith, subst (λ n. among n held ≡ true) (sym ((eq_iff name n).0 y)) a))
    | inr y ↦ rw y refl
  ]

  among-more :
      (n name : String) (held : List String) → among n held ≡ true → among n (name ∷ held) ≡ true
  unfolding among
  among-more n name held a = ground arith

  module _ (answers : String → StartAnswers) (fuel : ℕ) (name : String) (self : Value)
      (s : Daemon json) (f : find config name ≡ some self) (free : among name s.held ≡ false) where
    abbrev held_too : Daemon json
    held_too = record s { held = name ∷ s.held }

    -- What has to be shown of a start with the token.
    record Body (q : Flow (Unit {0}) × Daemon json) : Type 0 where
      run : Run json config (one s.held (some name) s.live) (one s.held none q.1.live)
      kept : (n : String) → among n s.held ≡ true → pid_of n q.1.live ≡ pid_of n s.live

    live-Body :
        (pid : ℕ) (q : Flow (Unit {0}) × Daemon json)
        → pid_of name s.live ≡ some pid
        → q.1.live ≡ s.live
        → Body q
    live-Body pid q e l = record {
      run =
          subst (λ live. Run json config (one s.held (some name) s.live) (one s.held none live))
            (sym l)
            (Run-trans json config
              (enter-Run json config name s.held s.live none free
                (ap (next_token json config name) e))
              (leave-Run json config name s.held s.live pid free e));
      kept = λ n a. ap (pid_of n) l;
    }

    new-Body :
        (t : Daemon json) (pid : ℕ) (q : Flow (Unit {0}) × Daemon json)
        → pid_of name s.live ≡ none
        → Refines json config
            (name_in json config (uplink_in json config (find self "network")))
            held_too
            (go tt, t)
        → q.1.live ≡ (name, pid) ∷ t.live
        → Body q
    new-Body t pid q e p l = record {
      run =
          subst (λ live. Run json config (one s.held (some name) s.live) (one s.held none live))
            (sym l)
            (Run-trans json config
              (enter-Run json config name s.held s.live
                (name_in json config (uplink_in json config (find self "network"))) free
                (ap (next_token json config name) e ∙ ap (uplink_at json config) f))
              (Run-trans json config p.run (
                enlist-Run json config name s.held t.live pid free
                  (p.kept name (among_self name s.held) ∙ e))));
      kept = λ n a.
          ap (pid_of n) l
          ∙ kept-more name n pid s.held t.live free a
          ∙ p.kept n (among-more n name s.held a);
    }

    module _ (begin : String → Value → Handler (Daemon json) (Unit {0})) where
      abbrev uplink_first : Handler (Daemon json) (Unit {0})
      uplink_first = start_uplink json config begin self

      abbrev own : Handler (Daemon json) (Unit {0})
      own = start_self json config fuel name (answers name) self

      -- The entity is not live.
      work-Body :
          ((o : Option Value) (t : Daemon json)
            → (start_named json config begin o t).0 ≡ go tt
            → Refines json config (name_in json config o) t (start_named json config begin o t))
          → pid_of name s.live ≡ none
          → ((uplink_first >> own) held_too).0 ≡ go tt
          → Body ((uplink_first >> own) held_too)
      work-Body b e g =
          let (u, h, same) = bind-go uplink_first (λ u. own) held_too tt g in
          let p = b (uplink_in json config (find self "network")) held_too h in
          subst Body (sym same)
            (elim (start_self-Enlists json config fuel name (answers name) self
              (uplink_first held_too).1) [
                | inl (c, n) ↦
                    absurd (n (ap (λ (q : Flow (Unit {0}) × Daemon json). q.0) (sym same) ∙ g))
                | inr (pid, c) ↦
                    new-Body (uplink_first held_too).1 pid (own (uplink_first held_too).1) e
                      (record { run = p.run; kept = p.kept }) (ap (λ (c : Core json). c.live) c)
              ])

      started-Body :
          ((o : Option Value) (t : Daemon json)
            → (start_named json config begin o t).0 ≡ go tt
            → Refines json config (name_in json config o) t (start_named json config begin o t))
          → (started json config answers begin fuel name self held_too).0 ≡ go tt
          → Body (started json config answers begin fuel name self held_too)
      started-Body b g = elim (Option-cases (pid_of name s.live)) [
        | inr (pid, e) ↦
            live-Body pid (started json config answers begin fuel name self held_too) e (rw e refl)
        | inl e ↦
            let same = started-new json config answers begin fuel name self held_too e in
            subst Body (sym same)
              (work-Body b e (ap (λ (q : Flow (Unit {0}) × Daemon json). q.0) (sym same) ∙ g))
      ]

  module _ (answers : String → StartAnswers) where
    start-Refines :
        (fuel : ℕ) (name : String) (self : Value) (s : Daemon json)
        → find config name ≡ some self
        → (start json config answers fuel name self s).0 ≡ go tt
        → Refines json config (some name) s (start json config answers fuel name self s)
    unfolding start
    start-Refines zero name self s f g = absurd (cc)
    start-Refines (suc fuel) name self s f g = elim (Bool-cases (among name s.held)) [
      | inl y ↦ absurd (
          ground (
            arith,
            sym (
                  ap (λ (q : Flow (Unit {0}) × Daemon json). q.0)
                    (start-held json config answers fuel name self s y))
                ∙ g,
          ))
      | inr free ↦
          let same = start-free json config answers fuel name self s free in
          let (l, o) =
            restore-live json config s.held
              (started json config answers (start json config answers fuel) fuel name self
                (record s { held = name ∷ s.held })).0
              (started json config answers (start json config answers fuel) fuel name self
                (record s { held = name ∷ s.held })).1 in
          let body =
            started-Body answers fuel name self s f free (start json config answers fuel)
              (named-Refines json config (start json config answers fuel) (start-Refines fuel))
              (sym o ∙ ap (λ (q : Flow (Unit {0}) × Daemon json). q.0) (sym same) ∙ g) in
          subst (Refines json config (some name) s) (sym same) (record {
            run =
                subst
                  (λ live. Run json config (one s.held (some name) s.live) (one s.held none live))
                  (sym l) body.run;
            kept = λ n a. ap (pid_of n) l ∙ body.kept n a;
          })
    ]

    -- A start that comes to its end with success by itself, whatever the calls answer, is one of
    -- the interleaved runs of a lone task: steps lead from where the task waits for the token of
    -- the entity to where it has given back all that it took, with the same live entities as after
    -- the start.
    pub start-Run :
        (fuel : ℕ) (name : String) (self : Value) (s : Daemon json)
        → find config name ≡ some self
        → (start json config answers fuel name self s).0 ≡ go tt
        → Run json config
            (one s.held (some name) s.live)
            (one s.held none (start json config answers fuel name self s).1.live)
    start-Run fuel name self s f g = (start-Refines fuel name self s f g).run
