-- ===== src/Entity/Total.antt =====
-- The start of an entity along its uplinks, when no call fails and the
-- uplinks do not lead round in a circle: `entity::start` of daemon/entity.cpp.
use nonsense.Base.{
  ℕ, zero, suc, String, ◌≡◌, ◌≤◌, refl, sym, ap, ◌∙◌, subst, inl, inr, true, false, some, List, ◌∷◌,
  arith, str_eq, eq_iff, Bool-cases, Option-cases,
}
use nonsense.Bus.{Flow, Handler, go, replies, crashes, spins}
use nonsense.Bus.Effects.{bind_after}
use nonsense.Bus.Ends.{Ends}
use nonsense.Json.{JsonLib}
use nonsense.Entity.Answers.{StartAnswers}
use nonsense.Entity.State.{Daemon, among, pid_of, restore}
use nonsense.Entity.Lifecycle.{start_named, uplink_in, start_uplink, start_self, started, start}
use nonsense.Entity.Waits.{start-free, started-new, start_named-uplink}
use nonsense.Entity.Finishes.{Cooperative, Members}
use nonsense.Entity.Components.{Descends, start_self-Ends}

module _ (json : JsonLib) where
  pub restore-go :
      (held : List String) (q : Flow (Unit {0}) × Daemon json)
      → q.0 ≡ go tt
      → ((restore json held q).0 ≡ go tt) × ((restore json held q).1.held ≡ held)
  restore-go held (go a, s) h = (h, refl)
  restore-go held (replies r, s) h = absurd (cc)
  restore-go held (crashes, s) h = absurd (cc)
  restore-go held (spins, s) h = absurd (cc)

module _ (json : JsonLib) (config : json.Value) where
  open json use {Value, is_object, as_string, find, items}

  module _ (answers : String → StartAnswers) (rank : String → ℕ)
      (d : Descends json config rank) where
    -- The tokens that are held belong to entities further down.
    abbrev pub Above : ℕ → List String → Type 0
    Above n held = (other : String) → among other held ≡ true → suc n ≤ rank other

    Above-more :
        (name : String) (n : ℕ) (held : List String)
        → suc n ≤ rank name
        → Above (rank name) held
        → Above n (name ∷ held)
    unfolding among
    Above-more name n held h a other m = elim (Bool-cases (str_eq name other)) [
      | inl y ↦ subst (λ o. suc n ≤ rank o) ((eq_iff name other).0 y) h
      | inr y ↦ let far = a other (rw y at m) in omega arith
    ]

    -- The uplink of an entity.
    uplink-ends :
        (begin : String → Value → Handler (Daemon json) (Unit {0})) (name : String) (self : Value)
        (s : Daemon json)
        → find config name ≡ some self
        → ((uplink : String) (entity : Value)
            → find config uplink ≡ some entity
            → is_object entity ≡ true
            → suc (rank uplink) ≤ rank name
            → (begin uplink entity s).0 ≡ go tt)
        → (start_uplink json config begin self s).0 ≡ go tt
    uplink-ends begin name self s f k = elim (Option-cases (find self "network")) [
      | inl e ↦ ap (λ o. (start_named json config begin (uplink_in json config o) s).0) e
      | inr (net, e) ↦ elim (Option-cases (find net "uplink")) [
        | inl g ↦
            ap (λ o. (start_named json config begin (uplink_in json config o) s).0) e
            ∙ ap (λ o. (start_named json config begin o s).0) g
        | inr (value, g) ↦
            let (w, r) = d.wire name self net value f e g in
            ap (λ (q : Flow (Unit {0}) × Daemon json). q.0)
              (start_named-uplink json config begin (uplink_in json config (find self "network"))
                value w.uplink w.entity s (ap (uplink_in json config) e ∙ g) w.text w.found)
            ∙ k w.uplink w.entity w.found w.entity_object r
      ]
    ]

    -- One start, once the uplink's comes to its end.
    step-go :
        (fuel : ℕ) (name : String) (self : Value) (s : Daemon json)
        → among name s.held ≡ false
        → (start_uplink json config
            (start json config answers fuel)
            self
            (record s { held = name ∷ s.held })).0
          ≡ go tt
        → Ends (start_self json config fuel name (answers name) self)
        → ((start json config answers (suc fuel) name self s).0 ≡ go tt)
          × ((start json config answers (suc fuel) name self s).1.held ≡ s.held)
    step-go fuel name self s free up own =
        subst (λ (q : Flow (Unit {0}) × Daemon json). (q.0 ≡ go tt) × (q.1.held ≡ s.held))
          (sym (start-free json config answers fuel name self s free))
          (restore-go json s.held (started json config answers begin fuel name self taken)
            (elim (Option-cases (pid_of name s.live)) [
              | inl e ↦
                  ap (λ (q : Flow (Unit {0}) × Daemon json). q.0)
                    (started-new json config answers begin fuel name self taken e
                      ∙ bind_after first (λ u. work) taken tt up)
                  ∙ (own.gives (first taken).1).1
              | inr (pid, e) ↦ rw e refl
            ]))
      where
        taken : Daemon json
        taken = record s { held = name ∷ s.held }

        begin : String → Value → Handler (Daemon json) (Unit {0})
        begin = start json config answers fuel

        first : Handler (Daemon json) (Unit {0})
        first = start_uplink json config begin self

        work : Handler (Daemon json) (Unit {0})
        work = start_self json config fuel name (answers name) self

    Above-free :
        (name : String) (held : List String) → Above (rank name) held → among name held ≡ false
    Above-free name held a = elim (Bool-cases (among name held)) [
      | inl y ↦ absurd (let far = a name y in omega arith)
      | inr y ↦ y
    ]

    pub start-go :
        ((name : String) → Cooperative (answers name))
        → ((name : String) (self : Value)
            → find config name ≡ some self
            → is_object self ≡ true
            → Members json self (items self))
        → (fuel : ℕ) (name : String) (self : Value) (s : Daemon json) → find config name ≡ some self
        → is_object self ≡ true
        → suc (suc (rank name)) ≤ fuel
        → Above (rank name) s.held
        → ((start json config answers fuel name self s).0 ≡ go tt)
          × ((start json config answers fuel name self s).1.held ≡ s.held)
    start-go c m zero name self s f b h a = absurd (omega arith)
    start-go c m (suc fuel) name self s f b h a =
        step-go fuel name self s (Above-free name s.held a)
          (uplink-ends (start json config answers fuel) name self
            (record s { held = name ∷ s.held }) f
            λ uplink entity g o r.
              (start-go c m fuel uplink entity (record s { held = name ∷ s.held }) g o (omega arith)
                (Above-more name (rank uplink) s.held r a)).0)
          (start_self-Ends json config rank d fuel name (answers name) self (c name) f (omega arith)
            (m name self f b))
