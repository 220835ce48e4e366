-- ===== src/Entity/Waits.antt =====
-- Where `entity::start` waits for a token that it holds itself: `entity::enqueue` of
-- daemon/entity.cpp.
use nonsense.Base.{
  ℕ, zero, suc, String, ◌≡◌, refl, sym, ap, ◌∙◌, inl, inr, true, false, Option, none, some, List,
  [], ◌∷◌, arith, eq_iff, Bool-cases, subst,
}
use nonsense.Bus.{Flow, Handler, go, replies, crashes, spins, resume, ◌>>=◌, ◌>>◌}
use nonsense.Json.{JsonLib}
use nonsense.Entity.Answers.{StartAnswers}
use nonsense.Entity.State.{Daemon, among, pid_of, restore, with_token}
use nonsense.Entity.Lifecycle.{
  uplink_name, entity_of, start_named, uplink_in, start_uplink, start_self, start_unless, started,
  start,
}
use nonsense.Entity.Supported.{Uplink}

module _ (json : JsonLib) {A : Type 0} (name : String) (body : Handler (Daemon json) A)
    (s : Daemon json) where
  pub with_token-held : among name s.held ≡ true → with_token json name body s ≡ (spins, s)
  unfolding with_token
  with_token-held h = rw h refl

  pub with_token-free :
      among name s.held ≡ false
      → with_token json name body s ≡ restore json s.held (body (record s { held = name ∷ s.held }))
  unfolding with_token
  with_token-free h = rw h refl

pub among_self : (name : String) (l : List String) → among name (name ∷ l) ≡ true
unfolding among
among_self name l = ground (arith, eq_iff name name)

module _ (json : JsonLib) (config : json.Value) where
  open json use {Value, as_string, find}

  -- From `name`, which has been started on a way, the uplinks lead on to an entity on the way, and
  -- none of those before it is live.
  pub data Circles (live : List (String × ℕ)) : List String → String → Type 0 where
    closes : {way : List String} {name : String} → among name way ≡ true → Circles live way name
    climbs :
        {way : List String} {name uplink : String} {entity : Value}
        → pid_of name live ≡ none
        → Uplink json config name uplink
        → find config uplink ≡ some entity
        → Circles live (name ∷ way) uplink
        → Circles live way name

  -- The start of an entity whose uplink is known.
  pub start_named-uplink :
      (begin : String → Value → Handler (Daemon json) (Unit {0})) (o : Option Value) (value : Value)
      (name : String) (entity : Value) (s : Daemon json)
      → o ≡ some value
      → as_string value ≡ some name
      → find config name ≡ some entity
      → start_named json config begin o s ≡ begin name entity s
  start_named-uplink begin o value name entity s h e f =
      ap (λ p. start_named json config begin p s) h
      ∙ ap
          (λ p. (uplink_name json p >>= λ name. entity_of json (find config name) >>= begin name) s)
          e
      ∙ ap (λ p. (entity_of json p >>= begin name) s) f

  bind_spins :
      (m n : Handler (Daemon json) (Unit {0})) (s : Daemon json)
      → (m s).0 ≡ spins
      → ((m >> n) s).0 ≡ spins
  bind_spins m n s h = ap (λ (o : Flow (Unit {0})). (resume o (λ u. n) (m s).1).0) h

  restore-spins :
      (held : List String) (q : Flow (Unit {0}) × Daemon json)
      → q.0 ≡ spins
      → (restore json held q).0 ≡ spins
  restore-spins held (go a, s) h = absurd (cc)
  restore-spins held (replies r, s) h = absurd (cc)
  restore-spins held (crashes, s) h = absurd (cc)
  restore-spins held (spins, s) h = refl

  module _ (answers : String → StartAnswers) where
    -- What a start with the token comes to.
    pub start-held :
        (fuel : ℕ) (name : String) (self : Value) (s : Daemon json)
        → among name s.held ≡ true
        → start json config answers (suc fuel) name self s ≡ (spins, s)
    unfolding start
    start-held fuel name self s h =
        with_token-held json name
          (started json config answers (start json config answers fuel) fuel name self) s h

    pub start-free :
        (fuel : ℕ) (name : String) (self : Value) (s : Daemon json)
        → among name s.held ≡ false
        → start json config answers (suc fuel) name self s
          ≡ restore json s.held (
              started json config answers
                (start json config answers fuel)
                fuel
                name
                self
                (record s { held = name ∷ s.held }))
    unfolding start
    start-free fuel name self s h =
        with_token-free json name
          (started json config answers (start json config answers fuel) fuel name self) s h

    pub started-new :
        (begin : String → Value → Handler (Daemon json) (Unit {0})) (fuel : ℕ) (name : String)
        (self : Value) (t : Daemon json)
        → pid_of name t.live ≡ none
        → started json config answers begin fuel name self t
          ≡ (start_uplink json config begin self
                >> start_self json config fuel name (answers name) self)
              t
    started-new begin fuel name self t n =
        ap
          (λ o.
            start_unless json config answers
              (start_uplink json config begin self
                >> start_self json config fuel name (answers name) self)
              o t)
          n

    -- The step along an uplink.
    climb-spins :
        (fuel : ℕ) (name uplink : String) (self entity : Value) (s : Daemon json)
        → find config name ≡ some self
        → pid_of name s.live ≡ none
        → Uplink json config name uplink
        → find config uplink ≡ some entity
        → ((t : Daemon json)
            → t.live ≡ s.live
            → t.held ≡ name ∷ s.held
            → (start json config answers fuel uplink entity t).0 ≡ spins)
        → (start json config answers (suc fuel) name self s).0 ≡ spins
    climb-spins fuel name uplink self entity s f n u e k = elim (Bool-cases (among name s.held)) [
      | inl y ↦ ap (λ (q : Flow (Unit {0}) × Daemon json). q.0) (start-held fuel name self s y)
      | inr y ↦
          ap (λ (q : Flow (Unit {0}) × Daemon json). q.0) (start-free fuel name self s y)
          ∙ restore-spins s.held (started json config answers begin fuel name self taken) (
              ap (λ (q : Flow (Unit {0}) × Daemon json). q.0)
                (started-new begin fuel name self taken n)
              ∙ bind_spins (start_uplink json config begin self)
                  (start_self json config fuel name (answers name) self) taken
                  (ap (λ (q : Flow (Unit {0}) × Daemon json). q.0)
                      (start_named-uplink begin (uplink_in json config (find self "network"))
                        u.value uplink entity taken there u.text e)
                    ∙ k taken refl refl))
    ]
      where
        taken : Daemon json
        taken = record s { held = name ∷ s.held }

        begin : String → Value → Handler (Daemon json) (Unit {0})
        begin = start json config answers fuel

        there : uplink_in json config (find self "network") ≡ some u.value
        there =
            subst (λ entity. uplink_in json config (find entity "network") ≡ some u.value)
              (ground (arith, u.found)) u.there

    circling-spins :
        (fuel : ℕ) (name : String) (self : Value) (s : Daemon json)
        → find config name ≡ some self
        → Circles s.live s.held name
        → (start json config answers fuel name self s).0 ≡ spins
    unfolding start
    circling-spins zero name self s f k = refl
    circling-spins (suc fuel) name self s f (closes h) =
        ap (λ (q : Flow (Unit {0}) × Daemon json). q.0) (start-held fuel name self s h)
    circling-spins (suc fuel) name self s f (climbs {uplink = uplink} {entity = entity} n u e k) =
        climb-spins fuel name uplink self entity s f n u e λ t l h.
          circling-spins fuel uplink entity t e (
            subst (λ live. Circles live t.held uplink) (sym l)
              (subst (λ held. Circles s.live held uplink) (sym h) k))

    -- Where no token is held, and the uplinks lead from an entity, over entities of the configuration
    -- of which none is live, back to one on the way, its start never comes to an end, whatever the
    -- calls answer and however much fuel there is.
    pub circle-spins :
        (fuel : ℕ) (name : String) (self : Value) (s : Daemon json)
        → find config name ≡ some self
        → s.held ≡ []
        → Circles s.live [] name
        → (start json config answers fuel name self s).0 ≡ spins
    circle-spins fuel name self s f e c =
        circling-spins fuel name self s f (subst (λ way. Circles s.live way name) (sym e) c)
