-- ===== src/Entity/Stop.antt =====
-- Which entities are live after `entity::stop` of daemon/entity.cpp.
use nonsense.Base.{
  ℕ, String, ◌≡◌, refl, sym, ap, ◌∙◌, subst, ◌⊎◌, inl, inr, true, false, Option, none, some, List,
  [], ◌∷◌, arith, str_eq, eq_iff, Bool-cases, if◌then◌else◌,
}
use nonsense.Bus.{Flow, Handler, go, replies, crashes, spins, assert, modify, ◌>>◌, Flow-cases}
use nonsense.Bus.Effects.{Keeps, both, bind_after, bind-Stopped}
use nonsense.Bus.Ends.{Ends, both-Gives, assert-Ends, modify-Ends}
use nonsense.Json.{JsonLib}
use nonsense.Entity.Answers
use nonsense.Entity.Answers.{StopAnswers, called, job_done}
use nonsense.Entity.State.{
  Daemon, among, pid_of, without, removed, restore, slice_name, failed_to_stop,
}
use nonsense.Entity.Lifecycle.{stopping, stop}
use nonsense.Entity.Supported.{IsLive, Uplink, Supported}
use nonsense.Entity.Parts.{called-Keeps, assert-Keeps, job_done-Keeps}
use nonsense.Entity.Waits.{with_token-held, with_token-free}
use nonsense.Entity.Finishes.{JobDone, called-Ends, job_done-Ends}
use nonsense.Entity.Total.{restore-go}

-- Who is live without an entity.
pub pid_of-without :
    (name other : String) (l : List (String × ℕ))
    → pid_of other (without name l) ≡ (if str_eq name other then none else pid_of other l)
unfolding pid_of without
pid_of-without name other [] = ground arith
pid_of-without name other ((k, pid) ∷ l) =
    ground (arith, pid_of-without name other l, eq_iff k name, eq_iff k other, eq_iff name other)

IsLive-before :
    (name other : String) (l : List (String × ℕ)) → IsLive other (without name l) → IsLive other l
IsLive-before name other l (pid, e) = (pid, ground (arith, pid_of-without name other l))

IsLive-after :
    (name other : String) (l : List (String × ℕ))
    → str_eq name other ≡ false
    → IsLive other l
    → IsLive other (without name l)
IsLive-after name other l n (pid, e) = (pid, ground (arith, pid_of-without name other l))

-- No call fails, and nothing that is waited for stays away.
pub record CooperativeStop (a : StopAnswers) : Type 0 where
  pub shutdown : a.shutdown ≡ Answers.answers
  pub unregisters : a.unregisters ≡ true
  pub subscribes : a.subscribes ≡ true
  pub slice : JobDone a.slice

module _ (json : JsonLib) where
  open json use {Value}

  -- The live entities are as they were, or one has gone.
  abbrev Forgets : String → List (String × ℕ) → List (String × ℕ) → Type 0
  Forgets name l l' = (l' ≡ l) ⊎ (l' ≡ without name l)

  abbrev live_of : Daemon json → List (String × ℕ)
  live_of s = s.live

  abbrev forget : String → Daemon json → Daemon json
  forget name s = record s { live = without name s.live; polled = removed name s.polled }

  -- A part that leaves the live entities alone, and what stands behind it.
  after-Forgets :
      (name : String) (m n : Handler (Daemon json) (Unit {0})) (s : Daemon json)
      → Keeps live_of m
      → ((t : Daemon json) → Forgets name t.live (n t).1.live)
      → Forgets name s.live ((m >> n) s).1.live
  after-Forgets name m n s k d = elim (Flow-cases (m s).0) [
    | inl (u, e) ↦
        subst (λ (q : Flow (Unit {0}) × Daemon json). Forgets name s.live q.1.live)
          (sym (bind_after m (λ u. n) s u e))
          (subst (λ l. Forgets name l (n (m s).1).1.live) (k.same s) (d (m s).1))
    | inr stopped ↦ inl (ap live_of (bind-Stopped m (λ u. n) s stopped).0 ∙ k.same s)
  ]

  -- What stands behind the removal.
  abbrev closing : String → StopAnswers → Handler (Daemon json) (Unit {0})
  closing name a = do assert a.subscribes; job_done a.slice (failed_to_stop (slice_name name))

  closing-Keeps : (name : String) (a : StopAnswers) → Keeps live_of (closing name a)
  closing-Keeps name a =
      both (assert-Keeps a.subscribes)
        λ u. job_done-Keeps a.slice (failed_to_stop (slice_name name))

  closing-Ends : (name : String) (a : StopAnswers) → CooperativeStop a → Ends (closing name a)
  closing-Ends name a c =
      both-Gives (assert-Ends a.subscribes c.subscribes)
        λ u _. job_done-Ends a.slice (failed_to_stop (slice_name name)) c.slice

  stopping-Forgets :
      (name : String) (a : StopAnswers) (o : Option ℕ) (s : Daemon json)
      → Forgets name s.live (stopping json name a o s).1.live
  stopping-Forgets name a none s = inl refl
  stopping-Forgets name a (some pid) s =
      after-Forgets name (called a.shutdown) _ s (called-Keeps a.shutdown) λ t.
        after-Forgets name (assert a.unregisters) (modify (forget name) >> closing name a) t
          (assert-Keeps a.unregisters) λ u. inr ((closing-Keeps name a).same (forget name u))

  restore-kept :
      (held : List String) (q : Flow (Unit {0}) × Daemon json)
      → (restore json held q).1.live ≡ q.1.live
  restore-kept held (go a, s) = refl
  restore-kept held (replies r, s) = refl
  restore-kept held (crashes, s) = refl
  restore-kept held (spins, s) = refl

  module _ (name : String) (a : StopAnswers) (s : Daemon json) where
    stop-free :
        among name s.held ≡ false
        → stop json name a s
          ≡ restore json s.held
              (stopping json name a (pid_of name s.live) (record s { held = name ∷ s.held }))
    unfolding stop
    stop-free f = with_token-free json name (λ t. stopping json name a (pid_of name t.live) t) s f

    stop-held : among name s.held ≡ true → stop json name a s ≡ (spins, s)
    unfolding stop
    stop-held f = with_token-held json name (λ t. stopping json name a (pid_of name t.live) t) s f

    stop-Forgets : Forgets name s.live (stop json name a s).1.live
    stop-Forgets = elim (Bool-cases (among name s.held)) [
      | inl y ↦ inl (ap (λ (q : Flow (Unit {0}) × Daemon json). q.1.live) (stop-held y))
      | inr y ↦
          subst (λ (q : Flow (Unit {0}) × Daemon json). Forgets name s.live q.1.live)
            (sym (stop-free y))
            (subst (Forgets name s.live) (sym (restore-kept s.held body))
              (stopping-Forgets name a (pid_of name s.live) taken))
    ]
      where
        taken : Daemon json
        taken = record s { held = name ∷ s.held }

        body : Flow (Unit {0}) × Daemon json
        body = stopping json name a (pid_of name s.live) taken

  stopping-go :
      (name : String) (a : StopAnswers) (pid : ℕ) (s : Daemon json)
      → CooperativeStop a
      → (stopping json name a (some pid) s).0 ≡ go tt
  stopping-go name a pid s c =
      ((both-Gives (called-Ends a.shutdown c.shutdown) λ u _.
          both-Gives (assert-Ends a.unregisters c.unregisters)
            λ v _. both-Gives (modify-Ends (forget name)) λ w _. closing-Ends name a c).gives
        s).1

  abbrev pub Stops : String → Daemon json → Flow (Unit {0}) × Daemon json → Type 0
  Stops name s q =
      (q.0 ≡ go tt)
      × (q.1.held ≡ s.held)
      × ((other : String)
          → pid_of other q.1.live ≡ (if str_eq name other then none else pid_of other s.live))

  stopping-live :
      (name : String) (a : StopAnswers) (pid : ℕ) (s : Daemon json)
      → CooperativeStop a
      → (stopping json name a (some pid) s).1.live ≡ without name s.live
  stopping-live name a pid s c =
      ap (λ b. ((called b >> (assert a.unregisters >> ending)) s).1.live) c.shutdown
      ∙ ap (λ b. ((assert b >> ending) s).1.live) c.unregisters
      ∙ (closing-Keeps name a).same (forget name s)
    where
      ending : Handler (Daemon json) (Unit {0})
      ending = modify (forget name) >> closing name a

  -- Where the entity is live, its token is free and no call fails, `stop` comes to its end with
  -- success: the entity is no longer live, every other one is as it was, and the token is free
  -- again.
  pub stop-finishes :
      (name : String) (a : StopAnswers) (s : Daemon json)
      → CooperativeStop a
      → among name s.held ≡ false
      → IsLive name s.live
      → Stops name s (stop json name a s)
  stop-finishes name a s c f (pid, e) = subst (Stops name s) (sym (stop-free name a s f)) (
      subst (λ o. Stops name s (restore json s.held (stopping json name a o taken))) (sym e)
        (
          r.0,
          r.1,
          λ other.
              ap (pid_of other) (restore-kept s.held body ∙ stopping-live name a pid taken c)
              ∙ pid_of-without name other s.live,
        ))
    where
      taken : Daemon json
      taken = record s { held = name ∷ s.held }

      body : Flow (Unit {0}) × Daemon json
      body = stopping json name a (some pid) taken

      r : ((restore json s.held body).0 ≡ go tt) × ((restore json s.held body).1.held ≡ s.held)
      r = restore-go json s.held body (stopping-go name a pid taken c)

  module _ (config : Value) where
    -- However `stop` ends: if the uplink of every live entity was live, and the entity is the
    -- uplink of no live one, the uplink of every live entity is live after it.
    pub stop-Supported :
        (name : String) (a : StopAnswers) (s : Daemon json)
        → Supported json config s.live
        → ((other : String) → IsLive other s.live → ¬ Uplink json config other name)
        → Supported json config (stop json name a s).1.live
    stop-Supported name a s k n other uplink i u = elim (stop-Forgets name a s) [
      | inl e ↦ subst (IsLive uplink) (sym e) (k other uplink (subst (IsLive other) e i) u)
      | inr e ↦
          let before = IsLive-before name other s.live (subst (IsLive other) e i) in
          subst (IsLive uplink) (sym e) (
            IsLive-after name uplink s.live
              (elim (Bool-cases (str_eq name uplink)) [
                | inl y ↦ absurd (
                    n other before
                      (subst (Uplink json config other) (sym ((eq_iff name uplink).0 y)) u))
                | inr y ↦ y
              ])
              (k other uplink before u))
    ]
