-- ===== src/Entity/Orderly.antt =====
-- The uplinks of the entities that are live, however starts and stops are interleaved:
-- `entity::start` and `entity::stop` of daemon/entity.cpp.
use nonsense.Base.{
  ℕ, ◌≤◌, sym, false, true, str_eq, eq_iff, Bool-cases, String, ◌≡◌, subst, inl, inr, none, List,
  [], ◌∷◌, ◌++◌, All, arith,
}
use nonsense.Json.{JsonLib}
use nonsense.Entity.State.{among, pid_of, without}
use nonsense.Entity.Supported.{IsLive, Grows-more, Supported, Supported-more}
use nonsense.Entity.Interleaved.{
  Task, Daemon, Step, Run, asks, takes, enlists, unlists, ends, fails, stays, steps, enters,
  idle_task, at_rest,
}
use nonsense.Entity.Progress.{All-at, All-put}
use nonsense.Entity.Exclusive.{times, holders, Agrees, holders-append, Run-Exclusive}
use nonsense.Entity.Stop.{pid_of-without}
use nonsense.Entity.Backed.{
  Top, nobody, HasNext, Backed, Sound, All-Grows, fresh-Sound, enters-Sound, ended, idle-Sound,
  backed, Uplink-HasNext,
}

module _ (json : JsonLib) (config : json.Value) where
  -- What the daemon does not check: an entity is not stopped while it is the uplink of a live entity,
  -- or of one whose token is held.
  abbrev pub Careful : {s t : Daemon} → Step json config s t → Type 0
  Careful (unlists before task after {held = held} {live = live} name rest pid w k e l) =
      (client : String)
      → HasNext json config name client
      → (pid_of client live ≡ none) × (among client held ≡ false)
  Careful _ = Unit

  abbrev pub Orderly : {s t : Daemon} → Run json config s t → Type 0
  Orderly stays = Unit
  Orderly (steps r k) = Orderly r × Careful k

  module _ (name : String) (live : List (String × ℕ)) where
    still_live :
        (other : String)
        → str_eq name other ≡ false
        → IsLive other live
        → IsLive other (without name live)
    still_live other n (pid, e) = (pid, ground (arith, pid_of-without name other live))

    was_live : (other : String) → IsLive other (without name live) → IsLive other live
    was_live other (pid, e) = (pid, ground (arith, pid_of-without name other live))

    other_than : (other : String) → IsLive other (without name live) → str_eq name other ≡ false
    other_than other (pid, e) = ground (arith, pid_of-without name other live)

    -- A task that neither holds the token of the entity nor of one that has it as its uplink.
    Sound-without :
        (t : Task)
        → times name t.holds ≡ 0
        → ((client : String) → HasNext json config name client → times client t.holds ≡ 0)
        → Sound json config live t
        → Sound json config (without name live) t
    Sound-without t z c s = record {
      chain = s.chain;
      waits = s.waits;
      ready = λ p w. top t.holds z c (s.ready p w);
    }
      where
        top :
            (l : List String)
            → times name l ≡ 0
            → ((client : String) → HasNext json config name client → times client l ≡ 0)
            → Top (Backed json config live) l
            → Top (Backed json config (without name live)) l
        top [] z c b = tt
        top (h ∷ l) z c (inl i) =
            inl (still_live h (ground (arith, eq_iff h name, eq_iff name h)) i)
        top (h ∷ l) z c (inr k) = inr λ u n. elim (Bool-cases (str_eq name u)) [
          | inr d ↦ still_live u d (k u n)
          | inl d ↦
              let here : HasNext json config name h =
                subst (λ (x : String). HasNext json config x h) (sym ((eq_iff name u).0 d)) n in
              absurd (ground (arith, c h here, eq_iff h h))
        ]

    All-without :
        (l : List Task)
        → holders name l ≡ 0
        → ((client : String) → HasNext json config name client → holders client l ≡ 0)
        → All (Sound json config live) l
        → All (Sound json config (without name live)) l
    All-without [] z c a = tt
    All-without (t ∷ l) z c (s, a) = (
      Sound-without t (omega (arith, z)) (λ client n. let k = c client n in omega arith) s,
      All-without l (omega (arith, z)) (λ client n. let k = c client n in omega arith) a,
    )

  All-unlisted :
      (name : String) (live : List (String × ℕ)) (before : List Task) (t : Task) (after : List Task)
      → holders name before ≡ 0
      → holders name after ≡ 0
      → ((client : String)
          → HasNext json config name client
          → (holders client before ≡ 0) × (holders client after ≡ 0))
      → t.stops ≡ true
      → All (Sound json config live) (before ++ (t ∷ after))
      → All (Sound json config (without name live)) (before ++ (t ∷ after))
  All-unlisted name live [] t after z y c p (s, a) = (
    record { chain = s.chain; waits = s.waits; ready = λ q w. absurd (ground arith) },
    All-without name live after y (λ client n. (c client n).1) a,
  )
  All-unlisted name live (x ∷ before) t after z y c p (s, a) = (
    Sound-without name live x (omega (arith, z)) (λ client n. let k = (c client n).0 in omega arith)
        s,
    All-unlisted name live before t after (omega (arith, z)) y
        (λ client n. let k = c client n in (omega (arith, k.0), k.1)) p a,
  )

  -- Nobody but the stop holds the token.
  alone :
      (name : String) (rest : List String) (before : List Task) (t : Task) (after : List Task)
      (held : List String)
      → t.holds ≡ name ∷ rest
      → Agrees json config (before ++ (t ∷ after)) held
      → (holders name before ≡ 0) × (holders name after ≡ 0)
  alone name rest before t after held e g =
      let h : holders name (before ++ (t ∷ after)) ≤ 1 = ground (arith, g name) in
      let k = holders-append name before (t ∷ after) in
      let own : 1 ≤ times name t.holds =
        subst (λ (l : List String). 1 ≤ times name l) (sym e) (ground (arith, eq_iff name name)) in
      (omega arith, omega arith)

  -- Nobody holds the token of an entity.
  nowhere :
      (client : String) (before : List Task) (t : Task) (after : List Task) (held : List String)
      → Agrees json config (before ++ (t ∷ after)) held
      → among client held ≡ false
      → (holders client before ≡ 0) × (holders client after ≡ 0)
  nowhere client before t after held g f =
      let k = holders-append client before (t ∷ after) in
      let z : holders client (before ++ (t ∷ after)) ≡ 0 = ground (arith, g client, f) in
      (omega arith, omega arith)

  Supported-without :
      (name : String) (live : List (String × ℕ))
      → ((client : String) → HasNext json config name client → pid_of client live ≡ none)
      → Supported json config live
      → Supported json config (without name live)
  Supported-without name live c k other uplink i u =
      let before = was_live name live other i in
      elim (Bool-cases (str_eq name uplink)) [
        | inr n ↦ still_live name live uplink n (k other uplink before u)
        | inl y ↦
            let next : HasNext json config name other =
              subst (λ (x : String). HasNext json config x other) (sym ((eq_iff name uplink).0 y))
                (Uplink-HasNext json config other uplink u) in
            absurd (ground (arith, before.1, c other next))
      ]

  abbrev Good : Daemon → Type 0
  Good s = All (Sound json config s.live) s.tasks × Supported json config s.live

  Step-Good :
      {s t : Daemon} (k : Step json config s t)
      → Careful k
      → Agrees json config s.tasks s.held
      → Good s
      → Good t
  Step-Good (asks {live = live} stops name) c x (a, k) =
      ((fresh-Sound json config live stops name, a), k)
  Step-Good (takes before task after {live = live} name w f) c x (a, k) = (
    All-put (Sound json config live) before task (enters json config name live task) after
        (enters-Sound json config name live task w
          (All-at (Sound json config live) before task after a))
        a,
    k,
  )
  Step-Good (enlists before task after {live = live} name rest pid w p e l) c x (a, k) = (
    All-Grows json config live ((name, pid) ∷ live) (before ++ (task ∷ after))
        (Grows-more live name pid) a,
    Supported-more json config live name pid
        (backed json config name live task rest w p e l
          (All-at (Sound json config live) before task after a))
        k,
  )
  Step-Good (unlists before task after {held = held} {live = live} name rest pid w p e l) c x
        (a, k) =
      let own = alone name rest before task after held e x in
      (
        All-unlisted name live before task after own.0 own.1
            (λ client n. nowhere client before task after held x (c client n).1) p a,
        Supported-without name live (λ client n. (c client n).0) k,
      )
  Step-Good (ends before task after {live = live} name rest pid w p e l) c x (a, k) = (
    All-put (Sound json config live) before task (idle_task json config rest) after
        (ended json config name live task.holds rest e (pid, l)
          (All-at (Sound json config live) before task after a).chain)
        a,
    k,
  )
  Step-Good (fails before task after {live = live} name rest w e) c x (a, k) = (
    All-put (Sound json config live) before task (idle_task json config []) after
        (idle-Sound json config live) a,
    k,
  )

  Run-Good : {s : Daemon} (r : Run json config at_rest s) → Orderly r → Good s
  Run-Good stays o = (tt, λ name uplink i u. absurd (nobody name i))
  Run-Good (steps r k) (o, c) = Step-Good k c (Run-Exclusive json config r) (Run-Good r o)

  -- However starts and stops of entities are interleaved, with failures and all, as long as no
  -- entity is taken out while it is the uplink of a live entity or of one whose token is held, the
  -- uplink of every live entity is live.
  pub Run-Supported :
      {s : Daemon} (r : Run json config at_rest s) → Orderly r → Supported json config s.live
  Run-Supported r o = (Run-Good r o).1
