-- ===== src/Entity/Refines.antt =====
-- The steps of a lone task among the interleaved starts: `entity::start` of daemon/entity.cpp.
use nonsense.Base.{
  ℕ, String, ◌≡◌, refl, subst, true, false, Option, none, some, List, [], ◌∷◌, arith, eq_iff,
}
use nonsense.Bus.{Flow, Handler, go, ◌>>=◌}
use nonsense.Json.{JsonLib}
use nonsense.Entity.State.{Daemon, among, removed, pid_of}
use nonsense.Entity.Lifecycle.{uplink_name, entity_of, start_named}
use nonsense.Entity.Interleaved.{
  Task, Step, Run, takes, enlists, ends, stays, steps, enters, returned, name_in, uplink_at,
  next_token,
}
use nonsense.Entity.Interleaved

-- One task.
abbrev pub one : List String → Option String → List (String × ℕ) → Interleaved.Daemon
one holds wants live = record {
  tasks = record { holds = holds; wants = wants; stops = false } ∷ [];
  held = holds;
  live = live;
}

-- Who gives back the last token that was taken has the others.
removed-free :
    (name : String) (held : List String) → among name held ≡ false → removed name held ≡ held
unfolding among removed
removed-free name [] f = refl
removed-free name (other ∷ held) f = ground (arith, removed-free name held)

module _ (json : JsonLib) (config : json.Value) where
  open json use {Value, as_string, find}

  pub Run-trans :
      {s t u : Interleaved.Daemon} → Run json config s t → Run json config t u → Run json config s u
  Run-trans r stays = r
  Run-trans r (steps q k) = steps (Run-trans r q) k

  -- The steps from the token that is waited for to its return; who holds a token does not become
  -- live.
  pub record Refines (wants : Option String) (s : Daemon json) (q : Flow (Unit {0}) × Daemon json)
      : Type 0 where
    pub run : Run json config (one s.held wants s.live) (one s.held none q.1.live)
    pub kept : (n : String) → among n s.held ≡ true → pid_of n q.1.live ≡ pid_of n s.live

  module _ (begin : String → Value → Handler (Daemon json) (Unit {0})) where
    entity-Refines :
        ((name : String) (self : Value) (s : Daemon json)
          → find config name ≡ some self
          → (begin name self s).0 ≡ go tt
          → Refines (some name) s (begin name self s))
        → (name : String) (o : Option Value) (s : Daemon json) → find config name ≡ o
        → ((entity_of json o >>= begin name) s).0 ≡ go tt
        → Refines (some name) s ((entity_of json o >>= begin name) s)
    entity-Refines b name none s f g = absurd (cc)
    entity-Refines b name (some entity) s f g = b name entity s f g

    name-Refines :
        ((name : String) (self : Value) (s : Daemon json)
          → find config name ≡ some self
          → (begin name self s).0 ≡ go tt
          → Refines (some name) s (begin name self s))
        → (o : Option String) (s : Daemon json)
        → ((uplink_name json o >>= λ name. entity_of json (find config name) >>= begin name) s).0
          ≡ go tt
        → Refines o s
            ((uplink_name json o >>= λ name. entity_of json (find config name) >>= begin name) s)
    name-Refines b none s g = absurd (cc)
    name-Refines b (some name) s g = entity-Refines b name (find config name) s refl g

    pub named-Refines :
        ((name : String) (self : Value) (s : Daemon json)
          → find config name ≡ some self
          → (begin name self s).0 ≡ go tt
          → Refines (some name) s (begin name self s))
        → (o : Option Value) (s : Daemon json) → (start_named json config begin o s).0 ≡ go tt
        → Refines (name_in json config o) s (start_named json config begin o s)
    named-Refines b none s g = record { run = stays; kept = λ n a. refl }
    named-Refines b (some value) s g = name-Refines b (as_string value) s g

  -- The steps of a task that takes a free token.
  pub enter-Run :
      (name : String) (held : List String) (live : List (String × ℕ)) (wants : Option String)
      → among name held ≡ false
      → next_token json config name (pid_of name live) ≡ wants
      → Run json config (one held (some name) live) (one (name ∷ held) wants live)
  enter-Run name held live wants f e =
      subst (λ w. Run json config (one held (some name) live) (one (name ∷ held) w live)) e
        (steps stays
          (takes [] (record { holds = held; wants = some name; stops = false }) [] name refl f))

  pub leave-Run :
      (name : String) (held : List String) (live : List (String × ℕ)) (pid : ℕ)
      → among name held ≡ false
      → pid_of name live ≡ some pid
      → Run json config (one (name ∷ held) none live) (one held none live)
  unfolding removed returned
  leave-Run name held live pid f e =
      subst
        (λ flags. Run json config (one (name ∷ held) none live) (record {
          tasks = record { holds = held; wants = none; stops = false } ∷ [];
          held = flags;
          live = live;
        }))
        (ground (arith, removed-free name held f, eq_iff name name))
        (steps stays (
          ends [] (record { holds = name ∷ held; wants = none; stops = false }) [] name held pid
            refl refl refl e))

  pub enlist-Run :
      (name : String) (held : List String) (live : List (String × ℕ)) (pid : ℕ)
      → among name held ≡ false
      → pid_of name live ≡ none
      → Run json config (one (name ∷ held) none live) (one held none ((name, pid) ∷ live))
  unfolding pid_of
  enlist-Run name held live pid f e =
      Run-trans
        (steps stays (
          enlists [] (record { holds = name ∷ held; wants = none; stops = false }) [] name held pid
            refl refl refl e))
        (leave-Run name held ((name, pid) ∷ live) pid f (ground (arith, eq_iff name name)))
