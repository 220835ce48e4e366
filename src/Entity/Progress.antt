-- ===== src/Entity/Progress.antt =====
-- No deadlock, however starts and stops are interleaved: `entity::enqueue` and `entity::start` of
-- daemon/entity.cpp.
use nonsense.Base.{
  ℕ, zero, suc, ◌≤◌, String, Bool, ◌≡◌, refl, ap, subst, ◌⊎◌, inl, inr, true, false, Option, none,
  some, List, [], ◌∷◌, ◌++◌, All, arith, str_eq, eq_iff, Bool-cases, Option-cases,
}
use nonsense.Json.{JsonLib}
use nonsense.Entity.State.{among, pid_of}
use nonsense.Entity.Lifecycle.{uplink_in}
use nonsense.Entity.Exclusive.{holders, Agrees, among-times, Run-Exclusive}
use nonsense.Entity.Supported.{Uplink}
use nonsense.Entity.Interleaved.{
  Task, Daemon, Step, Run, asks, takes, enlists, unlists, ends, fails, stays, steps, enters,
  idle_task, at_rest, uplink_at, wanted,
}

-- A task with a property.
pub record Focus (P : Task → Type 0) (tasks : List Task) : Type 0 where
  pub before : List Task
  pub task : Task
  pub after : List Task
  pub tasks_are : tasks ≡ before ++ (task ∷ after)
  pub holds : P task

-- A task that has come to its end.
abbrev pub Over : Task → Type 0
Over t = (t.wants ≡ none) × (t.holds ≡ [])

-- A task that waits for no token, and has one.
abbrev pub AtWork : Task → Type 0
AtWork t = (name : String) × (rest : List String) × (t.wants ≡ none) × (t.holds ≡ name ∷ rest)

-- A task that waits for a token whose queue does not have its flag set.
abbrev pub MayTake : List String → Task → Type 0
MayTake held t = (name : String) × (t.wants ≡ some name) × (among name held ≡ false)

abbrev pub Waits : Task → Type 0
Waits t = (name : String) × (t.wants ≡ some name)

later : {P : Task → Type 0} (t : Task) (tasks : List Task) → Focus P tasks → Focus P (t ∷ tasks)
later t tasks f = record {
  before = t ∷ f.before;
  task = f.task;
  after = f.after;
  tasks_are = ap (λ l. t ∷ l) f.tasks_are;
  holds = f.holds;
}

module _ (P : Task → Type 0) where
  pub All-at :
      (before : List Task) (t : Task) (after : List Task) → All P (before ++ (t ∷ after)) → P t
  All-at [] t after (p, a) = p
  All-at (x ∷ before) t after (p, a) = All-at before t after a

  pub All-put :
      (before : List Task) (t u : Task) (after : List Task)
      → P u
      → All P (before ++ (t ∷ after))
      → All P (before ++ (u ∷ after))
  All-put [] t u after q (p, a) = (q, a)
  All-put (x ∷ before) t u after q (p, a) = (p, All-put before t u after q a)

holder :
    (name : String) (tasks : List Task)
    → 1 ≤ holders name tasks
    → Focus (λ t. among name t.holds ≡ true) tasks
holder name [] h = absurd (omega arith)
holder name (t ∷ tasks) h = elim (Bool-cases (among name t.holds)) [
  | inl y ↦ record { before = []; task = t; after = tasks; tasks_are = refl; holds = y }
  | inr n ↦
      let z = among-times name t.holds n in later t tasks (holder name tasks (omega (arith, h, z)))
]

List-cases :
    (l : List String) → (l ≡ []) ⊎ ((name : String) × (rest : List String) × (l ≡ name ∷ rest))
List-cases [] = inl refl
List-cases (name ∷ rest) = inr (name, rest, refl)

-- What a task does.
kind : (t : Task) → Over t ⊎ (AtWork t ⊎ Waits t)
kind t = elim (Option-cases t.wants) [
  | inr (name, e) ↦ inr (inr (name, e))
  | inl e ↦ elim (List-cases t.holds) [
    | inl f ↦ inl (e, f)
    | inr (name, rest, f) ↦ inr (inl (name, rest, e, f))
  ]
]

first : {P : Task → Type 0} (t : Task) (tasks : List Task) → P t → Focus P (t ∷ tasks)
first t tasks p = record { before = []; task = t; after = tasks; tasks_are = refl; holds = p }

nothing : (name : String) (l : List String) → l ≡ [] → among name l ≡ true → ⊥
unfolding among
nothing name [] e m = cc
nothing name (x ∷ l) e m = cc

-- All tasks are over, or one is at work or waits.
look : (tasks : List Task) → All Over tasks ⊎ (Focus AtWork tasks ⊎ Focus Waits tasks)
look [] = inl tt
look (t ∷ tasks) = elim (kind t) [
  | inr (inl w) ↦ inr (inl (first t tasks w))
  | inr (inr w) ↦ inr (inr (first t tasks w))
  | inl o ↦ elim (look tasks) [
    | inl a ↦ inl (o, a)
    | inr (inl f) ↦ inr (inl (later t tasks f))
    | inr (inr f) ↦ inr (inr (later t tasks f))
  ]
]

module _ (json : JsonLib) (config : json.Value) (rank : String → ℕ) where
  open json use {as_string, find}

  -- What a task waits for lies below all that it holds.
  abbrev Below : Task → Type 0
  Below t = (w h : String) → t.wants ≡ some w → among h t.holds ≡ true → suc (rank w) ≤ rank h

  pub uplink_at-Uplink :
      (name uplink : String)
      → uplink_at json config (find config name) ≡ some uplink
      → Uplink json config name uplink
  uplink_at-Uplink name uplink e = elim (Option-cases (find config name)) [
    | inl f ↦ absurd (ground arith)
    | inr (entity, f) ↦ elim (Option-cases (uplink_in json config (find entity "network"))) [
      | inl g ↦ absurd (ground arith)
      | inr (value, g) ↦ record {
        entity = entity;
        value = value;
        found = f;
        there = g;
        text = ground arith;
      }
    ]
  ]

  module _
      (descends : (name uplink : String)
        → Uplink json config name uplink
        → suc (rank uplink) ≤ rank name) where
    next-below :
        (stops : Bool) (name w : String) (o : Option ℕ)
        → wanted json config stops name o ≡ some w
        → suc (rank w) ≤ rank name
    next-below false name w none e = descends name w (uplink_at-Uplink name w e)
    next-below false name w (some pid) e = absurd (cc)
    next-below true name w o e = absurd (cc)

    enters-Below :
        (name : String) (live : List (String × ℕ)) (t : Task)
        → t.wants ≡ some name
        → Below t
        → Below (enters json config name live t)
    unfolding among
    enters-Below name live t e b w h n a = elim (Bool-cases (str_eq name h)) [
      | inl y ↦
          subst (λ h. suc (rank w) ≤ rank h) ((eq_iff name h).0 y)
            (next-below t.stops name w (pid_of name live) n)
      | inr y ↦
          let near = next-below t.stops name w (pid_of name live) n in
          let far = b name h e (rw y at a) in omega arith
    ]

    Step-Below : {s t : Daemon} → Step json config s t → All Below s.tasks → All Below t.tasks
    unfolding among
    Step-Below (asks stops name) a = (λ w h e n. absurd (cc), a)
    Step-Below (takes before task after {live = live} name w f) a =
        All-put Below before task (enters json config name live task) after
          (enters-Below name live task w (All-at Below before task after a)) a
    Step-Below (enlists before task after name rest pid w k e l) a = a
    Step-Below (unlists before task after name rest pid w k e l) a = a
    Step-Below (ends before task after name rest pid w k e l) a =
        All-put Below before task (idle_task json config rest) after (λ w h e n. absurd (cc)) a
    Step-Below (fails before task after name rest w e) a =
        All-put Below before task (idle_task json config []) after (λ w h e n. absurd (cc)) a

    Run-Below : {s : Daemon} → Run json config at_rest s → All Below s.tasks
    Run-Below stays = tt
    Run-Below (steps r k) = Step-Below k (Run-Below r)

    -- Along the tasks that hold what is waited for.
    descend :
        (n : ℕ) (tasks : List Task) (held : List String) (name : String)
        → Agrees json config tasks held
        → All Below tasks
        → suc (rank name) ≤ n
        → Focus (λ t. t.wants ≡ some name) tasks
        → Focus AtWork tasks ⊎ Focus (MayTake held) tasks
    descend zero tasks held name g a r f = absurd (omega arith)
    descend (suc n) tasks held name g a r f = elim (Bool-cases (among name held)) [
      | inr free ↦ inr (record {
        before = f.before;
        task = f.task;
        after = f.after;
        tasks_are = f.tasks_are;
        holds = (name, f.holds, free);
      })
      | inl y ↦
          let at = holder name tasks (ground (arith, g name, y)) in
          elim (kind at.task) [
            | inl (e, o) ↦ absurd (nothing name at.task.holds o at.holds)
            | inr (inl w) ↦ inl (record {
              before = at.before;
              task = at.task;
              after = at.after;
              tasks_are = at.tasks_are;
              holds = w;
            })
            | inr (inr (w, e)) ↦
                let far =
                  All-at Below at.before at.task at.after (subst (All Below) at.tasks_are a) w name
                    e at.holds in
                descend n tasks held w g a (omega arith) (record {
                  before = at.before;
                  task = at.task;
                  after = at.after;
                  tasks_are = at.tasks_are;
                  holds = e;
                })
          ]
    ]

    -- However starts and stops are interleaved, where the uplinks do not lead round in a circle: all of
    -- them are over, or one waits for no token, or one waits for a token whose flag is not set.
    pub Run-progress :
        {s : Daemon}
        → Run json config at_rest s
        → All Over s.tasks ⊎ (Focus AtWork s.tasks ⊎ Focus (MayTake s.held) s.tasks)
    Run-progress {s = s} r = elim (look s.tasks) [
      | inl a ↦ inl a
      | inr (inl w) ↦ inr (inl w)
      | inr (inr f) ↦
          let (name, e) = f.holds in
          inr (
            descend (suc (rank name)) s.tasks s.held name (Run-Exclusive json config r)
              (Run-Below r) (omega arith)
              (record {
                before = f.before;
                task = f.task;
                after = f.after;
                tasks_are = f.tasks_are;
                holds = e;
              }))
    ]
