-- ===== src/Entity/Interleaved.antt =====
-- Several starts and stops at once: the coroutines of `entity::start` and `entity::stop` of
-- daemon/entity.cpp, cut at the points where another one may run. A coroutine and those that it
-- waits for are one task: the tokens that they hold, the last one first, the token that the last
-- one waits for, and whether it is a stop.
use nonsense.Base.{ℕ, String, ◌≡◌, Bool, true, false, Option, none, some, List, [], ◌∷◌, ◌++◌}
use nonsense.Json.{JsonLib}
use nonsense.Entity.State.{among, pid_of, removed, without}
use nonsense.Entity.Lifecycle.{uplink_in}

pub record Task : Type 0 where
  pub holds : List String
  pub wants : Option String
  pub stops : Bool

-- The tasks, the names whose queue has `held` set, and the live entities. Who waits in which order
-- is left open: any task that waits may be the next to take a token.
pub record Daemon : Type 0 where
  pub tasks : List Task
  pub held : List String
  pub live : List (String × ℕ)

-- await_resume: `state.held = true`.
abbrev pub granted : String → List String → List String
granted name held = name ∷ held

-- ~queue_token: `state.held = false`, for each token that is given back.
unfoldable pub returned : List String → List String → List String
unfolding removed
returned [] held = held
returned (name ∷ rest) held = returned rest (removed name held)

module _ (json : JsonLib) (config : json.Value) where
  open json use {Value, as_string, find}

  abbrev pub name_in : Option Value → Option String
  name_in none = none
  name_in (some value) = as_string value

  abbrev pub uplink_at : Option Value → Option String
  uplink_at none = none
  uplink_at (some entity) = name_in (uplink_in json config (find entity "network"))

  -- The token that is asked for next: the uplink's, unless the entity is live.
  abbrev pub next_token : String → Option ℕ → Option String
  next_token name none = uplink_at (find config name)
  next_token name (some pid) = none

  -- A stop asks for no further token.
  abbrev pub wanted : Bool → String → Option ℕ → Option String
  wanted false name o = next_token name o
  wanted true name o = none

  -- A task that has got the token it waited for.
  abbrev pub enters : String → List (String × ℕ) → Task → Task
  enters name live task = record {
    holds = name ∷ task.holds;
    wants = wanted task.stops name (pid_of name live);
    stops = task.stops;
  }

  abbrev pub fresh_task : Bool → String → Task
  fresh_task stops name = record { holds = []; wants = some name; stops = stops }

  abbrev pub idle_task : List String → Task
  idle_task holds = record { holds = holds; wants = none; stops = false }

  -- What the daemon does between two points where a coroutine waits.
  pub data Step : Daemon → Daemon → Type 0 where
    -- a client asks for the start of an entity, or for its stop
    asks :
        {tasks : List Task} {held : List String} {live : List (String × ℕ)} (stops : Bool)
        (name : String)
        → Step
            (record { tasks = tasks; held = held; live = live })
            (record { tasks = fresh_task stops name ∷ tasks; held = held; live = live })
    -- `held` is not set for a token, and a task that waits for it takes it
    takes :
        (before : List Task) (task : Task) (after : List Task) {held : List String}
        {live : List (String × ℕ)} (name : String)
        → task.wants ≡ some name
        → among name held ≡ false
        → Step
            (record { tasks = before ++ (task ∷ after); held = held; live = live })
            (record {
              tasks = before ++ (enters name live task ∷ after);
              held = granted name held;
              live = live;
            })
    -- the process of an entity is there, and the task goes on
    enlists :
        (before : List Task) (task : Task) (after : List Task) {held : List String}
        {live : List (String × ℕ)} (name : String) (rest : List String) (pid : ℕ)
        → task.wants ≡ none
        → task.stops ≡ false
        → task.holds ≡ name ∷ rest
        → pid_of name live ≡ none
        → Step
            (record { tasks = before ++ (task ∷ after); held = held; live = live })
            (record { tasks = before ++ (task ∷ after); held = held; live = (name, pid) ∷ live })
    -- the process of an entity has shut down, and the stop goes on
    unlists :
        (before : List Task) (task : Task) (after : List Task) {held : List String}
        {live : List (String × ℕ)} (name : String) (rest : List String) (pid : ℕ)
        → task.wants ≡ none
        → task.stops ≡ true
        → task.holds ≡ name ∷ rest
        → pid_of name live ≡ some pid
        → Step
            (record { tasks = before ++ (task ∷ after); held = held; live = live })
            (record { tasks = before ++ (task ∷ after); held = held; live = without name live })
    -- the last start of a task ends with success, and its token is free
    ends :
        (before : List Task) (task : Task) (after : List Task) {held : List String}
        {live : List (String × ℕ)} (name : String) (rest : List String) (pid : ℕ)
        → task.wants ≡ none
        → task.stops ≡ false
        → task.holds ≡ name ∷ rest
        → pid_of name live ≡ some pid
        → Step
            (record { tasks = before ++ (task ∷ after); held = held; live = live })
            (record {
              tasks = before ++ (idle_task rest ∷ after);
              held = returned (name ∷ []) held;
              live = live;
            })
    -- it ends with an error reply, which ends all that wait for it; or a stop ends
    fails :
        (before : List Task) (task : Task) (after : List Task) {held : List String}
        {live : List (String × ℕ)} (name : String) (rest : List String)
        → task.wants ≡ none
        → task.holds ≡ name ∷ rest
        → Step
            (record { tasks = before ++ (task ∷ after); held = held; live = live })
            (record {
              tasks = before ++ (idle_task [] ∷ after);
              held = returned task.holds held;
              live = live;
            })

  pub data Run : Daemon → Daemon → Type 0 where
    stays : {s : Daemon} → Run s s
    steps : {s t u : Daemon} → Run s t → Step t u → Run s u

-- No task, no token held, and nothing live.
abbrev pub at_rest : Daemon
at_rest = record { tasks = []; held = []; live = [] }
