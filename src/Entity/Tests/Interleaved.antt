-- ===== src/Entity/Tests/Interleaved.antt =====
-- Two starts at once, and the examples of the theorems.
use nonsense.Base.{
  ◌≡◌, if◌then◌else◌, ◌⊎◌, refl, none, some, true, false, String, List, Option, subst, sym, [], ◌∷◌,
  All,
}
use nonsense.Json.Tree.{tree_json}
use nonsense.Entity.State.{among, pid_of, without}
use nonsense.Entity.Interleaved.{
  Task, Daemon, returned, Run, asks, takes, enlists, unlists, ends, stays, steps, at_rest,
}
use nonsense.Entity.Exclusive.{holders, Run-Exclusive}
use nonsense.Entity.Supported.{Supported}
use nonsense.Entity.Refines.{one}
use nonsense.Entity.Alone.{start-Run}
use nonsense.Entity.Lifecycle.{start}
use nonsense.Entity.Tests.Start
use nonsense.Entity.Orderly.{Orderly, Run-Supported}
use nonsense.Entity.Progress.{Focus, Over, AtWork, MayTake, uplink_at-Uplink, Run-progress}
use nonsense.Entity.Tests.Start.{two, inner, ready, rank, two-rank, two-Uplink}

-- The client waits for its uplink, which somebody else is starting.
abbrev crossed : Daemon
crossed = record {
  tasks =
      record { holds = "up" ∷ []; wants = none; stops = false }
      ∷ record { holds = "in" ∷ []; wants = some "up"; stops = false }
      ∷ [];
  held = "up" ∷ "in" ∷ [];
  live = [];
}

crossed-Run : Run tree_json two at_rest crossed
unfolding returned among pid_of
crossed-Run =
    steps
      (steps
        (steps (steps stays (asks false "in"))
          (takes [] (record { holds = []; wants = some "in"; stops = false }) [] "in" refl refl))
        (asks false "up"))
      (takes [] (record { holds = []; wants = some "up"; stops = false })
        (record { holds = "in" ∷ []; wants = some "up"; stops = false } ∷ []) "up" refl refl)

Run-Exclusive_example : holders "up" crossed.tasks ≡ (if among "up" crossed.held then 1 else 0)
Run-Exclusive_example = Run-Exclusive tree_json two crossed-Run "up"

Run-progress_example :
    All Over crossed.tasks
    ⊎ (Focus AtWork crossed.tasks ⊎ Focus (MayTake crossed.held) crossed.tasks)
Run-progress_example = Run-progress tree_json two rank two-rank crossed-Run

-- The uplink is up, and the client's start may go on.
up_started-Run : Run tree_json two at_rest (record {
  tasks =
      record { holds = []; wants = none; stops = false }
      ∷ record { holds = "in" ∷ []; wants = some "up"; stops = false }
      ∷ [];
  held = "in" ∷ [];
  live = ("up", 17) ∷ [];
})
unfolding returned among pid_of
up_started-Run =
    steps
      (steps crossed-Run (
        enlists [] (record { holds = "up" ∷ []; wants = none; stops = false })
          (record { holds = "in" ∷ []; wants = some "up"; stops = false } ∷ []) "up" [] 17 refl refl
          refl refl))
      (ends [] (record { holds = "up" ∷ []; wants = none; stops = false })
        (record { holds = "in" ∷ []; wants = some "up"; stops = false } ∷ []) "up" [] 17 refl refl
        refl refl)

abbrev starting : List String → Option String → Task
starting holds wants = record { holds = holds; wants = wants; stops = false }

abbrev stopping : List String → Option String → Task
stopping holds wants = record { holds = holds; wants = wants; stops = true }

-- The uplink is started and stopped again.
up_stopped-Run : Run tree_json two at_rest (record {
  tasks = stopping ("up" ∷ []) none ∷ starting [] none ∷ [];
  held = "up" ∷ [];
  live = [];
})
unfolding returned among pid_of without
up_stopped-Run =
    steps
      (steps
        (steps
          (steps
            (steps
              (steps (steps stays (asks false "up"))
                (takes [] (starting [] (some "up")) [] "up" refl refl))
              (enlists [] (starting ("up" ∷ []) none) [] "up" [] 17 refl refl refl refl))
            (ends [] (starting ("up" ∷ []) none) [] "up" [] 17 refl refl refl refl))
          (asks true "up"))
        (takes [] (stopping [] (some "up")) (starting [] none ∷ []) "up" refl refl))
      (unlists [] (stopping ("up" ∷ []) none) (starting [] none ∷ []) "up" [] 17 refl refl refl
        refl)

up_stopped-Orderly : Orderly tree_json two up_stopped-Run
unfolding up_stopped-Run returned among pid_of
up_stopped-Orderly = (
  ((((((tt, tt), tt), tt), tt), tt), tt),
  λ client e.
      subst (λ (n : String). (pid_of n (("up", 17) ∷ []) ≡ none) × (among n ("up" ∷ []) ≡ false))
        (sym (two-Uplink client "up" (uplink_at-Uplink tree_json two rank client "up" e)).0)
        (refl, refl),
)

-- Nothing keeps an uplink from being stopped under a live client.
client_left-Run : Run tree_json two at_rest (record {
  tasks = stopping ("up" ∷ []) none ∷ starting [] none ∷ [];
  held = "up" ∷ [];
  live = ("in", 18) ∷ [];
})
unfolding returned among pid_of without
client_left-Run =
    steps
      (steps
        (steps
          (steps
            (steps
              (steps
                (steps
                  (steps
                    (steps (steps stays (asks false "in"))
                      (takes [] (starting [] (some "in")) [] "in" refl refl))
                    (takes [] (starting ("in" ∷ []) (some "up")) [] "up" refl refl))
                  (enlists [] (starting ("up" ∷ "in" ∷ []) none) [] "up" ("in" ∷ []) 17 refl refl
                    refl refl))
                (ends [] (starting ("up" ∷ "in" ∷ []) none) [] "up" ("in" ∷ []) 17 refl refl refl
                  refl))
              (enlists [] (starting ("in" ∷ []) none) [] "in" [] 18 refl refl refl refl))
            (ends [] (starting ("in" ∷ []) none) [] "in" [] 18 refl refl refl refl))
          (asks true "up"))
        (takes [] (stopping [] (some "up")) (starting [] none ∷ []) "up" refl refl))
      (unlists [] (stopping ("up" ∷ []) none) (starting [] none ∷ []) "up" [] 17 refl refl refl
        refl)

Run-Supported_example : Supported tree_json two []
Run-Supported_example = Run-Supported tree_json two up_stopped-Run up_stopped-Orderly

start-Run_example :
    Run tree_json two
      (one [] (some "in") [])
      (one [] none (start tree_json two (λ n. ready) 3 "in" inner Start.at_rest).1.live)
unfolding start
start-Run_example = start-Run tree_json two (λ n. ready) 3 "in" inner Start.at_rest refl refl
