-- ===== src/Bus/Tests.antt =====
-- Coroutines that wait for their jobs, and the examples of the theorems.
use mathlib.Core.List.{Perm}
use nonsense.Base.{String, ◌≡◌, refl, none, some, List, [], ◌∷◌, ◌++◌}
use nonsense.Bus.Signals.{Waiter, Callbacks, argument, Event, awaits, signals, deliver, run}
use nonsense.Bus.Waiters.{Answers, deliver-first, waiting, awaited, run-Perm}

abbrev slice_job : Waiter
slice_job = record { key = argument 1 "/job/7"; handle = 1 }

abbrev stop_job : Waiter
stop_job = record { key = argument 2 "nonsense-x.slice"; handle = 2 }

-- The arguments of JobRemoved: number, job, unit and result.
abbrev slice_done : List String
slice_done = "7" ∷ "/job/7" ∷ "nonsense-y.slice" ∷ "done" ∷ []

abbrev both_wait : Callbacks
both_wait = none ∷ some stop_job ∷ some slice_job ∷ []

deliver-first_example : Answers slice_done both_wait (deliver (some slice_done) both_wait)
deliver-first_example = deliver-first slice_done both_wait

abbrev history : List Event
history = signals slice_done ∷ awaits slice_job ∷ signals slice_done ∷ signals slice_done ∷ []

run-history : (run history both_wait).0 ≡ slice_job ∷ slice_job ∷ []
unfolding run
run-history = refl

run-Perm_example :
    Perm
      (waiting both_wait ++ awaited history)
      ((run history both_wait).0 ++ waiting (run history both_wait).1)
run-Perm_example = run-Perm history both_wait
