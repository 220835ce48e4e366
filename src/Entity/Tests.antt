-- ===== src/Entity/Tests.antt =====
-- Events on a queue, and the example of the theorem.
mod Start
mod Fails
mod Interleaved
use nonsense.Base.{◌≡◌, true, some, List, [], ◌∷◌}
use nonsense.Entity.Queue.{idle, Event, enqueues, releases, run_queue}
use nonsense.Entity.Line.{arrivals, departures, take, drop, run_queue-in_order}

-- Three coroutines ask for the token, of which the first two release it.
abbrev three : List Event
three = enqueues 1 ∷ enqueues 2 ∷ releases ∷ enqueues 3 ∷ releases ∷ []

run_queue-in_order_example :
    run_queue three idle ≡ some (1 ∷ 2 ∷ 3 ∷ [], record { held = true; queue = [] })
unfolding arrivals departures take drop
run_queue-in_order_example = run_queue-in_order three tt
