-- ===== src/Entity/Queue.antt =====
-- `queue_awaitable` and `queue_token` of daemon/entity.cpp, for the queue of one name. A coroutine
-- is a number; `none` is a failed assertion.
use nonsense.Base.{ℕ, Bool, true, false, not, Option, none, some, List, [], ◌∷◌, ◌++◌}

pub record QueueState : Type 0 where
  pub held : Bool
  pub queue : List ℕ

abbrev pub idle : QueueState
idle = record { held = false; queue = [] }

unfoldable pub await_ready : QueueState → Bool
await_ready state = not state.held

unfoldable pub await_suspend : ℕ → QueueState → Option QueueState
await_suspend handle state = elim state.held [
  | true ↦ some (record state { queue = state.queue ++ handle ∷ [] })
  | false ↦ none
]

unfoldable pub await_resume : QueueState → Option QueueState
await_resume state = elim state.held [ true ↦ none | false ↦ some (record state { held = true }) ]

-- The coroutine that has the token now, if the step gave it to one, and the state.
abbrev pub Granted : Type 0
Granted = Option (List ℕ × QueueState)

abbrev grant : ℕ → Option QueueState → Granted
grant handle none = none
grant handle (some state) = some (handle ∷ [], state)

abbrev wait : Option QueueState → Granted
wait none = none
wait (some state) = some ([], state)

-- `co_await enqueue()`, up to the token or the suspension
unfoldable pub enqueue : ℕ → QueueState → Granted
unfolding await_ready await_suspend await_resume
enqueue handle state = elim (await_ready state) [
  | true ↦ grant handle (await_resume state)
  | false ↦ wait (await_suspend handle state)
]

-- What the destructor does once `held` is false: the first coroutine goes on with await_resume.
-- What that coroutine does later are further steps.
unfoldable pub wake : QueueState → Granted
unfolding await_resume
wake state = elim state.queue [
  | [] ↦ some ([], state)
  | handle ∷ rest ↦ grant handle (await_resume (record state { queue = rest }))
]

-- ~queue_token
unfoldable pub release : QueueState → Granted
unfolding wake
release state = elim state.held [ true ↦ wake (record state { held = false }) | false ↦ none ]

pub data Event : Type 0 where
  enqueues : ℕ → Event
  releases : Event

unfoldable pub queue_step : Event → QueueState → Granted
unfolding enqueue release
queue_step (enqueues handle) state = enqueue handle state
queue_step releases state = release state

abbrev pub after : List ℕ → Granted → Granted
after granted none = none
after granted (some (more, state)) = some (granted ++ more, state)

-- Who has got the token in the course of the events, in this order, and the state at the end.
unfoldable pub run_queue : List Event → QueueState → Granted
unfolding queue_step
run_queue [] state = some ([], state)
run_queue (e ∷ es) state = elim (queue_step e state) [
  | none ↦ none
  | some (granted, next) ↦ after granted (run_queue es next)
]
