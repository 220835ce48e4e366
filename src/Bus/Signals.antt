-- ===== src/Bus/Signals.antt =====
-- `signal_subscription` of daemon/async.h: the callbacks of the coroutines that wait for a signal,
-- and what a signal does to them.
use nonsense.Base.{
  ℕ, zero, suc, String, Bool, true, Option, none, some, List, [], ◌∷◌, ◌++◌, if◌then◌else◌,
}
use nonsense.Json.{is_text}

-- What `match` compares: nothing, or an argument of the signal with a text.
pub data Key : Type 0 where
  any : Key
  argument : ℕ → String → Key

-- A callback that `match` has put there: the key, and the coroutine that it resumes.
pub record Waiter : Type 0 where
  pub key : Key
  pub handle : ℕ

-- _callbacks; `none` is an entry that is cleared.
abbrev pub Callbacks : Type 0
Callbacks = List (Option Waiter)

-- What a signal comes to: a coroutine resumes and returns 1, no callback matches, or an assertion
-- fails.
pub data Delivered : Type 0 where
  resumes : Waiter → Delivered
  unhandled : Delivered
  fails : Delivered

abbrev pub at : List String → ℕ → Option String
at [] i = none
at (x ∷ xs) zero = some x
at (x ∷ xs) (suc i) = at xs i

unfoldable pub matches : Key → List String → Bool
matches any arguments = true
matches (argument i key) arguments = is_text (at arguments i) key

-- One callback: `rest` is what the loop does after one that returns 0, which puts the entry back.
abbrev pub hear :
    Option (List String) → Waiter → Callbacks → Delivered × Callbacks → Delivered × Callbacks
hear none w others rest = (fails, none ∷ others)
hear (some arguments) w others rest =
    if matches w.key arguments then (resumes w, none ∷ others) else (rest.0, some w ∷ rest.1)

-- The loop of the signal's handler. The message gives the signal's arguments, if it can be read.
unfoldable pub deliver : Option (List String) → Callbacks → Delivered × Callbacks
unfolding matches
deliver message [] = (unhandled, [])
deliver message (none ∷ others) = let rest = deliver message others in (rest.0, none ∷ rest.1)
deliver message (some w ∷ others) = let rest = deliver message others in hear message w others rest

-- co_await subscription.match(…): `_callbacks.push_back`.
abbrev pub await : Waiter → Callbacks → Callbacks
await w callbacks = callbacks ++ (some w ∷ [])

-- What happens to a subscription: a coroutine starts to wait, or a signal comes.
pub data Event : Type 0 where
  awaits : Waiter → Event
  signals : List String → Event

abbrev pub resumed : Delivered → List Waiter → List Waiter
resumed (resumes w) ws = w ∷ ws
resumed unhandled ws = ws
resumed fails ws = ws

-- The coroutines that resume, in order, and the callbacks that are left.
unfoldable pub run : List Event → Callbacks → List Waiter × Callbacks
unfolding deliver
run [] callbacks = ([], callbacks)
run (awaits w ∷ events) callbacks = run events (await w callbacks)
run (signals arguments ∷ events) callbacks =
    let (delivered, left) = deliver (some arguments) callbacks in
    let (later, end) = run events left in (resumed delivered later, end)
