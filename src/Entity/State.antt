-- ===== src/Entity/State.antt =====
-- What `entity::start` and `entity::stop` of daemon/entity.cpp share: the names of units, the
-- daemon's state, and the token, for one coroutine and those that wait for it, while no other one
-- runs. The tokens that are held are theirs: one of them that is asked for again is given back only
-- by a coroutine that waits for the one that asks. Interleaved is about the tokens of other ones,
-- which come when they are released.
use Prim.Native.String.{◌++◌}
use Prim.Native.String as S
use Prim.Native.Char.{code}
use nonsense.Base.{
  ℕ, String, Bool, true, false, Option, none, some, List, [], ◌∷◌, if◌then◌else◌, ◌==◌, str_eq,
}
use nonsense.Bus.{Flow, Handler, BusError, go, replies, crashes, spins}
use nonsense.Json.{JsonLib}

-- The entity's name with '-' for '.'.
unfoldable pub dashed : String → String
dashed S.[] = S.[]
dashed (S.◌∷◌ c s) = S.◌∷◌ (if code c == b'.' then "-" else c) (dashed s)

abbrev pub slice_name : String → String
slice_name name = "nonsense-" ++ dashed name ++ ".slice"

abbrev pub scope_name : String → String
scope_name name = "nonsense-" ++ name ++ "-entityd.scope"

abbrev pub failed_to_start : String → String → BusError
failed_to_start unit result = record {
  name = "info.griwes.nonsense.FailedToStart";
  message = "Failed to start unit " ++ unit ++ ": job returned result '" ++ result ++ "'.";
}

abbrev pub failed_to_stop : String → String → BusError
failed_to_stop unit result = record {
  name = "info.griwes.nonsense.FailedToStop";
  message = "Failed to stop unit " ++ unit ++ ": job returned result '" ++ result ++ "'.";
}

abbrev pub not_started : String → BusError
not_started name = record {
  name = "info.griwes.nonsense.EntityNotStarted";
  message = "Failed to stop entity " ++ name ++ ": entity is not running.";
}

-- Whether a name is in a list of names.
unfoldable pub among : String → List String → Bool
among name [] = false
among name (other ∷ rest) = let found = among name rest in if str_eq other name then true else found

unfoldable pub removed : String → List String → List String
removed name [] = []
removed name (other ∷ rest) =
    let others = removed name rest in if str_eq other name then others else other ∷ others

unfoldable pub pid_of : String → List (String × ℕ) → Option ℕ
pid_of name [] = none
pid_of name ((other, pid) ∷ rest) =
    let found = pid_of name rest in if str_eq other name then some pid else found

unfoldable pub without : String → List (String × ℕ) → List (String × ℕ)
without name [] = []
without name ((other, pid) ∷ rest) =
    let others = without name rest in if str_eq other name then others else (other, pid) ∷ others

module _ (json : JsonLib) where
  open json use {Value, is_null, as_string, find, insert, items}

  -- _live_entities, the buses that the service polls, by their entity, the tokens that this coroutine
  -- and those that wait for it hold, and the calls of AddComponent, the last one first.
  pub record Daemon : Type 0 where
    pub live : List (String × ℕ)
    pub polled : List String
    pub held : List String
    pub sent : List (String × String × Value)

  abbrev pub restore : {A : Type 0} → List String → Flow A × Daemon → Flow A × Daemon
  restore held (go a, s) = (go a, record s { held = held })
  restore held (replies r, s) = (replies r, record s { held = held })
  restore held (crashes, s) = (crashes, s)
  restore held (spins, s) = (spins, s)

  -- `auto token = co_await enqueue();` and the rest of the coroutine, whose end releases the token.
  -- A coroutine that asks for a token of its own chain is suspended, and nobody resumes it.
  unfoldable pub with_token : {A : Type 0} → String → Handler Daemon A → Handler Daemon A
  unfolding among
  with_token name body s =
      if among name s.held
      then (spins, s)
      else restore s.held (body (record s { held = name ∷ s.held }))

  abbrev pub poll : String → Daemon → Daemon
  poll name s = record s { polled = name ∷ s.polled }

  abbrev pub enlist : String → ℕ → Daemon → Daemon
  enlist name pid s = record s { live = (name, pid) ∷ s.live }

  abbrev pub log_call : String → String → Value → Daemon → Daemon
  log_call name type component s = record s { sent = (name, type, component) ∷ s.sent }
