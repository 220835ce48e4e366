-- ===== src/Entity/Controller.antt =====
-- The methods Start and Stop of daemon/controller.cpp, over `entity::start` and `entity::stop`.
use Prim.Native.String.{◌++◌}
use nonsense.Base.{ℕ, String, Option, none, some}
use nonsense.Base.Int.{ℤ, neg, is_negative}
use nonsense.Base.Int
use nonsense.Bus.{Handler, BusError, Read, nothing, checked, fail, return_with, ◌>>=◌, ◌>>◌}
use nonsense.Json.{JsonLib}
use nonsense.Entity.Answers.{StartAnswers, StopAnswers}
use nonsense.Entity.State.{Daemon}
use nonsense.Entity.Lifecycle.{start, stop}

abbrev pub no_entity : String → String → BusError
no_entity verb name = record {
  name = "info.griwes.nonsense.NoSuchEntity";
  message = "Attempted to " ++ verb ++ " an entity that does not exist: " ++ name ++ ".";
}

module _ (json : JsonLib) (config : json.Value) where
  open json use {Value, find}

  -- The entity of the name in the message, and the reply of its verb.
  abbrev pub with_entity :
      String
      → (String → Value → Handler (Daemon json) (Unit {0}))
      → ℤ
      → String
      → Option Value
      → Handler (Daemon json) (Unit {0})
  with_entity verb act sent name none = fail (neg Int.enoent) (some (no_entity verb name))
  with_entity verb act sent name (some self) = do act name self; return_with sent nothing

  module _ (name : Read String) (sent : ℤ) where
    unfoldable pub method_start : (String → StartAnswers) → ℕ → Handler (Daemon json) (Unit {0})
    unfolding start
    method_start answers fuel = do
      entity ← checked name
      with_entity "start" (start json config answers fuel) sent entity (find config entity)

    unfoldable pub method_stop : (String → StopAnswers) → Handler (Daemon json) (Unit {0})
    unfolding stop
    method_stop answers = do
      entity ← checked name
      with_entity "stop" (λ name self. stop json name (answers name)) sent entity
          (find config entity)
