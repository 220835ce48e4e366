-- ===== src/Config/Load.antt =====
-- `config::config(const options &)` of daemon/config.cpp: the configuration that is read from a
-- file. The loop goes over a map that it changes, so the model keeps where the iterator stands, and
-- looks for the next key in the map as it is by then. The fuel is the number of keys and two more:
-- `load_config_total` of Load/Ends shows that the loop ends on it.
pub mod Steps
pub mod Frame
pub mod Framed
pub mod Visits
pub mod Ends
pub mod Roles
pub mod Keeps
pub mod Rounds
pub mod Sound
pub mod Claimed
mod Tests
use Prim.Native.String.{◌++◌}
use nonsense.Base.{
  ℕ, zero, suc, ◌+◌, String, Bool, true, false, Option, none, some, List, [], ◌∷◌, length, str_eq,
  if◌then◌else◌,
}
use nonsense.Base.Order.{str_lt}
use nonsense.Base.Action.{Action, Outcome, done, throws, aborts, pure}
use nonsense.Json.{JsonLib, keys_of}
use nonsense.Config.Validate.{validate_entity}
use nonsense.Config.Metadata.{validate_metadata}
use nonsense.Config.Add.{Config}

-- Behind the iterator; `none` is an iterator in front of begin().
abbrev pub behind : Option String → String → Bool
behind none j = true
behind (some k) j = str_lt k j

abbrev pub earlier : String → Option String → Option String
earlier j none = some j
earlier j (some i) = some (if str_lt i j then i else j)

-- The iterator moved on by one: the least of the keys behind it. `none` is end().
unfoldable pub next_key : Option String → List String → Option String
next_key at [] = none
next_key at (j ∷ l) = let rest = next_key at l in if behind at j then earlier j rest else rest

module _ (json : JsonLib) where
  open json use {Value, parse, items, what_parse}

  abbrev pub keys : Value → List String
  keys r = keys_of (items r)

  -- The body of the loop.
  unfoldable pub load_entity : String → Action Value (Unit {0})
  unfolding validate_entity
  load_entity key = if str_eq key "!metadata" then pure tt else validate_entity json key

  abbrev pub Loaded : Type 0
  Loaded = Option (Outcome (Unit {0}) × Value)

  abbrev pub go_on : (Value → Loaded) → Outcome (Unit {0}) × Value → Loaded
  go_on rest (done u, r) = rest r
  go_on rest (throws what, r) = some (throws what, r)
  go_on rest (aborts, r) = some (aborts, r)

  -- The loop from a position of the iterator on; `none` is out of fuel.
  unfoldable pub load_entities : ℕ → Option String → Value → Loaded
  unfolding next_key load_entity
  load_entities zero at r = none
  load_entities (suc n) at r = elim (next_key at (keys r)) [
    | none ↦ some (done tt, r)
    | some key ↦ go_on (load_entities n (some key)) (load_entity key r)
  ]

  abbrev pub constructed : Outcome (Unit {0}) × Value → Outcome (Config json)
  constructed (done u, r) = done (record { mutable_ = false; configuration = r })
  constructed (throws what, r) = throws what
  constructed (aborts, r) = aborts

  abbrev pub load_all : Outcome (Unit {0}) → Value → Loaded
  load_all (done u) r = load_entities (2 + length (keys r)) none r
  load_all (throws what) r = some (throws what, r)
  load_all aborts r = some (aborts, r)

  unfoldable pub load_value : Value → Option (Outcome (Config json))
  unfolding validate_metadata load_entities
  load_value r = elim (load_all (validate_metadata json r) r) [
    | none ↦ none
    | some q ↦ some (constructed q)
  ]

  -- What the stream of the configuration file gives, if it opens.
  unfoldable pub load_config : String → Option String → Option (Outcome (Config json))
  unfolding load_value
  load_config config_path config_stream = elim config_stream [
    | none ↦ some (throws ("Failed to open the configuration file " ++ config_path))
    | some text ↦ elim (parse text) [
      | none ↦ some (throws (what_parse text))
      | some r ↦ load_value r
    ]
  ]
