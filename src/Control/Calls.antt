-- ===== src/Control/Calls.antt =====
-- What the control program's verbs read and what they come to.
use nonsense.Base.{ℕ, String, Option, List}
use nonsense.Config.Names.{ParameterValue}

-- What cxxopts makes of the command line, and the arguments that it leaves over.
pub record ParseResult : Type 0 where
  pub verb : Option String
  pub token : Option String
  pub command_arguments : List String
  pub left_over : List String

pub data Payload : Type 0 where
  no_arguments : Payload
  one_text : String → Payload
  two_texts : String → String → Payload
  one_number : ℕ → Payload
  new_entity : String → List ParameterValue → Payload

pub record MethodCall : Type 0 where
  pub path : String
  pub interface : String
  pub method : String
  pub payload : Payload

-- Help on the terminal, an error with exit status 1, a failed assertion, an access that is
-- undefined (`front` of an empty vector), or a call on the bus.
pub data Ended : Type 0 where
  shows : Ended
  fails : String → Ended
  asserts : Ended
  undefined : Ended
  calls : MethodCall → Ended

pub data Finalize : Type 0 where
  commit discard : Finalize

pub data Locking : Type 0 where
  lock unlock : Locking

pub data Work : Type 0 where
  start stop restart status : Work

pub data Verb : Type 0 where
  help version get add : Verb
  finalizes : Finalize → Verb
  locks : Locking → Verb
  works : Work → Verb
