-- ===== src/Entityd/Cleanup.antt =====
-- The state of an entity's process, and entityd::cleanup.
use nonsense.Base.{String, Bool, false, Option, none, some, List, [], ◌∷◌, ◌++◌, str_eq}
use nonsense.Base.Action.{Action, modify}
use nonsense.Entityd.Command.{Call}

-- What the functions read of the network component's JSON value. A text is `none` where the field
-- is missing or no text; `external` and `default_` are whether these fields are the Boolean true,
-- and `misnamed` is whether "external_name" is there and no text. The component of an uplink stands
-- in the field "uplink".
pub data Net : Type 0 where
  null : Net
  net :
      (role uplink_name address : Option String) (external misnamed default_ : Bool) (uplink : Net)
      → Net

abbrev pub role_of : Net → Option String
role_of null = none
role_of (net role uplink_name address external misnamed default_ uplink) = role

abbrev pub uplink_name_of : Net → Option String
uplink_name_of null = none
uplink_name_of (net role uplink_name address external misnamed default_ uplink) = uplink_name

abbrev pub address_of : Net → Option String
address_of null = none
address_of (net role uplink_name address external misnamed default_ uplink) = address

abbrev pub uplink_of : Net → Net
uplink_of null = null
uplink_of (net role uplink_name address external misnamed default_ uplink) = uplink

abbrev pub is_external : Net → Bool
is_external null = false
is_external (net role uplink_name address external misnamed default_ uplink) = external

abbrev pub is_misnamed : Net → Bool
is_misnamed null = false
is_misnamed (net role uplink_name address external misnamed default_ uplink) = misnamed

abbrev pub is_default : Net → Bool
is_default null = false
is_default (net role uplink_name address external misnamed default_ uplink) = default_

-- component["role"] == "switch"
abbrev pub is_switch : Net → Bool
is_switch component = elim (role_of component) [ none ↦ false | some role ↦ str_eq role "switch" ]

-- A list of cleanups begins with the one that was added last; so does the log of the calls. `clean`
-- is the object of that name in the function that runs.
pub record Process : Type 0 where
  pub network : Option Net
  pub clean : List Call
  pub cleanups : List Call
  pub connection_cleanups : List Call
  pub log : List Call

abbrev pub started : Process
started = record { network = none; clean = []; cleanups = []; connection_cleanups = []; log = [] }

-- cleanup::run: the calls from the last one that was added to the first one
unfoldable pub run_cleanups : List Call → List Call → List Call
run_cleanups [] log = log
run_cleanups (undo ∷ rest) log = run_cleanups rest (undo ∷ log)

-- clean.add(…)
abbrev pub add_clean : Call → Action Process Unit
add_clean undo = modify (λ s. record s { clean = undo ∷ s.clean })

-- cleanups.add(std::move(clean)) and connection_cleanups.add(std::move(clean))
abbrev pub keep : Action Process Unit
keep = modify (λ s. record s { clean = []; cleanups = s.clean ++ s.cleanups })

abbrev pub keep_connection : Action Process Unit
keep_connection =
    modify (λ s. record s { clean = []; connection_cleanups = s.clean ++ s.connection_cleanups })

-- What a function does first: its own `clean` is empty.
abbrev pub begin : Action Process Unit
begin = modify (λ s. record s { clean = [] })

-- shutdown()
unfoldable pub shutdown : Process → Process
unfolding run_cleanups
shutdown s = record s {
  cleanups = [];
  connection_cleanups = [];
  log = run_cleanups s.cleanups (run_cleanups s.connection_cleanups s.log);
}
