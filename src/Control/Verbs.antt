-- ===== src/Control/Verbs.antt =====
-- The verbs of the control program and the one call on the bus that each of them makes. The parsed
-- command line is input, and a call on the bus library that fails ends the program with exit(1),
-- like `fails`.
use Prim.Native.String.{◌++◌}
use nonsense.Base.{ℕ, String, Option, none, some, List, [], ◌∷◌, if◌then◌else◌, str_eq}
use nonsense.Base.Text.{cut}
use nonsense.Hex.{hex, read_hex}
use nonsense.Config.Names.{ParameterValue}
use nonsense.Control.Calls.{
  ParseResult, Payload, no_arguments, one_text, two_texts, one_number, new_entity, MethodCall,
  Ended, shows, fails, asserts, undefined, calls, Finalize, commit, discard, Locking, lock, unlock,
  Work, start, stop, restart, status, Verb, help, version, get, add, finalizes, locks, works,
}

unfoldable pub recognized_verbs : String → Option Verb
recognized_verbs verb =
    if str_eq verb "help"
    then some help
    else if str_eq verb "version"
    then some version
    else if str_eq verb "get"
    then some get
    else if str_eq verb "add"
    then some add
    else if str_eq verb "commit"
    then some (finalizes commit)
    else if str_eq verb "discard"
    then some (finalizes discard)
    else if str_eq verb "lock"
    then some (locks lock)
    else if str_eq verb "unlock"
    then some (locks unlock)
    else if str_eq verb "start"
    then some (works start)
    else if str_eq verb "stop"
    then some (works stop)
    else none

abbrev pub dbus_path_prefix : String
dbus_path_prefix = "/info/griwes/nonsense"

abbrev unrecognized : String → List String → String
unrecognized text [] = text
unrecognized text (argument ∷ rest) = unrecognized (text ++ " " ++ argument) rest

unfoldable pub help_handler : List String → Ended
unfolding recognized_verbs
help_handler [] = shows
help_handler (verb ∷ []) = elim (recognized_verbs verb) [
  | none ↦ fails ("Error: Unknown command verb " ++ verb)
  | some known ↦ shows
]
help_handler arguments =
    fails (unrecognized "Error: Invalid arguments to the command verb 'help':" arguments)

unfoldable pub get_transaction_token : List String → Ended
get_transaction_token (verb ∷ []) = calls (record {
  path = dbus_path_prefix ++ "/configuration/transactions";
  interface = "info.griwes.nonsense.TransactionManager";
  method = "New";
  payload = no_arguments;
})
get_transaction_token [] = undefined
get_transaction_token (verb ∷ arguments) =
    fails (unrecognized "Error: unrecognized arguments to get-transaction-token:" arguments)

abbrev last : String → List String → String
last name [] = name
last name (argument ∷ rest) = last argument rest

-- What the verb prints of the reply.
unfoldable pub shown_token : ℕ → String
unfolding hex
shown_token token = hex 16 token

unfoldable pub get_property : List String → Ended
get_property [] = undefined
get_property (name ∷ rest) = calls (record {
  path = dbus_path_prefix ++ "/configuration/running";
  interface = "info.griwes.nonsense.MutableConfig";
  method = "Get";
  payload = two_texts name (last name rest);
})

unfoldable pub get_handler : List String → Ended
unfolding get_transaction_token get_property
get_handler [] = fails "Error: Insufficient number of arguments for command get"
get_handler (first ∷ rest) =
    if str_eq first "new-transaction-token"
    then get_transaction_token (first ∷ rest)
    else get_property (first ∷ rest)

-- The loop over the arguments of `add`; the first one that has no '=' ends the program.
unfoldable pub split_arguments : List String → (List ParameterValue → Ended) → Ended
unfolding cut
split_arguments [] send = send []
split_arguments (argument ∷ rest) send = elim (cut b'=' argument) [
  | none ↦ fails ("Invalid argument '" ++ argument ++ "', must be in form 'parameter-name=value'.")
  | some (parameter, value) ↦
      split_arguments rest (λ ps. send (record { parameter = parameter; value = value } ∷ ps))
]

-- Where `add` sends its call.
abbrev pub add_call : Option String → Payload → MethodCall
add_call none payload = record {
  path = dbus_path_prefix ++ "/configuration/running";
  interface = "info.griwes.nonsense.Config";
  method = "Add";
  payload = payload;
}
add_call (some token) payload = record {
  path = dbus_path_prefix ++ "/configuration/transactions/" ++ token;
  interface = "info.griwes.nonsense.Transaction";
  method = "Add";
  payload = payload;
}

unfoldable pub add_handler : Option String → List String → Ended
unfolding split_arguments
add_handler token (name ∷ argument ∷ rest) =
    split_arguments (argument ∷ rest) (λ ps. calls (add_call token (new_entity name ps)))
add_handler token arguments = fails "Error: Not enough arguments for command add"

abbrev finalize_name : Finalize → String
finalize_name commit = "commit"
finalize_name discard = "discard"

abbrev pub finalize_method : Finalize → String
finalize_method commit = "Commit"
finalize_method discard = "Discard"

abbrev pub finalize_call : Finalize → ℕ → MethodCall
finalize_call mode id = record {
  path = dbus_path_prefix ++ "/configuration/transactions";
  interface = "info.griwes.nonsense.TransactionManager";
  method = finalize_method mode;
  payload = one_number id;
}

unfoldable pub finalize_handler : Finalize → Option String → List String → Ended
unfolding read_hex
finalize_handler mode none [] =
    fails ("Error: a transaction token must be provided for " ++ finalize_name mode ++ ".")
finalize_handler mode (some token) [] = elim (read_hex token) [
  | none ↦ fails ("Error: Invalid token format: " ++ token)
  | some id ↦ calls (finalize_call mode id)
]
finalize_handler mode token arguments =
    fails
      (unrecognized ("Error: unrecognized arguments to " ++ finalize_name mode ++ ":") arguments)

abbrev locking_method : Locking → String
locking_method lock = "Lock"
locking_method unlock = "Unlock"

unfoldable pub locking_handler : Locking → List String → Ended
locking_handler mode [] = undefined
locking_handler mode (entity ∷ rest) = calls (record {
  path = dbus_path_prefix ++ "/configuration/running";
  interface = "info.griwes.nonsense.MutableConfig";
  method = locking_method mode;
  payload = one_text entity;
})

abbrev work_method : Work → String
work_method start = "Start"
work_method stop = "Stop"
work_method restart = "Restart"
work_method status = "Status"

unfoldable pub action_handler : Work → List String → Ended
action_handler mode [] = undefined
action_handler mode (entity ∷ rest) = calls (record {
  path = dbus_path_prefix;
  interface = "info.griwes.nonsense.Controller";
  method = work_method mode;
  payload = one_text entity;
})

unfoldable pub handle : Verb → ParseResult → Ended
unfolding help_handler get_handler add_handler finalize_handler locking_handler action_handler
handle help result = help_handler result.command_arguments
handle version result = asserts
handle get result = get_handler result.command_arguments
handle add result = add_handler result.token result.command_arguments
handle (finalizes mode) result = finalize_handler mode result.token result.command_arguments
handle (locks mode) result = locking_handler mode result.command_arguments
handle (works mode) result = action_handler mode result.command_arguments

-- Without a verb, the help goes to the terminal before the program fails.
unfoldable pub main : ParseResult → Ended
unfolding recognized_verbs handle
main result = elim result.left_over [
  | option ∷ rest ↦ fails "Error: Unrecognized options:"
  | [] ↦ elim result.verb [
    | none ↦ fails "Error: No command verb specified."
    | some verb ↦ elim (recognized_verbs verb) [
      | none ↦ fails ("Error: Unknown command verb specified: " ++ verb ++ ".")
      | some known ↦ handle known result
    ]
  ]
]
