-- ===== src/Control/Tests.antt =====
-- Command lines as the test suite gives them, and the examples of the theorems.
use nonsense.Base.{String, Option, ◌≡◌, refl, arith, none, some, [], ◌∷◌}
use nonsense.Config.Names.{ParameterValue}
use nonsense.Transactions.Transaction.{object_path_of}
use nonsense.Control.Calls.{fails, calls, commit, discard, no_arguments, one_number, new_entity}
use nonsense.Control.Verbs.{add_handler, add_call, finalize_handler, finalize_call, shown_token}
use nonsense.Control.Arguments.{add_handler-arguments, refusal, add_handler-refusal}
use nonsense.Control.Validators.{ParameterValidity, set_validator}
use nonsense.Control.Token.{token_leads_back}

abbrev role : ParameterValue
role = record { parameter = "network.role"; value = "root" }

abbrev default_ : ParameterValue
default_ = record { parameter = "network.default"; value = "true" }

add_without_value :
    add_handler none ("uplink" ∷ "network.role" ∷ [])
    ≡ fails "Invalid argument 'network.role', must be in form 'parameter-name=value'."
unfolding add_handler
add_without_value = refl

-- A token may have any text behind its digits.
sloppy_token : finalize_handler commit (some " 0x2a, or so") [] ≡ calls (finalize_call commit 42)
unfolding finalize_handler
sloppy_token = refl

add_handler-arguments_example :
    (add_handler none ("uplink" ∷ "network.role=root" ∷ "network.default=true" ∷ [])
      ≡ calls (record {
        path = "/info/griwes/nonsense/configuration/running";
        interface = "info.griwes.nonsense.Config";
        method = "Add";
        payload = new_entity "uplink" (role ∷ default_ ∷ []);
      }))
    × (add_handler (some "0007") ("uplink" ∷ "network.role=root" ∷ "network.default=true" ∷ [])
        ≡ calls (record {
          path = "/info/griwes/nonsense/configuration/transactions/0007";
          interface = "info.griwes.nonsense.Transaction";
          method = "Add";
          payload = new_entity "uplink" (role ∷ default_ ∷ []);
        }))
add_handler-arguments_example =
    add_handler-arguments "0007" "uplink" role (default_ ∷ []) (refl, (refl, tt))

token_leads_back_example :
    (finalize_handler commit (some (shown_token 42)) []
      ≡ calls (record {
        path = "/info/griwes/nonsense/configuration/transactions";
        interface = "info.griwes.nonsense.TransactionManager";
        method = "Commit";
        payload = one_number 42;
      }))
    × (finalize_handler discard (some (shown_token 42)) []
        ≡ calls (record {
          path = "/info/griwes/nonsense/configuration/transactions";
          interface = "info.griwes.nonsense.TransactionManager";
          method = "Discard";
          payload = one_number 42;
        }))
    × ((add_call (some (shown_token 42)) no_arguments).path ≡ object_path_of 42)
token_leads_back_example = token_leads_back 42 no_arguments (omega arith)

add_handler-refusal_example :
    add_handler none ("uplink" ∷ "network.role=root" ∷ "network.default" ∷ "x" ∷ [])
    ≡ refusal "network.default"
add_handler-refusal_example =
    add_handler-refusal none "uplink" (role ∷ []) "network.default" ("x" ∷ []) (refl, tt) refl

-- What is said of a value that is not allowed.
abbrev message_of : Option (String → ParameterValidity) → Option String
message_of none = none
message_of (some validator) = some (validator "other").expected_message

expected_one : message_of (set_validator ("root" ∷ [])) ≡ some "'root'"
unfolding set_validator
expected_one = refl

expected_three :
    message_of (set_validator ("root" ∷ "router" ∷ "switch" ∷ []))
    ≡ some "'root', 'router', or 'switch'"
unfolding set_validator
expected_three = refl
