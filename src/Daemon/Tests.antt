-- ===== src/Daemon/Tests.antt =====
-- A daemon with a file of one entity, and the examples of the theorems.
use nonsense.Base.{
  ℕ, String, ◌≡◌, refl, true, false, none, some, Option, Bool, List, [], subst, sym, inl, inr,
  Bool-cases, ◌∷◌, arith, ◌==◌, if◌then◌else◌, str_eq, All,
}
use nonsense.Base.Int.{pos, negsuc}
use nonsense.Base.Action.{done}
use nonsense.Bus.{Sender, got}
use nonsense.Entity.Answers.{works}
use nonsense.Json.Tree.{
  tree_json, Tree, object, number, string, boolean, field, end, file_of, file_text,
}
use nonsense.Config.Checks.{netns_key}
use nonsense.Config.Valid.{metadata_key}
use nonsense.Config.Add.{Config, copy}
use nonsense.Transactions.Run.{Call, news, adds, commits, run}
use nonsense.Transactions.Attend.{Arrival, quiet, calls, arrived}
use nonsense.Transactions.History.{IsOrdinaryCall}
use nonsense.Daemon.{Startup, Serving, CommandLine, Installing, exits, serves, main}
use nonsense.Daemon.Boots.{Comes, daemon_objects, main-Comes}
use nonsense.Daemon.Serves.{PlainFiles, ServesLoaded, serves-ValidConfig}

abbrev strerror : ℕ → String
strerror n = if n == 17 then "File exists" else "Unknown error"

abbrev no_arguments : CommandLine
no_arguments = record { unrecognized = []; help = false; config = none }

abbrev all_work : Installing
all_work = record {
  config_manager = pos 0;
  saved = pos 0;
  running = pos 0;
  transaction_manager = pos 0;
  controller = pos 0;
}

abbrev startup : Startup strerror tree_json
startup = record {
  error_prefix = "<3>";
  arguments = done no_arguments;
  stream = λ path. if str_eq path "/etc/nonsense/nonsensed.json" then some file_text else none;
  opening = record {
    epoll_create = works 3;
    open_system = pos 0;
    request_name = pos 1;
    subscribe = pos 1;
    fd = got 4;
    added = works tt;
    install = done tt;
  };
  bus = 0;
  installing = all_work;
  rounds = record { process = λ i bus. pos 0; wait = λ i. works 0 };
  arriving = λ round. quiet;
}

abbrev loaded : Config tree_json
loaded = record {
  mutable_ = false;
  configuration = object (
      field "!metadata" (object (field "version" (number 1) end)) (
        field ":default-netns" (string "uplink") (
          field "uplink"
            (object (
              field "network"
                (object (
                  field ":role" (number 0)
                    (field "default" (boolean true) (field "role" (string "root") end))))
                end))
            end)));
}

abbrev serving : Serving strerror tree_json
serving = record {
  transactions = record {
    saved_config = loaded;
    running_config = record loaded { mutable_ = true };
    open_ = [];
  };
  service = record { epoll = 0 ∷ []; installed = true };
  objects = daemon_objects;
  next = 0;
}

main_serves : main strerror tree_json startup 5 ≡ serves serving
unfolding main copy
main_serves = refl

-- Another object has the path of the transactions.
main_taken :
    main strerror tree_json
      (record startup { installing = record all_work { transaction_manager = negsuc 16 } })
      5
    ≡ exits 1 (
        "<3>Fatal error: Failed to install the TransactionManager interface at /info/griwes/nonsense/configuration/transactions: File exists"
        ∷ [])
unfolding main copy
main_taken = refl

main_unrecognized :
    main strerror tree_json
      (record startup { arguments = done (record no_arguments { unrecognized = "-x" ∷ [] }) })
      5
    ≡ exits 1 ("<3>Error: Unrecognized options:" ∷ "<3>    -x" ∷ [])
unfolding main
main_unrecognized = refl

main-Comes_example : Comes strerror tree_json startup 5 (main strerror tree_json startup 5)
main-Comes_example = main-Comes strerror tree_json startup 5

abbrev user : Sender
user = record { query_status = pos 1; uid = got 1000 }

-- A transaction that adds an entity below the first one.
abbrev new_call : Arrival
new_call =
    calls (
      news
        (record { parsed = pos 0; random = 7 ∷ []; sender = user; vtable = pos 0; sent = pos 1 }))

abbrev add_call : Arrival
add_call = calls (
    adds 7 (record {
      sender = user;
      name = got "test";
      enter_array = pos 1;
      entries =
          record {
            pair = got (record { parameter = "network.role"; value = "switch" });
            exit_struct = pos 1;
          }
          ∷ [];
      last_status = pos 0;
      exit_array = pos 1;
      sent = pos 1;
    }))

abbrev commit_call : Arrival
commit_call = calls (commits (record { id = got 7; sender = user; sent = pos 1 }))

abbrev changing : Startup strerror tree_json
changing = record startup {
  arriving = λ round.
      if round == 0
      then new_call
      else if round == 1
      then quiet
      else if round == 2
      then add_call
      else commit_call;
}

abbrev calls_made : List Call
calls_made = arrived tree_json changing.arriving 4 0

abbrev changed : Serving strerror tree_json
changed = record serving { transactions = run tree_json calls_made serving.transactions }

main_changes : main strerror tree_json changing 4 ≡ serves changed
unfolding main copy run nonsense.Config.Add.try_get nonsense.Config.Add.add
main_changes = refl

abbrev is_there : Option Tree → Bool
is_there none = false
is_there (some value) = true

test_added :
    is_there (tree_json.find changed.transactions.running_config.configuration "test") ≡ true
unfolding run copy nonsense.Config.Add.try_get nonsense.Config.Add.add nonsense.Config.Add.set_from
test_added = refl

ordinary_calls : All IsOrdinaryCall calls_made
ordinary_calls = (
  tt,
  (
    λ name e.
        subst (λ (n : String). (str_eq netns_key n ≡ false) × (str_eq metadata_key n ≡ false))
          (got_inj "test" name e) (refl, refl),
    (tt, tt),
  ),
)
  where
    got_inj : (s t : String) → got s ≡ got t → s ≡ t
    got_inj s t e = cc

plain_files : PlainFiles strerror tree_json startup
plain_files path text r e f = elim (Bool-cases (str_eq path "/etc/nonsense/nonsensed.json")) [
  | inr n ↦ absurd (ground arith)
  | inl y ↦
      let same : file_text ≡ text = ground arith in
      let value : some (file_of "uplink") ≡ some r =
        subst (λ (t : String). tree_json.parse t ≡ some r) (sym same) f in
      subst (λ (t : Tree). tree_json.find t netns_key ≡ none) (some_inj _ _ value) refl
]
  where
    some_inj : (t u : Tree) → some t ≡ some u → t ≡ u
    some_inj t u e = cc

serves-ValidConfig_example : ServesLoaded strerror tree_json changing 4 changed
serves-ValidConfig_example =
    serves-ValidConfig strerror tree_json changing 4 changed main_changes plain_files ordinary_calls
