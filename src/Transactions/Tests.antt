-- ===== src/Transactions/Tests.antt =====
-- A history of calls, and the examples of the theorems.
use nonsense.Base.{ℕ, ◌≡◌, refl, ◌⊎◌, subst, inl, inr, true, false, [], ◌∷◌, some, arith}
use nonsense.Base.Int.{pos}
use nonsense.Bus.{Sender, got, replies, method_return, token, nothing, Returned}
use nonsense.Json.Tree.{tree_json, object, number, field, end}
use nonsense.Config.Add.{Config, add, copy, try_get, set_from}
use nonsense.Config.Valid.{ValidConfig}
use nonsense.Transactions.Transaction.{Transaction, Operation, AddMessage, Entry, make, method_add}
use nonsense.Transactions.Manager.{
  Transactions, NewMessage, IdMessage, lookup, fresh_id, method_new, method_commit, method_discard,
  call_add,
}
use nonsense.Transactions.Table.{fresh_id_total}
use nonsense.Transactions.Commit.{AllOrNothing, Commits, NoReturn, method_commit-AllOrNothing}
use nonsense.Transactions.Open.{Discards, Opens, method_discard-Discards, method_new-Opens}
use nonsense.Transactions.Adds.{AddsOne, method_add-AddsOne}
use nonsense.Transactions.Run.{news, adds, commits, run, IsNamed, run-IsNamed}
use nonsense.Transactions.Valid.{
  HasAdded, Extends, AreOrdinary, method_commit-ValidConfig, method_commit-HasAdded,
}
use nonsense.Transactions.Access.{denied_without_effect}

abbrev user : ℕ → Sender
user uid = record { query_status = pos 1; uid = got uid }

abbrev start : Config tree_json
start = record {
  mutable_ = true;
  configuration = object (field "!metadata" (object (field "version" (number 1) end)) end);
}

abbrev empty : Transactions tree_json
empty = record {
  saved_config = record start { mutable_ = false };
  running_config = start;
  open_ = [];
}

abbrev new_message : NewMessage
new_message = record {
  parsed = pos 0;
  random = 7 ∷ [];
  sender = user 1000;
  vtable = pos 0;
  sent = pos 1;
}

abbrev role_entry : Entry
role_entry = record {
  pair = got (record { parameter = "network.role"; value = "root" });
  exit_struct = pos 1;
}

abbrev add_message : AddMessage
add_message = record {
  sender = user 1000;
  name = got "uplink";
  enter_array = pos 1;
  entries = role_entry ∷ [];
  last_status = pos 0;
  exit_array = pos 1;
  sent = pos 1;
}

abbrev id_message : ℕ → IdMessage
id_message uid = record { id = got 7; sender = user uid; sent = pos 1 }

abbrev opened : Transaction
opened = record {
  id = 7;
  object_path = "/info/griwes/nonsense/configuration/transactions/0000000000000007";
  owner = 1000;
  operations =
      Operation.add "uplink" (record { parameter = "network.role"; value = "root" } ∷ []) ∷ [];
}

abbrev ready : Transactions tree_json
ready = record empty { open_ = (7, opened) ∷ [] }

-- New and Add lead to the state that the other examples start from.
new_then_add : run tree_json (news new_message ∷ adds 7 add_message ∷ []) empty ≡ ready
unfolding run
new_then_add = refl

commit_replies :
    (method_commit tree_json (id_message 1000) ready).0 ≡ replies (method_return nothing)
unfolding method_commit add copy try_get
commit_replies = refl

start-ValidConfig : ValidConfig tree_json start.configuration
start-ValidConfig = record {
  object_ = refl;
  netns_plain = refl;
  metadata_plain = refl;
  entities = λ name o e m f. absurd (ground arith);
}

empty-IsNamed : IsNamed tree_json empty
unfolding lookup
empty-IsNamed = record { at = λ id t f. cc }

abbrev after_commit : Transactions tree_json
after_commit = (method_commit tree_json (id_message 1000) ready).1

ready_config : Config tree_json
unfolding add
ready_config =
    (add tree_json "uplink" (record { parameter = "network.role"; value = "root" } ∷ []) start).1

ready-Commits : Commits tree_json (id_message 1000) ready after_commit
unfolding method_commit add copy try_get ready_config set_from
ready-Commits = record {
  id = 7;
  transaction = opened;
  uid = 1000;
  config = ready_config;
  parsed = refl;
  found = refl;
  sender = refl;
  allowed = refl;
  result = refl;
  state = refl;
}

fresh_id_total_example : (found : ℕ) × (fresh_id (7 ∷ 8 ∷ []) ready.open_ ≡ some found)
unfolding lookup
fresh_id_total_example = fresh_id_total (7 ∷ 8 ∷ []) ready.open_ 8 (inr (inl refl)) refl

method_commit-AllOrNothing_example :
    AllOrNothing tree_json (id_message 1000) ready (method_commit tree_json (id_message 1000) ready)
method_commit-AllOrNothing_example = method_commit-AllOrNothing tree_json (id_message 1000) ready

method_commit-ValidConfig_example :
    ValidConfig tree_json after_commit.running_config.configuration
    × Extends tree_json start after_commit.running_config
unfolding lookup
method_commit-ValidConfig_example =
    method_commit-ValidConfig tree_json (id_message 1000) ready ordinary start-ValidConfig
  where
    ordinary :
        (id : ℕ) (t : Transaction) → lookup id ready.open_ ≡ some t → AreOrdinary t.operations
    ordinary id t f =
        subst (λ (x : Transaction). AreOrdinary x.operations) (same id t f) (refl, refl, tt)
      where
        same : (id : ℕ) (t : Transaction) → lookup id ready.open_ ≡ some t → opened ≡ t
        same id t f = ground arith

method_commit-HasAdded_example :
    HasAdded tree_json opened.operations after_commit.running_config.configuration
unfolding ready-Commits
method_commit-HasAdded_example =
    method_commit-HasAdded tree_json (id_message 1000) ready start-ValidConfig ready-Commits
      (refl, refl, tt)

method_discard-Discards_example :
    (((method_discard tree_json (id_message 0) ready).1 ≡ ready)
      × NoReturn (method_discard tree_json (id_message 0) ready))
    ⊎ Discards tree_json (id_message 0) ready (method_discard tree_json (id_message 0) ready).1
method_discard-Discards_example = method_discard-Discards tree_json (id_message 0) ready

method_new-Opens_example :
    (((method_new tree_json new_message empty).1 ≡ empty)
      × NoReturn (method_new tree_json new_message empty))
    ⊎ ((o : Opens tree_json new_message empty (method_new tree_json new_message empty).1)
        × ((r : Returned)
            → (method_new tree_json new_message empty).0 ≡ replies (method_return r)
            → r ≡ token o.id (make o.id o.uid).object_path))
method_new-Opens_example = method_new-Opens tree_json new_message empty

method_add-AddsOne_example : AddsOne add_message opened (method_add add_message opened)
method_add-AddsOne_example = method_add-AddsOne add_message opened

run-IsNamed_example :
    ((run tree_json (news new_message ∷ commits (id_message 1000) ∷ []) empty).saved_config
      ≡ empty.saved_config)
    × IsNamed tree_json (run tree_json (news new_message ∷ commits (id_message 1000) ∷ []) empty)
run-IsNamed_example =
    run-IsNamed tree_json (news new_message ∷ commits (id_message 1000) ∷ []) empty empty-IsNamed

denied_without_effect_example :
    (((method_commit tree_json (id_message 1001) ready).1 ≡ ready)
      × NoReturn (method_commit tree_json (id_message 1001) ready))
    × (((method_discard tree_json (id_message 1001) ready).1 ≡ ready)
        × NoReturn (method_discard tree_json (id_message 1001) ready))
    × (((call_add tree_json 7 (record add_message { sender = user 1001 }) ready).1 ≡ ready)
        × NoReturn (method_add (record add_message { sender = user 1001 }) opened))
unfolding lookup
denied_without_effect_example =
    denied_without_effect tree_json ready 7 1001 opened refl refl (id_message 1001)
      (record add_message { sender = user 1001 }) refl refl refl
