-- ===== src/Transactions/Manager.antt =====
-- `class transactions`: daemon/transactions.h and daemon/transactions.cpp.
use Prim.Native.String.{◌++◌}
use nonsense.Base.{ℕ, String, Option, none, some, List, [], ◌∷◌, ◌==◌, if◌then◌else◌}
use nonsense.Base.Int.{ℤ, neg, eexist, einval, enosys, is_negative}
use nonsense.Base.Action
use nonsense.Bus.{
  BusError, Flow, Handler, Reply, Read, Sender, go, crashes, spins, nothing, token, gets, fail,
  return_with, modify, check, checked, assert, not_negative, sender_uid, ◌>>=◌, ◌>>◌,
}
use nonsense.Json.{JsonLib}
use nonsense.Config.Add
use nonsense.Config.Add.{Config, ConfigResult}
use nonsense.Transactions.Transaction.{
  Transaction, Operation, make, require_owner, method_add, AddMessage,
}

-- std::map<std::uint64_t, std::unique_ptr<transaction>>; the program never iterates over it.
abbrev pub Open : Type 0
Open = List (ℕ × Transaction)

unfoldable pub lookup : ℕ → Open → Option Transaction
lookup id [] = none
lookup id ((j, t) ∷ ts) = if j == id then some t else lookup id ts

unfoldable pub erase : ℕ → Open → Open
erase id [] = []
erase id ((j, t) ∷ ts) = let rest = erase id ts in if j == id then rest else (j, t) ∷ rest

-- The transaction behind an identifier replaced by another state of it.
unfoldable pub put : ℕ → Transaction → Open → Open
put id t [] = []
put id t ((j, u) ∷ ts) = if j == id then (j, t) ∷ ts else (j, u) ∷ put id t ts

-- `id = rand(); while (_transactions.count(id)) id = rand();` over the numbers that the random
-- engine gives; with `none` they are all taken, and the loop goes on.
unfoldable pub fresh_id : List ℕ → Open → Option ℕ
unfolding lookup
fresh_id [] ts = none
fresh_id (id ∷ ids) ts = elim (lookup id ts) [ none ↦ some id | some t ↦ fresh_id ids ts ]

-- What the calls of method_new on the message and the bus return, in order.
pub record NewMessage : Type 0 where
  pub parsed : ℤ
  pub random : List ℕ
  pub sender : Sender
  pub vtable : ℤ
  pub sent : ℤ

-- The same for method_commit and method_discard.
pub record IdMessage : Type 0 where
  pub id : Read ℕ
  pub sender : Sender
  pub sent : ℤ

-- What one operation comes to on the copy of the running configuration.
pub data Applied {ℓ} (C : Type ℓ) : Type ℓ where
  applied : C → Applied C
  refused : ℤ → BusError → Applied C
  stops : Applied C

module _ (json : JsonLib) where
  pub record Transactions : Type 0 where
    pub saved_config : Config json
    pub running_config : Config json
    pub open_ : Open

  abbrev not_added : ConfigResult → Config json → Applied (Config json)
  not_added result c =
      if is_negative result.error_code
      then refused result.error_code (record {
        name = "info.griwes.nonsense.InvalidEntityParameters";
        message = result.error_message;
      })
      else applied c

  abbrev added : Action.Outcome ConfigResult → Config json → Applied (Config json)
  added (Action.done result) c = not_added result c
  added (Action.throws what) c = stops
  added Action.aborts c = stops

  -- The visitor of method_commit.
  unfoldable pub apply : Operation → Config json → Applied (Config json)
  apply (Operation.add name initial_parameters) running_copy =
      elim (Add.try_get json running_copy name) [
        | some entity ↦ refused (neg eexist) (record {
          name = "info.griwes.nonsense.EntityAlreadyExists";
          message =
              "The transaction attempted to create an entity that already exists: " ++ name ++ ".";
        })
        | none ↦
            let (outcome, c) = Add.add json name initial_parameters running_copy in added outcome c
      ]
  apply _ running_copy = refused (neg enosys) (record {
    name = "info.griwes.nonsense.NotImplementedYet";
    message = "A transaction containing this kind of an operation is not implemented yet.";
  })

  -- The loop over the operations.
  unfoldable pub apply_all : List Operation → Config json → Applied (Config json)
  unfolding apply
  apply_all [] c = applied c
  apply_all (op ∷ ops) c = elim (apply op c) [
    | applied c' ↦ apply_all ops c'
    | refused status error ↦ refused status error
    | stops ↦ stops
  ]

  abbrev pub invalid_id : {A : Type 0} → String → Handler Transactions A
  invalid_id text =
      fail (neg einval)
        (some (record { name = "info.griwes.nonsense.InvalidTransactionId"; message = text }))

  -- _transactions.find(id), and the reply where there is none.
  abbrev pub find_transaction : ℕ → String → Handler Transactions Transaction
  find_transaction id text s = elim (lookup id s.open_) [
    | none ↦ invalid_id text s
    | some t ↦ (go t, s)
  ]

  abbrev pub finish : Applied (Config json) → ℕ → ℤ → Handler Transactions Reply
  finish (applied c) id sent s =
      return_with sent nothing (record s {
        running_config = Add.set_from json s.running_config c;
        open_ = erase id s.open_;
      })
  finish (refused status error) id sent s = fail status (some error) s
  finish stops id sent s = (crashes, s)

  -- transactions::list
  unfoldable pub method_list : Handler Transactions Reply
  method_list = fail (neg enosys) none

  abbrev pub draw : List ℕ → Handler Transactions ℕ
  draw random s = elim (fresh_id random s.open_) [ none ↦ (spins, s) | some id ↦ (go id, s) ]

  -- transactions::new
  unfoldable pub method_new : NewMessage → Handler Transactions Reply
  unfolding fresh_id make
  method_new m = do
    check m.parsed
    id ← draw m.random
    owner ← sender_uid m.sender
    assert (not_negative m.vtable)
    modify (λ s. record s { open_ = (id, make id owner) ∷ s.open_ })
    return_with m.sent (token id (make id owner).object_path)

  -- transactions::commit
  unfoldable pub method_commit : IdMessage → Handler Transactions Reply
  unfolding lookup erase require_owner apply_all
  method_commit m = do
    id ← checked m.id
    t ← find_transaction id "The transaction ID requested to be committed is not valid."
    uid ← sender_uid m.sender
    require_owner uid t.owner "You do not have permissions to commit this transaction."
    running_copy ← gets (λ s. Add.copy json s.running_config)
    finish (apply_all t.operations running_copy) id m.sent

  -- transactions::discard
  unfoldable pub method_discard : IdMessage → Handler Transactions Reply
  unfolding lookup erase require_owner
  method_discard m = do
    id ← checked m.id
    t ← find_transaction id "The transaction ID requested to be discarded is not valid."
    uid ← sender_uid m.sender
    require_owner uid t.owner "You do not have permissions to modify this transaction."
    modify (λ s. record s { open_ = erase id s.open_ })
    return_with m.sent nothing

  -- A call of Add on the object of a transaction; with no such object no handler runs.
  unfoldable pub call_add : ℕ → AddMessage → Transactions → Option (Flow Reply) × Transactions
  unfolding lookup put method_add
  call_add id m s = elim (lookup id s.open_) [
    | none ↦ (none, s)
    | some t ↦ let (r, t') = method_add m t in (some r, record s { open_ = put id t' s.open_ })
  ]
