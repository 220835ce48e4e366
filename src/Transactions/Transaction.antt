-- ===== src/Transactions/Transaction.antt =====
-- `class transaction`: daemon/transaction.h and daemon/transaction.cpp.
use Prim.Native.String.{◌++◌}
use nonsense.Base.{ℕ, String, Bool, not, ◌&&◌, List, [], ◌∷◌, none, some, ◌==◌, if◌then◌else◌}
use nonsense.Base.Int.{ℤ, neg, eacces, enosys}
use nonsense.Bus.{
  Handler, Reply, Read, Sender, nothing, go, pure, gets, fail, return_with, modify, check, checked,
  sender_uid, ◌>>=◌, ◌>>◌,
}
use nonsense.Hex.{hex}
use nonsense.Config.Names.{ParameterValue}

-- transaction::add, transaction::set, transaction::delete_
pub data Operation : Type 0 where
  add : String → List ParameterValue → Operation
  set : String → List ParameterValue → Operation
  delete_ : String → Operation

pub record Transaction : Type 0 where
  pub id : ℕ
  pub object_path : String
  pub owner : ℕ
  pub operations : List Operation

unfoldable pub object_path_of : ℕ → String
unfolding hex
object_path_of id = "/info/griwes/nonsense/configuration/transactions/" ++ hex 16 id

-- The constructor, with the registration of the object's interface left to the caller's input.
unfoldable pub make : ℕ → ℕ → Transaction
unfolding object_path_of
make id owner = record { id = id; object_path = object_path_of id; owner = owner; operations = [] }

-- owner != _owner && owner != 0
abbrev pub is_denied : ℕ → ℕ → Bool
is_denied uid owner = not (uid == owner) && not (uid == 0)

unfoldable pub require_owner : {S : Type 0} → ℕ → ℕ → String → Handler S (Unit {0})
require_owner uid owner text s =
    if is_denied uid owner
    then fail (neg eacces)
        (some (record { name = "info.griwes.nonsense.AccessDenied"; message = text })) s
    else (go tt, s)

-- One round of the loop of method_add: sd_bus_message_read and the exit from the struct.
pub record Entry : Type 0 where
  pub pair : Read ParameterValue
  pub exit_struct : ℤ

-- What the calls of method_add on the message return, in order.
pub record AddMessage : Type 0 where
  pub sender : Sender
  pub name : Read String
  pub enter_array : ℤ
  pub entries : List Entry
  -- the status of entering a struct that ends the loop
  pub last_status : ℤ
  pub exit_array : ℤ
  pub sent : ℤ

unfoldable pub read_entries : List Entry → Handler Transaction (List ParameterValue)
read_entries [] = pure []
read_entries (e ∷ rest) = do
  p ← checked e.pair
  check e.exit_struct
  ps ← read_entries rest
  pure (p ∷ ps)

abbrev pub push : Operation → Transaction → Transaction
push op t = record t { operations = snoc t.operations }
  where
    snoc : List Operation → List Operation
    snoc [] = op ∷ []
    snoc (o ∷ os) = o ∷ snoc os

unfoldable pub method_add : AddMessage → Handler Transaction Reply
unfolding read_entries require_owner
method_add m = do
  uid ← sender_uid m.sender
  owner ← gets (λ t. t.owner)
  require_owner uid owner "You do not have permissions to modify this transaction."
  name ← checked m.name
  check m.enter_array
  ps ← read_entries m.entries
  check m.last_status
  check m.exit_array
  modify (push (add name ps))
  return_with m.sent nothing

-- method_serialize, method_set and method_delete
unfoldable pub method_serialize : Handler Transaction Reply
method_serialize = fail (neg enosys) none

unfoldable pub method_set : Handler Transaction Reply
method_set = fail (neg enosys) none

unfoldable pub method_delete : Handler Transaction Reply
method_delete = fail (neg enosys) none
