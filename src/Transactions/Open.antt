-- ===== src/Transactions/Open.antt =====
-- `transactions::new` and `transactions::discard`: how a transaction is opened and closed.
use nonsense.Base.{
  ℕ, ◌≡◌, refl, ◌⊎◌, inl, inr, false, none, some, [], arith, ◌==◌, Bool-cases, Option-cases,
  if◌then◌else◌,
}
use nonsense.Base.Int.{is_negative}
use nonsense.Bus.{Read-cases, replies, method_return, token, Returned, got, not_negative}
use nonsense.Json.{JsonLib}
use nonsense.Transactions.Transaction.{Transaction, object_path_of, make, is_denied, require_owner}
use nonsense.Transactions.Manager.{
  lookup, fresh_id, NewMessage, IdMessage, Transactions, method_new, method_discard,
}
use nonsense.Transactions.Table.{lookup-erase, fresh_id-lookup}
use nonsense.Transactions.Commit.{NoReturn}

module _ (json : JsonLib) where
  -- What a discard that takes effect has found, and the state that it leaves.
  pub record Discards (m : IdMessage) (s s' : Transactions json) : Type 0 where
    pub id : ℕ
    pub transaction : Transaction
    pub uid : ℕ
    pub parsed : m.id ≡ got id
    pub found : lookup id s.open_ ≡ some transaction
    pub sender : m.sender.uid ≡ got uid
    pub allowed : is_denied uid transaction.owner ≡ false
    pub saved : s'.saved_config ≡ s.saved_config
    pub running : s'.running_config ≡ s.running_config
    pub closed : (j : ℕ) → lookup j s'.open_ ≡ (if id == j then none else lookup j s.open_)

  -- A discard leaves everything as it was and does not report success, or it closes exactly the
  -- transaction with the given identifier, which belongs to the sender unless the sender is root,
  -- and leaves both configurations as they were.
  pub method_discard-Discards :
      (m : IdMessage) (s : Transactions json)
      → (((method_discard json m s).1 ≡ s) × NoReturn (method_discard json m s))
        ⊎ Discards m s (method_discard json m s).1
  unfolding method_discard require_owner
  method_discard-Discards m s = elim (Read-cases m.id) [
    | inr (n, e) ↦ inl (ground arith, λ r h. ground arith)
    | inl (id, e) ↦ elim (Option-cases (lookup id s.open_)) [
      | inl f ↦ inl (ground arith, λ r h. ground arith)
      | inr (t, f) ↦ elim (Bool-cases (not_negative m.sender.query_status)) [
        | inr q ↦ inl (ground arith, λ r h. ground arith)
        | inl q ↦ elim (Read-cases m.sender.uid) [
          | inr (n, u) ↦ inl (ground arith, λ r h. ground arith)
          | inl (uid, u) ↦ elim (Bool-cases (is_denied uid t.owner)) [
            | inl d ↦ inl (ground arith, λ r h. ground arith)
            | inr d ↦ inr (record {
              id = id;
              transaction = t;
              uid = uid;
              parsed = e;
              found = f;
              sender = u;
              allowed = d;
              saved = ground arith;
              running = ground arith;
              closed = λ j. ground (arith, lookup-erase id j s.open_);
            })
          ]
        ]
      ]
    ]
  ]

  -- What a call of New that takes effect has drawn, and the state that it leaves.
  pub record Opens (m : NewMessage) (s s' : Transactions json) : Type 0 where
    pub id : ℕ
    pub uid : ℕ
    pub drawn : fresh_id m.random s.open_ ≡ some id
    pub fresh : lookup id s.open_ ≡ none
    pub sender : m.sender.uid ≡ got uid
    pub saved : s'.saved_config ≡ s.saved_config
    pub running : s'.running_config ≡ s.running_config
    pub opened :
        (j : ℕ) → lookup j s'.open_ ≡ (if id == j then some (make id uid) else lookup j s.open_)
    pub theirs : (make id uid).owner ≡ uid
    pub empty : (make id uid).operations ≡ []
    pub named : (make id uid).object_path ≡ object_path_of id

  -- A call of New leaves everything as it was and does not report success, or it opens exactly one
  -- transaction, empty, of the sender, under a number that no open transaction has; a success
  -- reports that number and the path of the object.
  pub method_new-Opens :
      (m : NewMessage) (s : Transactions json)
      → (((method_new json m s).1 ≡ s) × NoReturn (method_new json m s))
        ⊎ ((o : Opens m s (method_new json m s).1) × ((r : Returned)
              → (method_new json m s).0 ≡ replies (method_return r)
              → r ≡ token o.id (make o.id o.uid).object_path))
  unfolding method_new lookup
  method_new-Opens m s = elim (Bool-cases (is_negative m.parsed)) [
    | inl p ↦ inl (ground arith, λ r h. ground arith)
    | inr p ↦ elim (Option-cases (fresh_id m.random s.open_)) [
      | inl f ↦ inl (ground arith, λ r h. ground arith)
      | inr (id, f) ↦ elim (Bool-cases (not_negative m.sender.query_status)) [
        | inr q ↦ inl (ground arith, λ r h. ground arith)
        | inl q ↦ elim (Read-cases m.sender.uid) [
          | inr (n, u) ↦ inl (ground arith, λ r h. ground arith)
          | inl (uid, u) ↦ elim (Bool-cases (not_negative m.vtable)) [
            | inr v ↦ inl (ground arith, λ r h. ground arith)
            | inl v ↦ inr (
              record {
                id = id;
                uid = uid;
                drawn = f;
                fresh = fresh_id-lookup m.random s.open_ id f;
                sender = u;
                saved = ground arith;
                running = ground arith;
                opened = λ j. ground arith;
                theirs = unfold make in refl;
                empty = unfold make in refl;
                named = unfold make in refl;
              },
              λ r h. ground arith,
            )
          ]
        ]
      ]
    ]
  ]
