-- ===== src/Transactions/Commit.antt =====
-- `transactions::commit` is all or nothing.
use nonsense.Base.{
  ℕ, ◌≡◌, ◌≢◌, refl, ◌⊎◌, inl, inr, true, false, some, arith, Bool-cases, Option-cases,
}
use nonsense.Base.Int.{ℤ}
use nonsense.Bus.{
  BusError, Flow, Reply, Read-cases, replies, method_return, Returned, got, not_negative,
}
use nonsense.Json.{JsonLib}
use nonsense.Config.Add.{Config, copy, set_from}
use nonsense.Transactions.Transaction.{Transaction, is_denied, require_owner}
use nonsense.Transactions.Manager.{
  lookup, erase, IdMessage, Applied, applied, refused, stops, Transactions, apply_all,
  method_commit,
}

pub Applied-cases {ℓ} :
    {C : Type ℓ} (a : Applied C)
    → ((c : C) × (a ≡ applied c)) ⊎ (((z : ℤ) × (e : BusError) × (a ≡ refused z e)) ⊎ (a ≡ stops))
Applied-cases (applied c) = inl (c, refl)
Applied-cases (refused z e) = inr (inl (z, e, refl))
Applied-cases stops = inr (inr refl)

-- No reply says that the method has done its work.
abbrev pub NoReturn : {S : Type 0} → Flow Reply × S → Type 0
NoReturn q = (r : Returned) → q.0 ≢ replies (method_return r)

module _ (json : JsonLib) where
  -- What a commit that takes effect has found, and the state that it leaves.
  pub record Commits (m : IdMessage) (s s' : Transactions json) : Type 0 where
    pub id : ℕ
    pub transaction : Transaction
    pub uid : ℕ
    pub config : Config json
    pub parsed : m.id ≡ got id
    pub found : lookup id s.open_ ≡ some transaction
    pub sender : m.sender.uid ≡ got uid
    pub allowed : is_denied uid transaction.owner ≡ false
    pub result : apply_all json transaction.operations (copy json s.running_config) ≡ applied config
    pub state : s' ≡ record s {
      running_config = set_from json s.running_config config;
      open_ = erase id s.open_;
    }

  abbrev pub AllOrNothing : IdMessage → Transactions json → Flow Reply × Transactions json → Type 0
  AllOrNothing m s q = ((q.1 ≡ s) × NoReturn q) ⊎ Commits m s q.1

  -- A commit leaves everything as it was and does not report success, or an existing transaction of
  -- the sender, or of anybody where the sender is root, has applied all its operations in turn to a
  -- copy of the running configuration, which has become the running one, and the transaction is
  -- closed.
  pub method_commit-AllOrNothing :
      (m : IdMessage) (s : Transactions json) → AllOrNothing m s (method_commit json m s)
  unfolding method_commit require_owner
  method_commit-AllOrNothing m s = elim (Read-cases m.id) [
    | inr (n, e) ↦ inl (ground arith, λ r h. ground arith)
    | inl (id, e) ↦ elim (Option-cases (lookup id s.open_)) [
      | inl f ↦ inl (ground arith, λ r h. ground arith)
      | inr (t, f) ↦ elim (Bool-cases (not_negative m.sender.query_status)) [
        | inr q ↦ inl (ground arith, λ r h. ground arith)
        | inl q ↦ elim (Read-cases m.sender.uid) [
          | inr (n, u) ↦ inl (ground arith, λ r h. ground arith)
          | inl (uid, u) ↦ permitted id t uid e f q u
        ]
      ]
    ]
  ]
    where
      permitted :
          (id : ℕ) (t : Transaction) (uid : ℕ)
          → m.id ≡ got id
          → lookup id s.open_ ≡ some t
          → not_negative m.sender.query_status ≡ true
          → m.sender.uid ≡ got uid
          → AllOrNothing m s (method_commit json m s)
      permitted id t uid e f q u = elim (Bool-cases (is_denied uid t.owner)) [
        | inl d ↦ inl (ground arith, λ r h. ground arith)
        | inr d ↦ elim (Applied-cases (apply_all json t.operations (copy json s.running_config))) [
          | inl (c, a) ↦ inr (record {
            id = id;
            transaction = t;
            uid = uid;
            config = c;
            parsed = e;
            found = f;
            sender = u;
            allowed = d;
            result = a;
            state = ground arith;
          })
          | inr k ↦ inl (ground (arith, k), λ r h. ground (arith, k))
        ]
      ]
