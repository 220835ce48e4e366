-- ===== src/Transactions/Access.antt =====
-- Whose calls on a transaction have an effect.
use nonsense.Base.{ℕ, ◌≡◌, ◌∙◌, inl, inr, true, some, arith}
use nonsense.Bus.{got}
use nonsense.Json.{JsonLib}
use nonsense.Transactions.Transaction.{Transaction, AddMessage, is_denied, method_add}
use nonsense.Transactions.Manager.{
  lookup, put, IdMessage, Transactions, method_commit, method_discard, call_add,
}
use nonsense.Transactions.Table.{put-lookup}
use nonsense.Transactions.Commit.{NoReturn, method_commit-AllOrNothing}
use nonsense.Transactions.Open.{method_discard-Discards}
use nonsense.Transactions.Adds.{method_add-AddsOne}
use nonsense.Transactions.Run.{call_add-found}

got_inj {ℓ} : {A : Type ℓ} {a b : A} → got a ≡ got b → a ≡ b
got_inj e = cc

module _ (json : JsonLib) (s : Transactions json) (id uid : ℕ) (t : Transaction)
    (found : lookup id s.open_ ≡ some t) (denied : is_denied uid t.owner ≡ true) where
  commit_denied :
      (m : IdMessage)
      → m.id ≡ got id
      → m.sender.uid ≡ got uid
      → ((method_commit json m s).1 ≡ s) × NoReturn (method_commit json m s)
  commit_denied m i u = elim (method_commit-AllOrNothing json m s) [
    | inl k ↦ k
    | inr k ↦ absurd (ground (arith, k.parsed, k.found, k.sender, k.allowed))
  ]

  discard_denied :
      (m : IdMessage)
      → m.id ≡ got id
      → m.sender.uid ≡ got uid
      → ((method_discard json m s).1 ≡ s) × NoReturn (method_discard json m s)
  discard_denied m i u = elim (method_discard-Discards json m s) [
    | inl k ↦ k
    | inr k ↦ absurd (ground (arith, k.parsed, k.found, k.sender, k.allowed))
  ]

  add_denied :
      (m : AddMessage)
      → m.sender.uid ≡ got uid
      → ((call_add json id m s).1 ≡ s) × NoReturn (method_add m t)
  add_denied m u = elim (method_add-AddsOne m t) [
    | inl (e, n) ↦ (call_add-found json id m s t found ∙ unchanged e, n)
    | inr (v, name, ps, x, d, f, g, e) ↦ absurd (ground arith)
  ]
    where
      unchanged :
          (method_add m t).1 ≡ t → record s { open_ = put id (method_add m t).1 s.open_ } ≡ s
      unchanged e = ground (arith, put-lookup id t s.open_)

  -- A sender who neither owns the open transaction nor is root can neither commit it, discard it
  -- nor add to it: no such call changes anything or reports success.
  pub denied_without_effect :
      (m : IdMessage) (a : AddMessage)
      → m.id ≡ got id
      → m.sender.uid ≡ got uid
      → a.sender.uid ≡ got uid
      → (((method_commit json m s).1 ≡ s) × NoReturn (method_commit json m s))
        × (((method_discard json m s).1 ≡ s) × NoReturn (method_discard json m s))
        × (((call_add json id a s).1 ≡ s) × NoReturn (method_add a t))
  denied_without_effect m a i u v = (commit_denied m i u, discard_denied m i u, add_denied a v)
