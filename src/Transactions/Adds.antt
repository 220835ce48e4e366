-- ===== src/Transactions/Adds.antt =====
-- `transaction::add`: what a call on a transaction may change.
use nonsense.Base.{
  ℕ, String, ◌≡◌, ◌≢◌, refl, ap, subst, map, ◌∙◌, ◌⊎◌, inl, inr, true, false, List, [], ◌∷◌, arith,
  Bool-cases,
}
use nonsense.Base.Int.{is_negative}
use nonsense.Bus.{
  Flow, Reply, Read-cases, Flow-cases, go, replies, method_return, Returned, got, not_negative,
}
use nonsense.Config.Names.{ParameterValue}
use nonsense.Transactions.Transaction.{
  Transaction, add, push, Entry, AddMessage, is_denied, require_owner, read_entries, method_add,
}

read_entries-state : (es : List Entry) (t : Transaction) → (read_entries es t).1 ≡ t
unfolding read_entries
read_entries-state [] t = refl
read_entries-state (e ∷ es) t = ground (arith, read_entries-state es t)

read_entries-ne-return :
    (es : List Entry) (t : Transaction) (r : Returned)
    → (read_entries es t).0 ≢ replies (method_return r)
unfolding read_entries
read_entries-ne-return [] t r h = cc
read_entries-ne-return (e ∷ es) t r h =
    ground (arith, read_entries-state es t, read_entries-ne-return es t r)

-- The pairs that have been read are those of the message.
read_entries-pairs :
    (es : List Entry) (t : Transaction) (ps : List ParameterValue)
    → (read_entries es t).0 ≡ go ps
    → map (λ (e : Entry). e.pair) es ≡ map (λ (p : ParameterValue). got p) ps
unfolding read_entries
read_entries-pairs [] t [] h = refl
read_entries-pairs [] t (p ∷ ps) h = absurd (ground arith)
read_entries-pairs (e ∷ es) t ps h = elim (Read-cases e.pair) [
  | inr (n, f) ↦ absurd (ground arith)
  | inl (q, f) ↦ elim (Bool-cases (is_negative e.exit_struct)) [
    | inl x ↦ absurd (ground arith)
    | inr x ↦ elim (Flow-cases (read_entries es t).0) [
      | inr k ↦ absurd (ground (arith, read_entries-state es t))
      | inl (qs, g) ↦
          let same : q ∷ qs ≡ ps = ground (arith, read_entries-state es t) in
          let rest = read_entries-pairs es t qs g in
          subst
            (λ (l : List ParameterValue).
              map (λ (e : Entry). e.pair) (e ∷ es) ≡ map (λ (p : ParameterValue). got p) l)
            same (ap (λ r. r ∷ map (λ (e : Entry). e.pair) es) f ∙ ap (λ l. got q ∷ l) rest)
    ]
  ]
]

abbrev pub AddsOne : AddMessage → Transaction → Flow Reply × Transaction → Type 0
AddsOne m t q =
    ((q.1 ≡ t) × ((r : Returned) → q.0 ≢ replies (method_return r)))
    ⊎ ((uid : ℕ) × (name : String) × (ps : List ParameterValue) × (m.sender.uid ≡ got uid)
        × (is_denied uid t.owner ≡ false)
        × (m.name ≡ got name)
        × (map (λ (e : Entry). e.pair) m.entries ≡ map (λ (p : ParameterValue). got p) ps)
        × (q.1 ≡ push (add name ps) t))

module _ (m : AddMessage) (t : Transaction) (uid : ℕ) (name : String)
    (q : not_negative m.sender.query_status ≡ true) (u : m.sender.uid ≡ got uid)
    (d : is_denied uid t.owner ≡ false) (e : m.name ≡ got name)
    (a : is_negative m.enter_array ≡ false) where
  entries_read :
      (ps : List ParameterValue)
      → (read_entries m.entries t).0 ≡ go ps
      → AddsOne m t (method_add m t)
  unfolding method_add require_owner
  entries_read ps f = elim (Bool-cases (is_negative m.last_status)) [
    | inl l ↦ inl (
      ground (arith, read_entries-state m.entries t),
      λ r h. ground (arith, read_entries-state m.entries t),
    )
    | inr l ↦ elim (Bool-cases (is_negative m.exit_array)) [
      | inl x ↦ inl (
        ground (arith, read_entries-state m.entries t),
        λ r h. ground (arith, read_entries-state m.entries t),
      )
      | inr x ↦ inr (
        uid,
        name,
        ps,
        u,
        d,
        e,
        read_entries-pairs m.entries t ps f,
        ground (arith, read_entries-state m.entries t),
      )
    ]
  ]

  named : AddsOne m t (method_add m t)
  unfolding method_add require_owner
  named = elim (Flow-cases (read_entries m.entries t).0) [
    | inl (ps, f) ↦ entries_read ps f
    | inr k ↦ inl (
      ground (arith, read_entries-state m.entries t, k),
      λ r h. ground (arith, k, read_entries-ne-return m.entries t r),
    )
  ]

-- A call of Add leaves the transaction as it was and does not report success, or the sender owns
-- the transaction, or is root, and one operation to add the named entity, with the pairs of the message
-- as its parameters, is behind the earlier ones.
pub method_add-AddsOne : (m : AddMessage) (t : Transaction) → AddsOne m t (method_add m t)
unfolding method_add require_owner
method_add-AddsOne m t = elim (Bool-cases (not_negative m.sender.query_status)) [
  | inr q ↦ inl (ground arith, λ r h. ground arith)
  | inl q ↦ elim (Read-cases m.sender.uid) [
    | inr (n, u) ↦ inl (ground arith, λ r h. ground arith)
    | inl (uid, u) ↦ elim (Bool-cases (is_denied uid t.owner)) [
      | inl d ↦ inl (ground arith, λ r h. ground arith)
      | inr d ↦ elim (Read-cases m.name) [
        | inr (n, e) ↦ inl (ground arith, λ r h. ground arith)
        | inl (name, e) ↦ elim (Bool-cases (is_negative m.enter_array)) [
          | inl a ↦ inl (ground arith, λ r h. ground arith)
          | inr a ↦ named m t uid name q u d e a
        ]
      ]
    ]
  ]
]
