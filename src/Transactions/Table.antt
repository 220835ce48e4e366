-- ===== src/Transactions/Table.antt =====
-- The laws of the table of open transactions.
use nonsense.Base.{
  ℕ, ◌≡◌, refl, ◌⊎◌, inl, inr, none, some, List, [], ◌∷◌, arith, ◌==◌, Option-cases, if◌then◌else◌,
}
use nonsense.Transactions.Transaction.{Transaction}
use nonsense.Transactions.Manager.{Open, lookup, erase, put, fresh_id}

pub lookup-erase :
    (id j : ℕ) (ts : Open) → lookup j (erase id ts) ≡ (if id == j then none else lookup j ts)
unfolding lookup erase
lookup-erase id j [] = ground arith
lookup-erase id j ((k, t) ∷ ts) = ground (arith, lookup-erase id j ts)

pub lookup-put :
    (id : ℕ) (u t : Transaction) (j : ℕ) (ts : Open)
    → lookup id ts ≡ some u
    → lookup j (put id t ts) ≡ (if id == j then some t else lookup j ts)
unfolding lookup put
lookup-put id u t j [] h = cc
lookup-put id u t j ((k, x) ∷ ts) h = ground (arith, lookup-put id u t j ts)

pub put-lookup : (id : ℕ) (t : Transaction) (ts : Open) → lookup id ts ≡ some t → put id t ts ≡ ts
unfolding lookup put
put-lookup id t [] h = refl
put-lookup id t ((k, x) ∷ ts) h = ground (arith, put-lookup id t ts)

-- The number that the loop ends with is free, and was drawn.
pub fresh_id-lookup :
    (ids : List ℕ) (ts : Open) (id : ℕ) → fresh_id ids ts ≡ some id → lookup id ts ≡ none
unfolding fresh_id
fresh_id-lookup [] ts id h = cc
fresh_id-lookup (i ∷ ids) ts id h = elim (Option-cases (lookup i ts)) [
  | inl e ↦ ground arith
  | inr (t, e) ↦ fresh_id-lookup ids ts id (ground arith)
]

abbrev pub Drawn : ℕ → List ℕ → Type 0
Drawn id [] = ⊥
Drawn id (i ∷ ids) = (i ≡ id) ⊎ Drawn id ids

-- The loop that draws an identifier ends with a number where one of the numbers drawn is free.
pub fresh_id_total :
    (ids : List ℕ) (ts : Open) (id : ℕ)
    → Drawn id ids
    → lookup id ts ≡ none
    → (found : ℕ) × (fresh_id ids ts ≡ some found)
unfolding fresh_id
fresh_id_total [] ts id d f = absurd d
fresh_id_total (i ∷ ids) ts id d f = elim (Option-cases (lookup i ts)) [
  | inl e ↦ (i, rw (e, fresh_id))
  | inr (t, e) ↦ elim d [
    | inl same ↦ absurd (ground arith)
    | inr later ↦ let k = fresh_id_total ids ts id later f in (k.0, ground (arith, k.1))
  ]
]
