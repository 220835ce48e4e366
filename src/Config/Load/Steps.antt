-- ===== src/Config/Load/Steps.antt =====
-- The steps of the iterator of Config/Load, and the keys that are left in front of it.
use nonsense.Base.{
  ℕ, suc, ◌≤◌, String, ◌≡◌, inl, inr, refl, true, false, Option, none, some, List, [], ◌∷◌, arith,
  str_eq, eq_iff, eq_refl, length, if◌then◌else◌, Bool-cases, Option-cases,
}
use nonsense.Base.Order.{str_lt, str_lt_irrefl, str_lt_trans, str_lt_total}
use nonsense.Json.{has_key, place, add_key, assoc, keys_of}
use nonsense.Config.Load.{behind, next_key}

pub next_key-none :
    (at : Option String) (l : List String) (j : String)
    → next_key at l ≡ none
    → has_key j l ≡ true
    → behind at j ≡ false
unfolding next_key
next_key-none at [] j h k = cc
next_key-none at (i ∷ l) j h k = elim (Option-cases (next_key at l)) [
  | inl e ↦ ground (arith, next_key-none at l j e, eq_iff i j)
  | inr (m, e) ↦ absurd (ground arith)
]

pub next_key-some :
    (at : Option String) (l : List String) (i : String)
    → next_key at l ≡ some i
    → (has_key i l ≡ true) × (behind at i ≡ true)
unfolding next_key
next_key-some at [] i h = cc
next_key-some at (k ∷ l) i h = elim (Option-cases (next_key at l)) [
  | inl e ↦ ground (arith, eq_refl i)
  | inr (m, e) ↦ ground (arith, next_key-some at l m e, eq_refl i, eq_iff k i)
]

pub next_key-least :
    (at : Option String) (l : List String) (i j : String)
    → next_key at l ≡ some i
    → has_key j l ≡ true
    → behind at j ≡ true
    → str_lt j i ≡ false
unfolding next_key
next_key-least at [] i j h k b = cc
next_key-least at (k ∷ l) i j h f b = elim (Option-cases (next_key at l)) [
  | inl e ↦ ground (arith, next_key-none at l j e, eq_iff k j, str_lt_irrefl k)
  | inr (m, e) ↦ ground (
    arith,
    next_key-least at l m j e,
    eq_iff k j,
    str_lt_irrefl k,
    str_lt_total m k,
    str_lt_total m j,
    str_lt_total k j,
    str_lt_trans j k m,
    str_lt_trans j m k,
    str_lt_trans k j m,
  )
]

-- How many keys the iterator has in front of it.
abbrev pub left : Option String → List String → ℕ
left at [] = 0
left at (j ∷ l) = let rest = left at l in if behind at j then suc rest else rest

pub left-length : (at : Option String) (l : List String) → left at l ≤ length l
left-length at [] = omega arith
left-length at (j ∷ l) = ground (arith, left-length at l)

behind_trans :
    (at : Option String) (i j : String)
    → behind at i ≡ true
    → str_lt i j ≡ true
    → behind at j ≡ true
behind_trans none i j b h = refl
behind_trans (some k) i j b h = str_lt_trans k i j b h

left-le :
    (at : Option String) (i : String) (l : List String)
    → behind at i ≡ true
    → left (some i) l ≤ left at l
left-le at i [] b = omega arith
left-le at i (j ∷ l) b = ground (arith, left-le at i l b, behind_trans at i j b)

left-lt :
    (at : Option String) (i : String) (l : List String)
    → behind at i ≡ true
    → has_key i l ≡ true
    → suc (left (some i) l) ≤ left at l
left-lt at i [] b h = cc
left-lt at i (j ∷ l) b h = elim (Bool-cases (str_eq j i)) [
  | inl e ↦ ground (arith, (eq_iff j i).0 e, left-le at i l b, str_lt_irrefl i)
  | inr e ↦ ground (arith, left-lt at i l b, behind_trans at i j b)
]

-- One step of the iterator leaves it one key fewer at least.
pub left-next_key :
    (at : Option String) (l : List String) (i : String)
    → next_key at l ≡ some i
    → suc (left (some i) l) ≤ left at l
left-next_key at l i h = let k = next_key-some at l i h in left-lt at i l k.1 k.0

left-place :
    (at : Option String) (k : String) (l : List String) → left at (place k l) ≤ suc (left at l)
left-place at k [] = ground arith
left-place at k (j ∷ l) = ground (arith, left-place at k l)

pub left-add_key :
    (at : Option String) (k : String) (l : List String) → left at (add_key k l) ≤ suc (left at l)
left-add_key at k l = ground (arith, left-place at k l)

module _ {ℓ} {A : Type ℓ} where
  pub has_key-assoc :
      (l : List (String × A)) (j : String) (x : A)
      → assoc l j ≡ some x
      → has_key j (keys_of l) ≡ true
  has_key-assoc [] j x h = cc
  has_key-assoc ((i, y) ∷ l) j x h = ground (arith, has_key-assoc l j x)

  pub assoc-has_key :
      (l : List (String × A)) (j : String)
      → has_key j (keys_of l) ≡ true
      → (x : A) × (assoc l j ≡ some x)
  assoc-has_key [] j h = cc
  assoc-has_key ((i, y) ∷ l) j h = elim (Bool-cases (str_eq i j)) [
    | inl e ↦ (y, ground arith)
    | inr e ↦ let (x, k) = assoc-has_key l j (ground arith) in (x, ground arith)
  ]
