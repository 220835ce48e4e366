-- ===== src/Base/Action.antt =====
-- C++ code that mutates an object and may throw: what was written before a throw stays written.
-- `aborts` is a failed `assert`, or an exception that reaches a `noexcept` function.
use Prim.Native.String.{String}
use mathlib.Core.Path.{◌≡◌, refl}
use mathlib.Core.Logic.{◌⊎◌, inl, inr}
use mathlib.Core.Path.{◌≡◌, refl}
use mathlib.Core.Bool.{Bool, true, false}

pub data Outcome {ℓ} (A : Type ℓ) : Type ℓ where
  done : A → Outcome A
  throws : String → Outcome A
  aborts : Outcome A

abbrev pub Action {ℓ} : Type ℓ → Type ℓ → Type ℓ
Action S A = S → Outcome A × S

module _ {ℓ} {S A : Type ℓ} where
  abbrev pub pure : A → Action S A
  pure a s = (done a, s)

  abbrev pub throw : String → Action S A
  throw what s = (throws what, s)

  abbrev pub abort : Action S A
  abort s = (aborts, s)

  abbrev pub gets : (S → A) → Action S A
  gets f s = (done (f s), s)

abbrev pub assert {ℓ} : {S : Type ℓ} → Bool → Action S Unit
assert true s = (done tt, s)
assert false s = (aborts, s)

abbrev pub modify {ℓ} : {S : Type ℓ} → (S → S) → Action S Unit
modify f s = (done tt, f s)

module _ {ℓ} {S A B : Type ℓ} where
  abbrev pub continue : Outcome A → (A → Action S B) → Action S B
  continue (done a) f s = f a s
  continue (throws what) f s = (throws what, s)
  continue aborts f s = (aborts, s)

  infixl 10 ◌>>=◌
  abbrev pub ◌>>=◌ : Action S A → (A → Action S B) → Action S B
  ◌>>=◌ m f s = let (r, s') = m s in continue r f s'

infixl 10 ◌>>◌
abbrev pub ◌>>◌ {ℓ} : {S B : Type ℓ} → Action S (Unit {ℓ}) → Action S B → Action S B
m >> n = m >>= λ _. n

module _ {ℓ} {S A B : Type ℓ} where
  continue-done :
      (o : Outcome A) (f : A → Action S B) (s : S) (b : B)
      → (continue o f s).0 ≡ done b
      → (a : A) × (o ≡ done a) × (continue o f s ≡ f a s)
  continue-done (done a) f s b h = (a, refl, refl)
  continue-done (throws what) f s b h = cc
  continue-done aborts f s b h = cc

  -- A sequence that ends has done its first part.
  pub bind-done :
      (m : Action S A) (f : A → Action S B) (s : S) (b : B)
      → ((m >>= f) s).0 ≡ done b
      → (a : A) × ((m s).0 ≡ done a) × ((m >>= f) s ≡ f a (m s).1)
  bind-done m f s b h = continue-done (m s).0 f (m s).1 b h

  continue-state {κ} :
      (P : S → Type κ) (o : Outcome A) (f : A → Action S B) (s : S)
      → P s
      → ((a : A) → o ≡ done a → P (f a s).1)
      → P (continue o f s).1
  continue-state P (done a) f s h k = k a refl
  continue-state P (throws what) f s h k = h
  continue-state P aborts f s h k = h

  -- What holds of the state after the first part, and after the second one where it runs.
  pub bind-state {κ} :
      (P : S → Type κ) (m : Action S A) (f : A → Action S B) (s : S)
      → P (m s).1
      → ((a : A) → (m s).0 ≡ done a → P (f a (m s).1).1)
      → P ((m >>= f) s).1
  bind-state P m f s h k = continue-state P (m s).0 f (m s).1 h k

pub Outcome-cases {ℓ} :
    {A : Type ℓ} (o : Outcome A)
    → ((a : A) × (o ≡ done a)) ⊎ (((what : String) × (o ≡ throws what)) ⊎ (o ≡ aborts))
Outcome-cases (done a) = inl (a, refl)
Outcome-cases (throws what) = inr (inl (what, refl))
Outcome-cases aborts = inr (inr refl)
