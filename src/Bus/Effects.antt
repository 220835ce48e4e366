-- ===== src/Bus/Effects.antt =====
-- What a handler leaves alone, and where it ends: rules for its parts in sequence.
use nonsense.Base.{◌≡◌, ◌≢◌, ◌⊎◌, refl, ap, ◌∙◌, Bool, true, false, arith, if◌then◌else◌}
use nonsense.Bus
use nonsense.Bus.{Flow, Reply, Handler, go, replies, crashes, spins, ◌>>=◌, ◌>>◌}

-- The handler does not change what `f` reads.
pub record Keeps {S F A : Type 0} (f : S → F) (m : Handler S A) : Type 0 where
  pub same : (s : S) → f (m s).1 ≡ f s

module _ {S F A B : Type 0} {f : S → F} where
  resume-same :
      (o : Flow A) (k : A → Handler S B) (s : S)
      → ((a : A) → Keeps f (k a))
      → f (Bus.resume o k s).1 ≡ f s
  resume-same (go a) k s e = (e a).same s
  resume-same (replies r) k s e = refl
  resume-same crashes k s e = refl
  resume-same spins k s e = refl

  pub both :
      {m : Handler S A} {k : A → Handler S B}
      → Keeps f m
      → ((a : A) → Keeps f (k a))
      → Keeps f (m >>= k)
  both {m = m} {k = k} d e = record { same = λ s. resume-same (m s).0 k (m s).1 e ∙ d.same s }

module _ {S F A : Type 0} {f : S → F} where
  pub either : (b : Bool) {m n : Handler S A} → Keeps f m → Keeps f n → Keeps f (if b then m else n)
  either true d e = d
  either false d e = e

  -- A handler that never changes the state.
  pub still : {m : Handler S A} → ((s : S) → (m s).1 ≡ s) → Keeps f m
  still d = record { same = λ s. ap f (d s) }

module _ {S F : Type 0} {f : S → F} where
  pub modify-Keeps : (g : S → S) → ((s : S) → f (g s) ≡ f s) → Keeps f (Bus.modify g)
  modify-Keeps g e = record { same = e }

-- A handler that has not come to its end.
abbrev pub Stopped {ℓ} : {A : Type ℓ} → Flow A → Type ℓ
Stopped f = ((r : Reply) × (f ≡ replies r)) ⊎ ((f ≡ crashes) ⊎ (f ≡ spins))

-- A bind whose first part ends.
module _ {S A B : Type 0} where
  resume-go :
      (o : Flow A) (k : A → Handler S B) (s : S) (b : B)
      → (Bus.resume o k s).0 ≡ go b
      → (a : A) × (o ≡ go a) × (Bus.resume o k s ≡ k a s)
  resume-go (go a) k s b h = (a, refl, refl)
  resume-go (replies r) k s b h = absurd (cc)
  resume-go crashes k s b h = absurd (cc)
  resume-go spins k s b h = absurd (cc)

  pub bind-go :
      (m : Handler S A) (k : A → Handler S B) (s : S) (b : B)
      → ((m >>= k) s).0 ≡ go b
      → (a : A) × ((m s).0 ≡ go a) × ((m >>= k) s ≡ k a (m s).1)
  bind-go m k s b h = resume-go (m s).0 k (m s).1 b h

  -- A bind after a part that is known to end.
  pub bind_after :
      (m : Handler S A) (k : A → Handler S B) (s : S) (a : A)
      → (m s).0 ≡ go a
      → (m >>= k) s ≡ k a (m s).1
  bind_after m k s a e = ap (λ (o : Flow A). Bus.resume o k (m s).1) e

  -- A bind after a part that does not end.
  resume-Stopped :
      (o : Flow A) (k : A → Handler S B) (s : S)
      → Stopped o
      → ((Bus.resume o k s).1 ≡ s) × ((b : B) → (Bus.resume o k s).0 ≢ go b)
  resume-Stopped (go a) k s h = absurd (ground arith)
  resume-Stopped (replies r) k s h = (refl, λ b e. cc)
  resume-Stopped crashes k s h = (refl, λ b e. cc)
  resume-Stopped spins k s h = (refl, λ b e. cc)

  pub bind-Stopped :
      (m : Handler S A) (k : A → Handler S B) (s : S)
      → Stopped (m s).0
      → (((m >>= k) s).1 ≡ (m s).1) × ((b : B) → ((m >>= k) s).0 ≢ go b)
  bind-Stopped m k s h = resume-Stopped (m s).0 k (m s).1 h
