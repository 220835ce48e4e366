-- ===== src/Bus/Ends.antt =====
-- Handlers that come to their end whatever state they run in.
use nonsense.Base.{◌≡◌, refl, ap, ◌∙◌, Bool, true, false, arith}
use nonsense.Base.Int.{ℤ, is_negative}
use nonsense.Bus.{Flow, Handler, go, Read, got, check, checked, assert, modify, pure, ◌>>=◌}
use nonsense.Bus.Effects.{bind_after}

-- The handler ends with a value that has the property.
pub record Gives {S A : Type 0} (P : A → Type 0) (m : Handler S A) : Type 0 where
  pub gives : (s : S) → (a : A) × ((m s).0 ≡ go a) × P a

abbrev pub Ends : {S A : Type 0} → Handler S A → Type 0
Ends = Gives (λ _. Unit {0})

module _ {S A B : Type 0} where
  pub both-Gives :
      {P : A → Type 0} {Q : B → Type 0} {m : Handler S A} {k : A → Handler S B}
      → Gives P m
      → ((a : A) → P a → Gives Q (k a))
      → Gives Q (m >>= k)
  both-Gives {Q = Q} {m = m} {k = k} d e = record {
    gives = λ s.
        let (a, h, p) = d.gives s in
        let (b, g, q) = (e a p).gives (m s).1 in
        (b, ap (λ (o : Flow B × S). o.0) (bind_after m k s a h) ∙ g, q);
  }

module _ {S : Type 0} where
  pub pure-Gives : {A : Type 0} {P : A → Type 0} (a : A) → P a → Gives {S = S} P (pure a)
  pure-Gives a p = record { gives = λ s. (a, refl, p) }

  pub modify-Ends : (g : S → S) → Ends (modify g)
  modify-Ends g = record { gives = λ s. (tt, refl, tt) }

  pub check-Ends : (z : ℤ) → is_negative z ≡ false → Ends {S = S} (check z)
  check-Ends z h = record { gives = λ s. (tt, ground arith, tt) }

  pub checked-Gives :
      {A : Type 0} {P : A → Type 0} (r : Read A) (a : A)
      → r ≡ got a
      → P a
      → Gives {S = S} P (checked r)
  checked-Gives r a h p = record { gives = λ s. (a, ap (λ r. (checked {S = S} r s).0) h, p) }

  pub assert-Ends : (b : Bool) → b ≡ true → Ends {S = S} (assert b)
  assert-Ends b h = record { gives = λ s. (tt, ap (λ b. (assert {S = S} b s).0) h, tt) }
