-- ===== src/Base/Order.antt =====
-- The order of `std::string`, in which `std::map` and so a JSON object keeps its keys.
use Prim.Native.Char.{code}
use Prim.Native.String.{String, [], ◌∷◌}
use nonsense.Base.{◌≡◌, refl, ◌⊎◌, inl, inr, Bool, true, false, arith, ltb, ◌==◌, if◌then◌else◌}
use text.Mathlib.TextEquality.{Char-path}

-- operator<
abbrev pub str_lt : String → String → Bool
str_lt [] [] = false
str_lt [] (d ∷ t) = true
str_lt (c ∷ s) [] = false
str_lt (c ∷ s) (d ∷ t) =
    let rest = str_lt s t in
    if ltb (code c) (code d) then true else if code c == code d then rest else false

pub str_lt_irrefl : (s : String) → str_lt s s ≡ false
str_lt_irrefl [] = refl
str_lt_irrefl (c ∷ s) = ground (arith, str_lt_irrefl s)

pub str_lt_trans : (s t u : String) → str_lt s t ≡ true → str_lt t u ≡ true → str_lt s u ≡ true
str_lt_trans [] [] u h k = cc
str_lt_trans [] (d ∷ t) [] h k = cc
str_lt_trans [] (d ∷ t) (e ∷ u) h k = refl
str_lt_trans (c ∷ s) [] u h k = cc
str_lt_trans (c ∷ s) (d ∷ t) [] h k = cc
str_lt_trans (c ∷ s) (d ∷ t) (e ∷ u) h k = ground (arith, str_lt_trans s t u)

pub str_lt_total : (s t : String) → (s ≡ t) ⊎ ((str_lt s t ≡ true) ⊎ (str_lt t s ≡ true))
str_lt_total [] [] = inl refl
str_lt_total [] (d ∷ t) = inr (inl refl)
str_lt_total (c ∷ s) [] = inr (inr refl)
str_lt_total (c ∷ s) (d ∷ t) = elim (str_lt_total s t) [
  | inl e ↦ ground (arith, Char-path c d)
  | inr (inl e) ↦ ground (arith)
  | inr (inr e) ↦ ground (arith)
]
