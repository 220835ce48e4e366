-- ===== src/Base/Text.antt =====
-- Texts as the program takes them apart: `std::string::find`, `rfind` and `substr` at a character.
use Prim.Native.Nat.{ℕ, compare, Ordering}
use Prim.Native.Char.{code}
use Prim.Native.String.{String, [], ◌∷◌}
use mathlib.Core.Bool.{Bool, true, false}
use mathlib.Core.Option.{Option, none, some}
use mathlib.Core.List.{List}

abbrev is_char : ℕ → ℕ → Bool
is_char a b = elim (compare a b) [ Ordering.eq ↦ true | _ ↦ false ]

-- The text before the first occurrence of a character, and the text behind it; `none` is `npos`.
unfoldable pub cut : ℕ → String → Option (String × String)
cut c [] = none
cut c (x ∷ s) =
    let rest = cut c s in
    elim (is_char (code x) c) [
      | true ↦ some ([], s)
      | false ↦ elim rest [ none ↦ none | some (before, after) ↦ some (x ∷ before, after) ]
    ]

-- The same at the last occurrence.
unfoldable pub cut_last : ℕ → String → Option (String × String)
cut_last c [] = none
cut_last c (x ∷ s) = elim (cut_last c s) [
  | some (before, after) ↦ some (x ∷ before, after)
  | none ↦ elim (is_char (code x) c) [ true ↦ some ([], s) | false ↦ none ]
]

-- The first of the parts between the occurrences of a character, and the others.
unfoldable pub split : ℕ → String → String × List String
split c [] = ([], List.[])
split c (x ∷ s) =
    let (first, others) = split c s in
    elim (is_char (code x) c) [ true ↦ ([], List.◌∷◌ first others) | false ↦ (x ∷ first, others) ]

-- `starts_with` of a character.
abbrev pub first_is : ℕ → String → Bool
first_is c [] = false
first_is c (x ∷ s) = is_char (code x) c

-- No character of a text has a code.
abbrev pub lacks : ℕ → String → Bool
lacks c [] = true
lacks c (x ∷ s) = let rest = lacks c s in elim (is_char (code x) c) [ true ↦ false | false ↦ rest ]
