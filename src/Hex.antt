-- ===== src/Hex.antt =====
-- `std::hex << std::setw(16)` with the fill '0', for a number that fits the width, and `>>
-- std::hex` into a 64-bit number.
use Prim.Native.String.{[], ◌∷◌, ◌++◌}
use Prim.Native.Char.{code}
use nonsense.Base.{
  ℕ, zero, suc, ◌+◌, ◌-◌, ◌*◌, ◌/◌, ◌%◌, ◌^◌, String, Bool, ◌&&◌, ◌||◌, Option, none, some,
  if◌then◌else◌, ◌==◌, leb, ltb,
}

abbrev pub hex_digit : ℕ → String
hex_digit d =
    if d == 0
    then "0"
    else if d == 1
    then "1"
    else if d == 2
    then "2"
    else if d == 3
    then "3"
    else if d == 4
    then "4"
    else if d == 5
    then "5"
    else if d == 6
    then "6"
    else if d == 7
    then "7"
    else if d == 8
    then "8"
    else if d == 9
    then "9"
    else if d == 10
    then "a"
    else if d == 11
    then "b"
    else if d == 12
    then "c"
    else if d == 13
    then "d"
    else if d == 14
    then "e"
    else "f"

unfoldable pub hex : ℕ → ℕ → String
hex zero n = []
hex (suc width) n = hex width (n / 16) ++ hex_digit (n % 16)

abbrev pub within : ℕ → ℕ → ℕ → Bool
within low high c = leb low c && leb c high

unfoldable pub digit_of : ℕ → Option ℕ
digit_of c =
    if within b'0' b'9' c
    then some (c - b'0')
    else if within b'a' b'f' c
    then some (c - b'a' + 10)
    else if within b'A' b'F' c
    then some (c - b'A' + 10)
    else none

-- The number that the digits at the beginning of a text go on with.
unfoldable pub read_digits : ℕ → String → ℕ
unfolding digit_of
read_digits n [] = n
read_digits n (c ∷ s) = elim (digit_of (code c)) [ none ↦ n | some d ↦ read_digits (n * 16 + d) s ]

abbrev pub is_space : ℕ → Bool
is_space c = within 9 13 c || c == b' '

unfoldable pub skip_spaces : String → String
skip_spaces [] = []
skip_spaces (c ∷ s) = let rest = skip_spaces s in if is_space (code c) then rest else c ∷ s

-- The digits, of which there has to be one; a number that does not fit fails.
abbrev pub read_number : String → Option ℕ
read_number [] = none
read_number (c ∷ s) = elim (digit_of (code c)) [
  | none ↦ none
  | some d ↦ let n = read_digits 0 (c ∷ s) in if ltb n (2 ^ 64) then some n else none
]

-- A prefix "0x".
abbrev pub skip_prefix : String → String
skip_prefix [] = []
skip_prefix (c ∷ []) = c ∷ []
skip_prefix (c ∷ x ∷ s) =
    if (code c == b'0') && ((code x == b'x') || (code x == b'X')) then s else c ∷ x ∷ s

abbrev pub negate : Option ℕ → Option ℕ
negate none = none
negate (some n) = some ((2 ^ 64 - n) % 2 ^ 64)

abbrev pub read_signed : String → Option ℕ
read_signed [] = none
read_signed (c ∷ s) =
    if code c == b'-'
    then negate (read_number (skip_prefix s))
    else if code c == b'+'
    then read_number (skip_prefix s)
    else read_number (skip_prefix (c ∷ s))

-- `is >> std::hex >> token`; what follows the number is left in the stream.
unfoldable pub read_hex : String → Option ℕ
unfolding digit_of skip_spaces read_digits
read_hex s = read_signed (skip_spaces s)
