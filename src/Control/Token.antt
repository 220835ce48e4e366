-- ===== src/Control/Token.antt =====
-- The text of a number, read back.
use Prim.Native.String.{◌++◌}
use Prim.Native.String as S
use Prim.Native.Char.{Char, code}
use text.Mathlib.TextLemmas.{nil-append, cons-append, append_assoc, append-nil, concat-ne-nil}
use nonsense.Base.{
  ℕ, zero, suc, ◌+◌, ◌*◌, ◌/◌, ◌%◌, ◌^◌, ◌<◌, String, ◌≡◌, ◌≢◌, refl, sym, ap, ◌∙◌, true, false,
  some, [], subst, arith, Bool, ◌&&◌, ◌==◌,
}
use nonsense.Transactions.Transaction.{object_path_of}
use nonsense.Control.Calls.{Finalize, commit, discard, Payload, one_number, calls}
use nonsense.Control.Verbs.{finalize_handler, finalize_call, add_call, shown_token}
use nonsense.Hex.{
  hex, hex_digit, digit_of, read_digits, read_number, read_hex, skip_spaces, is_space,
}

-- The number of texts of a width.
abbrev pub top : ℕ → ℕ
top zero = 1
top (suc width) = 16 * top width

-- What holds of each number below a bound.
abbrev Below : ℕ → (ℕ → Type 0) → Type 0
Below zero P = Unit
Below (suc n) P = P zero × Below n (λ m. P (suc m))

below : (n : ℕ) (P : ℕ → Type 0) → Below n P → (d : ℕ) → d < n → P d
below zero P k d l = absurd (omega arith)
below (suc n) P k zero l = k.0
below (suc n) P k (suc d) l = below n (λ m. P (suc m)) k.1 d (omega arith)

abbrev Reads : ℕ → Type 0
Reads d = (c : Char) × (hex_digit d ≡ S.◌∷◌ c S.[]) × (digit_of (code c) ≡ some d)

hex_digit-Reads : (d : ℕ) → d < 16 → Reads d
unfolding digit_of
hex_digit-Reads = below 16 Reads (
  ("0", refl, refl),
  (
    ("1", refl, refl),
    (
      ("2", refl, refl),
      (
        ("3", refl, refl),
        (
          ("4", refl, refl),
          (
            ("5", refl, refl),
            (
              ("6", refl, refl),
              (
                ("7", refl, refl),
                (
                  ("8", refl, refl),
                  (
                    ("9", refl, refl),
                    (
                      ("a", refl, refl),
                      (
                        ("b", refl, refl),
                        (
                          ("c", refl, refl),
                          (("d", refl, refl), (("e", refl, refl), (("f", refl, refl), tt))),
                        ),
                      ),
                    ),
                  ),
                ),
              ),
            ),
          ),
        ),
      ),
    ),
  ),
)

one_more : (c : Char) (s rest : String) → s ≡ S.◌∷◌ c S.[] → s ++ rest ≡ S.◌∷◌ c rest
one_more c s rest e =
    ap (λ x. x ++ rest) e ∙ cons-append c S.[] rest ∙ ap (S.◌∷◌ c) (nil-append rest)

read_digits-digit :
    (n d : ℕ) (c : Char) (rest : String)
    → digit_of (code c) ≡ some d
    → read_digits n (S.◌∷◌ c rest) ≡ read_digits (n * 16 + d) rest
unfolding read_digits
read_digits-digit n d c rest f = rw (read_digits, f) refl

read_digit :
    (n d : ℕ) (rest : String)
    → d < 16
    → read_digits n (hex_digit d ++ rest) ≡ read_digits (n * 16 + d) rest
unfolding read_digits
read_digit n d rest l =
    let (c, e, f) = hex_digit-Reads d l in
    ap (read_digits n) (one_more c (hex_digit d) rest e) ∙ read_digits-digit n d c rest f

read_digits-hex :
    (width n : ℕ) (rest : String)
    → n < top width
    → read_digits 0 (hex width n ++ rest) ≡ read_digits n rest
unfolding hex
read_digits-hex zero n rest l =
    ap (read_digits 0) (nil-append rest) ∙ ap (λ m. read_digits m rest) (omega arith)
read_digits-hex (suc width) n rest l =
    ap (read_digits 0) (append_assoc (hex width (n / 16)) (hex_digit (n % 16)) rest)
    ∙ read_digits-hex width (n / 16) (hex_digit (n % 16) ++ rest) (omega arith)
    ∙ read_digit (n / 16) (n % 16) rest (omega arith)
    ∙ ap (λ m. read_digits m rest) (omega arith)

-- A text of digits.
abbrev Digits : String → Type 0
Digits S.[] = Unit
Digits (S.◌∷◌ c s) = ((d : ℕ) × (digit_of (code c) ≡ some d)) × Digits s

Digits-append : (s t : String) → Digits s → Digits t → Digits (s ++ t)
Digits-append S.[] t p q = subst Digits (sym (nil-append t)) q
Digits-append (S.◌∷◌ c s) t (p, ps) q =
    subst Digits (sym (cons-append c s t)) (p, Digits-append s t ps q)

hex-Digits : (width n : ℕ) → Digits (hex width n)
unfolding hex
hex-Digits zero n = tt
hex-Digits (suc width) n =
    let (c, e, f) = hex_digit-Reads (n % 16) (omega arith) in
    Digits-append (hex width (n / 16)) _ (hex-Digits width (n / 16))
      (subst Digits (sym e) ((n % 16, f), tt))

-- A digit is no space, no sign and no 'x'.
digit_plain :
    (k d : ℕ)
    → digit_of k ≡ some d
    → (is_space k ≡ false)
      × ((k == b'-') ≡ false)
      × ((k == b'+') ≡ false)
      × ((k == b'x') ≡ false)
      × ((k == b'X') ≡ false)
unfolding digit_of
digit_plain k d f = (ground arith, ground arith, ground arith, ground arith, ground arith)

and_false : (b : Bool) → (b && false) ≡ false
and_false true = refl
and_false false = refl

read_number-digit :
    (c : Char) (s : String) (d n : ℕ)
    → digit_of (code c) ≡ some d
    → read_digits 0 (S.◌∷◌ c s) ≡ n
    → n < 2 ^ 64
    → read_number (S.◌∷◌ c s) ≡ some n
read_number-digit c s d n f e l = rw (read_number, f) (ground arith)

read_hex-Digits :
    (s : String) (n : ℕ)
    → Digits s
    → s ≢ S.[]
    → read_digits 0 s ≡ n
    → n < 2 ^ 64
    → read_hex s ≡ some n
unfolding read_hex skip_spaces
read_hex-Digits S.[] n p ne e l = absurd (ne refl)
read_hex-Digits (S.◌∷◌ c S.[]) n ((d, f), ps) ne e l =
    let (q, m, p, y, z) = digit_plain (code c) d f in
    rw (q, m, p) (read_number-digit c S.[] d n f e l)
read_hex-Digits (S.◌∷◌ c (S.◌∷◌ x s)) n ((d, f), ((b, g), ps)) ne e l =
    let (q, m, p, y, z) = digit_plain (code c) d f in
    let (q', m', p', y', z') = digit_plain (code x) b g in
    rw (q, m, p, y', z', and_false (code c == b'0')) (read_number-digit c (S.◌∷◌ x s) d n f e l)

hex-ne-nil : (width n : ℕ) → hex (suc width) n ≢ S.[]
unfolding hex
hex-ne-nil width n h =
    let (c, e, f) = hex_digit-Reads (n % 16) (omega arith) in
    concat-ne-nil c (hex width (n / 16)) (ap (λ x. hex width (n / 16) ++ x) (sym e) ∙ h)

read_digits-nil : (n : ℕ) → read_digits n S.[] ≡ n
unfolding read_digits
read_digits-nil n = refl

read_hex-hex : (n : ℕ) → n < 2 ^ 64 → read_hex (hex 16 n) ≡ some n
read_hex-hex n l =
    read_hex-Digits (hex 16 n) n (hex-Digits 16 n) (hex-ne-nil 15 n)
      (ap (read_digits 0) (sym (append-nil (hex 16 n)))
        ∙ read_digits-hex 16 n S.[] l
        ∙ read_digits-nil n)
      l

finalize_handler-token :
    (mode : Finalize) (token : String) (id : ℕ)
    → read_hex token ≡ some id
    → finalize_handler mode (some token) [] ≡ calls (finalize_call mode id)
unfolding finalize_handler
finalize_handler-token mode token id e = rw (finalize_handler, e) refl

-- The token that the control program prints for a 64-bit identifier leads back to it: with this
-- token commit calls Commit, and discard calls Discard, of the transaction manager with this
-- identifier, and add sends its call to the object path that the daemon has given to the
-- transaction.
pub token_leads_back :
    (id : ℕ) (payload : Payload)
    → id < 2 ^ 64
    → (finalize_handler commit (some (shown_token id)) []
        ≡ calls (record {
          path = "/info/griwes/nonsense/configuration/transactions";
          interface = "info.griwes.nonsense.TransactionManager";
          method = "Commit";
          payload = one_number id;
        }))
      × (finalize_handler discard (some (shown_token id)) []
          ≡ calls (record {
            path = "/info/griwes/nonsense/configuration/transactions";
            interface = "info.griwes.nonsense.TransactionManager";
            method = "Discard";
            payload = one_number id;
          }))
      × ((add_call (some (shown_token id)) payload).path ≡ object_path_of id)
unfolding shown_token object_path_of
token_leads_back id payload l = (
  finalize_handler-token commit _ id (read_hex-hex id l),
  finalize_handler-token discard _ id (read_hex-hex id l),
  sym (append_assoc "/info/griwes/nonsense" "/configuration/transactions/" (hex 16 id)),
)
