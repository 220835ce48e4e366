-- ===== src/Entityd/Address.antt =====
-- The addresses that `nth_address_in_subnet` gives in a network of 24 bits.
use Prim.Native.String.{◌++◌}
use Prim.Native.String as S
use text.Mathlib.TextLemmas.{nil-append, cons-append}
use nonsense.Base.{String, ◌≡◌, refl, ap, ◌∙◌, Bool, true, false, none, some, arith, if◌then◌else◌}
use nonsense.Base.Text.{cut, cut_last, lacks}
use nonsense.Entityd.Network.{nth_address_in_subnet, before_last_dot}

cut_last-none : (s : String) → lacks b'.' s ≡ true → cut_last b'.' s ≡ none
unfolding cut_last
cut_last-none S.[] l = refl
cut_last-none (S.◌∷◌ x s) l = ground (arith, cut_last-none s)

cut_last-dot :
    (prefix octet : String)
    → lacks b'.' octet ≡ true
    → cut_last b'.' (prefix ++ S.◌∷◌ "." octet) ≡ some (prefix, octet)
unfolding cut_last
cut_last-dot S.[] octet l =
    ap (cut_last b'.') (nil-append (S.◌∷◌ "." octet)) ∙ ground (arith, cut_last-none octet)
cut_last-dot (S.◌∷◌ x prefix) octet l =
    rw (cons-append x prefix (S.◌∷◌ "." octet)) (ground (arith, cut_last-dot prefix octet l))

before_dot :
    (prefix octet : String)
    → lacks b'.' octet ≡ true
    → before_last_dot (prefix ++ S.◌∷◌ "." octet) ≡ prefix
before_dot prefix octet l = rw (before_last_dot, cut_last-dot prefix octet l) refl

cut-slash :
    (network mask : String)
    → lacks b'/' network ≡ true
    → cut b'/' (network ++ S.◌∷◌ "/" mask) ≡ some (network, mask)
unfolding cut
cut-slash S.[] mask l = ap (cut b'/') (nil-append (S.◌∷◌ "/" mask))
cut-slash (S.◌∷◌ x network) mask l =
    rw (cons-append x network (S.◌∷◌ "/" mask)) (ground (arith, cut-slash network mask))

-- In a network that is written with the mask 24, an address is the network with its part behind the
-- last dot replaced by the number, with the mask or without it as asked for. The network has no
-- slash, and its last part no dot.
pub nth_address_in_subnet-network :
    (prefix octet n : String) (include_mask : Bool)
    → lacks b'/' (prefix ++ S.◌∷◌ "." octet) ≡ true
    → lacks b'.' octet ≡ true
    → nth_address_in_subnet ((prefix ++ S.◌∷◌ "." octet) ++ S.◌∷◌ "/" "24") n include_mask
      ≡ some (prefix ++ "." ++ n ++ (if include_mask then "/24" else ""))
unfolding nth_address_in_subnet
nth_address_in_subnet-network prefix octet n true s l =
    rw
      (
        nth_address_in_subnet,
        cut-slash (prefix ++ S.◌∷◌ "." octet) "24" s,
        before_dot prefix octet l,
      )
      refl
nth_address_in_subnet-network prefix octet n false s l =
    rw
      (
        nth_address_in_subnet,
        cut-slash (prefix ++ S.◌∷◌ "." octet) "24" s,
        before_dot prefix octet l,
      )
      refl
