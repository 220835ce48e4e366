-- ===== src/Control/Validators.antt =====
-- What the control program says of a parameter's value: parameter_validity, set_validator.
use Prim.Native.String.{◌++◌}
use nonsense.Base.{
  String, ◌≡◌, ◌↔◌, ◌⊎◌, inl, inr, refl, sym, ◌∙◌, Bool, true, false, ◌||◌, List, [], ◌∷◌, Option,
  none, some, if◌then◌else◌, str_eq, eq_iff, Bool-cases, arith,
}

pub record ParameterValidity : Type 0 where
  pub is_valid : Bool
  pub expected_message : String

unfoldable quoted : String → String
quoted value = "'" ++ value ++ "'"

-- The values between the first and the last, and then the last.
unfoldable expected_after : String → List String → String
unfolding quoted
expected_after message [] = message
expected_after message (last ∷ []) = message ++ ", or " ++ quoted last
expected_after message (value ∷ next ∷ rest) =
    expected_after (message ++ ", " ++ quoted value) (next ∷ rest)

unfoldable set_count : List String → String → Bool
set_count [] value = false
set_count (allowed ∷ rest) value = str_eq allowed value || set_count rest value

-- The function that set_validator returns.
unfoldable validated : String → List String → String → ParameterValidity
unfolding expected_after set_count
validated first rest value =
    if set_count (first ∷ rest) value
    then record { is_valid = true; expected_message = "" }
    else record { is_valid = false; expected_message = expected_after (quoted first) rest }

-- `front` of no values is undefined, which is `none`.
unfoldable pub set_validator : List String → Option (String → ParameterValidity)
unfolding validated
set_validator [] = none
set_validator (first ∷ rest) = some (validated first rest)

-- A value stands among others.
abbrev Among : String → List String → Type 0
Among value [] = ⊥
Among value (allowed ∷ rest) = (allowed ≡ value) ⊎ Among value rest

set_count-Among :
    (allowed : List String) (value : String)
    → (set_count allowed value ≡ true) ↔ Among value allowed
unfolding set_count
set_count-Among [] value = (λ e. ground arith, λ a. absurd a)
set_count-Among (first ∷ rest) value =
    let (to, from) = set_count-Among rest value in
    (
      λ e. elim (Bool-cases (str_eq first value)) [
        | inl same ↦ inl ((eq_iff first value).0 same)
        | inr other ↦ inr (to (ground (arith, e, other)))
      ],
      λ among. elim among [
        | inl same ↦ ground (arith, (eq_iff first value).1 same)
        | inr behind ↦ elim (Bool-cases (str_eq first value)) [
          | inl same ↦ ground (arith, same)
          | inr other ↦ ground (arith, from behind, other)
        ]
      ],
    )

is_valid-set_count :
    (first : String) (rest : List String) (value : String)
    → (validated first rest value).is_valid ≡ set_count (first ∷ rest) value
unfolding validated
is_valid-set_count first rest value = elim (Bool-cases (set_count (first ∷ rest) value)) [
  | inl e ↦ rw e refl
  | inr e ↦ rw e refl
]

-- The validator accepts exactly the allowed values.
validated-Among :
    (first : String) (rest : List String) (value : String)
    → ((validated first rest value).is_valid ≡ true) ↔ Among value (first ∷ rest)
validated-Among first rest value =
    let (to, from) = set_count-Among (first ∷ rest) value in
    (
      λ e. to (sym (is_valid-set_count first rest value) ∙ e),
      λ among. is_valid-set_count first rest value ∙ from among,
    )
