-- ===== src/Json.antt =====
-- What the program uses of the JSON library in vendor/json.hpp (nlohmann::json): a value, the
-- operations that the daemon calls, and their documented behaviour as laws. The library is not
-- modelled: every definition that uses it takes it as a parameter.
pub mod Tree
use Prim.Native.Char.{code}
use nonsense.Base.Order.{str_lt}
use nonsense.Base.{
  leb, ◌&&◌, All, map, ℕ, String, ◌≡◌, Bool, true, false, Option, none, some, List, [], ◌∷◌, str_eq,
  ◌==◌, if◌then◌else◌,
}

abbrev pub assoc {ℓ} : {A : Type ℓ} → List (String × A) → String → Option A
assoc [] k = none
assoc ((j, x) ∷ l) k = if str_eq j k then some x else assoc l k

abbrev pub is_text : Option String → String → Bool
is_text none s = false
is_text (some t) s = str_eq t s

-- The keys of an object, in order.
abbrev pub keys_of {ℓ} : {A : Type ℓ} → List (String × A) → List String
keys_of l = map (λ e. e.0) l

abbrev pub has_key : String → List String → Bool
has_key k [] = false
has_key k (j ∷ l) = let rest = has_key k l in if str_eq j k then true else rest

abbrev pub place : String → List String → List String
place k [] = k ∷ []
place k (j ∷ l) = let rest = place k l in if str_lt k j then k ∷ j ∷ l else j ∷ rest

-- A key written to a `std::map`.
abbrev pub add_key : String → List String → List String
add_key k l = if has_key k l then l else place k l

-- The key that `items()` gives to an element of an array, or "" to any other value alone.
abbrev pub is_index : String → Bool
is_index String.[] = true
is_index (String.◌∷◌ c s) = let rest = is_index s in leb b'0' (code c) && leb (code c) b'9' && rest

pub record JsonLib : Type 1 where
  pub Value : Type 0
  pub null : Value
  -- json::object()
  pub object : Value
  pub string : String → Value
  -- an integer, which an enumerator also converts to
  pub number : ℕ → Value
  -- parse(…, nullptr, false); `none` is a discarded value
  pub parse : String → Option Value
  pub is_null : Value → Bool
  pub is_object : Value → Bool
  pub as_string : Value → Option String
  pub equal : Value → Value → Bool
  -- find; `none` is end(), also for a value that is no object
  pub find : Value → String → Option Value
  -- the object with the key set to a value
  pub insert : Value → String → Value → Value
  pub erase : Value → String → Value
  -- items(), in the order of iteration
  pub items : Value → List (String × Value)
  -- the text of the exception of parse(stream)
  pub what_parse : String → String
  -- the texts of the exceptions of operator[] (305), get_ref (303) and a conversion (302)
  pub what_subscript : Value → String
  pub what_ref : Value → String
  pub what_convert : Value → String
  pub is_null-null : is_null null ≡ true
  pub null_of_is_null : (v : Value) → is_null v ≡ true → v ≡ null
  pub is_object-null : is_object null ≡ false
  pub is_object-object : is_object object ≡ true
  pub is_object-string : (s : String) → is_object (string s) ≡ false
  pub is_null-string : (s : String) → is_null (string s) ≡ false
  pub as_string-string : (s : String) → as_string (string s) ≡ some s
  pub string_of_as_string : (v : Value) (s : String) → as_string v ≡ some s → v ≡ string s
  pub equal-string : (v : Value) (s : String) → equal v (string s) ≡ is_text (as_string v) s
  pub equal-number : (m n : ℕ) → equal (number m) (number n) ≡ (m == n)
  pub find-object : (k : String) → find object k ≡ none
  pub find-other : (v : Value) (k : String) → is_object v ≡ false → find v k ≡ none
  pub is_object-insert :
      (v : Value) (k : String) (x : Value) → is_object v ≡ true → is_object (insert v k x) ≡ true
  pub find-insert :
      (v : Value) (k : String) (x : Value) (j : String)
      → is_object v ≡ true
      → find (insert v k x) j ≡ (if str_eq k j then some x else find v j)
  pub is_object-erase : (v : Value) (k : String) → is_object v ≡ true → is_object (erase v k) ≡ true
  pub find-erase :
      (v : Value) (k j : String)
      → is_object v ≡ true
      → find (erase v k) j ≡ (if str_eq k j then none else find v j)
  pub find-items : (v : Value) (k : String) → is_object v ≡ true → find v k ≡ assoc (items v) k
  -- an object is a std::map
  pub items-insert :
      (v : Value) (k : String) (x : Value)
      → is_object v ≡ true
      → keys_of (items (insert v k x)) ≡ add_key k (keys_of (items v))
  pub items-other :
      (v : Value)
      → is_object v ≡ false
      → All (λ (e : String × Value). is_index e.0 ≡ true) (items v)
  pub items-string : (s : String) → items (string s) ≡ ("", string s) ∷ []
