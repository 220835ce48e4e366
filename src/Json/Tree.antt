-- ===== src/Json/Tree.antt =====
-- A JSON library for the examples: values without arrays and fractions, and a parser that knows
-- a few texts. Only tests and examples use it.
use nonsense.Base.{
  ℕ, String, ◌≡◌, refl, Bool, true, false, Option, none, some, List, [], ◌∷◌, str_eq, eq_iff, ◌==◌,
  arith, All, if◌then◌else◌,
}
use nonsense.Json.{JsonLib, assoc, is_text, keys_of, has_key, place, add_key, is_index}
use nonsense.Base.Order.{str_lt}

mutual
  pub data Tree : Type 0 where
    null : Tree
    boolean : Bool → Tree
    number : ℕ → Tree
    string : String → Tree
    object : Fields → Tree

  pub data Fields : Type 0 where
    end : Fields
    field : String → Tree → Fields → Fields

abbrev entries : Fields → List (String × Tree)
entries end = []
entries (field k v fs) = (k, v) ∷ entries fs

abbrev update : Fields → String → Tree → Fields
update end k x = end
update (field j v fs) k x =
    let rest = update fs k x in if str_eq j k then field j x fs else field j v rest

abbrev insert_field : Fields → String → Tree → Fields
insert_field end k x = field k x end
insert_field (field j v fs) k x =
    let rest = insert_field fs k x in
    if str_lt k j then field k x (field j v fs) else field j v rest

abbrev set : Fields → String → Tree → Fields
set fs k x = if has_key k (keys_of (entries fs)) then update fs k x else insert_field fs k x

abbrev without : Fields → String → Fields
without end k = end
without (field j v fs) k = let rest = without fs k in if str_eq j k then rest else field j v rest

abbrev is_null : Tree → Bool
is_null null = true
is_null _ = false

abbrev is_object : Tree → Bool
is_object (object fs) = true
is_object _ = false

abbrev as_string : Tree → Option String
as_string (string s) = some s
as_string _ = none

abbrev equal : Tree → Tree → Bool
equal (string s) (string t) = str_eq s t
equal (number m) (number n) = m == n
equal _ _ = false

abbrev find : Tree → String → Option Tree
find (object fs) k = assoc (entries fs) k
find _ k = none

abbrev insert : Tree → String → Tree → Tree
insert (object fs) k x = object (set fs k x)
insert v k x = v

abbrev erase : Tree → String → Tree
erase (object fs) k = object (without fs k)
erase v k = v

abbrev items : Tree → List (String × Tree)
items (object fs) = entries fs
items null = []
items v = ("", v) ∷ []

-- A configuration file with one entity of that name, which is the default network namespace.
abbrev pub file_of : String → Tree
file_of name = object (
    field "!metadata" (object (field "version" (number 1) end)) (
      field name
        (object (
          field "network"
            (object (field "default" (boolean true) (field "role" (string "root") end))) end))
        end))

abbrev pub file_text : String
file_text =
    "{\"!metadata\":{\"version\":1},\"uplink\":{\"network\":{\"role\":\"root\",\"default\":true}}}"

-- The same with an entity that is called 1.
abbrev pub digit_text : String
digit_text =
    "{\"!metadata\":{\"version\":1},\"1\":{\"network\":{\"role\":\"root\",\"default\":true}}}"

abbrev parse : String → Option Tree
parse s =
    if str_eq s "true"
    then some (boolean true)
    else if str_eq s "false"
    then some (boolean false)
    else if str_eq s "null"
    then some null
    else if str_eq s "{}"
    then some (object end)
    else if str_eq s "1"
    then some (number 1)
    else if str_eq s file_text
    then some (file_of "uplink")
    else if str_eq s digit_text
    then some (file_of "1")
    else none

pub null_of_is_null : (v : Tree) → is_null v ≡ true → v ≡ null
null_of_is_null v h = ground arith

pub string_of_as_string : (v : Tree) (s : String) → as_string v ≡ some s → v ≡ string s
string_of_as_string v s h = ground arith

pub equal-string : (v : Tree) (s : String) → equal v (string s) ≡ is_text (as_string v) s
equal-string (string t) s = refl
equal-string _ s = refl

pub find-other : (v : Tree) (k : String) → is_object v ≡ false → find v k ≡ none
find-other v k h = ground arith

assoc-update :
    (fs : Fields) (k : String) (x : Tree) (j : String)
    → has_key k (keys_of (entries fs)) ≡ true
    → assoc (entries (update fs k x)) j ≡ (if str_eq k j then some x else assoc (entries fs) j)
assoc-update end k x j h = cc
assoc-update (field i v fs) k x j h =
    ground (arith, assoc-update fs k x j, eq_iff i k, eq_iff i j, eq_iff k j)

assoc-insert_field :
    (fs : Fields) (k : String) (x : Tree) (j : String)
    → has_key k (keys_of (entries fs)) ≡ false
    → assoc (entries (insert_field fs k x)) j
      ≡ (if str_eq k j then some x else assoc (entries fs) j)
assoc-insert_field end k x j h = refl
assoc-insert_field (field i v fs) k x j h =
    ground (arith, assoc-insert_field fs k x j, eq_iff i k, eq_iff i j, eq_iff k j)

assoc-set :
    (fs : Fields) (k : String) (x : Tree) (j : String)
    → assoc (entries (set fs k x)) j ≡ (if str_eq k j then some x else assoc (entries fs) j)
assoc-set fs k x j = ground (arith, assoc-update fs k x j, assoc-insert_field fs k x j)

keys-update :
    (fs : Fields) (k : String) (x : Tree) → keys_of (entries (update fs k x)) ≡ keys_of (entries fs)
keys-update end k x = refl
keys-update (field i v fs) k x = ground (arith, keys-update fs k x)

keys-insert_field :
    (fs : Fields) (k : String) (x : Tree)
    → keys_of (entries (insert_field fs k x)) ≡ place k (keys_of (entries fs))
keys-insert_field end k x = refl
keys-insert_field (field i v fs) k x = ground (arith, keys-insert_field fs k x)

pub items-insert :
    (v : Tree) (k : String) (x : Tree)
    → is_object v ≡ true
    → keys_of (items (insert v k x)) ≡ add_key k (keys_of (items v))
items-insert (object fs) k x h = ground (arith, keys-update fs k x, keys-insert_field fs k x)
items-insert _ k x h = cc

pub items-other :
    (v : Tree) → is_object v ≡ false → All (λ (e : String × Tree). is_index e.0 ≡ true) (items v)
items-other (object fs) h = cc
items-other null h = tt
items-other _ h = (refl, tt)

assoc-without :
    (fs : Fields) (k j : String)
    → assoc (entries (without fs k)) j ≡ (if str_eq k j then none else assoc (entries fs) j)
assoc-without end k j = ground arith
assoc-without (field i v fs) k j =
    ground (arith, assoc-without fs k j, eq_iff i k, eq_iff i j, eq_iff k j)

pub is_object-insert :
    (v : Tree) (k : String) (x : Tree) → is_object v ≡ true → is_object (insert v k x) ≡ true
is_object-insert v k x h = ground arith

pub find-insert :
    (v : Tree) (k : String) (x : Tree) (j : String)
    → is_object v ≡ true
    → find (insert v k x) j ≡ (if str_eq k j then some x else find v j)
find-insert (object fs) k x j h = assoc-set fs k x j
find-insert _ k x j h = cc

pub is_object-erase : (v : Tree) (k : String) → is_object v ≡ true → is_object (erase v k) ≡ true
is_object-erase v k h = ground arith

pub find-erase :
    (v : Tree) (k j : String)
    → is_object v ≡ true
    → find (erase v k) j ≡ (if str_eq k j then none else find v j)
find-erase (object fs) k j h = assoc-without fs k j
find-erase _ k j h = cc

pub find-items : (v : Tree) (k : String) → is_object v ≡ true → find v k ≡ assoc (items v) k
find-items (object fs) k h = refl
find-items _ k h = cc

abbrev pub tree_json : JsonLib
tree_json = record {
  Value = Tree;
  null = null;
  object = object end;
  string = string;
  number = number;
  parse = parse;
  is_null = is_null;
  is_object = is_object;
  as_string = as_string;
  equal = equal;
  find = find;
  insert = insert;
  erase = erase;
  items = items;
  what_subscript = λ v. "[json.exception.type_error.305]";
  what_ref = λ v. "[json.exception.type_error.303]";
  what_convert = λ v. "[json.exception.type_error.302]";
  is_null-null = refl;
  null_of_is_null = null_of_is_null;
  is_object-null = refl;
  is_object-object = refl;
  is_object-string = λ s. refl;
  is_null-string = λ s. refl;
  as_string-string = λ s. refl;
  string_of_as_string = string_of_as_string;
  equal-string = equal-string;
  equal-number = λ m n. refl;
  find-object = λ k. refl;
  find-other = find-other;
  is_object-insert = is_object-insert;
  find-insert = find-insert;
  is_object-erase = is_object-erase;
  find-erase = find-erase;
  find-items = find-items;
  what_parse = λ s. "[json.exception.parse_error.101]";
  items-insert = items-insert;
  items-other = items-other;
  items-string = λ s. refl;
}
