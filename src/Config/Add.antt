-- ===== src/Config/Add.antt =====
-- `class config` of daemon/config.h, and `config::try_get` and `config::add` of daemon/config.cpp.
use Prim.Native.String.{◌++◌}
use nonsense.Base.{String, Bool, true, Option, none, some, List, [], ◌∷◌, if◌then◌else◌}
use nonsense.Base.Int.{ℤ, pos, neg, einval, eexist, erofs}
use nonsense.Base.Text.{split, first_is}
use nonsense.Base.Action.{Action, done, throws, aborts, pure, ◌>>=◌}
use nonsense.Json.{JsonLib}
use nonsense.Config.Names.{ParameterValue}
use nonsense.Config.Validate.{get, subscript, validate_entity}

pub record ConfigResult : Type 0 where
  pub error_code : ℤ
  pub error_message : String

abbrev pub success : ConfigResult
success = record { error_code = pos 0; error_message = "" }

-- What storing one parameter comes to, with the entity as it is left.
pub data Stored {ℓ} (V : Type ℓ) : Type ℓ where
  stored : V → Stored V
  -- the path goes through a value; the text is the path up to it
  not_object : String → V → Stored V
  repeated : V → Stored V
  -- operator[] throws, and `add` is noexcept
  terminates : V → Stored V

abbrev pub replace {ℓ} : {V : Type ℓ} → (V → V) → Stored V → Stored V
replace f (stored v) = stored (f v)
replace f (not_object path v) = not_object path (f v)
replace f (repeated v) = repeated (f v)
replace f (terminates v) = terminates (f v)

-- The segments that the loop over the dots of a parameter visits: `while (auto dot_pos = …)` also
-- ends at a dot in front of the text, which makes the whole text one key.
unfoldable pub segments : String → String × List String
unfolding split
segments key = if first_is b'.' key then (key, []) else split b'.' key

module _ (json : JsonLib) where
  open json use {Value, object, string, parse, is_null, is_object, find, insert, erase}

  pub record Config : Type 0 where
    pub mutable_ : Bool
    pub configuration : Value

  -- config::config(const config &)
  unfoldable pub copy : Config → Config
  copy other = record { mutable_ = true; configuration = other.configuration }

  -- config::operator=
  unfoldable pub set_from : Config → Config → Config
  set_from c other = record c { configuration = other.configuration }

  -- Which entity try_get makes, if any; it is a reference to this value.
  unfoldable pub try_get : Config → String → Option Value
  try_get c name = find c.configuration name

  -- The value is text unless it parses as JSON.
  unfoldable pub value_of : String → Value
  value_of text = elim (parse text) [ none ↦ string text | some v ↦ v ]

  -- The walk of the pointer `tree` along the segments, and the assignment at its end.
  unfoldable pub assign : String → Value → String → List String → Value → Stored Value
  unfolding subscript
  assign seen tree key [] x = elim (subscript json tree key) [
    | none ↦ terminates tree
    | some t ↦ if is_null (get json t key) then stored (insert t key x) else repeated t
  ]
  assign seen tree key (next ∷ rest) x =
      let t = if is_null tree then object else tree in
      let deeper = assign (seen ++ key ++ ".") (get json t key) next rest x in
      if is_object t then replace (insert t key) deeper else not_object (seen ++ key) t

  unfoldable pub store_parameter : ParameterValue → Value → Stored Value
  unfolding segments assign value_of
  store_parameter p entity =
      let (first, others) = segments p.parameter in assign "" entity first others (value_of p.value)

  -- What `add` does with the outcome for one parameter: go on (`none`), or return.
  abbrev pub after_store : String → String → Stored Value → Action Value (Option ConfigResult)
  after_store name key (stored entity) r = (done none, insert r name entity)
  after_store name key (not_object path entity) r = (
    done (
        some (record {
          error_code = neg einval;
          error_message =
              "Invalid entity configuration of '" ++ name ++ "': value specified for parameter "
              ++ key ++ ", but " ++ path ++ " is a value, not an object.";
        })),
    insert r name entity,
  )
  after_store name key (repeated entity) r = (
    done (
        some (record {
          error_code = neg einval;
          error_message =
              "Invalid entity configuration of '" ++ name ++ "': value for parameter " ++ key
              ++ " specified more than once.";
        })),
    erase (insert r name entity) name,
  )
  after_store name key (terminates entity) r = (aborts, insert r name entity)

  unfoldable pub store_one : String → ParameterValue → Action Value (Option ConfigResult)
  unfolding store_parameter
  store_one name p r = after_store name p.parameter (store_parameter p (get json r name)) r

  unfoldable pub store_parameters :
      String → List ParameterValue → Action Value (Option ConfigResult)
  unfolding store_one
  store_parameters name [] = pure none
  store_parameters name (p ∷ ps) = store_one name p >>= λ early. elim early [
    | none ↦ store_parameters name ps
    | some e ↦ pure (some e)
  ]

  -- `try { _validate_entity … } catch`
  unfoldable pub validate_added : String → Action Value ConfigResult
  unfolding validate_entity
  validate_added name r =
      let (o, r') = validate_entity json name r in
      elim o [
        | done u ↦ (done success, r')
        | throws what ↦
            (done (record { error_code = neg einval; error_message = what }), erase r' name)
        | aborts ↦ (aborts, r')
      ]

  unfoldable pub add_entity : String → List ParameterValue → Action Value ConfigResult
  unfolding store_parameters validate_added
  add_entity name ps r =
      (store_parameters name ps >>= λ early. elim early [
        | none ↦ validate_added name
        | some e ↦ pure e
      ])
        (insert r name object)

  -- config::add
  unfoldable pub add : String → List ParameterValue → Action Config ConfigResult
  unfolding add_entity
  add name initial_parameters c =
      if c.mutable_
      then elim (find c.configuration name) [
        | some x ↦ (
          done (record {
            error_code = neg eexist;
            error_message = "Cannot add entity " ++ name ++ ": entity already exists.";
          }),
          c,
        )
        | none ↦
            let (o, r) = add_entity name initial_parameters c.configuration in
            (o, record c { configuration = r })
      ]
      else (
        done (record {
          error_code = neg erofs;
          error_message = "Cannot modify an immutable configuration.";
        }),
        c,
      )
