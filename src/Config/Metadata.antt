-- ===== src/Config/Metadata.antt =====
-- `_validate_metadata` of daemon/config.cpp.
use Prim.Native.String.{◌++◌}
use nonsense.Base.{
  String, ◌≡◌, ◌↔◌, refl, ◌∙◌, inl, inr, true, none, some, List, [], ◌∷◌, All, arith, Bool-cases,
  Option-cases, if◌then◌else◌, str_eq,
}
use nonsense.Base.Action.{Outcome, done, throws}
use nonsense.Json.{JsonLib}

module _ (json : JsonLib) where
  open json use {Value, number, is_object, as_string, equal, find, items, what_convert}

  -- The loop over the keys of the section, of which only "version" is allowed, and what stands
  -- behind it.
  unfoldable pub check_metadata_keys :
      List (String × Value) → Outcome (Unit {0}) → Outcome (Unit {0})
  check_metadata_keys [] after = after
  check_metadata_keys ((key, value) ∷ rest) after =
      let others = check_metadata_keys rest after in
      if str_eq key "version"
      then others
      else throws ("Invalid !metadata parameter: " ++ key ++ ".")

  -- `std::string(*version_it)` throws where the version is no text.
  abbrev unsupported : Value → String
  unsupported version = elim (as_string version) [
    | none ↦ what_convert version
    | some text ↦
        "Invalid configuration file: unsupported configuration format version: " ++ text ++ "."
  ]

  unfoldable pub check_version : Value → Outcome (Unit {0})
  check_version metadata = elim (find metadata "version") [
    | none ↦ throws (
        "Invalid configuration file: the format version has not been specified in the !metadata "
        ++ "section.")
    | some version ↦ if equal version (number 1) then done tt else throws (unsupported version)
  ]

  unfoldable pub validate_metadata : Value → Outcome (Unit {0})
  unfolding check_metadata_keys check_version
  validate_metadata configuration = elim (find configuration "!metadata") [
    | none ↦ throws "Invalid configuration file: no !metadata section."
    | some metadata ↦
        if is_object metadata
        then check_metadata_keys (items metadata) (check_version metadata)
        else throws "Invalid configuration file: the !metadata section is not a JSON object."
  ]

  abbrev OnlyVersion : List (String × Value) → Type 0
  OnlyVersion kvs = All (λ (kv : String × Value). str_eq kv.0 "version" ≡ true) kvs

  -- What the section has to be.
  pub record GoodMetadata (configuration : Value) : Type 0 where
    pub metadata : Value
    pub version : Value
    pub there : find configuration "!metadata" ≡ some metadata
    pub object_ : is_object metadata ≡ true
    pub only : OnlyVersion (items metadata)
    pub versioned : find metadata "version" ≡ some version
    pub one : equal version (number 1) ≡ true

  keys_done :
      (kvs : List (String × Value)) (after : Outcome (Unit {0}))
      → check_metadata_keys kvs after ≡ done tt
      → OnlyVersion kvs × (after ≡ done tt)
  unfolding check_metadata_keys
  keys_done [] after h = (tt, h)
  keys_done ((key, value) ∷ rest) after h = elim (Bool-cases (str_eq key "version")) [
    | inr n ↦ absurd (ground arith)
    | inl y ↦ let k = keys_done rest after (rw y at h) in ((y, k.0), k.1)
  ]

  keys_only :
      (kvs : List (String × Value)) (after : Outcome (Unit {0}))
      → OnlyVersion kvs
      → check_metadata_keys kvs after ≡ after
  unfolding check_metadata_keys
  keys_only [] after o = refl
  keys_only ((key, value) ∷ rest) after (y, o) = rw y (keys_only rest after o)

  version_done :
      (metadata : Value)
      → check_version metadata ≡ done tt
      → (version : Value) × (find metadata "version" ≡ some version)
        × (equal version (number 1) ≡ true)
  unfolding check_version
  version_done metadata h = elim (Option-cases (find metadata "version")) [
    | inl e ↦ absurd (ground arith)
    | inr (version, e) ↦ elim (Bool-cases (equal version (number 1))) [
      | inl y ↦ (version, e, y)
      | inr n ↦ absurd (ground arith)
    ]
  ]

  good_metadata :
      (configuration : Value)
      → validate_metadata configuration ≡ done tt
      → GoodMetadata configuration
  unfolding validate_metadata
  good_metadata configuration h = elim (Option-cases (find configuration "!metadata")) [
    | inl e ↦ absurd (ground arith)
    | inr (metadata, e) ↦ elim (Bool-cases (is_object metadata)) [
      | inr n ↦ absurd (ground arith)
      | inl o ↦
          let k =
            keys_done (items metadata) (check_version metadata)
              (rw (validate_metadata, e, o) at h) in
          let v = version_done metadata k.1 in
          record {
            metadata = metadata;
            version = v.0;
            there = e;
            object_ = o;
            only = k.0;
            versioned = v.1;
            one = v.2;
          }
    ]
  ]

  -- The check of the metadata passes exactly if there is a section "!metadata" that is an object,
  -- has no key but "version", and has a version that equals 1.
  pub validate_metadata-GoodMetadata :
      (configuration : Value)
      → (validate_metadata configuration ≡ done tt) ↔ GoodMetadata configuration
  unfolding validate_metadata check_version
  validate_metadata-GoodMetadata configuration = (
    good_metadata configuration,
    λ g.
        rw (validate_metadata, g.there, g.object_)
          (keys_only (items g.metadata) (check_version g.metadata) g.only
            ∙ rw (check_version, g.versioned, g.one) refl),
  )
