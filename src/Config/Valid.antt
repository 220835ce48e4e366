-- ===== src/Config/Valid.antt =====
-- What `config::add` comes to on a valid configuration, part by part.
use nonsense.Base.{
  String, ◌≡◌, inl, inr, refl, sym, ◌∙◌, true, false, Option, none, some, List, [], ◌∷◌, arith,
  str_eq, eq_iff, Bool-cases,
}
use nonsense.Base.Int.{neg, einval, is_negative}
use nonsense.Base.Action.{Action, Outcome, done, throws, aborts, continue, pure}
use nonsense.Json.{JsonLib}
use nonsense.Config.Names.{ParameterValue}
use nonsense.Config.Validate.{get, validate_entity}
use nonsense.Config.Checks.{netns_key}
use nonsense.Config.Paths.{get-insert_self}
use nonsense.Config.Add.{
  ConfigResult, Stored, stored, not_object, repeated, terminates, after_store, store_one,
  store_parameters, validate_added, add_entity,
}
use nonsense.Config.Touches.{Touches, OthersHaveRoles}
use nonsense.Config.Components.{
  ValidEntity, Start, validate_entity-Touches, validate_entity-ValidEntity,
}
use nonsense.Config.Store.{
  OnlyEntity, Stores, OnlyEntity-insert, OnlyEntity-erase, OnlyEntity-trans,
  store_parameters-Stores,
}
use nonsense.Config.Kept.{Kept, Kept-OnlyEntity, Kept-Touches, Kept-before, Kept-after}

abbrev pub metadata_key : String
metadata_key = "!metadata"

module _ (json : JsonLib) where
  open json use {
    Value, null, object, string, is_null, is_object, find, insert, erase, is_object-object,
    is_object-string, find-other,
  }

  -- A configuration as the program wants it: every entity is valid, and the two other keys hold no
  -- entity with a network component.
  pub record ValidConfig (r : Value) : Type 0 where
    pub object_ : is_object r ≡ true
    pub netns_plain : find (get json r netns_key) "network" ≡ none
    pub metadata_plain : find (get json r metadata_key) "network" ≡ none
    pub entities :
        (name : String) (ordinary : str_eq netns_key name ≡ false) (e : Value)
        → str_eq metadata_key name ≡ false
        → find r name ≡ some e
        → ValidEntity json name ordinary r

  module _ (name : String) (ordinary : str_eq netns_key name ≡ false) where
    -- A valid configuration gives every other entity a role.
    pub ValidConfig-OthersHaveRoles :
        (r : Value) → ValidConfig r → OthersHaveRoles json name ordinary r
    ValidConfig-OthersHaveRoles r v un e n ne f g h = elim (Bool-cases (str_eq netns_key un)) [
      | inl d ↦ absurd (ground (arith, (eq_iff netns_key un).0 d, v.netns_plain))
      | inr d ↦ elim (Bool-cases (str_eq metadata_key un)) [
        | inl m ↦ absurd (ground (arith, (eq_iff metadata_key un).0 m, v.metadata_plain))
        | inr m ↦
            let good = (v.entities un d e m f).good n (ground arith) in
            (string good.text, good.role_found)
      ]
    ]

    OnlyEntity-OthersHaveRoles :
        (r s : Value)
        → OnlyEntity json name r s
        → OthersHaveRoles json name ordinary r
        → OthersHaveRoles json name ordinary s
    OnlyEntity-OthersHaveRoles r s k roles un e n ne f g h =
        roles un e n ne (sym (k.others un ne) ∙ f) g h

    -- The outcome of the validation at the end of `add`.
    abbrev pub Adds : Value → Outcome ConfigResult × Value → Type 0
    Adds r q =
        Kept json name ordinary r q.1
        × ((result : ConfigResult)
            → q.0 ≡ done result
            → is_negative result.error_code ≡ false
            → ValidEntity json name ordinary q.1 × (is_object (get json q.1 name) ≡ true))

    validate_added-Adds :
        (r : Value) → Start json name ordinary r → Adds r (validate_added json name r)
    unfolding validate_added
    validate_added-Adds r k = go (validate_entity json name r).0 refl
      where
        s : Value
        s = (validate_entity json name r).1

        t : Touches json name ordinary r s
        t = validate_entity-Touches json name ordinary r k

        go :
            (o : Outcome (Unit {0}))
            → (validate_entity json name r).0 ≡ o
            → Adds r (validate_added json name r)
        go (done tt) e =
            rw (e, validate_added)
              (
                Kept-Touches json name ordinary r s t,
                λ result f z.
                    (validate_entity-ValidEntity json name ordinary r k e, t.entity_object),
              )
        go (throws what) e =
            rw (e, validate_added)
              (
                Kept-after json name ordinary r s _ (Kept-Touches json name ordinary r s t)
                    (OnlyEntity-erase json name s t.object),
                λ result f z. absurd (ground arith),
              )
        go aborts e =
            rw (e, validate_added) (Kept-Touches json name ordinary r s t, λ result f z. cc)

    -- Storing ends early only with a failure.
    abbrev Fails : Outcome (Option ConfigResult) → Type 0
    Fails o = (e : ConfigResult) → o ≡ done (some e) → e.error_code ≡ neg einval

    after_store-Fails :
        (key : String) (s : Stored Value) (r : Value) → Fails (after_store json name key s r).0
    after_store-Fails key (stored v) r e h = cc
    after_store-Fails key (not_object path v) r e h = ground arith
    after_store-Fails key (repeated v) r e h = ground arith
    after_store-Fails key (terminates v) r e h = cc

    early-Fails :
        (q : Outcome (Option ConfigResult) × Value) (f : Action Value (Option ConfigResult))
        → Fails q.0
        → ((s : Value) → Fails (f s).0)
        → Fails (continue q.0 (λ early. elim early [ none ↦ f | some e ↦ pure (some e) ]) q.1).0
    early-Fails (done none, s) f h k = k s
    early-Fails (done (some e), s) f h k = h
    early-Fails (throws what, s) f h k = λ e x. cc
    early-Fails (aborts, s) f h k = λ e x. cc

    store_parameters-Fails :
        (ps : List ParameterValue) (r : Value) → Fails (store_parameters json name ps r).0
    unfolding store_parameters store_one
    store_parameters-Fails [] r = λ e h. cc
    store_parameters-Fails (p ∷ ps) r =
        early-Fails (store_one json name p r) (store_parameters json name ps)
          (after_store-Fails p.parameter _ r) (store_parameters-Fails ps)

    finish-Adds :
        (r : Value) (q : Outcome (Option ConfigResult) × Value)
        → Kept json name ordinary r q.1
        → Fails q.0
        → (q.0 ≡ done none → Adds r (validate_added json name q.1))
        → Adds r (
            continue q.0
              (λ early. elim early [ none ↦ validate_added json name | some e ↦ pure e ])
              q.1)
    finish-Adds r (done none, s) k f h = h refl
    finish-Adds r (done (some e), s) k f h = (k, λ result x z. absurd (ground (arith, f e)))
    finish-Adds r (throws what, s) k f h = (k, λ result x z. cc)
    finish-Adds r (aborts, s) k f h = (k, λ result x z. cc)

    Adds-before :
        (r s : Value) (q : Outcome ConfigResult × Value)
        → OnlyEntity json name r s
        → Adds s q
        → Adds r q
    Adds-before r s q k a = (Kept-before json name ordinary r s q.1 k a.0, a.1)

    pub add_entity-Adds :
        (ps : List ParameterValue) (r : Value)
        → is_object r ≡ true
        → OthersHaveRoles json name ordinary r
        → Adds r (add_entity json name ps r)
    unfolding add_entity
    add_entity-Adds ps r o roles =
        finish-Adds r (store_parameters json name ps r1)
          (Kept-OnlyEntity json name ordinary r _ whole) (store_parameters-Fails ps r1)
          λ h. Adds-before r _ _ whole (
            validate_added-Adds _
              (whole.object_, stores.1 h, OnlyEntity-OthersHaveRoles r _ whole roles))
      where
        r1 : Value
        r1 = insert r name object

        start : OnlyEntity json name r r1
        start = OnlyEntity-insert json name r object o

        stores : Stores json name r1 (store_parameters json name ps r1)
        stores =
            store_parameters-Stores json name ps r1 start.object_
              (rw (get-insert_self json r name object o) is_object-object)

        whole : OnlyEntity json name r (store_parameters json name ps r1).1
        whole = OnlyEntity-trans json name r r1 _ start stores.0
