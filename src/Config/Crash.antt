-- ===== src/Config/Crash.antt =====
-- Parameters on which `config::add` ends the daemon: the test that a path goes through objects is
-- made before the last step down, and operator[] throws in a `noexcept` function.
use nonsense.Base.{String, ◌≡◌, refl, ◌∙◌, true, false, none, List, [], ◌∷◌, arith}
use nonsense.Base.Action.{done, aborts}
use nonsense.Json.{JsonLib}
use nonsense.Config.Names.{ParameterValue}
use nonsense.Config.Validate.{get, subscript}
use nonsense.Config.Paths.{get-insert_self, not_null}
use nonsense.Config.Add.{
  Config, stored, terminates, segments, value_of, assign, store_parameter, store_one,
  store_parameters, add,
}

module _ (json : JsonLib) where
  open json use {
    Value, null, object, is_null, is_object, find, insert, is_object-insert, is_object-object,
    is_object-null, is_null-null, null_of_is_null, find-object,
  }

  -- The first value of a new entity is stored.
  assign_new :
      (a : String) (x : Value)
      → assign json "" object a [] x ≡ stored (insert (insert object a null) a x)
  unfolding assign subscript
  assign_new a x = ground (
    arith,
    not_null json object is_object-object,
    is_object-object,
    find-object a,
    get-insert_self json object a null is_object-object,
    is_null-null,
  )

  -- One step below a value that is neither null nor an object.
  assign_below :
      (e : Value) (a b : String) (x y : Value)
      → is_object e ≡ true
      → get json e a ≡ x
      → is_null x ≡ false
      → is_object x ≡ false
      → assign json "" e a (b ∷ []) y ≡ terminates (insert e a x)
  unfolding assign subscript
  assign_below e a b x y o g n m = ground (arith, not_null json e o)

  module _ (name a b : String) (p q : ParameterValue) (at_p : segments p.parameter ≡ (a, []))
      (at_q : segments q.parameter ≡ (a, b ∷ [])) (scalar : is_null (value_of json p.value) ≡ false)
      (no_object : is_object (value_of json p.value) ≡ false) where
    abbrev entity : Value
    entity = insert (insert object a null) a (value_of json p.value)

    entity_object : is_object (insert object a null) ≡ true
    entity_object = is_object-insert object a null is_object-object

    store_first :
        (r : Value)
        → is_object r ≡ true
        → store_one json name p (insert r name object)
          ≡ (done none, insert (insert r name object) name entity)
    unfolding store_one store_parameter
    store_first r o = rw (at_p, get-insert_self json r name object o, assign_new) refl

    stored_second :
        store_parameter json q entity ≡ terminates (insert entity a (value_of json p.value))
    stored_second =
        opened
        ∙ assign_below entity a b (value_of json p.value) (value_of json q.value)
            (is_object-insert _ a _ entity_object) (get-insert_self json _ a _ entity_object) scalar
            no_object
      where
        opened :
            store_parameter json q entity ≡ assign json "" entity a (b ∷ []) (value_of json q.value)
        opened = unfold store_parameter in rw at_q

    store_second :
        (r : Value) → is_object r ≡ true → (store_one json name q (insert r name entity)).0 ≡ aborts
    unfolding store_one
    store_second r o = rw (get-insert_self json r name entity o, stored_second)

    -- Two parameters of which the second goes one step below the first: where the first value is
    -- neither null nor an object, adding a new entity to a configuration that may change stops the
    -- daemon, whatever the second value and the other parameters are.
    pub add-aborts :
        (ps : List ParameterValue) (c : Config json)
        → c.mutable_ ≡ true
        → is_object c.configuration ≡ true
        → find c.configuration name ≡ none
        → (add json name (p ∷ q ∷ ps) c).0 ≡ aborts
    unfolding add store_parameters
    add-aborts ps c m o f = ground (
      arith,
      store_first c.configuration o,
      store_second (insert c.configuration name object) (is_object-insert _ name object o),
    )
