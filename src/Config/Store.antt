-- ===== src/Config/Store.antt =====
-- What `config::add` does to the configuration while it stores the parameters.
use nonsense.Base.{
  String, ◌≡◌, refl, ◌∙◌, true, false, Option, none, some, List, [], ◌∷◌, arith, str_eq,
}
use nonsense.Base.Action.{Action, Outcome, continue, pure, done, throws, aborts}
use nonsense.Json.{JsonLib}
use nonsense.Config.Names.{ParameterValue}
use nonsense.Config.Validate.{get}
use nonsense.Config.Paths.{find-insert_ne, get-insert_self, not_null}
use nonsense.Config.Add.{
  Stored, stored, not_object, repeated, terminates, ConfigResult, replace, assign, store_parameter,
  after_store, store_one, store_parameters,
}

module _ (json : JsonLib) where
  open json use {
    Value, null, object, is_null, is_object, find, insert, erase, is_object-insert, is_object-erase,
    find-erase, is_object-null, null_of_is_null,
  }

  abbrev StaysObject : Stored Value → Type 0
  StaysObject (stored v) = is_object v ≡ true
  StaysObject _ = Unit

  replace-StaysObject :
      (t : Value) (key : String) (s : Stored Value)
      → is_object t ≡ true
      → StaysObject (replace (insert t key) s)
  replace-StaysObject t key (stored v) o = is_object-insert t key v o
  replace-StaysObject t key _ o = tt

  assign-StaysObject :
      (seen : String) (tree : Value) (key : String) (rest : List String) (x : Value)
      → is_object tree ≡ true
      → StaysObject (assign json seen tree key rest x)
  unfolding assign
  assign-StaysObject seen tree key [] x o = ground (
    arith,
    is_object-null,
    null_of_is_null tree,
    is_object-insert tree key null o,
    is_object-insert (insert tree key null) key x,
    is_object-insert tree key x o,
  )
  assign-StaysObject seen tree key (next ∷ rest) x o =
      rw (not_null json tree o, o) (replace-StaysObject tree key _ o)

  -- The others are as they were, whatever happens.
  pub record OnlyEntity (name : String) (r r' : Value) : Type 0 where
    pub object_ : is_object r' ≡ true
    pub others : (j : String) → str_eq name j ≡ false → find r' j ≡ find r j

  module _ (name : String) where
    pub OnlyEntity-trans :
        (r s t : Value) → OnlyEntity name r s → OnlyEntity name s t → OnlyEntity name r t
    OnlyEntity-trans r s t a b = record {
      object_ = b.object_;
      others = λ j n. b.others j n ∙ a.others j n;
    }

    pub OnlyEntity-insert : (r x : Value) → is_object r ≡ true → OnlyEntity name r (insert r name x)
    OnlyEntity-insert r x o = record {
      object_ = is_object-insert r name x o;
      others = λ j n. find-insert_ne json r name x j o n;
    }

    pub OnlyEntity-erase : (r : Value) → is_object r ≡ true → OnlyEntity name r (erase r name)
    OnlyEntity-erase r o = record {
      object_ = is_object-erase r name o;
      others = λ j n. ground (arith, find-erase r name j o);
    }

    -- What is left when storing ends: the entity is an object while `add` goes on.
    abbrev pub Stores : Value → Outcome (Option ConfigResult) × Value → Type 0
    Stores r q = OnlyEntity name r q.1 × (q.0 ≡ done none → is_object (get json q.1 name) ≡ true)

    after_store-Stores :
        (key : String) (s : Stored Value) (r : Value)
        → is_object r ≡ true
        → StaysObject s
        → Stores r (after_store json name key s r)
    after_store-Stores key (stored v) r o k =
        (OnlyEntity-insert r v o, λ _. rw (get-insert_self json r name v o) k)
    after_store-Stores key (not_object path v) r o k = (OnlyEntity-insert r v o, λ h. cc)
    after_store-Stores key (repeated v) r o k = (
      OnlyEntity-trans r (insert r name v) _ (OnlyEntity-insert r v o)
          (OnlyEntity-erase _ (is_object-insert r name v o)),
      λ h. cc,
    )
    after_store-Stores key (terminates v) r o k = (OnlyEntity-insert r v o, λ h. cc)

    store_one-Stores :
        (p : ParameterValue) (r : Value)
        → is_object r ≡ true
        → is_object (get json r name) ≡ true
        → Stores r (store_one json name p r)
    unfolding store_one store_parameter
    store_one-Stores p r o eo =
        after_store-Stores p.parameter _ r o (assign-StaysObject "" (get json r name) _ _ _ eo)

    next-Stores :
        (r : Value) (q : Outcome (Option ConfigResult) × Value)
        (f : Action Value (Option ConfigResult))
        → Stores r q
        → (q.0 ≡ done none → Stores r (f q.1))
        → Stores r (continue q.0 (λ early. elim early [ none ↦ f | some e ↦ pure (some e) ]) q.1)
    next-Stores r (done none, s) f h k = k refl
    next-Stores r (done (some e), s) f h k = h
    next-Stores r (throws what, s) f h k = (h.0, λ e. cc)
    next-Stores r (aborts, s) f h k = (h.0, λ e. cc)

    pub store_parameters-Stores :
        (ps : List ParameterValue) (r : Value)
        → is_object r ≡ true
        → is_object (get json r name) ≡ true
        → Stores r (store_parameters json name ps r)
    unfolding store_parameters
    store_parameters-Stores [] r o eo = (record { object_ = o; others = λ j n. refl }, λ _. eo)
    store_parameters-Stores (p ∷ ps) r o eo =
        next-Stores r (store_one json name p r) (store_parameters json name ps)
          (store_one-Stores p r o eo)
          λ h.
            let first = store_one-Stores p r o eo in
            let rest =
              store_parameters-Stores ps (store_one json name p r).1 first.0.object_ (first.1 h) in
            (OnlyEntity-trans r _ _ first.0 rest.0, rest.1)
