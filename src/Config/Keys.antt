-- ===== src/Config/Keys.antt =====
-- All the rounds of the loop over the parameters, and `_validate_network` as a whole.
use nonsense.Base.{
  String, ◌≡◌, inl, inr, refl, sym, ap, ◌∙◌, subst, true, false, some, List, [], ◌∷◌, All, arith,
  str_eq, eq_iff, Bool-cases,
}
use nonsense.Base.Action.{Outcome, done, bind-done, bind-state}
use nonsense.Json.{JsonLib, assoc}
use nonsense.Config.Validate.{component_of, check_key, check_keys}
use nonsense.Config.Checks.{netns_key, HasRoles, Claims}
use nonsense.Config.Loop.{
  Accepted, Claims-object, Claims-trans, Claims-component, Claims-HasRoles, Claims-Meets,
  check_key-Claims, check_key-Accepted,
}

module _ (json : JsonLib) (name : String) (ordinary : str_eq netns_key name ≡ false) where
  open json use {Value, is_object, find, items, find-items}

  pub check_keys-Claims :
      (l : List (String × Value)) (r : Value)
      → is_object r ≡ true
      → HasRoles json r
      → Claims json name r (check_keys json name l r).1
  unfolding check_keys
  check_keys-Claims [] r o roles = inl refl
  check_keys-Claims ((key, x) ∷ l) r o roles =
      bind-state (Claims json name r) (check_key json name key) (λ _. check_keys json name l) r
        first
        λ _ _. Claims-trans json name ordinary r _ _ o first (
          check_keys-Claims l _ (Claims-object json name ordinary r _ o first)
            (Claims-HasRoles json name ordinary r _ o first roles))
    where
      first : Claims json name r (check_key json name key r).1
      first = check_key-Claims json name ordinary r key roles

  abbrev AllAccepted : Value → Value → List (String × Value) → Type 0
  AllAccepted c r = All λ (e : String × Value). Accepted json name ordinary c r e.0

  Accepted-mono :
      (c r r' : Value) (key : String)
      → is_object r ≡ true
      → Claims json name r r'
      → Accepted json name ordinary c r key
      → Accepted json name ordinary c r' key
  Accepted-mono c r r' key o k (inl e) = inl e
  Accepted-mono c r r' key o k (inr (p, f, m)) =
      inr (p, f, Claims-Meets json name ordinary c r r' p o k m)

  check_keys-All :
      (l : List (String × Value)) (r : Value)
      → is_object r ≡ true
      → HasRoles json r
      → (check_keys json name l r).0 ≡ done tt
      → AllAccepted (component_of json name r) (check_keys json name l r).1 l
  unfolding check_keys
  check_keys-All [] r o roles h = tt
  check_keys-All ((key, x) ∷ l) r o roles h =
      subst
        (λ (q : Outcome Unit × Value). AllAccepted (component_of json name r) q.1 ((key, x) ∷ l))
        (sym step.2)
        (
          Accepted-mono (component_of json name r) s _ key so (check_keys-Claims l s so sroles)
              (check_key-Accepted json name ordinary r key o roles step.1),
          subst (λ (c : Value). AllAccepted c (check_keys json name l s).1 l)
              (Claims-component json name ordinary r s o first)
              (check_keys-All l s so sroles
                (ap (λ (q : Outcome Unit × Value). q.0) (sym step.2) ∙ h)),
        )
    where
      s : Value
      s = (check_key json name key r).1

      first : Claims json name r s
      first = check_key-Claims json name ordinary r key roles

      so : is_object s ≡ true
      so = Claims-object json name ordinary r s o first

      sroles : HasRoles json s
      sroles = Claims-HasRoles json name ordinary r s o first roles

      step :
          (a : Unit {0}) × ((check_key json name key r).0 ≡ done a)
          × (check_keys json name ((key, x) ∷ l) r ≡ check_keys json name l s)
      step = bind-done (check_key json name key) (λ _. check_keys json name l) r tt h

  Accepted-All :
      (c r : Value) (l : List (String × Value)) (key : String) (x : Value)
      → AllAccepted c r l
      → assoc l key ≡ some x
      → Accepted json name ordinary c r key
  Accepted-All c r [] key x a h = cc
  Accepted-All c r ((j, y) ∷ l) key x a h = elim (Bool-cases (str_eq j key)) [
    | inl e ↦ subst (Accepted json name ordinary c r) ((eq_iff j key).0 e) a.0
    | inr e ↦ Accepted-All c r l key x a.1 (ground arith)
  ]

  -- Every key that the component has is accepted.
  pub check_keys-Accepted :
      (r : Value)
      → is_object r ≡ true
      → HasRoles json r
      → is_object (component_of json name r) ≡ true
      → (check_keys json name (items (component_of json name r)) r).0 ≡ done tt
      → (key : String) (x : Value) → find (component_of json name r) key ≡ some x
      → Accepted json name ordinary
          (component_of json name r)
          (check_keys json name (items (component_of json name r)) r).1
          key
  check_keys-Accepted r o roles co h key x f =
      Accepted-All _ _ (items (component_of json name r)) key x (check_keys-All _ r o roles h)
        (sym (find-items (component_of json name r) key co) ∙ f)
