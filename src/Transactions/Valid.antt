-- ===== src/Transactions/Valid.antt =====
-- Commits keep the running configuration valid.
use nonsense.Base.{
  ℕ, String, ◌≡◌, refl, ◌∙◌, subst, inl, inr, true, false, none, some, List, [], ◌∷◌, arith,
  Bool-cases, Option-cases, str_eq, eq_iff,
}
use nonsense.Base.Int.{is_negative}
use nonsense.Base.Action.{Outcome-cases, done}
use nonsense.Json.{JsonLib}
use nonsense.Config.Names.{ParameterValue}
use nonsense.Config.Validate.{get}
use nonsense.Config.Checks.{netns_key}
use nonsense.Config.Add
use nonsense.Config.Add.{Config, ConfigResult, copy, set_from}
use nonsense.Config.Valid.{ValidConfig, metadata_key}
use nonsense.Config.Paths.{find_of_get, not_null}
use nonsense.Config.Sound.{add-Kept, add-ValidConfig}
use nonsense.Transactions.Transaction.{Transaction, Operation, add, set, delete_}
use nonsense.Transactions.Manager.{
  applied, IdMessage, Transactions, lookup, apply, apply_all, method_commit,
}
use nonsense.Transactions.Commit.{method_commit-AllOrNothing, Applied-cases, Commits}

-- The names that operations may use: not the two keys that are no entities.
abbrev pub AreOrdinary : List Operation → Type 0
AreOrdinary [] = Unit
AreOrdinary (add name ps ∷ ops) =
    (str_eq netns_key name ≡ false) × (str_eq metadata_key name ≡ false) × AreOrdinary ops
AreOrdinary (_ ∷ ops) = AreOrdinary ops

applied_inj {ℓ} : {C : Type ℓ} {a b : C} → applied a ≡ applied b → a ≡ b
applied_inj e = cc

other_name :
    (json : JsonLib) (name j : String) (c : Config json) (x : json.Value)
    → json.find c.configuration name ≡ none
    → json.find c.configuration j ≡ some x
    → str_eq name j ≡ false
other_name json name j c x e f = elim (Bool-cases (str_eq name j)) [
  | inr n ↦ n
  | inl s ↦ absurd (ground (arith, (eq_iff name j).0 s))
]

module _ (json : JsonLib) where
  open json use {Value, find, is_object}

  -- An operation that is applied is an `add` that succeeded.
  apply-applied :
      (name : String) (ps : List ParameterValue) (c c' : Config json)
      → apply json (add name ps) c ≡ applied c'
      → (result : ConfigResult) × ((Add.add json name ps c).0 ≡ done result)
        × (is_negative result.error_code ≡ false)
        × ((Add.add json name ps c).1 ≡ c')
  unfolding apply
  apply-applied name ps c c' h = elim (Option-cases (Add.try_get json c name)) [
    | inr (e, f) ↦ absurd (ground arith)
    | inl f ↦ elim (Outcome-cases (Add.add json name ps c).0) [
      | inr k ↦ absurd (ground (arith, k))
      | inl (result, k) ↦ elim (Bool-cases (is_negative result.error_code)) [
        | inl n ↦ absurd (ground arith)
        | inr n ↦ (result, k, n, ground arith)
      ]
    ]
  ]

  -- Every entity of one configuration is in the other one, unchanged.
  abbrev pub Extends : Config json → Config json → Type 0
  Extends c c' =
      (n : String) (e : Value)
      → str_eq netns_key n ≡ false
      → find c.configuration n ≡ some e
      → find c'.configuration n ≡ some e

  -- Every entity that the operations add is there.
  abbrev pub HasAdded : List Operation → Value → Type 0
  HasAdded [] r = Unit
  HasAdded (add name ps ∷ ops) r =
      ((e : Value) × (find r name ≡ some e) × (is_object e ≡ true)) × HasAdded ops r
  HasAdded (_ ∷ ops) r = HasAdded ops r

  abbrev Grows : List Operation → Config json → Config json → Type 0
  Grows ops c c' = ValidConfig json c'.configuration × Extends c c' × HasAdded ops c'.configuration

  apply-Grows :
      (name : String) (ps : List ParameterValue) (c c' : Config json)
      → str_eq netns_key name ≡ false
      → str_eq metadata_key name ≡ false
      → ValidConfig json c.configuration
      → apply json (add name ps) c ≡ applied c'
      → Grows (add name ps ∷ []) c c'
  apply-Grows name ps c c' o m v h =
      let (result, d, n, e) = apply-applied name ps c c' h in
      let k = add-ValidConfig json name o ps c v m result d n in
      subst (λ (x : Config json). Grows (add name ps ∷ []) c x) e
        (
          k.3,
          λ j x ord f.
              (add-Kept json name o ps c v).others j (other_name json name j c x k.1 f) ord ∙ f,
          (
            (
              get json (Add.add json name ps c).1.configuration name,
              find_of_get json _ name _ refl (not_null json _ k.2),
              k.2,
            ),
            tt,
          ),
        )

  apply_all-Grows :
      (ops : List Operation) (c c' : Config json)
      → AreOrdinary ops
      → ValidConfig json c.configuration
      → apply_all json ops c ≡ applied c'
      → Grows ops c c'
  unfolding apply_all
  apply_all-Grows [] c c' o v h = subst (Grows [] c) (applied_inj h) (v, λ j x ord f. f, tt)
  apply_all-Grows (add name ps ∷ ops) c c' (o, m, rest) v h =
      elim (Applied-cases (apply json (add name ps) c)) [
        | inr k ↦ absurd (ground (arith, k))
        | inl (d, k) ↦
            let a = apply-Grows name ps c d o m v k in
            let b = apply_all-Grows ops d c' rest a.0 (rw (k, apply_all) at h) in
            (
              b.0,
              λ j x ord f. b.1 j x ord (a.1 j x ord f),
              ((a.2.0.0, b.1 name a.2.0.0 o a.2.0.1, a.2.0.2), b.2),
            )
      ]
  apply_all-Grows (set name ps ∷ ops) c c' o v h = absurd (unfold apply in ground arith)
  apply_all-Grows (delete_ name ∷ ops) c c' o v h = absurd (unfold apply in ground arith)

  -- Where the operations of the open transactions use ordinary names, a commit keeps a valid
  -- running configuration valid, and no entity of it changes or goes, whether the commit takes
  -- effect or not.
  pub method_commit-ValidConfig :
      (m : IdMessage) (s : Transactions json)
      → ((id : ℕ) (t : Transaction) → lookup id s.open_ ≡ some t → AreOrdinary t.operations)
      → ValidConfig json s.running_config.configuration
      → ValidConfig json (method_commit json m s).1.running_config.configuration
        × Extends s.running_config (method_commit json m s).1.running_config
  method_commit-ValidConfig m s o v = elim (method_commit-AllOrNothing json m s) [
    | inl (e, n) ↦ rw e (v, λ j x ord f. f)
    | inr k ↦
        let g =
          apply_all-Grows k.transaction.operations (copy json s.running_config) k.config
            (o k.id k.transaction k.found) (unfold copy in v) k.result in
        rw k.state (unfold copy set_from in (g.0, g.1))
  ]

  -- A commit that takes effect has added, as objects, all the entities that the operations of the
  -- transaction name; the operations use ordinary names and the running configuration was valid.
  pub method_commit-HasAdded :
      (m : IdMessage) (s : Transactions json)
      → ValidConfig json s.running_config.configuration
      → (k : Commits json m s (method_commit json m s).1) → AreOrdinary k.transaction.operations
      → HasAdded k.transaction.operations (method_commit json m s).1.running_config.configuration
  method_commit-HasAdded m s v k o =
      let g =
        apply_all-Grows k.transaction.operations (copy json s.running_config) k.config o
          (unfold copy in v) k.result in
      rw k.state (unfold set_from in g.2)
