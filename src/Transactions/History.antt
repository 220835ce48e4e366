-- ===== src/Transactions/History.antt =====
-- What histories of bus calls make of the running configuration.
use nonsense.Base.{
  ℕ, String, ◌≡◌, ◌≢◌, sym, ◌∙◌, subst, false, some, List, [], ◌∷◌, All, arith, str_eq,
}
use nonsense.Bus.{got}
use nonsense.Json.{JsonLib}
use nonsense.Config.Checks.{netns_key}
use nonsense.Config.Valid.{metadata_key, ValidConfig}
use nonsense.Config.Names.{ParameterValue}
use nonsense.Transactions.Transaction.{Transaction, Operation, add, set, delete_, push, make}
use nonsense.Transactions.Manager.{lookup, Transactions, IdMessage}
use nonsense.Transactions.Run.{
  Call, lists, news, commits, discards, adds, Moves, keeps, opens, closes, grows, step, run,
  step-Moves, step_configs,
}
use nonsense.Transactions.Valid.{AreOrdinary, Extends, method_commit-ValidConfig}

-- A call of Add names neither ":default-netns" nor "!metadata".
abbrev pub IsOrdinaryCall : Call → Type 0
IsOrdinaryCall (adds id m) =
    (name : String)
    → m.name ≡ got name
    → (str_eq netns_key name ≡ false) × (str_eq metadata_key name ≡ false)
IsOrdinaryCall _ = Unit

module _ (t : Transaction) (name : String) (ps : List ParameterValue)
    (o : (str_eq netns_key name ≡ false) × (str_eq metadata_key name ≡ false)) where
  AreOrdinary-push :
      (ops : List Operation)
      → AreOrdinary ops
      → AreOrdinary (push (add name ps) (record t { operations = ops })).operations
  AreOrdinary-push [] k = (o.0, o.1, tt)
  AreOrdinary-push (add n qs ∷ ops) (d, m, k) = (d, m, AreOrdinary-push ops k)
  AreOrdinary-push (set n qs ∷ ops) k = AreOrdinary-push ops k
  AreOrdinary-push (delete_ n ∷ ops) k = AreOrdinary-push ops k

module _ (json : JsonLib) where
  -- The operations of every open transaction use ordinary names.
  pub record IsOrdinary (s : Transactions json) : Type 0 where
    pub at : (id : ℕ) (t : Transaction) → lookup id s.open_ ≡ some t → AreOrdinary t.operations

  step-IsOrdinary :
      (c : Call) (s : Transactions json)
      → IsOrdinaryCall c
      → IsOrdinary s
      → IsOrdinary (step json c s)
  step-IsOrdinary c s k o = record { at = λ id t f. moved id t f (step-Moves json c s id) }
    where
      moved :
          (id : ℕ) (t : Transaction)
          → lookup id (step json c s).open_ ≡ some t
          → Moves json c id (lookup id s.open_) (lookup id (step json c s).open_)
          → AreOrdinary t.operations
      moved id t f (keeps e) = o.at id t (sym e ∙ f)
      moved id t f (opens uid b e) =
          let same : make id uid ≡ t = ground arith in
          subst (λ (u : Transaction). AreOrdinary u.operations) same (unfold make in tt)
      moved id t f (closes e) = absurd (ground arith)
      moved id t f (grows uid u name ps m x y b d e) =
          let same : push (add name ps) u ≡ t = ground arith in
          subst (λ (v : Transaction). AreOrdinary v.operations) same
            (AreOrdinary-push u name ps (subst IsOrdinaryCall x k name y) u.operations
              (o.at id u b))

  abbrev Stays : Transactions json → Transactions json → Type 0
  Stays s t =
      ValidConfig json t.running_config.configuration
      × Extends json s.running_config t.running_config

  not_commit :
      (c : Call) (s : Transactions json)
      → ((m : IdMessage) → c ≢ commits m)
      → ValidConfig json s.running_config.configuration
      → Stays s (step json c s)
  not_commit c s n v = rw ((step_configs json c s).1 n) (v, λ j e d f. f)

  step-ValidConfig :
      (c : Call) (s : Transactions json)
      → IsOrdinary s
      → ValidConfig json s.running_config.configuration
      → Stays s (step json c s)
  unfolding step
  step-ValidConfig (commits m) s o v = method_commit-ValidConfig json m s o.at v
  step-ValidConfig lists s o v = not_commit lists s (λ m. cc) v
  step-ValidConfig (news n) s o v = not_commit (news n) s (λ m. cc) v
  step-ValidConfig (discards n) s o v = not_commit (discards n) s (λ m. cc) v
  step-ValidConfig (adds id n) s o v = not_commit (adds id n) s (λ m. cc) v

  -- Through any history of calls, where the calls of Add name neither ":default-netns" nor
  -- "!metadata", and no operation of the transactions that are open at first does, a valid running
  -- configuration stays valid, and no entity of it changes or goes.
  pub run-ValidConfig :
      (cs : List Call) (s : Transactions json)
      → All IsOrdinaryCall cs
      → IsOrdinary s
      → ValidConfig json s.running_config.configuration
      → ValidConfig json (run json cs s).running_config.configuration
        × Extends json s.running_config (run json cs s).running_config
  unfolding run
  run-ValidConfig [] s k o v = (v, λ n e d f. f)
  run-ValidConfig (c ∷ cs) s (k, ks) o v =
      let first = step-ValidConfig c s o v in
      let rest = run-ValidConfig cs (step json c s) ks (step-IsOrdinary c s k o) first.0 in
      (rest.0, λ n e d f. rest.1 n e d (first.1 n e d f))
