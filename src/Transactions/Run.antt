-- ===== src/Transactions/Run.antt =====
-- Histories of bus calls on the transaction manager and its transactions.
use nonsense.Base.{
  ℕ, String, ◌≡◌, ◌≢◌, refl, sym, ap, ◌∙◌, subst, inl, inr, false, Option, none, some, List, [],
  ◌∷◌, arith, ◌==◌, Bool-cases, Option-cases, if◌then◌else◌,
}
use nonsense.Bus.{got}
use nonsense.Json.{JsonLib}
use nonsense.Config.Names.{ParameterValue}
use nonsense.Transactions.Transaction.{
  Transaction, add, push, make, object_path_of, AddMessage, is_denied, method_add,
}
use nonsense.Transactions.Manager.{
  lookup, erase, put, NewMessage, IdMessage, Transactions, method_list, method_new, method_commit,
  method_discard, call_add,
}
use nonsense.Transactions.Table.{lookup-erase, lookup-put}
use nonsense.Transactions.Commit.{method_commit-AllOrNothing}
use nonsense.Transactions.Open.{method_discard-Discards, method_new-Opens}
use nonsense.Transactions.Adds.{method_add-AddsOne}

-- The calls that have a body; List, Serialize, Set and Delete only refuse.
pub data Call : Type 0 where
  lists : Call
  news : NewMessage → Call
  commits discards : IdMessage → Call
  adds : ℕ → AddMessage → Call

module _ (json : JsonLib) where
  unfoldable pub step : Call → Transactions json → Transactions json
  unfolding method_list method_new method_commit method_discard call_add
  step lists s = (method_list json s).1
  step (news m) s = (method_new json m s).1
  step (commits m) s = (method_commit json m s).1
  step (discards m) s = (method_discard json m s).1
  step (adds id m) s = (call_add json id m s).1

  unfoldable pub run : List Call → Transactions json → Transactions json
  unfolding step
  run [] s = s
  run (c ∷ cs) s = run cs (step c s)

  -- What a call may do to the transaction behind a number: nothing, open it empty, close it, or put
  -- one operation behind the others for its owner or for root.
  pub data Moves (c : Call) (id : ℕ) (before after : Option Transaction) : Type 0 where
    keeps : after ≡ before → Moves c id before after
    opens : (uid : ℕ) → before ≡ none → after ≡ some (make id uid) → Moves c id before after
    closes : after ≡ none → Moves c id before after
    grows :
        (uid : ℕ) (t : Transaction) (name : String) (ps : List ParameterValue) (m : AddMessage)
        → c ≡ adds id m
        → m.name ≡ got name
        → before ≡ some t
        → is_denied uid t.owner ≡ false
        → after ≡ some (push (add name ps) t)
        → Moves c id before after

  Moves-erase :
      (c : Call) (id j : ℕ) (s : Transactions json)
      → Moves c j (lookup j s.open_) (lookup j (erase id s.open_))
  Moves-erase c id j s = elim (Bool-cases (id == j)) [
    | inl e ↦ closes (ground (arith, lookup-erase id j s.open_))
    | inr e ↦ keeps (ground (arith, lookup-erase id j s.open_))
  ]

  commit-Moves :
      (m : IdMessage) (s : Transactions json) (j : ℕ)
      → Moves (commits m) j (lookup j s.open_) (lookup j (method_commit json m s).1.open_)
  commit-Moves m s j = elim (method_commit-AllOrNothing json m s) [
    | inl (e, n) ↦ keeps (ap (λ (t : Transactions json). lookup j t.open_) e)
    | inr k ↦ rw k.state (Moves-erase (commits m) k.id j s)
  ]

  discard-Moves :
      (m : IdMessage) (s : Transactions json) (j : ℕ)
      → Moves (discards m) j (lookup j s.open_) (lookup j (method_discard json m s).1.open_)
  discard-Moves m s j = elim (method_discard-Discards json m s) [
    | inl (e, n) ↦ keeps (ap (λ (t : Transactions json). lookup j t.open_) e)
    | inr k ↦ elim (Bool-cases (k.id == j)) [
      | inl e ↦ closes (ground (arith, k.closed j))
      | inr e ↦ keeps (ground (arith, k.closed j))
    ]
  ]

  new-Moves :
      (m : NewMessage) (s : Transactions json) (j : ℕ)
      → Moves (news m) j (lookup j s.open_) (lookup j (method_new json m s).1.open_)
  new-Moves m s j = elim (method_new-Opens json m s) [
    | inl (e, n) ↦ keeps (ap (λ (t : Transactions json). lookup j t.open_) e)
    | inr (k, r) ↦ elim (Bool-cases (k.id == j)) [
      | inl e ↦ opens k.uid (ground (arith, k.fresh)) (ground (arith, k.opened j))
      | inr e ↦ keeps (ground (arith, k.opened j))
    ]
  ]

  pub call_add-found :
      (id : ℕ) (m : AddMessage) (s : Transactions json) (t : Transaction)
      → lookup id s.open_ ≡ some t
      → (call_add json id m s).1 ≡ record s { open_ = put id (method_add m t).1 s.open_ }
  unfolding call_add
  call_add-found id m s t e = rw (e, call_add)

  call_add-missing :
      (id : ℕ) (m : AddMessage) (s : Transactions json)
      → lookup id s.open_ ≡ none
      → (call_add json id m s).1 ≡ s
  unfolding call_add
  call_add-missing id m s e = rw (e, call_add)

  add-Moves :
      (id : ℕ) (m : AddMessage) (s : Transactions json) (j : ℕ)
      → Moves (adds id m) j (lookup j s.open_) (lookup j (call_add json id m s).1.open_)
  add-Moves id m s j = elim (Option-cases (lookup id s.open_)) [
    | inl e ↦ keeps (ap (λ (x : Transactions json). lookup j x.open_) (call_add-missing id m s e))
    | inr (t, e) ↦
        subst (λ (o : Option Transaction). Moves (adds id m) j (lookup j s.open_) o)
          (sym (shown t e))
          (elim (Bool-cases (id == j)) [
            | inr n ↦ keeps (ground arith)
            | inl same ↦ elim (method_add-AddsOne m t) [
              | inl (k, n) ↦ keeps (ground arith)
              | inr (uid, name, ps, u, d, f, g, k) ↦
                  grows uid t name ps m (ground arith) f (ground arith) d (ground (arith, k))
            ]
          ])
  ]
    where
      shown :
          (t : Transaction)
          → lookup id s.open_ ≡ some t
          → lookup j (call_add json id m s).1.open_
            ≡ (if id == j then some (method_add m t).1 else lookup j s.open_)
      shown t e =
          ap (λ (x : Transactions json). lookup j x.open_) (call_add-found id m s t e)
          ∙ lookup-put id t (method_add m t).1 j s.open_ e

  pub step-Moves :
      (c : Call) (s : Transactions json) (j : ℕ)
      → Moves c j (lookup j s.open_) (lookup j (step c s).open_)
  unfolding step
  step-Moves lists s j = keeps refl
  step-Moves (news m) s j = new-Moves m s j
  step-Moves (commits m) s j = commit-Moves m s j
  step-Moves (discards m) s j = discard-Moves m s j
  step-Moves (adds id m) s j = add-Moves id m s j

  -- No call changes the saved configuration, and only a commit changes the running one.
  pub step_configs :
      (c : Call) (s : Transactions json)
      → ((step c s).saved_config ≡ s.saved_config)
        × (((m : IdMessage) → c ≢ commits m) → (step c s).running_config ≡ s.running_config)
  unfolding step
  step_configs lists s = (refl, λ n. refl)
  step_configs (news m) s = elim (method_new-Opens json m s) [
    | inl (e, n) ↦ (rw e, λ x. rw e)
    | inr (k, r) ↦ (k.saved, λ x. k.running)
  ]
  step_configs (commits m) s = elim (method_commit-AllOrNothing json m s) [
    | inl (e, n) ↦ (rw e, λ x. rw e)
    | inr k ↦ (rw k.state, λ x. absurd (x m refl))
  ]
  step_configs (discards m) s = elim (method_discard-Discards json m s) [
    | inl (e, n) ↦ (rw e, λ x. rw e)
    | inr k ↦ (k.saved, λ x. k.running)
  ]
  step_configs (adds id m) s = elim (Option-cases (lookup id s.open_)) [
    | inl e ↦ (rw (call_add-missing id m s e), λ x. rw (call_add-missing id m s e))
    | inr (t, e) ↦ (rw (call_add-found id m s t e), λ x. rw (call_add-found id m s t e))
  ]

  -- Every open transaction stands under its own number and at its own path.
  pub record IsNamed (s : Transactions json) : Type 0 where
    pub at :
        (id : ℕ) (t : Transaction)
        → lookup id s.open_ ≡ some t
        → (t.id ≡ id) × (t.object_path ≡ object_path_of id)

  step-IsNamed : (c : Call) (s : Transactions json) → IsNamed s → IsNamed (step c s)
  step-IsNamed c s n = record { at = λ id t f. moved id t f (step-Moves c s id) }
    where
      moved :
          (id : ℕ) (t : Transaction)
          → lookup id (step c s).open_ ≡ some t
          → Moves c id (lookup id s.open_) (lookup id (step c s).open_)
          → (t.id ≡ id) × (t.object_path ≡ object_path_of id)
      moved id t f (keeps e) = n.at id t (sym e ∙ f)
      moved id t f (opens uid b e) = unfold make in ground arith
      moved id t f (closes e) = absurd (ground arith)
      moved id t f (grows uid u name ps m x y b d e) = ground (arith, n.at id u b)

  -- Through any history of calls the saved configuration stays what it was, and every open
  -- transaction keeps standing under its own number, with the object path of that number.
  pub run-IsNamed :
      (cs : List Call) (s : Transactions json)
      → IsNamed s
      → ((run cs s).saved_config ≡ s.saved_config) × IsNamed (run cs s)
  unfolding run
  run-IsNamed [] s n = (refl, n)
  run-IsNamed (c ∷ cs) s n =
      let rest = run-IsNamed cs (step c s) (step-IsNamed c s n) in
      (rest.0 ∙ (step_configs c s).0, rest.1)
