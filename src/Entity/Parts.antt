-- ===== src/Entity/Parts.antt =====
-- What the parts of `entity::start` change, and where they end.
use nonsense.Base.{
  ℕ, zero, suc, String, ◌≡◌, ◌≢◌, refl, ap, ◌∙◌, ◌⊎◌, inl, inr, Bool, true, false, Option, none,
  some, List, [], ◌∷◌, arith, str_eq,
}
use nonsense.Base.Int.{ℤ}
use nonsense.Bus.{
  Flow, Handler, BusError, go, Read, got, failed, check, checked, assert, modify, ◌>>◌, Flow-cases,
}
use nonsense.Bus.Effects.{Keeps, both, either, still, modify-Keeps, bind_after, bind-Stopped}
use nonsense.Json.{JsonLib}
use nonsense.Entity.Answers.{
  StartAnswers, JobAnswer, Called, Connecting, called, system, arrives, job_done, connected, polls,
  leaves, goes_on, works, errno, refuses, silent, unsent, System,
}
use nonsense.Entity.Answers
use nonsense.Entity.State.{Daemon, poll, enlist, log_call, failed_to_start, slice_name, scope_name}
use nonsense.Entity.Lifecycle.{
  run_entity, launch, open_bus, start_units, entity_of, network_of, uplink_name, deepen,
  deep_uplink_info, prepared, add_components, start_self,
}

module _ {S F : Type 0} {f : S → F} where
  pub called-Keeps : (c : Called) → Keeps f (called c)
  called-Keeps Answers.answers = still (λ s. refl)
  called-Keeps (refuses n e) = still (λ s. refl)
  called-Keeps silent = still (λ s. refl)
  called-Keeps unsent = still (λ s. refl)

  pub checked-Keeps : {A : Type 0} (r : Read A) → Keeps f (checked r)
  checked-Keeps (got a) = still (λ s. refl)
  checked-Keeps (failed n) = still (λ s. refl)

  pub arrives-Keeps : (r : Option (Read String)) → Keeps f (arrives r)
  arrives-Keeps none = still (λ s. refl)
  arrives-Keeps (some r) = checked-Keeps r

  pub check-Keeps : (z : ℤ) → Keeps f (check z)
  check-Keeps z = still (λ s. ground arith)

  pub assert-Keeps : (b : Bool) → Keeps f (assert b)
  assert-Keeps true = still (λ s. refl)
  assert-Keeps false = still (λ s. refl)

  pub system-Keeps : {A : Type 0} (r : System A) → Keeps f (system r)
  system-Keeps (works a) = still (λ s. refl)
  system-Keeps (errno n) = still (λ s. refl)

  pub job_done-Keeps : (j : JobAnswer) (failure : String → BusError) → Keeps f (job_done j failure)
  unfolding job_done
  job_done-Keeps j failure = both (called-Keeps j.call) λ u. both (checked-Keeps j.job) λ job.
      both (arrives-Keeps j.removed)
        λ result. either (str_eq result "done") (still (λ s. refl)) (still (λ s. refl))

  pub connected-Keeps : (c : Connecting) → Keeps f (connected c)
  unfolding connected
  connected-Keeps (polls z c) = record { same = λ s. ground (arith, (connected-Keeps c).same s) }
  connected-Keeps (leaves b) = still (λ s. refl)
  connected-Keeps goes_on = still (λ s. refl)

module _ (json : JsonLib) where
  open json use {Value, is_null, as_string, find, insert}

  pub launch-Keeps : {F : Type 0} {f : Daemon json → F} (a : StartAnswers) → Keeps f (launch json a)
  unfolding launch
  launch-Keeps a =
      both (system-Keeps a.socket)
        λ u. both (system-Keeps a.fork) λ pid. both (check-Keeps a.bus_new) λ v. still (λ s. refl)

  start_units-Keeps :
      {F : Type 0} {f : Daemon json → F} (name : String) (a : StartAnswers)
      → Keeps f (start_units json name a)
  unfolding start_units
  start_units-Keeps name a = both (assert-Keeps a.subscribes) λ v.
      both (job_done-Keeps a.slice (failed_to_start (slice_name name)))
        λ u. job_done-Keeps a.scope (failed_to_start (scope_name name))

  -- What adding a component and opening a bus leave alone: the live entities and the tokens.
  pub record Core : Type 0 where
    pub live : List (String × ℕ)
    pub held : List String

  abbrev pub core : Daemon json → Core
  core s = record { live = s.live; held = s.held }

  open_bus-Keeps : (name : String) (a : StartAnswers) → Keeps core (open_bus json name a)
  unfolding open_bus
  open_bus-Keeps name a = both (check-Keeps a.set_fd) λ u. both (check-Keeps a.set_client) λ v.
      both (assert-Keeps a.registers) λ w. both (modify-Keeps (poll json name) (λ s. refl)) λ x.
        both (check-Keeps a.bus_start)
          λ y. both (connected-Keeps a.connecting) λ ready. assert-Keeps ready

  uplink_name-Keeps :
      {F : Type 0} {f : Daemon json → F} (o : Option String) → Keeps f (uplink_name json o)
  uplink_name-Keeps none = still (λ s. refl)
  uplink_name-Keeps (some name) = still (λ s. refl)

  entity_of-Keeps :
      {F : Type 0} {f : Daemon json → F} (o : Option Value) → Keeps f (entity_of json o)
  entity_of-Keeps none = still (λ s. refl)
  entity_of-Keeps (some e) = still (λ s. refl)

  network_of-Keeps :
      {F : Type 0} {f : Daemon json → F} (o : Option Value) → Keeps f (network_of json o)
  network_of-Keeps none = still (λ s. refl)
  network_of-Keeps (some net) = still (λ s. ground arith)

  module _ (config : Value) where
    deepen-Keeps :
        {F : Type 0} {f : Daemon json → F} {deeper : Value → Handler (Daemon json) Value}
        → ((c : Value) → Keeps f (deeper c))
        → (component : Value) (o : Option Value) → Keeps f (deepen json config deeper component o)
    deepen-Keeps d component none = still (λ s. refl)
    deepen-Keeps d component (some value) = both (uplink_name-Keeps (as_string value)) λ name.
        both (entity_of-Keeps (find config name)) λ e.
          both (network_of-Keeps (find e "network")) λ net. both (d net) λ deep. still (λ s. refl)

    deep_uplink_info-Keeps :
        {F : Type 0} {f : Daemon json → F} (fuel : ℕ) (component : Value)
        → Keeps f (deep_uplink_info json config fuel component)
    unfolding deep_uplink_info
    deep_uplink_info-Keeps zero component = still (λ s. refl)
    deep_uplink_info-Keeps (suc fuel) component =
        deepen-Keeps (λ c. deep_uplink_info-Keeps fuel c) component (find component "uplink")

    prepared-Keeps :
        {F : Type 0} {f : Daemon json → F} (fuel : ℕ) (type : String) (component : Value)
        → Keeps f (prepared json config fuel type component)
    prepared-Keeps fuel type component =
        either (str_eq type "network") (deep_uplink_info-Keeps fuel component) (still (λ s. refl))

    add_components-Keeps :
        (fuel : ℕ) (name : String) (a : StartAnswers) (items : List (String × Value))
        → Keeps core (add_components json config fuel name a items)
    unfolding add_components
    add_components-Keeps fuel name a [] = still (λ s. refl)
    add_components-Keeps fuel name a ((type, component) ∷ rest) =
        both (prepared-Keeps fuel type component) λ full.
          both (modify-Keeps (log_call json name type full) (λ s. refl)) λ u.
            both (called-Keeps (a.component type).call) λ v.
              both (checked-Keeps (a.component type).result)
                λ result. both (assert-Keeps result) λ w. add_components-Keeps fuel name a rest

    pub run_entity-Keeps :
        (fuel : ℕ) (name : String) (a : StartAnswers) (self : Value)
        → Keeps core (run_entity json config fuel name a self)
    unfolding run_entity
    run_entity-Keeps fuel name a self =
        both (open_bus-Keeps name a) λ u.
          both (start_units-Keeps name a) λ v. add_components-Keeps fuel name a (json.items self)

    -- A start leaves the live entities as they are and does not end, or the entity is one more.
    abbrev pub Enlists : String → Daemon json → Flow (Unit {0}) × Daemon json → Type 0
    Enlists name s q =
        ((core q.1 ≡ core s) × (q.0 ≢ go tt))
        ⊎ ((pid : ℕ) × (core q.1 ≡ core (enlist json name pid s)))

    pub start_self-Enlists :
        (fuel : ℕ) (name : String) (a : StartAnswers) (self : Value) (s : Daemon json)
        → Enlists name s (start_self json config fuel name a self s)
    unfolding start_self
    start_self-Enlists fuel name a self s = elim (Flow-cases (launch json a s).0) [
      | inl (pid, e) ↦ inr (
        pid,
        ap (λ (q : Flow (Unit {0}) × Daemon json). core q.1)
              (bind_after (launch json a) work s pid e)
            ∙ (run_entity-Keeps fuel name a self).same (enlist json name pid (launch json a s).1)
            ∙ ap (more pid) ((launch-Keeps {f = core} a).same s),
      )
      | inr k ↦
          let stopped = bind-Stopped (launch json a) work s k in
          inl (ap core stopped.0 ∙ (launch-Keeps {f = core} a).same s, stopped.1 tt)
    ]
      where
        work : ℕ → Handler (Daemon json) (Unit {0})
        work pid = do modify (enlist json name pid); run_entity json config fuel name a self

        more : ℕ → Core → Core
        more pid c = record { live = (name, pid) ∷ c.live; held = c.held }
