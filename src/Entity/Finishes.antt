-- ===== src/Entity/Finishes.antt =====
-- Answers with which the start of an entity comes to its end.
use nonsense.Base.{
  ℕ, String, ◌≡◌, refl, ap, ◌∙◌, true, false, Option, some, List, All, arith, if◌then◌else◌, str_eq,
  eq_iff,
}
use nonsense.Base.Int.{is_negative}
use nonsense.Bus.{BusError, Read, got, pure, fail_with}
use nonsense.Bus.Ends.{
  Gives, Ends, both-Gives, pure-Gives, modify-Ends, check-Ends, checked-Gives, assert-Ends,
}
use nonsense.Json.{JsonLib}
use nonsense.Entity.Answers
use nonsense.Entity.Answers.{
  StartAnswers, JobAnswer, Called, Connecting, System, called, system, arrives, job_done, connected,
  polls, leaves, goes_on, works,
}
use nonsense.Entity.State.{poll, failed_to_start, slice_name, scope_name}
use nonsense.Entity.Lifecycle.{launch, open_bus, start_units, entity_of, network_of, uplink_name}

-- The bus becomes ready.
abbrev pub Ready : Connecting → Type 0
Ready (polls z rest) = (is_negative z ≡ false) × Ready rest
Ready (leaves ready) = ready ≡ true
Ready goes_on = ⊥

-- The job is queued and done.
pub record JobDone (j : JobAnswer) : Type 0 where
  pub call : j.call ≡ Answers.answers
  pub job : String
  pub job_read : j.job ≡ got job
  pub removed : j.removed ≡ some (got "done")

-- No call fails, and nothing that is waited for stays away.
pub record Cooperative (a : StartAnswers) : Type 0 where
  pub socket : a.socket ≡ works tt
  pub pid : ℕ
  pub fork : a.fork ≡ works pid
  pub bus_new : is_negative a.bus_new ≡ false
  pub set_fd : is_negative a.set_fd ≡ false
  pub set_client : is_negative a.set_client ≡ false
  pub registers : a.registers ≡ true
  pub bus_start : is_negative a.bus_start ≡ false
  pub connecting : Ready a.connecting
  pub subscribes : a.subscribes ≡ true
  pub slice : JobDone a.slice
  pub scope : JobDone a.scope
  pub called : (type : String) → (a.component type).call ≡ Answers.answers
  pub added : (type : String) → (a.component type).result ≡ got true

module _ {S : Type 0} where
  pub called-Ends : (c : Called) → c ≡ Answers.answers → Ends {S = S} (called c)
  called-Ends c h = record { gives = λ s. (tt, ap (λ c. (called {S = S} c s).0) h, tt) }

  system-Ends : {A : Type 0} (r : System A) (a : A) → r ≡ works a → Ends {S = S} (system r)
  system-Ends r a h = record { gives = λ s. (a, ap (λ r. (system {S = S} r s).0) h, tt) }

  arrives-Gives :
      (o : Option (Read String)) (r : String)
      → o ≡ some (got r)
      → Gives {S = S} (λ t. t ≡ r) (arrives o)
  arrives-Gives o r h = record { gives = λ s. (r, ap (λ o. (arrives {S = S} o s).0) h, refl) }

  finished :
      (result : String) (error : BusError)
      → result ≡ "done"
      → Ends {S = S} (if str_eq result "done" then pure tt else fail_with error)
  finished result error h = record { gives = λ s. (tt, ground (arith, eq_iff result "done"), tt) }

  pub job_done-Ends :
      (j : JobAnswer) (failure : String → BusError) → JobDone j → Ends {S = S} (job_done j failure)
  unfolding job_done
  job_done-Ends j failure d = both-Gives (called-Ends j.call d.call) λ u _.
      both-Gives (checked-Gives {P = λ _. Unit {0}} j.job d.job d.job_read tt) λ job _.
        both-Gives (arrives-Gives j.removed "done" d.removed)
          λ result h. finished result (failure result) h

  connected-Gives : (c : Connecting) → Ready c → Gives {S = S} (λ b. b ≡ true) (connected c)
  unfolding connected
  connected-Gives (polls z rest) (n, r) = record {
    gives = λ s. let (b, h, g) = (connected-Gives rest r).gives s in (b, ground arith, g);
  }
  connected-Gives (leaves ready) h = record { gives = λ s. (ready, refl, h) }
  connected-Gives goes_on r = absurd r

module _ (json : JsonLib) where
  open json use {Value, is_null, as_string, find, insert, items}

  pub launch-Ends : (a : StartAnswers) → Cooperative a → Ends (launch json a)
  unfolding launch
  launch-Ends a c = both-Gives (system-Ends a.socket tt c.socket) λ u _.
      both-Gives (system-Ends a.fork c.pid c.fork)
        λ pid _. both-Gives (check-Ends a.bus_new c.bus_new) λ v _. pure-Gives pid tt

  pub open_bus-Ends :
      (name : String) (a : StartAnswers) → Cooperative a → Ends (open_bus json name a)
  unfolding open_bus
  open_bus-Ends name a c = both-Gives (check-Ends a.set_fd c.set_fd) λ u _.
      both-Gives (check-Ends a.set_client c.set_client) λ v _.
        both-Gives (assert-Ends a.registers c.registers) λ w _.
          both-Gives (modify-Ends (poll json name)) λ x _.
            both-Gives (check-Ends a.bus_start c.bus_start) λ y _.
              both-Gives (connected-Gives a.connecting c.connecting) λ ready h. assert-Ends ready h

  pub start_units-Ends :
      (name : String) (a : StartAnswers) → Cooperative a → Ends (start_units json name a)
  unfolding start_units
  start_units-Ends name a c = both-Gives (assert-Ends a.subscribes c.subscribes) λ v _.
      both-Gives (job_done-Ends a.slice (failed_to_start (slice_name name)) c.slice)
        λ u _. job_done-Ends a.scope (failed_to_start (scope_name name)) c.scope

  pub uplink_name-Gives :
      (o : Option String) (name : String)
      → o ≡ some name
      → Gives (λ n. n ≡ name) (uplink_name json o)
  uplink_name-Gives o name h = record {
    gives = λ s. (name, ap (λ o. (uplink_name json o s).0) h, refl);
  }

  pub entity_of-Gives :
      (o : Option Value) (entity : Value)
      → o ≡ some entity
      → Gives (λ e. e ≡ entity) (entity_of json o)
  entity_of-Gives o entity h = record {
    gives = λ s. (entity, ap (λ o. (entity_of json o s).0) h, refl);
  }

  pub network_of-Gives :
      (o : Option Value) (net : Value)
      → o ≡ some net
      → is_null net ≡ false
      → Gives (λ n. n ≡ net) (network_of json o)
  network_of-Gives o net h k = record {
    gives = λ s. (net, ap (λ o. (network_of json o s).0) h ∙ ground arith, refl);
  }

  -- The items of an entity are its members.
  abbrev pub Members : Value → List (String × Value) → Type 0
  Members self l = All (λ (e : String × Value). find self e.0 ≡ some e.1) l
