-- ===== src/Entity/Lifecycle.antt =====
-- `entity::start` and `entity::stop` of daemon/entity.cpp. The source frees the token of an uplink
-- that has just started when the coroutine that waits for it is suspended next; here the uplink's
-- start frees it.
use nonsense.Base.{ℕ, zero, suc, String, Option, none, some, List, [], ◌∷◌, if◌then◌else◌, str_eq}
use nonsense.Bus.{
  Handler, go, crashes, checked, check, assert, modify, fail_with, waits, crash, pure, ◌>>=◌, ◌>>◌,
}
use nonsense.Json.{JsonLib}
use nonsense.Entity.State.{
  slice_name, scope_name, failed_to_start, failed_to_stop, not_started, removed, pid_of, without,
  Daemon, with_token, poll, enlist, log_call,
}
use nonsense.Entity.Answers.{StartAnswers, StopAnswers, called, system, job_done, connected}

module _ (json : JsonLib) where
  open json use {Value, is_null, as_string, find, insert, items}

  -- From the socket pair to the bus object.
  unfoldable pub launch : StartAnswers → Handler (Daemon json) ℕ
  launch a = do system a.socket; pid ← system a.fork; check a.bus_new; pure pid

  -- From the bus object to the bus that is ready.
  unfoldable pub open_bus : String → StartAnswers → Handler (Daemon json) (Unit {0})
  unfolding connected
  open_bus name a = do
    check a.set_fd
    check a.set_client
    assert a.registers
    modify (poll json name)
    check a.bus_start
    ready ← connected a.connecting
    assert ready

  -- The slice and the scope.
  unfoldable pub start_units : String → StartAnswers → Handler (Daemon json) (Unit {0})
  unfolding job_done
  start_units name a = do
    assert a.subscribes
    job_done a.slice (failed_to_start (slice_name name))
    job_done a.scope (failed_to_start (scope_name name))

  -- The name that the member "uplink" holds: text.
  abbrev pub uplink_name : Option String → Handler (Daemon json) String
  uplink_name none s = (crashes, s)
  uplink_name (some name) s = (go name, s)

  -- _config.try_get, and the assertion that there is such an entity.
  abbrev pub entity_of : Option Value → Handler (Daemon json) Value
  entity_of none s = (crashes, s)
  entity_of (some entity) s = (go entity, s)

  -- The member "network" of an entity, which is not null.
  abbrev pub network_of : Option Value → Handler (Daemon json) Value
  network_of none s = (crashes, s)
  network_of (some net) s = if is_null net then (crashes, s) else (go net, s)

  module _ (config : Value) where
    -- What `deep_uplink_info` does with the name of the uplink, given how it treats the uplink's
    -- component.
    abbrev pub deepen :
        (Value → Handler (Daemon json) Value) → Value → Option Value → Handler (Daemon json) Value
    deepen deeper component none = pure component
    deepen deeper component (some value) = do
      name ← uplink_name (as_string value)
      entity ← entity_of (find config name)
      net ← network_of (find entity "network")
      deep ← deeper net
      pure (insert (insert component ":uplink-name" value) "uplink" deep)

    -- `deep_uplink_info`: the uplinks' components put in place of their names. Without fuel the
    -- stack overflows.
    unfoldable pub deep_uplink_info : ℕ → Value → Handler (Daemon json) Value
    deep_uplink_info zero component = crash
    deep_uplink_info (suc fuel) component =
        deepen (deep_uplink_info fuel) component (find component "uplink")

    abbrev pub prepared : ℕ → String → Value → Handler (Daemon json) Value
    prepared fuel type component =
        if str_eq type "network" then deep_uplink_info fuel component else pure component

    -- The loop over the items of the entity.
    unfoldable pub add_components :
        ℕ → String → StartAnswers → List (String × Value) → Handler (Daemon json) (Unit {0})
    unfolding deep_uplink_info
    add_components fuel name a [] = pure tt
    add_components fuel name a ((type, component) ∷ rest) = do
      full ← prepared fuel type component
      modify (log_call json name type full)
      called (a.component type).call
      result ← checked (a.component type).result
      assert result
      add_components fuel name a rest

    -- What is done once the entity counts as live.
    unfoldable pub run_entity : ℕ → String → StartAnswers → Value → Handler (Daemon json) (Unit {0})
    unfolding open_bus start_units add_components
    run_entity fuel name a self = do
      open_bus name a
      start_units name a
      add_components fuel name a (items self)

    -- What stands behind the start of the uplink.
    unfoldable pub start_self : ℕ → String → StartAnswers → Value → Handler (Daemon json) (Unit {0})
    unfolding launch run_entity
    start_self fuel name a self = do
      pid ← launch a
      modify (enlist json name pid)
      run_entity fuel name a self

    -- `begin` is the start of the entity that the uplink names.
    abbrev pub start_named :
        (String → Value → Handler (Daemon json) (Unit {0}))
        → Option Value
        → Handler (Daemon json) (Unit {0})
    start_named begin none = pure tt
    start_named begin (some value) = do
      name ← uplink_name (as_string value)
      entity ← entity_of (find config name)
      begin name entity

    -- The member "uplink" of the network component.
    abbrev pub uplink_in : Option Value → Option Value
    uplink_in none = none
    uplink_in (some net) = find net "uplink"

    abbrev pub start_uplink :
        (String → Value → Handler (Daemon json) (Unit {0}))
        → Value
        → Handler (Daemon json) (Unit {0})
    start_uplink begin self = start_named begin (uplink_in (find self "network"))

    module _ (answers : String → StartAnswers) where
      -- Nothing is done for an entity that is live.
      abbrev pub start_unless :
          Handler (Daemon json) (Unit {0}) → Option ℕ → Handler (Daemon json) (Unit {0})
      start_unless work none = work
      start_unless work (some pid) = pure tt

      -- What start does with the token, given the start of the uplink.
      abbrev pub started :
          (String → Value → Handler (Daemon json) (Unit {0}))
          → ℕ
          → String
          → Value
          → Handler (Daemon json) (Unit {0})
      started begin fuel name self s =
          start_unless (do start_uplink begin self; start_self fuel name (answers name) self)
            (pid_of name s.live) s

      -- entity::start. Each start along the uplinks takes one unit of fuel; with none left it would
      -- wait for ever.
      unfoldable pub start : ℕ → String → Value → Handler (Daemon json) (Unit {0})
      unfolding with_token pid_of start_self
      start zero name self = waits
      start (suc fuel) name self = with_token json name (started (start fuel) fuel name self)

  -- What stop does with the token.
  abbrev pub stopping : String → StopAnswers → Option ℕ → Handler (Daemon json) (Unit {0})
  stopping name a none = fail_with (not_started name)
  stopping name a (some pid) = do
    called a.shutdown
    assert a.unregisters
    modify (λ s. record s { live = without name s.live; polled = removed name s.polled })
    assert a.subscribes
    job_done a.slice (failed_to_stop (slice_name name))

  -- entity::stop
  unfoldable pub stop : String → StopAnswers → Handler (Daemon json) (Unit {0})
  unfolding with_token pid_of without removed job_done
  stop name a = with_token json name (λ s. stopping name a (pid_of name s.live) s)
