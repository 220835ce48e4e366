-- ===== src/Entity/Requests.antt =====
-- What a client sees of the methods Start and Stop of daemon/controller.cpp.
use nonsense.Base.{
  ℕ, suc, String, ◌≡◌, ◌≤◌, refl, sym, ap, ◌∙◌, subst, true, false, if◌then◌else◌, none, some, [],
  str_eq,
}
use nonsense.Base.Int.{ℤ, is_negative}
use nonsense.Bus.{Flow, Handler, got, go, replies, method_return, nothing, return_with, fail}
use nonsense.Bus.Effects.{bind_after}
use nonsense.Json.{JsonLib}
use nonsense.Config.Valid.{ValidConfig}
use nonsense.Entity.Answers.{StartAnswers, StopAnswers}
use nonsense.Entity.State.{Daemon, among, pid_of}
use nonsense.Entity.Lifecycle.{start, stop}
use nonsense.Entity.Supported.{IsLive, Grows, Uplink}
use nonsense.Entity.Starts.{start-Starts}
use nonsense.Entity.Finishes.{Cooperative, Members}
use nonsense.Entity.Accepted.{start-finishes}
use nonsense.Entity.Stop.{CooperativeStop, stop-finishes}
use nonsense.Entity.Controller.{with_entity, method_start, method_stop}

module _ (json : JsonLib) (config : json.Value) where
  open json use {Value, is_object, find, items}

  -- The reply once the entity has been found and the verb has come to its end.
  with_entity-returns :
      (verb : String) (act : String → Value → Handler (Daemon json) (Unit {0})) (sent : ℤ)
      (name : String) (self : Value) (s : Daemon json)
      → is_negative sent ≡ false
      → find config name ≡ some self
      → (act name self s).0 ≡ go tt
      → with_entity json config verb act sent name (find config name) s
        ≡ (replies (method_return nothing), (act name self s).1)
  with_entity-returns verb act sent name self s h f g =
      ap (λ o. with_entity json config verb act sent name o s) f
      ∙ bind_after (act name self) (λ u. return_with sent nothing) s tt g
      ∙ ap
          (λ b.
            if b
            then fail sent none (act name self s).1
            else (replies (method_return nothing), (act name self s).1))
          h

  abbrev pub Started : String → Daemon json → Flow (Unit {0}) × Daemon json → Type 0
  Started name s q =
      (q.0 ≡ replies (method_return nothing))
      × IsLive name q.1.live
      × Grows s.live q.1.live
      × (q.1.held ≡ [])

  abbrev pub Stopped : String → Daemon json → Flow (Unit {0}) × Daemon json → Type 0
  Stopped name s q =
      (q.0 ≡ replies (method_return nothing))
      × (q.1.held ≡ s.held)
      × ((other : String)
          → pid_of other q.1.live ≡ (if str_eq name other then none else pid_of other s.live))

  method_start-eq :
      (name : String) (sent : ℤ) (answers : String → StartAnswers) (fuel : ℕ) (s : Daemon json)
      → method_start json config (got name) sent answers fuel s
        ≡ with_entity json config "start"
            (start json config answers fuel)
            sent
            name
            (find config name)
            s
  unfolding method_start
  method_start-eq name sent answers fuel s = refl

  method_stop-eq :
      (name : String) (sent : ℤ) (answers : String → StopAnswers) (s : Daemon json)
      → method_stop json config (got name) sent answers s
        ≡ with_entity json config "stop"
            (λ name self. stop json name (answers name))
            sent
            name
            (find config name)
            s
  unfolding method_stop
  method_stop-eq name sent answers s = refl

  -- Start of an entity of a configuration that validation accepts, whose uplinks do not lead round
  -- in a circle, returns nothing where no call fails and no token is held: the entity is then live,
  -- whoever was live still is, and no token is held.
  pub method_start-finishes :
      ValidConfig json config
      → (rank : String → ℕ)
      → ((name uplink : String) → Uplink json config name uplink → suc (rank uplink) ≤ rank name)
      → (answers : String → StartAnswers) → ((name : String) → Cooperative (answers name))
      → ((name : String) (self : Value)
          → find config name ≡ some self
          → is_object self ≡ true
          → Members json self (items self))
      → (fuel : ℕ) (name : String) (self : Value) (sent : ℤ) (s : Daemon json)
      → find config name ≡ some self
      → is_object self ≡ true
      → suc (suc (rank name)) ≤ fuel
      → is_negative sent ≡ false
      → s.held ≡ []
      → Started name s (method_start json config (got name) sent answers fuel s)
  method_start-finishes v rank k answers c m fuel name self sent s f b h n e =
      let (g, l, t) = start-finishes json config v rank k answers c m fuel name self s f b h e in
      subst (Started name s)
        (sym (
          method_start-eq name sent answers fuel s
          ∙ with_entity-returns "start" (start json config answers fuel) sent name self s n f g))
        (refl, l, (start-Starts json config answers fuel name self s f).grows, t)

  -- Stop of a live entity of the configuration returns nothing where no call fails and the token is
  -- free: the entity is no longer live, and every other one is as it was.
  pub method_stop-finishes :
      (answers : String → StopAnswers) (name : String) (self : Value) (sent : ℤ) (s : Daemon json)
      → CooperativeStop (answers name)
      → find config name ≡ some self
      → is_negative sent ≡ false
      → among name s.held ≡ false
      → IsLive name s.live
      → Stopped name s (method_stop json config (got name) sent answers s)
  method_stop-finishes answers name self sent s c f n e l =
      let (g, t, o) = stop-finishes json name (answers name) s c e l in
      subst (Stopped name s)
        (sym (
          method_stop-eq name sent answers s
          ∙ with_entity-returns "stop" (λ name self. stop json name (answers name)) sent name self s
              n f g))
        (refl, t, o)
