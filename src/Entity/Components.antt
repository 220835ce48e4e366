-- ===== src/Entity/Components.antt =====
-- The components of an entity are added, when no call fails: `entity::start` of daemon/entity.cpp.
use nonsense.Base.{
  ℕ, zero, suc, ◌≤◌, String, ◌≡◌, refl, sym, ap, ◌∙◌, subst, true, false, Option, none, some, List,
  [], ◌∷◌, arith, if◌then◌else◌, str_eq, eq_iff, Bool-cases, inl, inr,
}
use nonsense.Bus.{Handler, pure}
use nonsense.Bus.Ends.{Ends, both-Gives, pure-Gives, modify-Ends, checked-Gives, assert-Ends}
use nonsense.Json.{JsonLib}
use nonsense.Entity.Answers.{StartAnswers}
use nonsense.Entity.State.{Daemon, enlist, log_call}
use nonsense.Entity.Lifecycle.{
  run_entity, deepen, deep_uplink_info, prepared, add_components, start_self,
}
use nonsense.Entity.Finishes.{
  Cooperative, called-Ends, launch-Ends, open_bus-Ends, start_units-Ends, uplink_name-Gives,
  entity_of-Gives, network_of-Gives, Members,
}

module _ (json : JsonLib) where
  open json use {Value, is_object, is_null, as_string, find, insert, items}

  module _ (config : Value) where
    -- What an uplink leads to: an entity with a network component.
    pub record Wire (value : Value) : Type 0 where
      pub uplink : String
      pub entity : Value
      pub net : Value
      pub text : as_string value ≡ some uplink
      pub found : find config uplink ≡ some entity
      pub entity_object : is_object entity ≡ true
      pub net_found : find entity "network" ≡ some net
      pub net_there : is_null net ≡ false

    -- Every uplink leads to an entity with a network component, and the ranks descend along it.
    pub record Descends (rank : String → ℕ) : Type 0 where
      pub wire :
          (name : String) (self net value : Value)
          → find config name ≡ some self
          → find self "network" ≡ some net
          → find net "uplink" ≡ some value
          → (w : Wire value) × (suc (rank w.uplink) ≤ rank name)

    module _ (rank : String → ℕ) (d : Descends rank) where
      deepen-Ends :
          (deeper : Value → Handler (Daemon json) Value) (component : Value) (o : Option Value)
          → ((value : Value) → o ≡ some value → (w : Wire value) × Ends (deeper w.net))
          → Ends (deepen json config deeper component o)
      deepen-Ends deeper component none k = pure-Gives component tt
      deepen-Ends deeper component (some value) k =
          let (w, e) = k value refl in
          both-Gives (uplink_name-Gives json (as_string value) w.uplink w.text) λ name n.
            both-Gives
              (entity_of-Gives json (find config name) w.entity (ap (find config) n ∙ w.found))
              λ entity f.
                both-Gives
                  (network_of-Gives json (find entity "network") w.net
                    (ap (λ e. find e "network") f ∙ w.net_found) w.net_there)
                  λ net g.
                    both-Gives (subst (λ n. Ends (deeper n)) (sym g) e) λ deep _. pure-Gives _ tt

      deep-Ends :
          (fuel : ℕ) (name : String) (self net : Value)
          → find config name ≡ some self
          → find self "network" ≡ some net
          → suc (rank name) ≤ fuel
          → Ends (deep_uplink_info json config fuel net)
      unfolding deep_uplink_info
      deep-Ends zero name self net f g h = absurd (omega arith)
      deep-Ends (suc fuel) name self net f g h =
          deepen-Ends (deep_uplink_info json config fuel) net (find net "uplink") λ value e.
            let (w, r) = d.wire name self net value f g e in
            (w, deep-Ends fuel w.uplink w.entity w.net w.found w.net_found (omega arith))

      prepared-Ends :
          (fuel : ℕ) (name type : String) (self c : Value)
          → find config name ≡ some self
          → find self type ≡ some c
          → suc (rank name) ≤ fuel
          → Ends (prepared json config fuel type c)
      prepared-Ends fuel name type self c f g h = elim (Bool-cases (str_eq type "network")) [
        | inl y ↦
            subst (λ b. Ends (if b then deep_uplink_info json config fuel c else pure c)) (sym y)
              (deep-Ends fuel name self c f (ap (find self) (sym ((eq_iff type "network").0 y)) ∙ g)
                h)
        | inr n ↦
            subst (λ b. Ends (if b then deep_uplink_info json config fuel c else pure c)) (sym n)
              (pure-Gives c tt)
      ]

      add_components-Ends :
          (fuel : ℕ) (name : String) (a : StartAnswers) (self : Value) (l : List (String × Value))
          → Cooperative a
          → find config name ≡ some self
          → suc (rank name) ≤ fuel
          → Members json self l
          → Ends (add_components json config fuel name a l)
      unfolding add_components
      add_components-Ends fuel name a self [] c f h m = pure-Gives tt tt
      add_components-Ends fuel name a self ((type, component) ∷ rest) c f h (g, m) =
          both-Gives (prepared-Ends fuel name type self component f g h) λ full _.
            both-Gives (modify-Ends (log_call json name type full)) λ u _.
              both-Gives (called-Ends (a.component type).call (c.called type)) λ v _.
                both-Gives
                  (checked-Gives {P = λ b. b ≡ true} (a.component type).result true (c.added type)
                    refl)
                  λ result k.
                    both-Gives (assert-Ends result k)
                      λ w _. add_components-Ends fuel name a self rest c f h m

      pub start_self-Ends :
          (fuel : ℕ) (name : String) (a : StartAnswers) (self : Value)
          → Cooperative a
          → find config name ≡ some self
          → suc (rank name) ≤ fuel
          → Members json self (items self)
          → Ends (start_self json config fuel name a self)
      unfolding start_self run_entity
      start_self-Ends fuel name a self c f h m = both-Gives (launch-Ends json a c) λ pid _.
          both-Gives (modify-Ends (enlist json name pid)) λ u _.
            both-Gives (open_bus-Ends json name a c) λ v _.
              both-Gives (start_units-Ends json name a c)
                λ w _. add_components-Ends fuel name a self (items self) c f h m
