-- ===== src/Entity/Supported.antt =====
-- Which entities are live, and which of them have a live uplink: `_live_entities` of
-- daemon/entity.cpp.
use nonsense.Base.{
  ℕ, String, ◌≡◌, sym, subst, inl, inr, some, List, ◌∷◌, arith, str_eq, eq_iff, Bool-cases,
}
use nonsense.Json.{JsonLib}
use nonsense.Entity.State.{pid_of}
use nonsense.Entity.Lifecycle.{uplink_in}

abbrev pub IsLive : String → List (String × ℕ) → Type 0
IsLive name live = (pid : ℕ) × (pid_of name live ≡ some pid)

-- Whoever is live stays it.
abbrev pub Grows : List (String × ℕ) → List (String × ℕ) → Type 0
Grows l l' = (name : String) → IsLive name l → IsLive name l'

-- One more live entity.
pub Grows-more : (l : List (String × ℕ)) (name : String) (pid : ℕ) → Grows l ((name, pid) ∷ l)
unfolding pid_of
Grows-more l name pid other (p, e) = elim (Bool-cases (str_eq name other)) [
  | inl y ↦ (pid, rw y)
  | inr n ↦ (p, rw n e)
]

pub IsLive-more : (l : List (String × ℕ)) (name : String) (pid : ℕ) → IsLive name ((name, pid) ∷ l)
unfolding pid_of
IsLive-more l name pid = (pid, ground (arith, eq_iff name name))

module _ (json : JsonLib) (config : json.Value) where
  open json use {Value, as_string, find}

  -- The entity `name` has the entity `uplink` as its uplink.
  pub record Uplink (name uplink : String) : Type 0 where
    pub entity : Value
    pub value : Value
    pub found : find config name ≡ some entity
    pub there : uplink_in json config (find entity "network") ≡ some value
    pub text : as_string value ≡ some uplink

  -- The uplink of every live entity is live.
  abbrev pub Supported : List (String × ℕ) → Type 0
  Supported l = (name uplink : String) → IsLive name l → Uplink name uplink → IsLive uplink l

  pub Supported-more :
      (l : List (String × ℕ)) (name : String) (pid : ℕ)
      → ((uplink : String) → Uplink name uplink → IsLive uplink l)
      → Supported l
      → Supported ((name, pid) ∷ l)
  unfolding pid_of
  Supported-more l name pid up s other uplink (p, e) u = elim (Bool-cases (str_eq name other)) [
    | inl y ↦
        Grows-more l name pid uplink
          (up uplink (subst (λ n. Uplink n uplink) (sym ((eq_iff name other).0 y)) u))
    | inr n ↦ Grows-more l name pid uplink (s other uplink (p, rw n at e) u)
  ]
