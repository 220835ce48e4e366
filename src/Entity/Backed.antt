-- ===== src/Entity/Backed.antt =====
-- What the tasks of interleaved starts and stops know of the uplinks of their entities:
-- `entity::start` of daemon/entity.cpp.
use nonsense.Base.{
  ℕ, false, true, Bool, String, ◌≡◌, refl, ap, ◌∙◌, subst, ◌⊎◌, inl, inr, Option, none, some, List,
  [], ◌∷◌, All, arith,
}
use nonsense.Json.{JsonLib}
use nonsense.Entity.State.{pid_of}
use nonsense.Entity.Supported.{IsLive, Grows, Uplink}
use nonsense.Entity.Interleaved.{Task, enters, fresh_task, idle_task, name_in, uplink_at, wanted}

abbrev pub Top : (String → Type 0) → List String → Type 0
Top P [] = Unit
Top P (name ∷ rest) = P name

pub nobody : (name : String) → IsLive name [] → ⊥
unfolding pid_of
nobody name (pid, e) = cc

module _ (json : JsonLib) (config : json.Value) where
  open json use {find}

  abbrev pub HasNext : String → String → Type 0
  HasNext uplink name = uplink_at json config (find config name) ≡ some uplink

  -- Each token is that of the uplink of the next one.
  abbrev pub Chain : List String → Type 0
  Chain [] = Unit
  Chain (name ∷ rest) = Top (HasNext name) rest × Chain rest

  -- The entity is live, or its uplink is, where it has one.
  abbrev pub Backed : List (String × ℕ) → String → Type 0
  Backed live name =
      IsLive name live ⊎ ((uplink : String) → HasNext uplink name → IsLive uplink live)

  pub record Sound (live : List (String × ℕ)) (t : Task) : Type 0 where
    pub chain : Chain t.holds
    pub waits : (w : String) → t.wants ≡ some w → Top (HasNext w) t.holds
    pub ready : t.stops ≡ false → t.wants ≡ none → Top (Backed live) t.holds

  Top-map :
      {P Q : String → Type 0} (l : List String)
      → ((name : String) → P name → Q name)
      → Top P l
      → Top Q l
  Top-map [] f p = tt
  Top-map (name ∷ rest) f p = f name p

  Sound-Grows : (l l' : List (String × ℕ)) (t : Task) → Grows l l' → Sound l t → Sound l' t
  Sound-Grows l l' t g s = record {
    chain = s.chain;
    waits = s.waits;
    ready = λ p e.
        Top-map t.holds
          (λ name b. elim b [
            | inl i ↦ inl (g name i)
            | inr k ↦ inr (λ uplink h. g uplink (k uplink h))
          ])
          (s.ready p e);
  }

  pub All-Grows :
      (l l' : List (String × ℕ)) (tasks : List Task)
      → Grows l l'
      → All (Sound l) tasks
      → All (Sound l') tasks
  All-Grows l l' [] g a = tt
  All-Grows l l' (t ∷ tasks) g (s, a) = (Sound-Grows l l' t g s, All-Grows l l' tasks g a)

  pub Uplink-HasNext : (name uplink : String) → Uplink json config name uplink → HasNext uplink name
  Uplink-HasNext name uplink u =
      ap (uplink_at json config) u.found ∙ ap (name_in json config) u.there ∙ u.text

  pub fresh-Sound :
      (live : List (String × ℕ)) (stops : Bool) (name : String)
      → Sound live (fresh_task json config stops name)
  fresh-Sound live stops name = record { chain = tt; waits = λ w e. tt; ready = λ p e. absurd (cc) }

  entered :
      (stops : Bool) (name : String) (live : List (String × ℕ)) (o : Option ℕ)
      → stops ≡ false
      → pid_of name live ≡ o
      → wanted json config stops name o ≡ none
      → Backed live name
  entered false name live none p e h = inr (λ uplink k. absurd (ground arith))
  entered false name live (some pid) p e h = inl (pid, e)
  entered true name live o p e h = absurd (cc)

  awaited :
      (stops : Bool) (name w : String) (o : Option ℕ)
      → wanted json config stops name o ≡ some w
      → HasNext w name
  awaited false name w none h = h
  awaited false name w (some pid) h = absurd (cc)
  awaited true name w o h = absurd (cc)

  pub enters-Sound :
      (name : String) (live : List (String × ℕ)) (t : Task)
      → t.wants ≡ some name
      → Sound live t
      → Sound live (enters json config name live t)
  enters-Sound name live t e s = record {
    chain = (s.waits name e, s.chain);
    waits = λ w h. awaited t.stops name w (pid_of name live) h;
    ready = λ p h. entered t.stops name live (pid_of name live) p refl h;
  }

  pub ended :
      (name : String) (live : List (String × ℕ)) (holds rest : List String)
      → holds ≡ name ∷ rest
      → IsLive name live
      → Chain holds
      → Sound live (idle_task json config rest)
  ended name live holds rest e i c =
      let (next, chain) = subst Chain e c in
      record {
        chain = chain;
        waits = λ w h. absurd (cc);
        ready = λ p h.
            Top-map rest (λ n k. inr (λ uplink m. subst (λ u. IsLive u live) (ground arith) i))
              next;
      }

  pub idle-Sound : (live : List (String × ℕ)) → Sound live (idle_task json config [])
  idle-Sound live = record { chain = tt; waits = λ w h. absurd (cc); ready = λ p h. tt }

  -- The uplink of an entity that is about to be live.
  pub backed :
      (name : String) (live : List (String × ℕ)) (t : Task) (rest : List String)
      → t.wants ≡ none
      → t.stops ≡ false
      → t.holds ≡ name ∷ rest
      → pid_of name live ≡ none
      → Sound live t
      → (uplink : String) → Uplink json config name uplink
      → IsLive uplink live
  backed name live t rest w p e l s uplink u = elim (subst (Top (Backed live)) e (s.ready p w)) [
    | inl (pid, i) ↦ absurd (ground arith)
    | inr k ↦ k uplink (Uplink-HasNext name uplink u)
  ]
