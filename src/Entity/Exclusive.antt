-- ===== src/Entity/Exclusive.antt =====
-- The flag of a queue and the holders of its token, however starts and stops are interleaved:
-- `queue_token` and `entity::enqueue` of daemon/entity.cpp.
use nonsense.Base.{
  ℕ, ◌+◌, ◌≤◌, String, ◌≡◌, refl, sym, subst, ap, ◌∙◌, inl, inr, true, false, not, ◌&&◌, List, [],
  ◌∷◌, ◌++◌, arith, if◌then◌else◌, str_eq, eq_iff, Bool-cases,
}
use nonsense.Json.{JsonLib}
use nonsense.Entity.State.{among, removed}
use nonsense.Entity.Interleaved.{
  Task, Daemon, Step, Run, asks, takes, enlists, unlists, ends, fails, stays, steps, granted,
  returned, idle_task, at_rest,
}

-- How often a name is in a list, and how often its token is held.
abbrev pub times : String → List String → ℕ
times name [] = 0
times name (other ∷ rest) = (if str_eq other name then 1 else 0) + times name rest

abbrev pub holders : String → List Task → ℕ
holders name [] = 0
holders name (task ∷ rest) = times name task.holds + holders name rest

pub among-times : (name : String) (l : List String) → among name l ≡ false → times name l ≡ 0
unfolding among
among-times name [] h = refl
among-times name (other ∷ l) h = ground (arith, among-times name l)

-- What the flag of a queue says.
abbrev pub flag : String → List String → ℕ
flag name held = if among name held then 1 else 0

among-removed :
    (name other : String) (held : List String)
    → among other (removed name held) ≡ (not (str_eq name other) && among other held)
unfolding among removed
among-removed name other [] = ground (arith, Bool-cases (str_eq name other))
among-removed name other (x ∷ held) =
    let k = among-removed name other held in
    elim (Bool-cases (str_eq x name)) [
      | inl y ↦
          let same : name ≡ x = sym ((eq_iff x name).0 y) in
          elim (Bool-cases (str_eq name other)) [
            | inl z ↦ ground (arith, k, y, z)
            | inr z ↦
                let w = subst (λ n. str_eq n other ≡ false) same z in ground (arith, k, y, z, w)
          ]
      | inr y ↦ elim (Bool-cases (str_eq x other)) [
        | inr w ↦ ground (arith, k, y, w)
        | inl w ↦
            let z = subst (λ n. str_eq n name ≡ false) ((eq_iff x other).0 w) y in
            ground (arith, k, y, w, z, eq_iff name other, eq_iff other name)
      ]
    ]

flag-returned :
    (other : String) (l held : List String)
    → flag other (returned l held) ≡ (if among other l then 0 else flag other held)
unfolding among returned
flag-returned other [] held = refl
flag-returned other (name ∷ l) held =
    let k = flag-returned other l (removed name held) in
    let e = among-removed name other held in ground (arith, k, e)

times-among : (name : String) (l : List String) → among name l ≡ true → 1 ≤ times name l
unfolding among
times-among name [] h = absurd (cc)
times-among name (other ∷ l) h = ground (arith, times-among name l)

pub holders-append :
    (name : String) (before after : List Task)
    → holders name (before ++ after) ≡ holders name before + holders name after
holders-append name [] after = omega arith
holders-append name (task ∷ before) after = let e = holders-append name before after in omega arith

module _ (json : JsonLib) (config : json.Value) where
  -- As many hold a token as its flag says.
  abbrev pub Agrees : List Task → List String → Type 0
  Agrees tasks held = (name : String) → holders name tasks ≡ flag name held

  takes-Agrees :
      (before : List Task) (t u : Task) (after : List Task) (name : String) (held : List String)
      → u.holds ≡ name ∷ t.holds
      → among name held ≡ false
      → Agrees (before ++ (t ∷ after)) held
      → Agrees (before ++ (u ∷ after)) (granted name held)
  unfolding among
  takes-Agrees before t u after name held e f h other =
      let a = holders-append other before (t ∷ after) in
      let b = holders-append other before (u ∷ after) in
      let c : times other u.holds ≡ (if str_eq name other then 1 else 0) + times other t.holds =
        ap (times other) e in
      let d = h other in
      elim (Bool-cases (str_eq name other)) [
        | inr y ↦ ground (arith, a, b, c, d, y)
        | inl y ↦
            let z = subst (λ n. among n held ≡ false) ((eq_iff name other).0 y) f in
            ground (arith, a, b, c, d, y, z)
      ]

  -- A task gives back the first tokens that it holds.
  gives-Agrees :
      (before : List Task) (t u : Task) (after : List Task) (l held : List String)
      → ((other : String) → times other t.holds ≡ times other l + times other u.holds)
      → Agrees (before ++ (t ∷ after)) held
      → Agrees (before ++ (u ∷ after)) (returned l held)
  gives-Agrees before t u after l held k h other =
      let a = holders-append other before (t ∷ after) in
      let b = holders-append other before (u ∷ after) in
      let c = k other in
      let d = h other in
      let e = flag-returned other l held in
      elim (Bool-cases (among other l)) [
        | inl y ↦ let z = times-among other l y in ground (arith, a, b, c, d, e, y, z)
        | inr y ↦ let z = among-times other l y in ground (arith, a, b, c, d, e, y, z)
      ]

  Step-Agrees :
      {s t : Daemon} → Step json config s t → Agrees s.tasks s.held → Agrees t.tasks t.held
  Step-Agrees (asks {tasks = tasks} stops name) h = λ other. let a = h other in omega (arith, a)
  Step-Agrees (takes before task after {held = held} {live = live} name w f) h =
      takes-Agrees before task _ after name held refl f h
  Step-Agrees (enlists before task after name rest pid w k e l) h = h
  Step-Agrees (unlists before task after name rest pid w k e l) h = h
  Step-Agrees (ends before task after {held = held} name rest pid w k e l) h =
      gives-Agrees before task (idle_task json config rest) after (name ∷ []) held
        (λ other. ap (times other) e ∙ omega arith) h
  Step-Agrees (fails before task after {held = held} name rest w e) h =
      gives-Agrees before task (idle_task json config []) after task.holds held
        (λ other. omega arith) h

  -- However starts and stops of entities are interleaved, with failures and all, exactly one
  -- coroutine holds a token, once, while the flag `held` of its queue is set, and none holds it
  -- while the flag is not set.
  pub Run-Exclusive :
      {s : Daemon}
      → Run json config at_rest s
      → (name : String) → holders name s.tasks ≡ (if among name s.held then 1 else 0)
  Run-Exclusive stays = λ name. unfold among in refl
  Run-Exclusive (steps r k) = Step-Agrees k (Run-Exclusive r)
