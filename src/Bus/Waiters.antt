-- ===== src/Bus/Waiters.antt =====
-- Who resumes on a signal, and how often: `signal_subscription` of daemon/async.h.
use mathlib.Core.List.{Perm, perm_middle}
use mathlib.Core.List.Perm
use nonsense.Base.{
  String, ◌≡◌, refl, sym, ap, ◌∙◌, subst, ◌⊎◌, inl, inr, true, false, none, some, List, [], ◌∷◌,
  ◌++◌, Bool-cases, append-nil, append_assoc,
}
use nonsense.Bus.Signals.{
  Waiter, Callbacks, Delivered, resumes, unhandled, fails, matches, hear, deliver, await, Event,
  awaits, signals, resumed, run,
}

-- No callback matches.
abbrev pub NoneMatches : List String → Callbacks → Type 0
NoneMatches arguments [] = Unit
NoneMatches arguments (none ∷ cs) = NoneMatches arguments cs
NoneMatches arguments (some w ∷ cs) = (matches w.key arguments ≡ false) × NoneMatches arguments cs

-- The first callback that matches, where there is one.
pub record First (arguments : List String) (callbacks : Callbacks) (q : Delivered × Callbacks)
    : Type 0 where
  pub before : Callbacks
  pub waiter : Waiter
  pub after : Callbacks
  pub callbacks_are : callbacks ≡ before ++ (some waiter ∷ after)
  pub passed : NoneMatches arguments before
  pub matched : matches waiter.key arguments ≡ true
  pub result : q ≡ (resumes waiter, before ++ (none ∷ after))

abbrev pub Answers : List String → Callbacks → Delivered × Callbacks → Type 0
Answers arguments callbacks q =
    First arguments callbacks q ⊎ ((q ≡ (unhandled, callbacks)) × NoneMatches arguments callbacks)

Answers-none :
    (arguments : List String) (cs : Callbacks) (q : Delivered × Callbacks)
    → Answers arguments cs q
    → Answers arguments (none ∷ cs) (q.0, none ∷ q.1)
Answers-none arguments cs q (inl f) = inl (record {
  before = none ∷ f.before;
  waiter = f.waiter;
  after = f.after;
  callbacks_are = ap (λ c. none ∷ c) f.callbacks_are;
  passed = f.passed;
  matched = f.matched;
  result = ap (λ (q : Delivered × Callbacks). (q.0, none ∷ q.1)) f.result;
})
Answers-none arguments cs q (inr (e, n)) =
    inr (ap (λ (q : Delivered × Callbacks). (q.0, none ∷ q.1)) e, n)

Answers-hear :
    (arguments : List String) (w : Waiter) (cs : Callbacks) (q : Delivered × Callbacks)
    → Answers arguments cs q
    → Answers arguments (some w ∷ cs) (hear (some arguments) w cs q)
Answers-hear arguments w cs q a = elim (Bool-cases (matches w.key arguments)) [
  | inl y ↦ inl (record {
    before = [];
    waiter = w;
    after = cs;
    callbacks_are = refl;
    passed = tt;
    matched = y;
    result = rw y refl;
  })
  | inr n ↦ subst (Answers arguments (some w ∷ cs)) (sym (rw n refl)) (kept n a)
]
  where
    kept :
        matches w.key arguments ≡ false
        → Answers arguments cs q
        → Answers arguments (some w ∷ cs) (q.0, some w ∷ q.1)
    kept n (inl f) = inl (record {
      before = some w ∷ f.before;
      waiter = f.waiter;
      after = f.after;
      callbacks_are = ap (λ c. some w ∷ c) f.callbacks_are;
      passed = (n, f.passed);
      matched = f.matched;
      result = ap (λ (q : Delivered × Callbacks). (q.0, some w ∷ q.1)) f.result;
    })
    kept n (inr (e, m)) = inr (ap (λ (q : Delivered × Callbacks). (q.0, some w ∷ q.1)) e, (n, m))

-- A signal whose arguments can be read resumes the first coroutine that waits for it, and clears
-- that callback alone; where none waits for it, it leaves every callback as it is.
pub deliver-first :
    (arguments : List String) (callbacks : Callbacks)
    → Answers arguments callbacks (deliver (some arguments) callbacks)
unfolding deliver
deliver-first arguments [] = inr (refl, tt)
deliver-first arguments (none ∷ cs) =
    Answers-none arguments cs (deliver (some arguments) cs) (deliver-first arguments cs)
deliver-first arguments (some w ∷ cs) =
    Answers-hear arguments w cs (deliver (some arguments) cs) (deliver-first arguments cs)

-- The coroutines that wait.
abbrev pub waiting : Callbacks → List Waiter
waiting [] = []
waiting (none ∷ cs) = waiting cs
waiting (some w ∷ cs) = w ∷ waiting cs

-- The coroutines that start to wait.
abbrev pub awaited : List Event → List Waiter
awaited [] = []
awaited (awaits w ∷ events) = w ∷ awaited events
awaited (signals arguments ∷ events) = awaited events

waiting-append : (cs ds : Callbacks) → waiting (cs ++ ds) ≡ waiting cs ++ waiting ds
waiting-append [] ds = refl
waiting-append (none ∷ cs) ds = waiting-append cs ds
waiting-append (some w ∷ cs) ds = ap (λ l. w ∷ l) (waiting-append cs ds)

-- Clearing a callback takes its coroutine out.
clear-Perm :
    (before after : Callbacks) (w : Waiter)
    → Perm (waiting (before ++ (some w ∷ after))) (w ∷ waiting (before ++ (none ∷ after)))
clear-Perm before after w =
    subst (λ l. Perm l (w ∷ waiting (before ++ (none ∷ after))))
      (sym (waiting-append before (some w ∷ after)))
      (subst (λ l. Perm (waiting before ++ (w ∷ waiting after)) (w ∷ l))
        (sym (waiting-append before (none ∷ after))) (perm_middle (waiting before) (waiting after)))

deliver-Perm :
    (arguments : List String) (cs : Callbacks)
    → Perm
        (waiting cs)
        (resumed (deliver (some arguments) cs).0 (waiting (deliver (some arguments) cs).1))
deliver-Perm arguments cs = elim (deliver-first arguments cs) [
  | inl f ↦
      subst (λ (q : Delivered × Callbacks). Perm (waiting cs) (resumed q.0 (waiting q.1)))
        (sym f.result)
        (subst (λ c. Perm (waiting c) (f.waiter ∷ waiting (f.before ++ (none ∷ f.after))))
          (sym f.callbacks_are) (clear-Perm f.before f.after f.waiter))
  | inr (e, n) ↦
      subst (λ (q : Delivered × Callbacks). Perm (waiting cs) (resumed q.0 (waiting q.1))) (sym e)
        Perm.rfl
]

resumed-Perm :
    (d : Delivered) (l m n k : List Waiter)
    → Perm (l ++ m) (n ++ k)
    → Perm (resumed d l ++ m) (resumed d n ++ k)
resumed-Perm (resumes w) l m n k p = Perm.cons w p
resumed-Perm unhandled l m n k p = p
resumed-Perm fails l m n k p = p

-- Over any sequence of calls of `match` and signals, each coroutine that waits resumes once or
-- still waits, and no other one resumes: those that resume and those that still wait are together
-- the ones that waited at first and the ones that came to wait.
pub run-Perm :
    (events : List Event) (callbacks : Callbacks)
    → Perm
        (waiting callbacks ++ awaited events)
        ((run events callbacks).0 ++ waiting (run events callbacks).1)
unfolding run
run-Perm [] cs = subst (λ l. Perm l (waiting cs)) (sym (append-nil (waiting cs))) Perm.rfl
run-Perm (awaits w ∷ events) cs =
    subst (λ l. Perm l ((run events (await w cs)).0 ++ waiting (run events (await w cs)).1))
      (ap (λ l. l ++ awaited events) (waiting-append cs (some w ∷ []))
        ∙ append_assoc (waiting cs) (w ∷ []) (awaited events))
      (run-Perm events (await w cs))
run-Perm (signals arguments ∷ events) cs =
    Perm.trans (Perm.append_right (awaited events) (deliver-Perm arguments cs)) (
      resumed-Perm d.0 (waiting d.1) (awaited events) (run events d.1).0
        (waiting (run events d.1).1) (run-Perm events d.1))
  where
    d : Delivered × Callbacks
    d = deliver (some arguments) cs
