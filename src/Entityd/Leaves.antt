-- ===== src/Entityd/Leaves.antt =====
-- What the process of an entity leaves behind when it exits.
use nonsense.Base.{
  ℕ, ◌≡◌, refl, sym, subst, inl, inr, String, Bool, Option, none, some, List, [], ◌∷◌, arith,
  Option-cases,
}
use nonsense.Base.Int
use nonsense.Base.Int.{ℤ, negsuc}
use nonsense.Base.Action.{Outcome, done, throws, aborts}
use nonsense.Config.Names.{ComponentType, known_components}
use nonsense.Entityd.Command.{Call}
use nonsense.Entityd.Cleanup.{Net, Process, started}
use nonsense.Entityd.Network.{Answer, add_component, add_found, add_unless}
use nonsense.Entityd.Undo.{Settled, Rests, Ends}
use nonsense.Entityd.Active.{IsActive, try_network-IsActive}
use nonsense.Entityd.Shutdown.{
  undoing, add_component-Ends, add_parsed-Ends, Settled-shutdown, started-Rests, Rests-Settled,
}
use nonsense.Entityd.Main.{
  Round, adds, shuts_down, handles, waits, fails, Ended, runs, exits, terminated, unwinds, handled,
  serve, served, ended, main,
}

module _ (answers : List Call → Call → Bool) (name : String) where
  -- The state between the requests.
  record Between (s : Process) : Type 0 where
    settled : Settled s
    unused : s.network ≡ none → Rests s

  -- A request to a process with a component changes nothing.
  active_found :
      (config : Option Net) (known : Option ComponentType) (s : Process) (a : Answer) (n : Net)
      → s.network ≡ some n
      → (add_found answers name config known s).0 ≡ done a
      → (add_found answers name config known s).1 ≡ s
  active_found config none s a n e h = absurd cc
  active_found config (some found) s a n e h = rw e refl

  add_unless-IsActive :
      (active config : Option Net)
      → active ≡ none
      → Ends (λ s. Unit {0}) (add_unless answers active name config) IsActive
  add_unless-IsActive none config e =
      add_parsed-Ends answers name (try_network-IsActive answers name) config
  add_unless-IsActive (some n) config e = absurd cc

  unused_found :
      (config : Option Net) (known : Option ComponentType) (s : Process) (a : Answer)
      → s.network ≡ none
      → (add_found answers name config known s).0 ≡ done a
      → IsActive (add_found answers name config known s).1
  unused_found config none s a e h = absurd cc
  unused_found config (some found) s a e h = (add_unless-IsActive s.network config e).at s a tt h

  add_component-Between :
      (type : Option String) (config : Option Net)
      → Ends Between (add_component answers name type config) Between
  unfolding add_component
  add_component-Between none config = record { at = λ s a t h. absurd cc }
  add_component-Between (some type) config = record {
    at = λ s a t h. elim (Option-cases s.network) [
      | inr (n, e) ↦ subst Between (sym (active_found config (known_components type) s a n e h)) t
      | inl e ↦
          let k = unused_found config (known_components type) s a e h in
          record {
            settled = (add_component-Ends answers name (some type) config).at s a (t.unused e) h;
            unused = λ z. absurd (ground (arith, k.there));
          }
    ];
  }

  module _ (strerror : ℕ → String) (error_prefix : String) where
    handled-Between :
        (rest : Process → Ended × Process) (q : Outcome Answer × Process) (status : ℕ)
        (lines : List String)
        → ((a : Answer) → q.0 ≡ done a → (rest q.1).0 ≡ exits status lines → Settled (rest q.1).1)
        → (handled strerror answers name error_prefix rest q).0 ≡ exits status lines
        → Settled (handled strerror answers name error_prefix rest q).1
    handled-Between rest (done a, s) status lines k h = k a refl h
    handled-Between rest (throws what, s) status lines k h = absurd cc
    handled-Between rest (aborts, s) status lines k h = absurd cc

    serve-Settled :
        (rounds : List Round) (s : Process) (status : ℕ) (lines : List String)
        → Between s
        → (serve strerror answers name error_prefix rounds s).0 ≡ exits status lines
        → Settled (serve strerror answers name error_prefix rounds s).1
    unfolding serve
    serve-Settled [] s status lines t h = absurd cc
    serve-Settled (adds type config ∷ rest) s status lines t h =
        handled-Between (serve strerror answers name error_prefix rest)
          (add_component answers name type config s) status lines
          (λ a e g.
            serve-Settled rest _ status lines ((add_component-Between type config).at s a t e) g)
          h
    serve-Settled (shuts_down ∷ rest) s status lines t h = t.settled
    serve-Settled (handles ∷ rest) s status lines t h = serve-Settled rest s status lines t h
    serve-Settled (waits (Int.pos n) ∷ rest) s status lines t h =
        serve-Settled rest s status lines t h
    serve-Settled (waits (negsuc n) ∷ rest) s status lines t h = t.settled
    serve-Settled (fails n ∷ rest) s status lines t h = t.settled

    started-Between : Between started
    started-Between = record {
      settled = Rests-Settled answers name started started-Rests;
      unused = λ e. started-Rests;
    }

    served-Settled :
        (installed : ℤ) (rounds : List Round) (status : ℕ) (lines : List String)
        → (served strerror answers name error_prefix installed rounds).0 ≡ exits status lines
        → Settled (served strerror answers name error_prefix installed rounds).1
    unfolding served
    served-Settled (Int.pos n) rounds status lines h =
        serve-Settled rounds started status lines started-Between h
    served-Settled (negsuc n) rounds status lines h = started-Between.settled

    ended-undoes :
        (q : Ended × Process) (status : ℕ) (lines : List String)
        → (q.0 ≡ exits status lines → Settled q.1)
        → (ended strerror answers name error_prefix q).0 ≡ exits status lines
        → (ended strerror answers name error_prefix q).1.log ≡ undoing q.1.log q.1.log
    ended-undoes (exits status lines, s) n l k h = Settled-shutdown s (k h)
    ended-undoes (runs, s) n l k h = absurd cc
    ended-undoes (terminated, s) n l k h = absurd cc
    ended-undoes (unwinds what, s) n l k h = absurd cc

    -- Whatever requests come, and whatever the system and the bus library answer: where the process
    -- exits, after a request to shut down or a failure of its bus, it has undone every call that
    -- has an inverse, the last call first, and has done nothing else since the loop ended.
    pub main-undoes :
        (installed : ℤ) (rounds : List Round) (status : ℕ) (lines : List String)
        → (main strerror answers name error_prefix installed rounds).0 ≡ exits status lines
        → (main strerror answers name error_prefix installed rounds).1.log
          ≡ undoing
              (served strerror answers name error_prefix installed rounds).1.log
              (served strerror answers name error_prefix installed rounds).1.log
    unfolding main
    main-undoes installed rounds status lines h =
        ended-undoes (served strerror answers name error_prefix installed rounds) status lines
          (served-Settled installed rounds status lines) h
