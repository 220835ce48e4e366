-- ===== src/Entityd/Undo.antt =====
-- What the cleanups hold is what undoes the calls, and how that goes through sequences of actions.
use nonsense.Base.{
  ◌≡◌, refl, sym, ap, ◌∙◌, subst, inl, inr, String, Bool, true, false, Option, none, some, List, [],
  ◌∷◌, ◌++◌, append_assoc, arith, Bool-cases, if◌then◌else◌,
}
use nonsense.Base.Action.{Action, Outcome, done, ◌>>=◌, ◌>>◌, bind-done}
use nonsense.Config.Names.{NetworkRole}
use nonsense.Entityd.Command.{Command, Call, inverse, runs}
use nonsense.Entityd.Cleanup.{Process, add_clean, keep, keep_connection, begin}
use nonsense.Entityd.Network.{text, annotated_system, found_role, or_abort}

-- What undoes a log of calls, the last call first.
unfoldable pub undo_all : List Call → List Call
undo_all [] = []
undo_all (call ∷ calls) =
    let rest = undo_all calls in elim (inverse call) [ none ↦ rest | some undo ↦ undo ∷ rest ]

-- All that is to be undone is in the cleanups.
abbrev pub Undoes : Process → Type 0
Undoes s = undo_all s.log ≡ s.clean ++ (s.connection_cleanups ++ s.cleanups)

-- The same while the process is not connected to its uplink.
pub record Tracks (s : Process) : Type 0 where
  pub undoes : Undoes s
  pub unconnected : s.connection_cleanups ≡ []

-- All that is to be undone is in the cleanups that `shutdown` runs.
pub record Settled (s : Process) : Type 0 where
  pub all : Undoes s
  pub no_clean : s.clean ≡ []

-- The same as Tracks between two functions that have a `clean` of their own.
pub record Rests (s : Process) : Type 0 where
  pub tracks : Tracks s
  pub empty : s.clean ≡ []

-- Where a function that starts in such a state ends, if it does.
pub record Ends {A : Type 0} (Q : Process → Type 0) (m : Action Process A) (P : Process → Type 0)
    : Type 0 where
  pub at : (s : Process) (a : A) → Q s → (m s).0 ≡ done a → P (m s).1

pub tracked_more :
    (s : Process) (call undo : Call)
    → inverse call ≡ some undo
    → Tracks s
    → Tracks (record s { log = call ∷ s.log; clean = undo ∷ s.clean })
unfolding undo_all
tracked_more s call undo i t = record {
  undoes = rw (undo_all, i) (ap (◌∷◌ undo) t.undoes);
  unconnected = t.unconnected;
}

pub tracked_same :
    (s : Process) (call : Call)
    → inverse call ≡ none
    → Tracks s
    → Tracks (record s { log = call ∷ s.log })
unfolding undo_all
tracked_same s call i t = record { undoes = rw (undo_all, i) t.undoes; unconnected = t.unconnected }

module _ {A : Type 0} {Q P : Process → Type 0} where
  pub with_text :
      (o : Option String) (f : String → Action Process A)
      → ((x : String) → Ends Q (f x) P)
      → Ends Q (text o >>= f) P
  with_text none f e = record { at = λ s a t h. absurd cc }
  with_text (some x) f e = record { at = λ s a t h. (e x).at s a t h }

  pub with_abort :
      (o : Option String) (f : String → Action Process A)
      → ((x : String) → Ends Q (f x) P)
      → Ends Q (or_abort o >>= f) P
  with_abort none f e = record { at = λ s a t h. absurd cc }
  with_abort (some x) f e = record { at = λ s a t h. (e x).at s a t h }

module _ (answers : List Call → Call → Bool) {A : Type 0} {P : Process → Type 0} where
  -- A call, what undoes it, and what comes then.
  pub undoable :
      (command : Command) (undo : Call) (rest : Action Process A)
      → inverse (runs command) ≡ some undo
      → Ends Tracks rest P
      → Ends Tracks (annotated_system answers command >> (add_clean undo >> rest)) P
  undoable command undo rest i e = record {
    at = λ s a t h. elim (Bool-cases (answers s.log (runs command))) [
      | inr n ↦ absurd (ground arith)
      | inl y ↦ rw y (e.at _ a (tracked_more s (runs command) undo i t) (rw y at h))
    ];
  }

  pub plain :
      (command : Command) (rest : Action Process A)
      → inverse (runs command) ≡ none
      → Ends Tracks rest P
      → Ends Tracks (annotated_system answers command >> rest) P
  plain command rest i e = record {
    at = λ s a t h. elim (Bool-cases (answers s.log (runs command))) [
      | inr n ↦ absurd (ground arith)
      | inl y ↦ rw y (e.at _ a (tracked_same s (runs command) i t) (rw y at h))
    ];
  }

module _ (answers : List Call → Call → Bool) {A : Type 0} {Q P : Process → Type 0} where
  pub with_role :
      (o : Option NetworkRole) (f : NetworkRole → Action Process A)
      → ((x : NetworkRole) → Ends Q (f x) P)
      → Ends Q (found_role answers o >>= f) P
  with_role none f e = record { at = λ s a t h. absurd cc }
  with_role (some x) f e = record { at = λ s a t h. (e x).at s a t h }

-- Two functions, one after the other.
pub both :
    {A : Type 0} {Q R P : Process → Type 0} {m : Action Process Unit} {n : Action Process A}
    → Ends Q m R
    → Ends R n P
    → Ends Q (m >> n) P
both {A = A} {P = P} {m = m} {n = n} e f = record {
  at = λ s a t h.
      let k = bind-done m (λ _. n) s a h in
      subst (λ (x : Outcome A × Process). P x.1) (sym k.2)
        (f.at (m s).1 a (e.at s k.0 t k.1) (ap (λ (x : Outcome A × Process). x.0) (sym k.2) ∙ h));
}

pub either :
    {A : Type 0} {Q P : Process → Type 0} (b : Bool) {m n : Action Process A}
    → Ends Q m P
    → Ends Q n P
    → Ends Q (if b then m else n) P
either true e f = e
either false e f = f

pub keep-Ends : Ends Tracks keep Rests
keep-Ends = record {
  at = λ s a t h. record {
    tracks = record {
      undoes = rw t.unconnected (rw t.unconnected at t.undoes);
      unconnected = t.unconnected;
    };
    empty = refl;
  };
}

pub begin-Ends : Ends Rests begin Tracks
begin-Ends = record {
  at = λ s a t h. record {
    undoes = rw t.empty at t.tracks.undoes;
    unconnected = t.tracks.unconnected;
  };
}

pub keep_connection-Ends : Ends Tracks keep_connection Settled
keep_connection-Ends = record {
  at = λ s a t h. record { all = rw append_assoc t.undoes; no_clean = refl };
}
