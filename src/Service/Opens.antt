-- ===== src/Service/Opens.antt =====
-- What the constructor of daemon/service.cpp has set up at its end.
use nonsense.Base.{ℕ, String, ◌≡◌, ◌≢◌, refl, ◌⊎◌, inl, inr, true, ◌∷◌}
use nonsense.Base.Int
use nonsense.Base.Int.{ℤ, negsuc}
use nonsense.Base.Action.{Action, Outcome, done, throws, aborts, ◌>>=◌, ◌>>◌}
use nonsense.Bus.{Read, got, failed}
use nonsense.Entity.Answers.{System, works, errno}
use nonsense.Service.{Service, Opening, succeed, call, register_bus, installs, open_service}

module _ (strerror : ℕ → String) (bus : ℕ) (s : Service) where
  -- All is set up, and the configuration has installed itself, or it has not.
  abbrev pub SetsUp : Outcome (Unit {0}) → Outcome (Unit {0}) × Service → Type 0
  SetsUp install q =
      ((install ≡ done tt) × (q.0 ≡ done tt) × (q.1.epoll ≡ bus ∷ s.epoll) × (q.1.installed ≡ true))
      ⊎ ((q.0 ≢ done tt) × (q.1.installed ≡ s.installed))

  abbrev Idle : Outcome (Unit {0}) × Service → Type 0
  Idle q = (q.0 ≢ done tt) × (q.1.installed ≡ s.installed)

  -- A call in the constructor, and what stands behind it.
  call-SetsUp :
      {A : Type 0} (o : Outcome (Unit {0})) (what : String) (r : System A)
      (k : A → Action Service (Unit {0}))
      → ((a : A) → SetsUp o (k a s))
      → SetsUp o ((call strerror what r >>= k) s)
  call-SetsUp o what (works a) k d = d a
  call-SetsUp o what (errno n) k d = inr (λ e. cc, refl)

  succeed-SetsUp :
      (o : Outcome (Unit {0})) (what : String) (z : ℤ) (k : Action Service (Unit {0}))
      → SetsUp o (k s)
      → SetsUp o ((succeed strerror what z >> k) s)
  succeed-SetsUp o what (Int.pos n) k d = d
  succeed-SetsUp o what (negsuc n) k d = inr (λ e. cc, refl)

  installs-SetsUp :
      (o : Outcome (Unit {0})) → SetsUp o (installs strerror o (record s { epoll = bus ∷ s.epoll }))
  installs-SetsUp (done u) = inl (refl, refl, refl, refl)
  installs-SetsUp (throws what) = inr (λ e. cc, refl)
  installs-SetsUp aborts = inr (λ e. cc, refl)

  register-SetsUp :
      (fd : Read ℕ) (added : System (Unit {0})) (o : Outcome (Unit {0}))
      → SetsUp o ((register_bus strerror bus fd added >> installs strerror o) s)
  unfolding register_bus
  register-SetsUp (failed n) added o = inr (λ e. cc, refl)
  register-SetsUp (got fd) (errno n) o = inr (λ e. cc, refl)
  register-SetsUp (got fd) (works u) o = installs-SetsUp o

  -- The constructor of the service ends without an exception with the main bus polled and the
  -- configuration installed on it, or it does not, and the configuration is not installed.
  pub open_service-SetsUp :
      (o : Opening strerror) → SetsUp o.install (open_service strerror bus o s)
  unfolding open_service
  open_service-SetsUp o = call-SetsUp o.install _ o.epoll_create _ λ fd.
      succeed-SetsUp o.install _ o.open_system _ (
        succeed-SetsUp o.install _ o.request_name _
          (succeed-SetsUp o.install _ o.subscribe _ (register-SetsUp o.fd o.added o.install)))
