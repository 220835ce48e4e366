-- ===== src/Service.antt =====
-- `service` of daemon/service.cpp: the connection to the system bus, the set of buses that are
-- polled, and the loop that lets the bus library process them. What the bus library and the system
-- answer is input.
pub mod Alive
pub mod Opens
mod Tests
use Prim.Native.String.{◌++◌}
use nonsense.Base.{ℕ, zero, suc, String, Bool, true, false, List, [], ◌∷◌, if◌then◌else◌, ◌==◌}
use nonsense.Base.Int
use nonsense.Base.Int.{ℤ, negsuc, is_negative}
use nonsense.Base.Action.{Action, Outcome, done, throws, aborts, throw, pure, modify, ◌>>=◌, ◌>>◌}
use nonsense.Bus.{Read, got, failed}
use nonsense.Entity.Answers.{System, works, errno}

abbrev pub is_positive : ℤ → Bool
is_positive (Int.pos zero) = false
is_positive (Int.pos (suc n)) = true
is_positive (negsuc n) = false

-- A bus is a number, and the bus library's are told apart by it.
pub record Service : Type 0 where
  pub epoll : List ℕ
  pub installed : Bool

abbrev pub erase : ℕ → List ℕ → List ℕ
erase bus [] = []
erase bus (other ∷ rest) =
    let others = erase bus rest in if bus == other then others else other ∷ others

-- `strerror` of the system gives the text of an errno.
module _ (strerror : ℕ → String) where
  -- A call that returns a negative status throws.
  abbrev pub succeed : String → ℤ → Action Service (Unit {0})
  succeed what (Int.pos n) = pure tt
  succeed what (negsuc n) = throw (what ++ strerror (suc n))

  -- A call that returns -1 and sets errno throws.
  abbrev pub call : {A : Type 0} → String → System A → Action Service A
  call what (works a) = pure a
  call what (errno n) = throw (what ++ strerror n)

  abbrev pub bus_fd : Read ℕ → Action Service ℕ
  bus_fd (got fd) = pure fd
  bus_fd (failed n) = throw ("Failed to obtain bus fd: " ++ strerror (suc n))

  -- service::register_bus
  unfoldable pub register_bus : ℕ → Read ℕ → System (Unit {0}) → Action Service (Unit {0})
  register_bus bus fd added = do
    number ← bus_fd fd
    call "Failed to add the bus fd to epoll: " added
    modify (λ s. record s { epoll = bus ∷ s.epoll })

  -- service::unregister_bus
  unfoldable pub unregister_bus : ℕ → Read ℕ → System (Unit {0}) → Action Service (Unit {0})
  unregister_bus bus fd removed = do
    number ← bus_fd fd
    call "Failed to remove the bus fd from epoll: " removed
    modify (λ s. record s { epoll = erase bus s.epoll })

  pub record Opening : Type 0 where
    pub epoll_create : System ℕ
    pub open_system : ℤ
    pub request_name : ℤ
    pub subscribe : ℤ
    pub fd : Read ℕ
    pub added : System (Unit {0})
    -- what configuration::install throws
    pub install : Outcome (Unit {0})

  abbrev pub installs : Outcome (Unit {0}) → Action Service (Unit {0})
  installs (done u) s = (done u, record s { installed = true })
  installs (throws what) s = (throws what, s)
  installs aborts s = (aborts, s)

  -- service::service
  unfoldable pub open_service : ℕ → Opening → Action Service (Unit {0})
  unfolding register_bus
  open_service bus o = do
    fd ← call "Failed to create an epoll fd: " o.epoll_create
    succeed "Failed to connect to system bus: " o.open_system
    succeed "Failed to acquire service name: " o.request_name
    succeed "Failed to subscribe to systemd signals: " o.subscribe
    register_bus bus o.fd o.added
    installs o.install

  -- What sd_bus_process returns in each round for each bus, and which bus epoll_wait gives at its
  -- end.
  pub record Rounds : Type 0 where
    pub process : ℕ → ℕ → ℤ
    pub wait : ℕ → System ℕ

  -- What a round comes to: the bus of the next one, or an exception.
  abbrev pub woken : System ℕ → Outcome ℕ
  woken (works bus) = done bus
  woken (errno n) = throws ("Failed to wait on the epoll fd: " ++ strerror n)

  abbrev pub waited : ℤ → ℕ → System ℕ → Outcome ℕ
  waited ret bus next = if is_positive ret then done bus else woken next

  unfoldable pub one_round : ℕ → ℕ → ℤ → System ℕ → Outcome ℕ
  one_round main bus (Int.pos n) next = waited (Int.pos n) bus next
  one_round main bus (negsuc n) next =
      if bus == main
      then throws ("Failed to process bus: " ++ strerror (suc n))
      else waited (negsuc n) bus next

  abbrev pub go_on : (ℕ → List ℕ × Outcome ℕ) → Outcome ℕ → List ℕ × Outcome ℕ
  go_on rest (done bus) = rest bus
  go_on rest (throws what) = ([], throws what)
  go_on rest aborts = ([], aborts)

  -- service::loop for a number of rounds, from the round `i` on: the buses that it processes, and
  -- the bus that is next or the exception.
  unfoldable pub loop : Rounds → ℕ → ℕ → ℕ → ℕ → List ℕ × Outcome ℕ
  unfolding one_round
  loop r main zero i bus = ([], done bus)
  loop r main (suc n) i bus =
      let (processed, end) =
        go_on (loop r main n (suc i)) (one_round main bus (r.process i bus) (r.wait i)) in
      (bus ∷ processed, end)
