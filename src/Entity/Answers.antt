-- ===== src/Entity/Answers.antt =====
-- What the bus, systemd and the operating system answer while an entity is started or stopped, as
-- daemon/entity.cpp and `async` of daemon/async.h see it.
use nonsense.Base.{ℕ, String, Bool, Option, none, some, if◌then◌else◌, str_eq}
use nonsense.Base.Int
use nonsense.Base.Int.{ℤ, neg}
use nonsense.Bus.{
  Handler, BusError, go, Read, checked, fail, fail_with, waits, crash, pure, ◌>>=◌, ◌>>◌,
}

-- A system call that returns a value, or fails with this errno.
pub data System {ℓ} (A : Type ℓ) : Type ℓ where
  works : A → System A
  errno : ℕ → System A

-- What comes back of a method call: a message, an error reply with its errno, or nothing.
pub data Called : Type 0 where
  answers : Called
  refuses : ℕ → BusError → Called
  silent : Called
  -- the call cannot be issued, which aborts
  unsent : Called

-- A call that asks systemd for a job: the call, the job's name in its reply, and the result in the
-- signal JobRemoved that the coroutine waits for, where one comes that matches.
pub record JobAnswer : Type 0 where
  pub call : Called
  pub job : Read String
  pub removed : Option (Read String)

-- The loop that waits until the bus of the entity's process is ready: what sd_bus_process returns
-- in each round, and whether the bus is ready when the loop is left. It may also never be left.
pub data Connecting : Type 0 where
  polls : ℤ → Connecting → Connecting
  leaves : Bool → Connecting
  goes_on : Connecting

pub record ComponentAnswer : Type 0 where
  pub call : Called
  pub result : Read Bool

pub record StartAnswers : Type 0 where
  pub socket : System (Unit {0})
  pub fork : System ℕ
  pub bus_new : ℤ
  pub set_fd : ℤ
  pub set_client : ℤ
  -- whether register_bus returns; it throws otherwise
  pub registers : Bool
  pub bus_start : ℤ
  pub connecting : Connecting
  -- whether sd_bus_match_signal succeeds, which is asserted
  pub subscribes : Bool
  pub slice : JobAnswer
  pub scope : JobAnswer
  -- by the type of the component
  pub component : String → ComponentAnswer

pub record StopAnswers : Type 0 where
  pub shutdown : Called
  pub unregisters : Bool
  pub subscribes : Bool
  pub slice : JobAnswer

module _ {S : Type 0} where
  -- co_await async::sd_bus_call_method(…)
  abbrev pub called : Called → Handler S (Unit {0})
  called answers s = (go tt, s)
  called (refuses n error) s = fail (neg n) (some error) s
  called silent s = waits s
  called unsent s = crash s

  -- co_return reply_status(errno): the status is not negative.
  abbrev pub system : {A : Type 0} → System A → Handler S A
  system (works a) s = (go a, s)
  system (errno n) s = fail (ℤ.pos n) none s

  abbrev pub arrives : Option (Read String) → Handler S String
  arrives none = waits
  arrives (some result) = checked result

  -- A call that asks for a job, and the wait for its end; `failure` is the error from the job's
  -- result.
  unfoldable pub job_done : JobAnswer → (String → BusError) → Handler S (Unit {0})
  job_done j failure = do
    called j.call
    job ← checked j.job
    result ← arrives j.removed
    (if str_eq result "done" then pure tt else fail_with (failure result))

  -- The loop around sd_bus_process, and the test behind it.
  unfoldable pub connected : Connecting → Handler S Bool
  connected (polls status rest) s =
      let next = connected rest s in if Int.is_negative status then fail status none s else next
  connected (leaves ready) s = (go ready, s)
  connected goes_on s = waits s
