-- ===== src/Bus.antt =====
-- How a bus method replies: the statuses and errors of daemon/async.h, and the early ends of a
-- handler's coroutine (`co_yield log_and_reply_on_error`, `co_return`). What the bus library
-- answers is input: a handler takes the results of the calls that it makes.
pub mod Effects
pub mod Ends
pub mod Signals
pub mod Waiters
mod Tests
use nonsense.Base.{
  ℕ, String, ◌≡◌, ◌⊎◌, inl, inr, refl, Bool, true, false, Option, none, if◌then◌else◌,
}
use nonsense.Base.Int.{ℤ, negsuc, is_negative}

pub record BusError : Type 0 where
  pub name : String
  pub message : String

-- What a method returns: nothing, or a transaction's token and object path.
pub data Returned : Type 0 where
  nothing : Returned
  token : ℕ → String → Returned

pub data Reply : Type 0 where
  -- sd_bus_reply_method_return
  method_return : Returned → Reply
  -- sd_bus_reply_method_errno, for a negative status; any other status sends nothing
  method_errno : ℤ → Option BusError → Reply
  -- sd_bus_reply_method_error
  method_error : BusError → Reply

-- A handler goes on with a value, has replied, has stopped the daemon, or does not go on: it is
-- still in a loop when its input ends, or waits for what does not come.
pub data Flow {ℓ} (A : Type ℓ) : Type ℓ where
  go : A → Flow A
  replies : Reply → Flow A
  crashes : Flow A
  spins : Flow A

abbrev pub Handler {ℓ} : Type ℓ → Type ℓ → Type ℓ
Handler S A = S → Flow A × S

module _ {ℓ} {S A B : Type ℓ} where
  abbrev pub resume : Flow A → (A → Handler S B) → Handler S B
  resume (go a) f s = f a s
  resume (replies r) f s = (replies r, s)
  resume crashes f s = (crashes, s)
  resume spins f s = (spins, s)

  infixl 10 ◌>>=◌
  abbrev pub ◌>>=◌ : Handler S A → (A → Handler S B) → Handler S B
  ◌>>=◌ m f s = let (r, s') = m s in resume r f s'

infixl 10 ◌>>◌
abbrev pub ◌>>◌ {ℓ} : {S B : Type ℓ} → Handler S (Unit {ℓ}) → Handler S B → Handler S B
m >> n = m >>= λ _. n

module _ {ℓ} {S A : Type ℓ} where
  abbrev pub pure : A → Handler S A
  pure a s = (go a, s)

  abbrev pub gets : (S → A) → Handler S A
  gets f s = (go (f s), s)

  abbrev pub crash : Handler S A
  crash s = (crashes, s)

  -- co_return reply_status(code, error)
  abbrev pub fail : ℤ → Option BusError → Handler S A
  fail code error s = (replies (method_errno code error), s)

  -- co_return reply_error_format(…)
  abbrev pub fail_with : BusError → Handler S A
  fail_with error s = (replies (method_error error), s)

  abbrev pub waits : Handler S A
  waits s = (spins, s)

  -- co_return reply_status(sd_bus_reply_method_return(…)), which sends, or fails with this status
  abbrev pub return_with : ℤ → Returned → Handler S A
  return_with sent r s =
      if is_negative sent then fail sent none s else (replies (method_return r), s)

abbrev pub modify {ℓ} : {S : Type ℓ} → (S → S) → Handler S (Unit {ℓ})
modify f s = (go tt, f s)

abbrev pub assert {ℓ} : {S : Type ℓ} → Bool → Handler S (Unit {ℓ})
assert true s = (go tt, s)
assert false s = (crashes, s)

-- co_yield log_and_reply_on_error(status, …): a negative status is the reply.
abbrev pub check {ℓ} : {S : Type ℓ} → ℤ → Handler S (Unit {ℓ})
check status s = if is_negative status then fail status none s else (go tt, s)

-- What a call that fills an output reports: the output, or the negative status -(n + 1).
pub data Read {ℓ} (A : Type ℓ) : Type ℓ where
  got : A → Read A
  failed : ℕ → Read A

abbrev pub checked {ℓ} : {S A : Type ℓ} → Read A → Handler S A
checked (got a) s = (go a, s)
checked (failed n) s = fail (negsuc n) none s

-- The credentials of the sender: sd_bus_query_sender_creds and sd_bus_creds_get_uid.
pub record Sender : Type 0 where
  pub query_status : ℤ
  pub uid : Read ℕ

abbrev pub not_negative : ℤ → Bool
not_negative z = if is_negative z then false else true

abbrev pub sender_uid : {S : Type 0} → Sender → Handler S ℕ
sender_uid sender = do assert (not_negative sender.query_status); checked sender.uid

pub Read-cases {ℓ} :
    {A : Type ℓ} (r : Read A) → ((a : A) × (r ≡ got a)) ⊎ ((n : ℕ) × (r ≡ failed n))
Read-cases (got a) = inl (a, refl)
Read-cases (failed n) = inr (n, refl)

pub Flow-cases {ℓ} :
    {A : Type ℓ} (f : Flow A)
    → ((a : A) × (f ≡ go a)) ⊎ (((r : Reply) × (f ≡ replies r)) ⊎ ((f ≡ crashes) ⊎ (f ≡ spins)))
Flow-cases (go a) = inl (a, refl)
Flow-cases (replies r) = inr (inl (r, refl))
Flow-cases crashes = inr (inr (inl refl))
Flow-cases spins = inr (inr (inr refl))
