-- ===== src/Transactions/Attend.antt =====
-- The calls on the transactions that the bus library makes in the rounds of the service's loop:
-- `sd_bus_process` in service::loop of daemon/service.cpp.
use nonsense.Base.{ℕ, zero, suc, ◌≡◌, refl, sym, ap, ◌∙◌, Option, none, some, List, [], ◌∷◌, ◌++◌}
use nonsense.Bus.{Flow, Reply, go, replies, crashes, spins}
use nonsense.Json.{JsonLib}
use nonsense.Transactions.Manager.{
  Transactions, method_list, method_new, method_commit, method_discard, call_add,
}
use nonsense.Transactions.Run.{Call, lists, news, commits, discards, adds, step, run}

-- What a round brings: nothing for the transactions, a call of one of their methods, or what makes
-- the handler of another object end the process.
pub data Arrival : Type 0 where
  quiet : Arrival
  calls : Call → Arrival
  dies : Arrival

module _ (json : JsonLib) where
  -- The daemon goes on, its process has ended, or a handler does not return: it still draws
  -- identifiers.
  pub data Attended : Type 0 where
    goes_on : Transactions json → Attended
    died : Attended
    busy : Attended

  -- How the handler of a call ends; an object that is not there has none.
  unfoldable pub reply : Call → Transactions json → Option (Flow Reply)
  unfolding method_list method_new method_commit method_discard call_add
  reply lists s = some (method_list json s).0
  reply (news m) s = some (method_new json m s).0
  reply (commits m) s = some (method_commit json m s).0
  reply (discards m) s = some (method_discard json m s).0
  reply (adds id m) s = (call_add json id m s).0

  abbrev ended : Option (Flow Reply) → Transactions json → Attended
  ended (some crashes) s = died
  ended (some spins) s = busy
  ended (some (go r)) s = goes_on s
  ended (some (replies r)) s = goes_on s
  ended none s = goes_on s

  unfoldable pub heard : Arrival → Transactions json → Attended
  unfolding reply step
  heard quiet s = goes_on s
  heard (calls c) s = ended (reply c s) (step json c s)
  heard dies s = died

  abbrev and_then : (Transactions json → Attended) → Attended → Attended
  and_then rest (goes_on s) = rest s
  and_then rest died = died
  and_then rest busy = busy

  -- What arrives in a number of rounds, from the round `i` on.
  unfoldable pub attend : (ℕ → Arrival) → ℕ → ℕ → Transactions json → Attended
  unfolding heard
  attend arriving zero i s = goes_on s
  attend arriving (suc n) i s = and_then (attend arriving n (suc i)) (heard (arriving i) s)

  goes_on_inj : (s t : Transactions json) → goes_on s ≡ goes_on t → s ≡ t
  goes_on_inj s t e = cc

  -- The calls among what arrives.
  abbrev pub call_in : Arrival → List Call
  call_in quiet = []
  call_in (calls c) = c ∷ []
  call_in dies = []

  abbrev pub arrived : (ℕ → Arrival) → ℕ → ℕ → List Call
  arrived arriving zero i = []
  arrived arriving (suc n) i = call_in (arriving i) ++ arrived arriving n (suc i)

  run-append :
      (cs ds : List Call) (s : Transactions json)
      → run json (cs ++ ds) s ≡ run json ds (run json cs s)
  unfolding run
  run-append [] ds s = refl
  run-append (c ∷ cs) ds s = run-append cs ds (step json c s)

  ended-state : (o : Option (Flow Reply)) (s t : Transactions json) → ended o s ≡ goes_on t → s ≡ t
  ended-state (some crashes) s t e = absurd (cc)
  ended-state (some spins) s t e = absurd (cc)
  ended-state (some (go r)) s t e = goes_on_inj s t e
  ended-state (some (replies r)) s t e = goes_on_inj s t e
  ended-state none s t e = goes_on_inj s t e

  heard-run :
      (a : Arrival) (s t : Transactions json) → heard a s ≡ goes_on t → run json (call_in a) s ≡ t
  unfolding heard run
  heard-run quiet s t e = goes_on_inj s t e
  heard-run (calls c) s t e = ended-state (reply c s) (step json c s) t e
  heard-run dies s t e = absurd (cc)

  module _ (rest : Transactions json → Attended) where
    and_then-goes_on :
        (a : Attended) (t : Transactions json)
        → and_then rest a ≡ goes_on t
        → (s : Transactions json) × (a ≡ goes_on s) × (rest s ≡ goes_on t)
    and_then-goes_on (goes_on s) t e = (s, refl, e)
    and_then-goes_on died t e = absurd (cc)
    and_then-goes_on busy t e = absurd (cc)

  -- A daemon that goes on has run the calls that have arrived, in their order.
  pub attend-run :
      (arriving : ℕ → Arrival) (n i : ℕ) (s t : Transactions json)
      → attend arriving n i s ≡ goes_on t
      → t ≡ run json (arrived arriving n i) s
  unfolding attend run
  attend-run arriving zero i s t e = sym (goes_on_inj s t e)
  attend-run arriving (suc n) i s t e =
      let (u, h, k) = and_then-goes_on (attend arriving n (suc i)) (heard (arriving i) s) t e in
      attend-run arriving n (suc i) u t k
      ∙ ap (run json (arrived arriving n (suc i))) (sym (heard-run (arriving i) s u h))
      ∙ sym (run-append (call_in (arriving i)) (arrived arriving n (suc i)) s)
