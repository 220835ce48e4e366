-- ===== src/Entity/Line.antt =====
-- The queue is a line of coroutines, of which the first one holds the token.
use nonsense.Base.{
  ℕ, ◌≡◌, refl, sym, ap, suc, zero, true, some, List, [], ◌∷◌, ◌++◌, append-nil, append_assoc,
  length, subst,
}
use nonsense.Entity.Queue.{
  QueueState, idle, Event, enqueues, releases, enqueue, release, wake, await_ready, await_suspend,
  await_resume, queue_step, after, run_queue,
}

-- The line as the code keeps it.
abbrev pub of_line : List ℕ → QueueState
of_line [] = idle
of_line (holder ∷ waiting) = record { held = true; queue = waiting }

-- Those who get in line, in this order.
unfoldable pub arrivals : List Event → List ℕ
arrivals [] = []
arrivals (enqueues handle ∷ es) = handle ∷ arrivals es
arrivals (releases ∷ es) = arrivals es

-- How many releases there are.
unfoldable pub departures : List Event → ℕ
departures [] = 0
departures (enqueues handle ∷ es) = departures es
departures (releases ∷ es) = suc (departures es)

-- The first `n` of a list.
unfoldable pub take : ℕ → List ℕ → List ℕ
take zero xs = []
take (suc n) [] = []
take (suc n) (x ∷ xs) = x ∷ take n xs

-- The rest of a list behind its first `n`.
unfoldable pub drop : ℕ → List ℕ → List ℕ
drop zero xs = xs
drop (suc n) [] = []
drop (suc n) (x ∷ xs) = drop n xs

-- With `n` coroutines in line, a token is released only while there is one.
abbrev pub Disciplined : ℕ → List Event → Type 0
Disciplined n [] = Unit
Disciplined n (enqueues handle ∷ es) = Disciplined (suc n) es
Disciplined zero (releases ∷ es) = ⊥
Disciplined (suc n) (releases ∷ es) = Disciplined n es

-- Who has got the token, without the one who holds it already.
abbrev newly : List ℕ → List ℕ → List ℕ
newly [] served = served
newly (holder ∷ waiting) served = drop 1 served

length-snoc : (xs : List ℕ) (x : ℕ) → length (xs ++ x ∷ []) ≡ suc (length xs)
length-snoc [] x = refl
length-snoc (y ∷ ys) x = ap suc (length-snoc ys x)

abbrev Serves : List Event → List ℕ → Type 0
Serves es line =
    run_queue es (of_line line)
    ≡ some (
      newly line (take (suc (departures es)) (line ++ arrivals es)),
      of_line (drop (departures es) (line ++ arrivals es)),
    )

run_queue-Serves : (es : List Event) (line : List ℕ) → Disciplined (length line) es → Serves es line
unfolding run_queue queue_step enqueue release wake await_ready await_suspend await_resume
    departures arrivals take drop
run_queue-Serves [] [] d = refl
run_queue-Serves [] (holder ∷ waiting) d = rw append-nil
run_queue-Serves (enqueues handle ∷ es) [] d =
    ap (after (handle ∷ [])) (run_queue-Serves es (handle ∷ []) d)
run_queue-Serves (enqueues handle ∷ es) (holder ∷ waiting) d =
    let longer : List ℕ = holder ∷ (waiting ++ handle ∷ []) in
    let k =
      run_queue-Serves es longer
        (subst (λ n. Disciplined (suc n) es) (sym (length-snoc waiting handle)) d) in
    rw append_assoc at (ap (after []) k)
run_queue-Serves (releases ∷ es) [] d = absurd d
run_queue-Serves (releases ∷ es) (holder ∷ []) d = ap (after []) (run_queue-Serves es [] d)
run_queue-Serves (releases ∷ es) (holder ∷ next ∷ waiting) d =
    ap (after (next ∷ [])) (run_queue-Serves es (next ∷ waiting) d)

-- From the unused queue, as long as a token is released only while somebody has it: no assertion
-- fails, the token goes to the coroutines in the order in which they asked for it, to the first one
-- at once and to one more at each release, and the state is that of the line of those that have
-- not released it.
pub run_queue-in_order :
    (es : List Event)
    → Disciplined 0 es
    → run_queue es idle
      ≡ some
          (take (suc (departures es)) (arrivals es), of_line (drop (departures es) (arrivals es)))
run_queue-in_order es d = run_queue-Serves es [] d
