-- ===== src/Entityd/Main.antt =====
-- main of entityd/main.cpp: the loop over the requests on the process's own bus. What the bus
-- library returns is input, a round at a time.
use Prim.Native.String.{◌++◌}
use nonsense.Base.{ℕ, suc, String, Bool, Option, List, [], ◌∷◌}
use nonsense.Base.Int
use nonsense.Base.Int.{ℤ, negsuc}
use nonsense.Base.Action.{Outcome, done, throws, aborts}
use nonsense.Entityd.Command.{Call}
use nonsense.Entityd.Cleanup.{Net, Process, started, shutdown}
use nonsense.Entityd.Network.{Answer, add_component}

-- What a round of the loop comes upon.
pub data Round : Type 0 where
  -- sd_bus_process calls the handler of AddComponent, or the one of Shutdown
  adds : Option String → Option Net → Round
  shuts_down : Round
  -- it does something else
  handles : Round
  -- it has nothing to do; what sd_bus_wait returns
  waits : ℤ → Round
  -- it fails with an errno
  fails : ℕ → Round

-- How the process has ended, if it has: with a status and lines on the standard error stream, by a
-- failed assertion, or by an exception in a handler, which the bus library has called.
pub data Ended : Type 0 where
  runs : Ended
  exits : ℕ → List String → Ended
  terminated : Ended
  unwinds : String → Ended

module _ (strerror : ℕ → String) (answers : List Call → Call → Bool)
    (name error_prefix : String) where
  -- The handler of main, up to its call of `shutdown`.
  abbrev pub fatal : String → Ended
  fatal what = exits 1 ((error_prefix ++ "Fatal error: " ++ what) ∷ [])

  abbrev pub handled : (Process → Ended × Process) → Outcome Answer × Process → Ended × Process
  handled rest (done answer, s) = rest s
  handled rest (throws what, s) = (unwinds what, s)
  handled rest (aborts, s) = (terminated, s)

  -- The loop, up to the call of `shutdown` in handle_shutdown or in the handler of main.
  unfoldable pub serve : List Round → Process → Ended × Process
  unfolding add_component
  serve [] s = (runs, s)
  serve (adds type config ∷ rest) s =
      handled (serve rest) (add_component answers name type config s)
  serve (shuts_down ∷ rest) s = (exits 0 [], s)
  serve (handles ∷ rest) s = serve rest s
  serve (waits (Int.pos n) ∷ rest) s = serve rest s
  serve (waits (negsuc n) ∷ rest) s = (fatal ("Failed to wait on bus: " ++ strerror (suc n)), s)
  serve (fails n ∷ rest) s = (fatal ("Failed to process bus: " ++ strerror n), s)

  -- The interface, and the loop.
  unfoldable pub served : ℤ → List Round → Ended × Process
  unfolding serve
  served (Int.pos n) rounds = serve rounds started
  served (negsuc n) rounds =
      (fatal ("Failed to install the Entityd interface: " ++ strerror (suc n)), started)

  abbrev pub ended : Ended × Process → Ended × Process
  ended (exits status lines, s) = (exits status lines, shutdown s)
  ended (e, s) = (e, s)

  unfoldable pub main : ℤ → List Round → Ended × Process
  unfolding served shutdown
  main installed rounds = ended (served installed rounds)
