-- ===== src/Entity/Tests/Fails.antt =====
-- Starts that fail or never end, and the examples of the theorems.
use nonsense.Base.{◌≡◌, refl, none, []}
use nonsense.Base.Int.{negsuc}
use nonsense.Bus.{go, spins, replies, method_errno}
use nonsense.Json.Tree.{Tree, tree_json, object, string, number, field, end}
use nonsense.Entity.Answers.{StartAnswers}
use nonsense.Entity.State.{among, pid_of}
use nonsense.Entity.Lifecycle.{launch, run_entity, start}
use nonsense.Entity.Waits.{closes, climbs, circle-spins, among_self}
use nonsense.Entity.Again.{start-again}
use nonsense.Entity.Tests.Start.{ready, at_rest, up, two}

-- An entity that is its own uplink.
abbrev own : Tree
own = object (
    field "network"
      (object
        (field "role" (string "root") (field "uplink" (string "x") (field ":role" (number 0) end))))
      end)

abbrev circle : Tree
circle = object (field "x" own end)

circle-spins_example : (start tree_json circle (λ n. ready) 5 "x" own at_rest).0 ≡ spins
unfolding pid_of
circle-spins_example =
    circle-spins tree_json circle (λ n. ready) 5 "x" own at_rest refl refl
      (climbs {uplink = "x"} {entity = own} refl
        (record { entity = own; value = string "x"; found = refl; there = refl; text = refl }) refl
        (closes (among_self "x" [])))

-- The bus does not take the file descriptor.
abbrev bad_fd : StartAnswers
bad_fd = record ready { set_fd = negsuc 8 }

start-again_example :
    ((start tree_json two (λ n. bad_fd) 2 "up" up at_rest).0
      ≡ replies (method_errno (negsuc 8) none))
    × (start tree_json two
          (λ n. bad_fd)
          2
          "up"
          up
          (start tree_json two (λ n. bad_fd) 2 "up" up at_rest).1
        ≡ (go tt, (start tree_json two (λ n. bad_fd) 2 "up" up at_rest).1))
unfolding launch run_entity among pid_of
start-again_example =
    start-again tree_json two (λ n. bad_fd) 1 "up" up at_rest 17 (method_errno (negsuc 8) none) refl
      refl refl refl refl
