-- ===== src/Entityd/Tests.antt =====
-- The set-up of a switch under a switch, and the example of the theorem.
use nonsense.Base.Int.{pos}
use nonsense.Base.{
  ℕ, String, [], ◌∷◌, ◌==◌, if◌then◌else◌, ◌≡◌, refl, Bool, true, false, none, some, List,
}
use nonsense.Base.Action.{done}
use nonsense.Entityd.Command.{Call}
use nonsense.Entityd.Cleanup.{Net, net, null, started}
use nonsense.Entityd.Network.{nth_address_in_subnet, added, add_component}
use nonsense.Entityd.Address.{nth_address_in_subnet-network}
use nonsense.Entityd.Shutdown.{undoing}
use nonsense.Entityd.Main.{Round, waits, adds, handles, fails, exits, served, main}
use nonsense.Entityd.Leaves.{main-undoes}

-- Every call succeeds.
abbrev fine : List Call → Call → Bool
fine log call = true

abbrev upper : Net
upper =
    net (some "switch") (some "uplink") (some "192.168.1.0/24") false false false
      (net (some "root") none none false false true null)

abbrev lower : Net
lower = net (some "switch") (some "upper") (some "192.168.2.0/24") false false false upper

gateway : nth_address_in_subnet "192.168.2.0/24" "1" true ≡ some "192.168.2.1/24"
unfolding nth_address_in_subnet
gateway = refl

lower_done : (add_component fine "lower" (some "network") (some lower) started).0 ≡ done added
unfolding add_component
lower_done = refl

-- A switch is set up, and is then there already; then the bus fails.
abbrev requests : List Round
requests =
    waits (pos 0)
    ∷ adds (some "network") (some lower)
    ∷ handles
    ∷ adds (some "network") (some upper)
    ∷ fails 104
    ∷ []

abbrev strerror : ℕ → String
strerror n = if n == 104 then "Connection reset by peer" else "Unknown error"

requests_end :
    (main strerror fine "lower" "<3>" (pos 0) requests).0
    ≡ exits 1 ("<3>Fatal error: Failed to process bus: Connection reset by peer" ∷ [])
unfolding main
requests_end = refl

main-undoes_example :
    (main strerror fine "lower" "<3>" (pos 0) requests).1.log
    ≡ undoing
        (served strerror fine "lower" "<3>" (pos 0) requests).1.log
        (served strerror fine "lower" "<3>" (pos 0) requests).1.log
main-undoes_example =
    main-undoes fine "lower" strerror "<3>" (pos 0) requests 1
      ("<3>Fatal error: Failed to process bus: Connection reset by peer" ∷ []) requests_end

nth_address_in_subnet-network_example :
    nth_address_in_subnet "192.168.2.0/24" "3" false ≡ some "192.168.2.3"
nth_address_in_subnet-network_example =
    nth_address_in_subnet-network "192.168.2" "0" "3" false refl refl
