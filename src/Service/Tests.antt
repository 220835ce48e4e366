-- ===== src/Service/Tests.antt =====
-- The service of a daemon with the process of one entity, and the examples of the theorems.
use Prim.Native.String.{String}
use nonsense.Base.{ℕ, ◌≡◌, refl, false, [], ◌∷◌, length, arith, ◌==◌, if◌then◌else◌}
use nonsense.Base.Int
use nonsense.Base.Int.{ℤ, negsuc, is_negative}
use nonsense.Base.Action.{done, throws}
use nonsense.Bus.{got}
use nonsense.Entity.Answers.{works}
use nonsense.Service.{Service, Opening, Rounds, open_service, loop}
use nonsense.Service.Alive.{loop-alive}

abbrev strerror : ℕ → String
strerror n = if n == 13 then "Permission denied" else "Unknown error"

abbrev fresh : Service
fresh = record { epoll = []; installed = false }

-- Another process has the name of the service.
abbrev refused : Opening strerror
refused = record {
  epoll_create = works 3;
  open_system = Int.pos 0;
  request_name = negsuc 12;
  subscribe = Int.pos 0;
  fd = got 4;
  added = works tt;
  install = done tt;
}

open_service-refused :
    open_service strerror 0 refused fresh
    ≡ (throws "Failed to acquire service name: Permission denied", fresh)
unfolding open_service
open_service-refused = refl

-- The bus 0 has one message, and the bus 1 of a process that has died fails in every round.
abbrev rounds : Rounds strerror
rounds = record {
  process = λ i bus. if bus == 0 then (if i == 0 then Int.pos 1 else Int.pos 0) else negsuc 103;
  wait = λ i. works 1;
}

loop-rounds : loop strerror rounds 0 4 0 0 ≡ (0 ∷ 0 ∷ 1 ∷ 1 ∷ [], done 1)
unfolding loop
loop-rounds = refl

quiet : (i : ℕ) → is_negative (rounds.process i 0) ≡ false
quiet i = ground arith

loop-alive_example :
    (length (loop strerror rounds 0 4 0 0).0 ≡ 4)
    × ((next : ℕ) × ((loop strerror rounds 0 4 0 0).1 ≡ done next))
loop-alive_example = loop-alive strerror rounds 0 quiet (λ i. (1, refl)) 4 0 0
