-- ===== src/Service/Alive.antt =====
-- What keeps the loop of daemon/service.cpp going, and what the service has set up.
use Prim.Native.String.{◌++◌}
use nonsense.Base.{
  ℕ, zero, suc, String, ◌≡◌, refl, sym, ap, ◌∙◌, subst, Bool, true, false, List, [], ◌∷◌, length,
  All, arith, if◌then◌else◌, ◌==◌,
}
use nonsense.Base.Int
use nonsense.Base.Int.{ℤ, negsuc, is_negative}
use nonsense.Base.Action.{Outcome, done, throws, aborts}
use nonsense.Bus.{got}
use nonsense.Entity.Answers.{System, works}
use nonsense.Service.{
  Service, Rounds, is_positive, erase, register_bus, unregister_bus, woken, one_round, go_on, loop,
}

-- A loop that has not thrown has made all its rounds.
module _ (strerror : ℕ → String) (r : Rounds strerror) (main : ℕ) where
  go_on-length :
      (n : ℕ) (rest : ℕ → List ℕ × Outcome ℕ) (o : Outcome ℕ) (next : ℕ)
      → ((bus : ℕ) → (rest bus).1 ≡ done next → length (rest bus).0 ≡ n)
      → (go_on strerror rest o).1 ≡ done next
      → length (go_on strerror rest o).0 ≡ n
  go_on-length n rest (done bus) next k e = k bus e
  go_on-length n rest (throws what) next k e = absurd (cc)
  go_on-length n rest aborts next k e = absurd (cc)

  pub loop-length :
      (n i bus next : ℕ)
      → (loop strerror r main n i bus).1 ≡ done next
      → length (loop strerror r main n i bus).0 ≡ n
  unfolding loop
  loop-length zero i bus next e = refl
  loop-length (suc n) i bus next e = ap suc (
      go_on-length n (loop strerror r main n (suc i))
        (one_round strerror main bus (r.process i bus) (r.wait i)) next
        (λ b. loop-length n (suc i) b next) e)

module _ (strerror : ℕ → String) where
  -- A round that goes on.
  abbrev GoesOn : Outcome ℕ → Type 0
  GoesOn o = (bus : ℕ) × (o ≡ done bus)

  waited-GoesOn :
      (b : Bool) (bus : ℕ) (next : System ℕ)
      → ((woken : ℕ) × (next ≡ works woken))
      → GoesOn (if b then done bus else woken strerror next)
  waited-GoesOn true bus next w = (bus, refl)
  waited-GoesOn false bus next (b, e) = (b, ap (woken strerror) e)

  one_round-GoesOn :
      (main bus : ℕ) (ret : ℤ) (next : System ℕ)
      → (bus ≡ main → is_negative ret ≡ false)
      → ((woken : ℕ) × (next ≡ works woken))
      → GoesOn (one_round strerror main bus ret next)
  unfolding one_round
  one_round-GoesOn main bus (Int.pos n) next k w =
      waited-GoesOn (is_positive (Int.pos n)) bus next w
  one_round-GoesOn main bus (negsuc n) next k w =
      alarm (bus == main) (λ h. ground (arith, k)) (waited-GoesOn false bus next w)
    where
      alarm :
          (b : Bool)
          → (b ≡ true → ⊥)
          → GoesOn (woken strerror next)
          → GoesOn (
              if b
              then throws ("Failed to process bus: " ++ strerror (suc n))
              else woken strerror next)
      alarm true h g = absurd (h refl)
      alarm false h g = g

  -- Where no call for the main bus fails and no wait fails, the loop processes a bus in each round
  -- and goes on, whatever the calls for the other buses return.
  pub loop-alive :
      (r : Rounds strerror) (main : ℕ)
      → ((i : ℕ) → is_negative (r.process i main) ≡ false)
      → ((i : ℕ) → (bus : ℕ) × (r.wait i ≡ works bus))
      → (n i bus : ℕ)
      → (length (loop strerror r main n i bus).0 ≡ n)
        × ((next : ℕ) × ((loop strerror r main n i bus).1 ≡ done next))
  unfolding loop
  loop-alive r main k w zero i bus = (refl, (bus, refl))
  loop-alive r main k w (suc n) i bus =
      let (b, e) =
        one_round-GoesOn main bus (r.process i bus) (r.wait i)
          (λ same. ap (λ m. is_negative (r.process i m)) same ∙ k i) (w i) in
      let (l, g) = loop-alive r main k w n (suc i) b in
      subst
        (λ o.
          (length (bus ∷ (go_on strerror (loop strerror r main n (suc i)) o).0) ≡ suc n)
          × ((next : ℕ) × ((go_on strerror (loop strerror r main n (suc i)) o).1 ≡ done next)))
        (sym e) (ap suc l, g)

  erase-same : (bus : ℕ) (l : List ℕ) → All (λ other. (bus == other) ≡ false) l → erase bus l ≡ l
  erase-same bus [] a = refl
  erase-same bus (other ∷ l) (n, a) = ground (arith, erase-same bus l a)

  -- A bus that was not polled, registered and then taken out again, where no call fails, leaves the
  -- service as it was.
  pub unregister_bus-register_bus :
      (bus fd : ℕ) (s : Service)
      → All (λ other. (bus == other) ≡ false) s.epoll
      → unregister_bus strerror bus
          (got fd)
          (works tt)
          (register_bus strerror bus (got fd) (works tt) s).1
        ≡ (done tt, s)
  unfolding register_bus unregister_bus
  unregister_bus-register_bus bus fd s a =
      ap (λ l. (done tt, record s { epoll = l })) (ground (arith, erase-same bus s.epoll a))
