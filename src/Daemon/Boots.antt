-- ===== src/Daemon/Boots.antt =====
-- What the daemon has set up when its loop runs, and how it ends otherwise.
use nonsense.Base.{
  ℕ, String, ◌≡◌, refl, ◌⊎◌, inl, inr, Bool, true, false, Option, none, some, List, [], ◌∷◌, arith,
  Option-cases, length, subst,
}
use nonsense.Base.Int
use nonsense.Base.Int.{ℤ, negsuc}
use nonsense.Base.Action.{Outcome, done, throws, aborts}
use nonsense.Json.{JsonLib}
use nonsense.Config.Add.{Config, copy}
use nonsense.Config.Load.{load_config}
use nonsense.Config.Load.Ends.{load_config_total}
use nonsense.Config.Load.Sound.{load_value-done}
use nonsense.Transactions.Manager.{Transactions}
use nonsense.Transactions.Run.{run}
use nonsense.Transactions.Attend.{Attended, goes_on, died, busy, attend, arrived, attend-run}
use nonsense.Service.{Service, loop, open_service}
use nonsense.Service.Alive.{loop-length}
use nonsense.Service.Opens.{open_service-SetsUp}
use nonsense.Daemon.{
  Vtable, Installing, CommandLine, Options, exit, configuration_file, options, add_vtable,
  install_config, install_transactions, open_controller, open_configuration, install_configuration,
  Startup, Serving, Ran, exits, terminated, serves, handling, looped, looping, controlled, opened,
  configured, fatal, parsed, main,
}

-- The objects of the daemon, the last one first.
abbrev pub daemon_objects : List Vtable
daemon_objects =
    record { path = "/info/griwes/nonsense"; interface = "info.griwes.nonsense.Controller" }
    ∷ record {
      path = "/info/griwes/nonsense/configuration/transactions";
      interface = "info.griwes.nonsense.TransactionManager";
    }
    ∷ record {
      path = "/info/griwes/nonsense/configuration/running";
      interface = "info.griwes.nonsense.MutableConfig";
    }
    ∷ record {
      path = "/info/griwes/nonsense/configuration/saved";
      interface = "info.griwes.nonsenes.Config";
    }
    ∷ record {
      path = "/info/griwes/nonsense/configuration";
      interface = "info.griwes.nonsense.ConfigManager";
    }
    ∷ []

module _ (strerror : ℕ → String) (json : JsonLib) where
  open json use {parse}

  -- The configuration that is loaded is not to be modified.
  load_config-immutable :
      (path : String) (stream : Option String) (c : Config json)
      → load_config json path stream ≡ some (done c)
      → c.mutable_ ≡ false
  unfolding load_config
  load_config-immutable path none c h = absurd (ground arith)
  load_config-immutable path (some text) c h = elim (Option-cases (parse text)) [
    | inl e ↦ absurd (ground arith)
    | inr (r, e) ↦ (load_value-done json r c (rw (e, load_config) at h)).3
  ]

  module _ (i : Startup strerror json) (n : ℕ) where
    -- The daemon serves what it has loaded and the calls have made of it; its loop began with its own
    -- bus polled, and all of its objects are registered.
    pub record Boots (s : Serving strerror json) : Type 0 where
      pub line : CommandLine
      pub path : String
      pub saved : Config json
      pub accepted : i.arguments ≡ done line
      pub selected : options i.error_prefix line ≡ configuration_file path
      pub loaded : load_config json path (i.stream path) ≡ some (done saved)
      pub transactions :
          s.transactions
          ≡ run json
              (arrived json i.arriving n 0)
              (record { saved_config = saved; running_config = copy json saved; open_ = [] })
      pub polled : s.service.epoll ≡ i.bus ∷ []
      pub installed : s.service.installed ≡ true
      pub registered : s.objects ≡ daemon_objects

    -- How the daemon may have come on.
    abbrev pub Comes : Ran strerror json → Type 0
    Comes q =
        ((s : Serving strerror json) × (q ≡ serves s) × Boots s)
        ⊎ ((q ≡ exits 0 [])
            ⊎ (((first : String) × (others : List String) × (q ≡ exits 1 (first ∷ others)))
                ⊎ ((q ≡ terminated) ⊎ (q ≡ handling))))

    Comes-fatal : (what : String) → Comes (fatal strerror json i what)
    Comes-fatal what = inr (inr (inl (_, [], refl)))

    Comes-terminated : Comes terminated
    Comes-terminated = inr (inr (inr (inl refl)))

    module _ (line : CommandLine) (path : String) (acc : i.arguments ≡ done line)
        (sel : options i.error_prefix line ≡ configuration_file path) (saved : Config json)
        (ld : load_config json path (i.stream path) ≡ some (done saved)) where
      abbrev start : Transactions json
      start = record { saved_config = saved; running_config = copy json saved; open_ = [] }

      looped-Comes :
          (s : Service) (o : Outcome ℕ) (a : Attended json)
          → s.epoll ≡ i.bus ∷ []
          → s.installed ≡ true
          → ((c : Transactions json) (bus : ℕ)
              → o ≡ done bus
              → a ≡ goes_on c
              → c ≡ run json (arrived json i.arriving n 0) start)
          → Comes (looped strerror json i s daemon_objects o a)
      looped-Comes s o died e f k = Comes-terminated
      looped-Comes s o busy e f k = inr (inr (inr (inr refl)))
      looped-Comes s (done bus) (goes_on c) e f k = inl (
        _,
        refl,
        record {
          line = line;
          path = path;
          saved = saved;
          accepted = acc;
          selected = sel;
          loaded = ld;
          transactions = k c bus refl refl;
          polled = e;
          installed = f;
          registered = refl;
        },
      )
      looped-Comes s (throws what) (goes_on c) e f k = Comes-fatal what
      looped-Comes s aborts (goes_on c) e f k = Comes-terminated

      looping-Comes :
          (s : Service) (q : List ℕ × Outcome ℕ)
          → s.epoll ≡ i.bus ∷ []
          → s.installed ≡ true
          → ((bus : ℕ) → q.1 ≡ done bus → length q.0 ≡ n)
          → Comes (looping strerror json i start s daemon_objects q)
      looping-Comes s (l, o) e f k = looped-Comes s o _ e f λ c bus d g.
          attend-run json i.arriving n 0 start c
            (subst (λ m. attend json i.arriving m 0 start ≡ goes_on c) (k bus d) g)

      -- The objects in front of the controller.
      abbrev behind_controller : List Vtable
      behind_controller = elim daemon_objects [ [] ↦ [] | x ∷ l ↦ l ]

      controlled-Comes :
          (s : Service) (ret : ℤ)
          → s.epoll ≡ i.bus ∷ []
          → s.installed ≡ true
          → Comes (
              controlled strerror json i n start s (open_controller strerror ret behind_controller))
      unfolding open_controller add_vtable
      controlled-Comes s (Int.pos r) e f =
          looping-Comes s (loop strerror i.rounds i.bus n 0 i.bus) e f
            λ bus d. loop-length strerror i.rounds i.bus n 0 i.bus bus d
      controlled-Comes s (negsuc r) e f = Comes-fatal _

      opened-Comes :
          (vs : List Vtable) (q : Outcome (Unit {0}) × Service)
          → (q.0 ≡ done tt
              → (vs ≡ behind_controller) × (q.1.epoll ≡ i.bus ∷ []) × (q.1.installed ≡ true))
          → Comes (opened strerror json i n start vs q)
      opened-Comes vs (done tt, s) k =
          let (d, e, f) = k refl in rw d (controlled-Comes s i.installing.controller e f)
      opened-Comes vs (throws what, s) k = Comes-fatal what
      opened-Comes vs (aborts, s) k = Comes-terminated

      abbrev rets : ℤ → ℤ → ℤ → ℤ → ℤ → Installing
      rets a b c d e = record {
        config_manager = a;
        saved = b;
        running = c;
        transaction_manager = d;
        controller = e;
      }

      all_registered :
          (a b c d e : ℤ)
          → saved.mutable_ ≡ false
          → (install_configuration strerror json start (rets a b c d e) []).0 ≡ done tt
          → (install_configuration strerror json start (rets a b c d e) []).1 ≡ behind_controller
      unfolding install_configuration add_vtable install_config install_transactions copy
      all_registered (Int.pos a) (Int.pos b) (Int.pos c) (Int.pos d) e m h = rw m refl
      all_registered (negsuc a) b c d e m h = cc
      all_registered (Int.pos a) (negsuc b) c d e m h = cc
      all_registered (Int.pos a) (Int.pos b) (negsuc c) d e m h = cc
      all_registered (Int.pos a) (Int.pos b) (Int.pos c) (negsuc d) e m h = cc

      -- All objects of the configuration are there where its installation does not throw.
      installation :
          (r : Installing)
          → (install_configuration strerror json start r []).0 ≡ done tt
          → (install_configuration strerror json start r []).1 ≡ behind_controller
      installation r h =
          all_registered r.config_manager r.saved r.running r.transaction_manager r.controller
            (load_config-immutable path (i.stream path) saved ld) h

      service_opens :
          (install : Outcome (Unit {0}) × List Vtable)
          → (install.0 ≡ done tt → install.1 ≡ behind_controller)
          → Comes (
              opened strerror json i n start install.1 (
                open_service strerror i.bus
                  (record (i.opening) { install = install.0 })
                  (record { epoll = []; installed = false })))
      service_opens install k = opened-Comes install.1 _ λ h.
          elim (open_service-SetsUp strerror i.bus (record { epoll = []; installed = false })
            (record (i.opening) { install = install.0 })) [
              | inl (d, x, e, f) ↦ (k d, e, f)
              | inr (x, f) ↦ absurd (x h)
            ]

    configured-Comes :
        (line : CommandLine) (path : String)
        → i.arguments ≡ done line
        → options i.error_prefix line ≡ configuration_file path
        → Comes
            (configured strerror json i n (open_configuration strerror json path (i.stream path)))
    unfolding open_configuration
    configured-Comes line path acc sel =
        go (load_config_total json path (i.stream path)).0
          (load_config_total json path (i.stream path)).1
      where
        go :
            (o : Outcome (Config json))
            → load_config json path (i.stream path) ≡ some o
            → Comes (
                configured strerror json i n
                  (open_configuration strerror json path (i.stream path)))
        go (throws what) e = rw (e, open_configuration) (Comes-fatal what)
        go aborts e = rw (e, open_configuration) Comes-terminated
        go (done saved) e =
            rw (e, open_configuration)
              (service_opens line path acc sel saved e
                (install_configuration strerror json
                  (record { saved_config = saved; running_config = copy json saved; open_ = [] })
                  i.installing [])
                (installation line path acc sel saved e i.installing))

    abbrev Chooses : Options → Type 0
    Chooses o =
        ((path : String) × (o ≡ configuration_file path))
        ⊎ ((o ≡ exit 0 [])
            ⊎ ((first : String) × (others : List String) × (o ≡ exit 1 (first ∷ others))))

    chooses :
        (arguments : List String) (help : Bool) (config : Option String)
        → Chooses (
            options i.error_prefix
              (record { unrecognized = arguments; help = help; config = config }))
    unfolding options
    chooses (a ∷ l) help config = inr (inr (_, _, refl))
    chooses [] true config = inr (inl refl)
    chooses [] false config = inl (_, refl)

    parsed-Comes : (o : Outcome CommandLine) → i.arguments ≡ o → Comes (parsed strerror json i n o)
    parsed-Comes (throws what) acc = Comes-fatal what
    parsed-Comes aborts acc = Comes-terminated
    parsed-Comes (done line) acc = elim (chooses line.unrecognized line.help line.config) [
      | inl (path, e) ↦ rw e (configured-Comes line path acc e)
      | inr (inl e) ↦ rw e (inr (inl refl))
      | inr (inr (first, others, e)) ↦ rw e (inr (inr (inl (first, others, refl))))
    ]

    -- Whatever the arguments, the file, the bus, the calls on the transactions and the system give,
    -- after a number of rounds of its loop main serves: the loop began with its bus polled, the five
    -- objects of the daemon are registered, and the transactions are what the calls of these rounds
    -- have made, in their order, of the configuration of the file that was chosen, with no open
    -- transaction at first. Or main has ended with 0 and no message, or with 1 and a message, or a
    -- failed assertion or a handler has ended the process, or a handler does not return. It never
    -- hangs while it loads the file.
    pub main-Comes : Comes (main strerror json i n)
    unfolding main
    main-Comes = parsed-Comes i.arguments refl
