-- ===== src/Daemon.antt =====
-- The daemon as a whole: daemon/cli.cpp, daemon/configuration.cpp, daemon/main.cpp, and what the
-- constructors register on the bus. What the option parser, the file, the bus library and the system
-- answer is input.
pub mod Boots
pub mod Serves
mod Tests
use Prim.Native.String.{◌++◌}
use nonsense.Base.{
  ℕ, zero, suc, String, Bool, true, false, Option, none, some, List, [], ◌∷◌, map, length,
  if◌then◌else◌,
}
use nonsense.Base.Int
use nonsense.Base.Int.{ℤ, negsuc}
use nonsense.Base.Action.{Action, Outcome, done, throws, aborts, throw, ◌>>=◌, ◌>>◌}
use nonsense.Json.{JsonLib}
use nonsense.Config.Add.{Config, copy}
use nonsense.Config.Load.{load_config}
use nonsense.Transactions.Manager.{Transactions}
use nonsense.Transactions.Attend.{Arrival, Attended, goes_on, died, busy, attend}
use nonsense.Service.{Service, Opening, Rounds, open_service, loop}

-- An object on the main bus: its path and its interface.
pub record Vtable : Type 0 where
  pub path : String
  pub interface : String

-- What sd_bus_add_object_vtable returns for each object of the daemon.
pub record Installing : Type 0 where
  pub config_manager : ℤ
  pub saved : ℤ
  pub running : ℤ
  pub transaction_manager : ℤ
  pub controller : ℤ

-- What the option parser leaves: the arguments that it does not know, and the options.
pub record CommandLine : Type 0 where
  pub unrecognized : List String
  pub help : Bool
  pub config : Option String

pub data Options : Type 0 where
  exit : ℕ → List String → Options
  configuration_file : String → Options

-- options::options, with the lines that it writes to the standard error stream
unfoldable pub options : String → CommandLine → Options
options prefix line = elim line.unrecognized [
  | [] ↦
      if line.help
      then exit 0 []
      else configuration_file
          (elim line.config [ none ↦ "/etc/nonsense/nonsensed.json" | some path ↦ path ])
  | argument ∷ others ↦ exit 1 (
      (prefix ++ "Error: Unrecognized options:")
      ∷ map (λ (a : String). prefix ++ "    " ++ a) (argument ∷ others))
]

module _ (strerror : ℕ → String) where
  -- sd_bus_add_object_vtable for an interface of that name, and the exception where it fails.
  unfoldable pub add_vtable : String → Vtable → ℤ → Action (List Vtable) (Unit {0})
  add_vtable name v (Int.pos n) vs = (done tt, v ∷ vs)
  add_vtable name v (negsuc n) vs = (
    throws (
        "Failed to install the " ++ name ++ " interface at " ++ v.path ++ ": " ++ strerror (suc n)),
    vs,
  )

  -- config::install; the interface of a configuration that may not change is spelled so.
  unfoldable pub install_config : Bool → String → ℤ → Action (List Vtable) (Unit {0})
  unfolding add_vtable
  install_config mutable_ path ret =
      add_vtable "Config"
        (record {
          path = path;
          interface =
              if mutable_
              then "info.griwes.nonsense.MutableConfig"
              else "info.griwes.nonsenes.Config";
        })
        ret

  -- transactions::install
  unfoldable pub install_transactions : String → ℤ → Action (List Vtable) (Unit {0})
  unfolding add_vtable
  install_transactions path ret =
      add_vtable "TransactionManager"
        (record { path = path; interface = "info.griwes.nonsense.TransactionManager" }) ret

  -- controller::controller
  unfoldable pub open_controller : ℤ → Action (List Vtable) (Unit {0})
  unfolding add_vtable
  open_controller ret =
      add_vtable "Controller"
        (record { path = "/info/griwes/nonsense"; interface = "info.griwes.nonsense.Controller" })
        ret

  module _ (json : JsonLib) where
    abbrev pub managed : Outcome (Config json) → Outcome (Transactions json)
    managed (done saved) =
        done (record { saved_config = saved; running_config = copy json saved; open_ = [] })
    managed (throws what) = throws what
    managed aborts = aborts

    -- configuration::configuration
    unfoldable pub open_configuration :
        String → Option String → Option (Outcome (Transactions json))
    unfolding load_config copy
    open_configuration path stream = elim (load_config json path stream) [
      | none ↦ none
      | some o ↦ some (managed o)
    ]

    -- configuration::install
    unfoldable pub install_configuration :
        Transactions json → Installing → Action (List Vtable) (Unit {0})
    unfolding add_vtable install_config install_transactions
    install_configuration c rets = do
      add_vtable "ConfigManager"
          (record {
            path = "/info/griwes/nonsense/configuration";
            interface = "info.griwes.nonsense.ConfigManager";
          })
          rets.config_manager
      install_config c.saved_config.mutable_ "/info/griwes/nonsense/configuration/saved" rets.saved
      install_config c.running_config.mutable_ "/info/griwes/nonsense/configuration/running"
          rets.running
      install_transactions "/info/griwes/nonsense/configuration/transactions"
          rets.transaction_manager

    pub record Startup : Type 0 where
      pub error_prefix : String
      -- what the option parser gives, or throws
      pub arguments : Outcome CommandLine
      -- what the file behind a path holds, if it opens
      pub stream : String → Option String
      -- the service, all but the installation of the configuration, and the number of its bus
      pub opening : Opening strerror
      pub bus : ℕ
      pub installing : Installing
      pub rounds : Rounds strerror
      -- what a round of the loop brings for the transactions
      pub arriving : ℕ → Arrival

    -- The transactions as they are now, the service as it was when the loop began, and the objects
    -- that main has registered, without those of the transactions.
    pub record Serving : Type 0 where
      pub transactions : Transactions json
      pub service : Service
      pub objects : List Vtable
      -- the bus that the loop processes next
      pub next : ℕ

    -- How far main has come: it has ended with a status and lines on the standard error stream, an
    -- assertion has ended the process, the configuration is still being loaded, the loop runs, or
    -- it runs a handler that still draws identifiers.
    pub data Ran : Type 0 where
      exits : ℕ → List String → Ran
      terminated : Ran
      loading : Ran
      serves : Serving → Ran
      handling : Ran

    module _ (i : Startup) where
      abbrev pub fatal : String → Ran
      fatal what = exits 1 ((i.error_prefix ++ "Fatal error: " ++ what) ∷ [])

      abbrev pub looped : Service → List Vtable → Outcome ℕ → Attended json → Ran
      looped s vs o died = terminated
      looped s vs o busy = handling
      looped s vs (done bus) (goes_on c) =
          serves (record { transactions = c; service = s; objects = vs; next = bus })
      looped s vs (throws what) (goes_on c) = fatal what
      looped s vs aborts (goes_on c) = terminated

      -- The calls of the rounds that the loop makes come in these rounds.
      abbrev pub looping : Transactions json → Service → List Vtable → List ℕ × Outcome ℕ → Ran
      looping c s vs (processed, o) = looped s vs o (attend json i.arriving (length processed) 0 c)

      abbrev pub controlled :
          ℕ → Transactions json → Service → Outcome (Unit {0}) × List Vtable → Ran
      controlled n c s (done u, vs) = looping c s vs (loop strerror i.rounds i.bus n 0 i.bus)
      controlled n c s (throws what, vs) = fatal what
      controlled n c s (aborts, vs) = terminated

      abbrev pub opened : ℕ → Transactions json → List Vtable → Outcome (Unit {0}) × Service → Ran
      opened n c vs (done u, s) = controlled n c s (open_controller i.installing.controller vs)
      opened n c vs (throws what, s) = fatal what
      opened n c vs (aborts, s) = terminated

      abbrev pub configured : ℕ → Option (Outcome (Transactions json)) → Ran
      configured n none = loading
      configured n (some (done c)) =
          let (installed, vs) = install_configuration c i.installing [] in
          opened n c vs (
            open_service strerror i.bus (record (i.opening) { install = installed })
              (record { epoll = []; installed = false }))
      configured n (some (throws what)) = fatal what
      configured n (some aborts) = terminated

      abbrev pub chosen : ℕ → Options → Ran
      chosen n (exit status lines) = exits status lines
      chosen n (configuration_file path) = configured n (open_configuration path (i.stream path))

      abbrev pub parsed : ℕ → Outcome CommandLine → Ran
      parsed n (done line) = chosen n (options i.error_prefix line)
      parsed n (throws what) = fatal what
      parsed n aborts = terminated

      -- main, with a number of rounds of the loop of the service
      unfoldable pub main : ℕ → Ran
      unfolding options open_configuration install_configuration open_service open_controller loop
          attend
      main n = parsed n i.arguments
