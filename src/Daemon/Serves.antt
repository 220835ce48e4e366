-- ===== src/Daemon/Serves.antt =====
-- The daemon from its file on, through the calls on its transactions.
use nonsense.Base.{
  ℕ, String, ◌≡◌, refl, sym, ◌∙◌, subst, inl, inr, Option, none, some, List, All, arith,
  Option-cases, [],
}
use nonsense.Base.Action.{done}
use nonsense.Json.{JsonLib}
use nonsense.Config.Checks.{netns_key}
use nonsense.Config.Valid.{ValidConfig}
use nonsense.Config.Add.{Config, copy}
use nonsense.Config.Load.{load_config}
use nonsense.Config.Load.Sound.{load_config-ValidConfig}
use nonsense.Transactions.Manager.{Transactions, lookup}
use nonsense.Transactions.Run.{Call, IsNamed, run, run-IsNamed}
use nonsense.Transactions.Attend.{arrived}
use nonsense.Transactions.Valid.{Extends}
use nonsense.Transactions.History.{IsOrdinaryCall, run-ValidConfig}
use nonsense.Daemon.{Startup, Serving, serves, main}
use nonsense.Daemon.Boots.{Boots, main-Comes}

module _ (strerror : ℕ → String) (json : JsonLib) where
  open json use {Value, parse, find}

  -- No file that parses has the key ":default-netns".
  abbrev pub PlainFiles : Startup strerror json → Type 0
  PlainFiles i =
      (path text : String) (r : Value)
      → i.stream path ≡ some text
      → parse text ≡ some r
      → find r netns_key ≡ none

  serves-Boots :
      (i : Startup strerror json) (n : ℕ) (s : Serving strerror json)
      → main strerror json i n ≡ serves s
      → Boots strerror json i n s
  serves-Boots i n s h = elim (main-Comes strerror json i n) [
    | inl (t, e, b) ↦ subst (Boots strerror json i n) (serves_inj t s (sym e ∙ h)) b
    | inr (inl e) ↦ absurd (ground arith)
    | inr (inr (inl (x, l, e))) ↦ absurd (ground arith)
    | inr (inr (inr (inl e))) ↦ absurd (ground arith)
    | inr (inr (inr (inr e))) ↦ absurd (ground arith)
  ]
    where
      serves_inj : (t u : Serving strerror json) → serves t ≡ serves u → t ≡ u
      serves_inj t u e = cc

  loaded_valid :
      (path : String) (stream : Option String) (c : Config json)
      → ((text : String) (r : Value)
          → stream ≡ some text
          → parse text ≡ some r
          → find r netns_key ≡ none)
      → load_config json path stream ≡ some (done c)
      → ValidConfig json c.configuration
  loaded_valid path none c k h = absurd (unfold load_config in ground arith)
  loaded_valid path (some text) c k h = elim (Option-cases (parse text)) [
    | inl e ↦ absurd (unfold load_config in ground arith)
    | inr (r, e) ↦ (load_config-ValidConfig json path text r c e (k text r refl e) h).1
  ]

  -- What the calls on transactions that begin with a loaded configuration have left of them.
  abbrev pub Served : Config json → Transactions json → Type 0
  Served c t =
      ValidConfig json t.running_config.configuration
      × Extends json c t.running_config
      × (t.saved_config ≡ c)
      × IsNamed json t

  run-Served :
      (c : Config json)
      → ValidConfig json c.configuration
      → (cs : List Call) → All IsOrdinaryCall cs
      → Served c
          (run json cs (record { saved_config = c; running_config = copy json c; open_ = [] }))
  unfolding copy lookup
  run-Served c v cs k =
      let t : Transactions json = record {
        saved_config = c;
        running_config = copy json c;
        open_ = [];
      } in
      let a = run-ValidConfig json cs t k (record { at = λ id x f. cc }) v in
      let b = run-IsNamed json cs t (record { at = λ id x f. cc }) in (a.0, a.1, b.0, b.1)

  module _ (i : Startup strerror json) (n : ℕ) (s : Serving strerror json) where
    -- The configuration of the file that was chosen, and what has become of it.
    abbrev pub ServesLoaded : Type 0
    ServesLoaded =
        (path : String) × (c : Config json) × (load_config json path (i.stream path)
          ≡ some (done c))
        × Served c s.transactions

    -- A daemon that serves a file without the key ":default-netns", after any number of rounds that
    -- bring any calls on its transactions, where the calls of Add name neither ":default-netns" nor
    -- "!metadata": its running configuration is valid, and every entity of the configuration that it
    -- has loaded is in it unchanged; the saved configuration is the one that it has loaded; and every
    -- open transaction stands under its own number, at its own path.
    pub serves-ValidConfig :
        main strerror json i n ≡ serves s
        → PlainFiles i
        → All IsOrdinaryCall (arrived json i.arriving n 0)
        → ServesLoaded
    serves-ValidConfig h plain k =
        let b = serves-Boots i n s h in
        let v = loaded_valid b.path (i.stream b.path) b.saved (plain b.path) b.loaded in
        (
          b.path,
          b.saved,
          b.loaded,
          subst (Served b.saved) (sym b.transactions)
              (run-Served b.saved v (arrived json i.arriving n 0) k),
        )
