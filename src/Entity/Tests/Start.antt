-- ===== src/Entity/Tests/Start.antt =====
-- A configuration of a root and a client behind it, which start and stop, and the examples of the
-- theorems.
use nonsense.Base.{
  ℕ, suc, String, ◌≡◌, ◌≤◌, refl, sym, ap, if◌then◌else◌, subst, ◌⊎◌, inl, inr, true, some, List,
  [], ◌∷◌, arith, str_eq, eq_iff,
}
use nonsense.Base.Int.{ℤ}
use nonsense.Bus.{got}
use nonsense.Json.Tree.{Tree, tree_json, object, number, string, boolean, field, end}
use nonsense.Base.Action.{Outcome, done}
use nonsense.Config.Names.{ParameterValue}
use nonsense.Config.Add.{Config, ConfigResult, success, add}
use nonsense.Config.Valid.{ValidConfig}
use nonsense.Config.Sound.{add-ValidConfig}
use nonsense.Entity.Answers
use nonsense.Entity.Answers.{StartAnswers, StopAnswers, JobAnswer, works, leaves}
use nonsense.Entity.State.{Daemon, among, pid_of}
use nonsense.Entity.Lifecycle.{start, stop}
use nonsense.Entity.Supported.{Uplink, Supported, IsLive, Grows}
use nonsense.Entity.Starts.{start-Supported, start-IsLive}
use nonsense.Entity.Stop.{stop-Supported, CooperativeStop}
use nonsense.Entity.Controller.{method_start, method_stop}
use nonsense.Entity.Requests.{Started, Stopped, method_start-finishes, method_stop-finishes}
use nonsense.Entity.Finishes.{Cooperative, JobDone, Members}

abbrev pub par : String → String → ParameterValue
par k v = record { parameter = k; value = v }

abbrev pub empty : Config tree_json
empty = record {
  mutable_ = true;
  configuration = object (field "!metadata" (object (field "version" (number 1) end)) end);
}

abbrev root_pars : List ParameterValue
root_pars = par "network.role" "root" ∷ par "network.default" "true" ∷ []

abbrev client_pars : List ParameterValue
client_pars = par "network.role" "client" ∷ par "network.uplink" "up" ∷ []

abbrev pub up : Tree
up = object (
    field "network"
      (object (
        field ":role" (number 0)
          (field "default" (boolean true) (field "role" (string "root") end))))
      end)

abbrev pub inner : Tree
inner = object (
    field "network"
      (object (
        field ":role" (number 4)
          (field "role" (string "client") (field "uplink" (string "up") end))))
      end)

abbrev one : Tree
one = object (
    field "!metadata" (object (field "version" (number 1) end))
      (field ":default-netns" (string "up") (field "up" up end)))

abbrev pub two : Tree
two = object (
    field "!metadata" (object (field "version" (number 1) end))
      (field ":default-netns" (string "up") (field "in" inner (field "up" up end))))

empty-ValidConfig : ValidConfig tree_json empty.configuration
empty-ValidConfig = record {
  object_ = refl;
  netns_plain = refl;
  metadata_plain = refl;
  entities = λ name o e m f. absurd (ground arith);
}

one_added :
    add tree_json "up" root_pars empty
    ≡ (done success, record { mutable_ = true; configuration = one })
unfolding add
one_added = refl

two_added :
    add tree_json "in" client_pars (record { mutable_ = true; configuration = one })
    ≡ (done success, record { mutable_ = true; configuration = two })
unfolding add
two_added = refl

one-ValidConfig : ValidConfig tree_json one
one-ValidConfig =
    subst (λ (q : Outcome ConfigResult × Config tree_json). ValidConfig tree_json q.1.configuration)
      one_added
      (add-ValidConfig tree_json "up" refl root_pars empty empty-ValidConfig refl success
        (ap (λ (q : Outcome ConfigResult × Config tree_json). q.0) one_added) refl).3

pub two-ValidConfig : ValidConfig tree_json two
two-ValidConfig =
    subst (λ (q : Outcome ConfigResult × Config tree_json). ValidConfig tree_json q.1.configuration)
      two_added
      (add-ValidConfig tree_json "in" refl client_pars
        (record { mutable_ = true; configuration = one }) one-ValidConfig refl success
        (ap (λ (q : Outcome ConfigResult × Config tree_json). q.0) two_added) refl).3

-- The client comes behind the root.
abbrev pub rank : String → ℕ
rank name = if str_eq name "in" then 1 else 0

pub two-Uplink :
    (name uplink : String) → Uplink tree_json two name uplink → (name ≡ "in") × (uplink ≡ "up")
two-Uplink name uplink u = ground (arith, u.found, u.there, u.text, eq_iff "in" name)

abbrev pub job : JobAnswer
job = record { call = Answers.answers; job = got "/job/1"; removed = some (got "done") }

abbrev pub ready : StartAnswers
ready = record {
  socket = works tt;
  fork = works 17;
  bus_new = ℤ.pos 0;
  set_fd = ℤ.pos 0;
  set_client = ℤ.pos 0;
  registers = true;
  bus_start = ℤ.pos 1;
  connecting = Answers.polls (ℤ.pos 1) (leaves true);
  subscribes = true;
  slice = job;
  scope = job;
  component = λ type. record { call = Answers.answers; result = got true };
}

pub ready-Cooperative : Cooperative ready
ready-Cooperative = record {
  socket = refl;
  pid = 17;
  fork = refl;
  bus_new = refl;
  set_fd = refl;
  set_client = refl;
  registers = refl;
  bus_start = refl;
  connecting = (refl, refl);
  subscribes = refl;
  slice = job-JobDone;
  scope = job-JobDone;
  called = λ type. refl;
  added = λ type. refl;
}
  where
    job-JobDone : JobDone job
    job-JobDone = record { call = refl; job = "/job/1"; job_read = refl; removed = refl }

abbrev meta : Tree
meta = object (field "version" (number 1) end)

objects :
    (name : String) (self : Tree)
    → tree_json.find two name ≡ some self
    → tree_json.is_object self ≡ true
    → (self ≡ meta) ⊎ ((self ≡ up) ⊎ (self ≡ inner))
objects name self f o = ground (arith, f, o)

pub two-Members :
    (name : String) (self : Tree)
    → tree_json.find two name ≡ some self
    → tree_json.is_object self ≡ true
    → Members tree_json self (tree_json.items self)
two-Members name self f o = elim (objects name self f o) [
  | inl e ↦ subst (λ t. Members tree_json t (tree_json.items t)) (sym e) (refl, tt)
  | inr (inl e) ↦ subst (λ t. Members tree_json t (tree_json.items t)) (sym e) (refl, tt)
  | inr (inr e) ↦ subst (λ t. Members tree_json t (tree_json.items t)) (sym e) (refl, tt)
]

abbrev pub stopped : StopAnswers
stopped = record { shutdown = Answers.answers; unregisters = true; subscribes = true; slice = job }

pub stopped-CooperativeStop : CooperativeStop stopped
stopped-CooperativeStop = record {
  shutdown = refl;
  unregisters = refl;
  subscribes = refl;
  slice = record { call = refl; job = "/job/1"; job_read = refl; removed = refl };
}

-- Nothing is live.
abbrev pub at_rest : Daemon tree_json
at_rest = record { live = []; polled = []; held = []; sent = [] }

-- The root is live.
abbrev pub up_live : Daemon tree_json
up_live = record { live = ("up", 17) ∷ []; polled = "up" ∷ []; held = []; sent = [] }

start_both :
    (start tree_json two (λ n. ready) 3 "in" inner at_rest).1.live ≡ ("in", 17) ∷ ("up", 17) ∷ []
unfolding start
start_both = refl

pub two-rank :
    (name uplink : String) → Uplink tree_json two name uplink → suc (rank uplink) ≤ rank name
two-rank name uplink u =
    let (n, e) = two-Uplink name uplink u in
    subst (λ n. suc (rank uplink) ≤ rank n) (sym n)
      (subst (λ u. suc (rank u) ≤ rank "in") (sym e) (omega arith))

method_start-finishes_example :
    Started tree_json two "in" at_rest
      (method_start tree_json two (got "in") (ℤ.pos 1) (λ n. ready) 3 at_rest)
method_start-finishes_example =
    method_start-finishes tree_json two two-ValidConfig rank two-rank (λ n. ready)
      (λ n. ready-Cooperative) two-Members 3 "in" inner (ℤ.pos 1) at_rest refl refl (omega arith)
      refl refl

method_stop-finishes_example :
    Stopped tree_json two "up" up_live
      (method_stop tree_json two (got "up") (ℤ.pos 1) (λ n. stopped) up_live)
unfolding among pid_of
method_stop-finishes_example =
    method_stop-finishes tree_json two (λ n. stopped) "up" up (ℤ.pos 1) up_live
      stopped-CooperativeStop refl refl refl (17, refl)

up_live-Supported : Supported tree_json two up_live.live
unfolding pid_of
up_live-Supported name uplink (pid, e) u =
    subst (λ n. IsLive n up_live.live) (sym (two-Uplink name uplink u).1) (17, refl)

start-Supported_example :
    Supported tree_json two (start tree_json two (λ n. ready) 3 "in" inner up_live).1.live
    × Grows up_live.live (start tree_json two (λ n. ready) 3 "in" inner up_live).1.live
start-Supported_example =
    start-Supported tree_json two (λ n. ready) 3 "in" inner up_live refl up_live-Supported

start-IsLive_example :
    IsLive "in" (start tree_json two (λ n. ready) 3 "in" inner up_live).1.live
    × ((uplink : String)
        → Uplink tree_json two "in" uplink
        → IsLive uplink (start tree_json two (λ n. ready) 3 "in" inner up_live).1.live)
unfolding start
start-IsLive_example =
    start-IsLive tree_json two (λ n. ready) 3 "in" inner up_live refl up_live-Supported refl

stop-Supported_example : Supported tree_json two (stop tree_json "up" stopped up_live).1.live
unfolding pid_of
stop-Supported_example =
    stop-Supported tree_json two "up" stopped up_live up_live-Supported λ other l u.
      let dead : pid_of "in" up_live.live ≡ some l.0 =
        subst (λ (n : String). pid_of n up_live.live ≡ some l.0) (two-Uplink other "up" u).0 l.1 in
      cc
