-- ===== src/Entityd/Shutdown.antt =====
-- What `shutdown` undoes.
use nonsense.Base.{
  ◌≡◌, refl, sym, ap, ◌∙◌, subst, inl, inr, String, Bool, Option, none, some, List, [], ◌∷◌, ◌++◌,
  arith, Bool-cases, Option-cases,
}
use nonsense.Base.Action.{Action, done, modify, abort, Outcome-cases}
use nonsense.Config.Names.{
  NetworkRole, root, interface, router, switch_, client, known_network_roles, known_components,
  ComponentType,
}
use nonsense.Entityd.Command.{
  Call, inverse, opens, creates, enters_namespace, unshares, creates_directories, mounts, unmounts,
}
use nonsense.Entityd.Cleanup.{
  Net, Process, started, role_of, is_external, is_misnamed, is_default, run_cleanups, shutdown,
}
use nonsense.Entityd.Network.{
  Answer, tries, must, may_throw, setup_nft, setup_role, choose_namespace, mount_namespace,
  try_network, add_network, add_parsed, add_unless, add_known, add_found, add_component, full_path,
}
use nonsense.Entityd.Undo.{
  undo_all, Settled, Tracks, Rests, Ends, tracked_more, tracked_same, with_text, with_role, both,
  either, keep-Ends, begin-Ends,
}
use nonsense.Entityd.Setup.{setup_interfaces-Ends, setup_bridge-Ends, connect-Ends, nothing-Ends}

-- From here on a process that has only just started.
module _ (answers : List Call → Call → Bool) (name : String) where
  no_end : {A : Type 0} {Q P : Process → Type 0} → Ends {A = A} Q abort P
  no_end = record { at = λ s a t h. absurd cc }

  pub Rests-Settled : (s : Process) → Rests s → Settled s
  Rests-Settled s r = record { all = r.tracks.undoes; no_clean = r.empty }

  setup_role-Ends :
      (role : NetworkRole) (component : Net)
      → Ends Rests (setup_role answers role name component) Settled
  unfolding setup_role setup_nft
  setup_role-Ends root component = record { at = λ s a t h. Rests-Settled s t }
  setup_role-Ends interface component = no_end
  setup_role-Ends router component =
      both {R = Rests} (setup_interfaces-Ends answers name)
        (both {R = Rests} no_end (connect-Ends answers name component))
  setup_role-Ends switch_ component =
      both (setup_interfaces-Ends answers name)
        (both (setup_bridge-Ends answers name) (connect-Ends answers name component))
  setup_role-Ends client component =
      both (setup_interfaces-Ends answers name) (connect-Ends answers name component)

  plain_must : (call : Call) → inverse call ≡ none → Ends Tracks (must answers call) Tracks
  plain_must call i = record { at = λ s a t h. tracked_same s call i t }

  plain_tries : (call : Call) → inverse call ≡ none → Ends Tracks (tries answers call) Tracks
  plain_tries call i = record { at = λ s a t h. tracked_same s call i t }

  plain_throw :
      (what : String) (call : Call)
      → inverse call ≡ none
      → Ends Tracks (may_throw answers what call) Tracks
  plain_throw what call i = record { at = λ s a t h. tracked_same s call i t }

  choose_namespace-Ends :
      (component : Net) → Ends Tracks (choose_namespace answers name component) Tracks
  unfolding choose_namespace inverse
  choose_namespace-Ends component =
      either (is_external component)
        (either (is_misnamed component) (record { at = λ s a t h. t })
          (both (plain_must (opens _) refl) (plain_tries enters_namespace refl)))
        (either (is_default component) (nothing-Ends answers name) (plain_must unshares refl))

  mount_namespace-Ends : Ends Tracks (mount_namespace answers name) Rests
  unfolding mount_namespace inverse
  mount_namespace-Ends = both (plain_throw _ (creates_directories _) refl) (
      both (plain_tries (unmounts _) refl) (
        both (plain_must (creates _) refl) (record {
          at = λ s a t h. elim (Bool-cases (answers s.log (mounts (full_path answers name)))) [
            | inr n ↦ absurd (ground arith)
            | inl y ↦ rw y (
                keep-Ends.at _ tt
                  (tracked_more s (mounts (full_path answers name))
                    (unmounts (full_path answers name)) refl t)
                  refl)
          ];
        })))

  abbrev emplace : Net → Action Process Unit
  emplace component =
      modify
        (λ s. record s { network = elim s.network [ none ↦ some component | some n ↦ some n ] })

  try_network-Ends : (component : Net) → Ends Rests (try_network answers name component) Settled
  unfolding try_network
  try_network-Ends component = both begin-Ends (
      with_text (role_of component) _ λ role.
        with_role answers (known_network_roles role) _ λ role_enum.
          both {m = emplace component}
            (record { at = λ s a t h. record { undoes = t.undoes; unconnected = t.unconnected } })
            (both (choose_namespace-Ends component)
              (both mount_namespace-Ends (setup_role-Ends role_enum component))))

  tried :
      (component : Net) (s : Process) (u : Unit)
      → (try_network answers name component s).0 ≡ done u
      → (add_network answers name component s).1 ≡ (try_network answers name component s).1
  unfolding add_network
  tried component s u k = ground (arith, k)

  -- Where the attempt at a component that succeeds ends, the whole request ends.
  module _ {Q P : Process → Type 0}
      (attempt : (component : Net) → Ends Q (try_network answers name component) P) where
    add_network-Ends : (component : Net) → Ends Q (add_network answers name component) P
    unfolding add_network
    add_network-Ends component = record {
      at = λ s a t h. elim (Outcome-cases (try_network answers name component s).0) [
        | inr k ↦ absurd (ground (arith, k))
        | inl (u, k) ↦ subst P (sym (tried component s u k)) ((attempt component).at s u t k)
      ];
    }

    pub add_parsed-Ends : (config : Option Net) → Ends Q (add_parsed answers name config) P
    add_parsed-Ends none = record { at = λ s a t h. absurd cc }
    add_parsed-Ends (some component) =
        both (add_network-Ends component) (record { at = λ s a t h. t })

  add_unless-Ends :
      (active config : Option Net) → Ends Rests (add_unless answers active name config) Settled
  add_unless-Ends none config = add_parsed-Ends try_network-Ends config
  add_unless-Ends (some active) config = record { at = λ s a t h. Rests-Settled s t }

  add_known-Ends : (config : Option Net) → Ends Rests (add_known answers name config) Settled
  add_known-Ends config = record { at = λ s a t h. (add_unless-Ends s.network config).at s a t h }

  add_found-Ends :
      (config : Option Net) (known : Option ComponentType)
      → Ends Rests (add_found answers name config known) Settled
  add_found-Ends config none = no_end
  add_found-Ends config (some found) = add_known-Ends config

  pub add_component-Ends :
      (type : Option String) (config : Option Net)
      → Ends Rests (add_component answers name type config) Settled
  unfolding add_component
  add_component-Ends none config = no_end
  add_component-Ends (some type) config = add_found-Ends config (known_components type)

-- The log with the inverses of calls put on it, one after the other.
abbrev pub undoing : List Call → List Call → List Call
undoing [] log = log
undoing (call ∷ calls) log = elim (inverse call) [
  | none ↦ undoing calls log
  | some undo ↦ undoing calls (undo ∷ log)
]

run_cleanups-undo_all :
    (calls log : List Call) → run_cleanups (undo_all calls) log ≡ undoing calls log
unfolding run_cleanups undo_all
run_cleanups-undo_all [] log = refl
run_cleanups-undo_all (call ∷ calls) log = elim (Option-cases (inverse call)) [
  | inl e ↦ ground (arith, run_cleanups-undo_all calls log)
  | inr (undo, e) ↦ ground (arith, run_cleanups-undo_all calls (undo ∷ log))
]

run_cleanups-append :
    (xs ys log : List Call) → run_cleanups (xs ++ ys) log ≡ run_cleanups ys (run_cleanups xs log)
unfolding run_cleanups
run_cleanups-append [] ys log = refl
run_cleanups-append (x ∷ xs) ys log = run_cleanups-append xs ys (x ∷ log)

pub Settled-shutdown : (s : Process) → Settled s → (shutdown s).log ≡ undoing s.log s.log
unfolding shutdown
Settled-shutdown s k =
    sym (run_cleanups-append s.connection_cleanups s.cleanups s.log)
    ∙ ap (λ x. run_cleanups (x ++ (s.connection_cleanups ++ s.cleanups)) s.log) (sym k.no_clean)
    ∙ ap (λ x. run_cleanups x s.log) (sym k.all)
    ∙ run_cleanups-undo_all s.log s.log

pub started-Rests : Rests started
unfolding undo_all
started-Rests = record { tracks = record { undoes = refl; unconnected = refl }; empty = refl }

-- After a request that a new process has answered, a shutdown undoes every call that has an
-- inverse, the last call first, and does nothing else.
pub shutdown-undoes :
    (answers : List Call → Call → Bool) (name : String) (type : Option String) (config : Option Net)
    (answer : Answer)
    → (add_component answers name type config started).0 ≡ done answer
    → (shutdown (add_component answers name type config started).1).log
      ≡ undoing
          (add_component answers name type config started).1.log
          (add_component answers name type config started).1.log
shutdown-undoes answers name type config answer h =
    let k = (add_component-Ends answers name type config).at started answer started-Rests h in
    Settled-shutdown _ k
