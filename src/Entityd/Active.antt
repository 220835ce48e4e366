-- ===== src/Entityd/Active.antt =====
-- A component that has become active stays so while its network is set up.
use Prim.Native.String.{◌++◌ as ◌⧺◌}
use nonsense.Base.{
  ◌≡◌, refl, String, Bool, true, false, none, some, List, Option-cases, inl, inr, ◌∙◌,
}
use nonsense.Base.Action.{Action, pure, abort, modify, ◌>>◌}
use nonsense.Config.Names.{
  NetworkRole, root, interface, router, switch_, client, known_network_roles,
}
use nonsense.Entityd.Command.{
  Command, Call, runs, opens, creates, enters_namespace, unshares, creates_directories, mounts,
  unmounts, add_veth, del_veth, up_veth, add_bridge, del_bridge, up_bridge, veth_to_bridge,
  push_peer, pull_peer, add_peer_address, del_peer_address, add_route, del_route, up_peer,
  down_peer, peer_to_bridge, add_address, del_address, add_default, del_default,
}
use nonsense.Entityd.Cleanup.{
  Net, null, net, role_of, address_of, uplink_of, uplink_name_of, is_switch, is_external,
  is_misnamed, is_default, Process, add_clean, keep, keep_connection, begin,
}
use nonsense.Entityd.Network.{
  setup_interfaces, setup_bridge, setup_nft, add_routes, connect_switch, connect_other, connect,
  setup_role, choose_namespace, mount_namespace, try_network, annotated_system, must, tries,
  may_throw, nth_address_in_subnet,
}
use nonsense.Entityd.Undo.{Ends, with_text, with_abort, with_role, both, either}

-- The network component is active.
pub record IsActive (s : Process) : Type 0 where
  pub component : Net
  pub there : s.network ≡ some component

module _ (answers : List Call → Call → Bool) (name : String) where
  abbrev Keeps : {A : Type 0} → Action Process A → Type 0
  Keeps m = Ends IsActive m IsActive

  module _ {A : Type 0} where
    -- A step that does not touch the component, and what comes then.
    then_ :
        (m : Action Process Unit) (rest : Action Process A)
        → ((s : Process) → (m s).1.network ≡ s.network)
        → Keeps rest
        → Keeps (m >> rest)
    then_ m rest e k =
        both {m = m} {n = rest}
          (record { at = λ s a t h. record { component = t.component; there = e s ∙ t.there } }) k

    calls :
        (command : Command) (rest : Action Process A)
        → Keeps rest
        → Keeps (annotated_system answers command >> rest)
    calls command rest k = then_ (annotated_system answers command) rest (λ s. refl) k

    undoable :
        (command : Command) (undo : Call) (rest : Action Process A)
        → Keeps rest
        → Keeps (annotated_system answers command >> (add_clean undo >> rest))
    undoable command undo rest k =
        calls command (add_clean undo >> rest) (then_ (add_clean undo) rest (λ s. refl) k)

    after_begin : (rest : Action Process A) → Keeps rest → Keeps (begin >> rest)
    after_begin rest k = then_ begin rest (λ s. refl) k

  keep-Keeps : Keeps keep
  keep-Keeps = record { at = λ s a t h. record { component = t.component; there = t.there } }

  keep_connection-Keeps : Keeps keep_connection
  keep_connection-Keeps = record {
    at = λ s a t h. record { component = t.component; there = t.there };
  }

  nothing-Keeps : Keeps {A = Unit} (pure tt)
  nothing-Keeps = record { at = λ s a t h. t }

  never-Keeps : {A : Type 0} → Keeps {A = A} abort
  never-Keeps = record { at = λ s a t h. absurd cc }

  setup_interfaces-Keeps : Keeps (setup_interfaces answers name)
  unfolding setup_interfaces
  setup_interfaces-Keeps =
      after_begin _
        (undoable (add_veth name) (runs (del_veth name)) _ (calls (up_veth name) _ keep-Keeps))

  setup_bridge-Keeps : Keeps (setup_bridge answers name)
  unfolding setup_bridge
  setup_bridge-Keeps = after_begin _ (
      undoable (add_bridge name) (runs (del_bridge name)) _
        (calls (up_bridge name) _ (calls (veth_to_bridge name) _ keep-Keeps)))

  add_routes-Keeps : (network : String) (uplink : Net) → Keeps (add_routes answers network uplink)
  unfolding add_routes
  add_routes-Keeps network null = nothing-Keeps
  add_routes-Keeps network (net role uplink_name address external misnamed default_ uplink) =
      let rest = add_routes-Keeps network uplink in
      either (is_switch (net role uplink_name address external misnamed default_ uplink))
        (with_text uplink_name _ λ via_name. with_text address _ λ uplink_net.
          with_abort (nth_address_in_subnet uplink_net "2" false) _ λ via.
            undoable (add_route via_name network via) (runs (del_route via_name network)) _ rest)
        nothing-Keeps

  default-Keeps :
      (gateway : String)
      → Keeps (do annotated_system answers (add_default gateway); add_clean (runs del_default))
  default-Keeps gateway = undoable (add_default gateway) (runs del_default) (pure tt) nothing-Keeps

  connect_switch-Keeps :
      (uplink_name : String) (component : Net)
      → Keeps (connect_switch answers name uplink_name component)
  unfolding connect_switch
  connect_switch-Keeps uplink_name component = with_text (address_of component) _ λ network.
      with_abort (nth_address_in_subnet network "1" true) _ λ downlink_address.
        undoable (add_peer_address uplink_name downlink_address name)
          (runs (del_peer_address uplink_name downlink_address name)) _
          (both (add_routes-Keeps network (uplink_of component)) (
            undoable (up_peer uplink_name name) (runs (down_peer uplink_name name)) _ (
              with_abort (nth_address_in_subnet network "1" false) _ λ gateway.
                with_abort (nth_address_in_subnet network "2" true) _ λ assigned_address.
                  undoable (add_address assigned_address ("nb-" ⧺ name))
                    (runs (del_address assigned_address ("nb-" ⧺ name))) _
                    (default-Keeps gateway))))

  connect_other-Keeps :
      (uplink_name : String) (component : Net)
      → Keeps (connect_other answers name uplink_name component)
  unfolding connect_other
  connect_other-Keeps uplink_name component = calls (peer_to_bridge uplink_name name) _ (
      with_text (address_of (uplink_of component)) _ λ uplink_net.
        with_abort (nth_address_in_subnet uplink_net "1" false) _ λ gateway.
          with_abort (nth_address_in_subnet uplink_net "3" true) _ λ assigned_address.
            undoable (up_peer uplink_name name) (runs (down_peer uplink_name name)) _ (
              undoable (add_address assigned_address ("nu-" ⧺ name))
                (runs (del_address assigned_address ("nu-" ⧺ name))) _ (default-Keeps gateway)))

  connect-Keeps : (component : Net) → Keeps (connect answers name component)
  unfolding connect
  connect-Keeps component = after_begin _ (
      with_text (uplink_name_of component) _ λ uplink_name.
        undoable (push_peer uplink_name name) (runs (pull_peer uplink_name name)) _ (
          both
            (either (is_switch component) (connect_switch-Keeps uplink_name component)
              (connect_other-Keeps uplink_name component))
            keep_connection-Keeps))

  setup_role-Keeps :
      (role : NetworkRole) (component : Net) → Keeps (setup_role answers role name component)
  unfolding setup_role setup_nft
  setup_role-Keeps root component = nothing-Keeps
  setup_role-Keeps interface component = never-Keeps
  setup_role-Keeps router component =
      both setup_interfaces-Keeps (both never-Keeps (connect-Keeps component))
  setup_role-Keeps switch_ component =
      both setup_interfaces-Keeps (both setup_bridge-Keeps (connect-Keeps component))
  setup_role-Keeps client component = both setup_interfaces-Keeps (connect-Keeps component)

  must-Keeps : (call : Call) → Keeps (must answers call)
  must-Keeps call = record { at = λ s a t h. record { component = t.component; there = t.there } }

  tries-Keeps : (call : Call) → Keeps (tries answers call)
  tries-Keeps call = record { at = λ s a t h. record { component = t.component; there = t.there } }

  choose_namespace-Keeps : (component : Net) → Keeps (choose_namespace answers name component)
  unfolding choose_namespace
  choose_namespace-Keeps component =
      either (is_external component)
        (either (is_misnamed component) (record { at = λ s a t h. absurd cc })
          (both (must-Keeps (opens _)) (tries-Keeps enters_namespace)))
        (either (is_default component) nothing-Keeps (must-Keeps unshares))

  mount_namespace-Keeps : Keeps (mount_namespace answers name)
  unfolding mount_namespace
  mount_namespace-Keeps =
      then_ (may_throw answers _ (creates_directories _)) _ (λ s. refl)
        (both (tries-Keeps (unmounts _)) (
          both (must-Keeps (creates _))
            (both (must-Keeps (mounts _)) (then_ (add_clean _) keep (λ s. refl) keep-Keeps))))

  abbrev emplace : Net → Action Process Unit
  emplace component =
      modify
        (λ s. record s { network = elim s.network [ none ↦ some component | some n ↦ some n ] })

  emplace-IsActive : (component : Net) → Ends (λ s. Unit {0}) (emplace component) IsActive
  emplace-IsActive component = record {
    at = λ s a t h. elim (Option-cases s.network) [
      | inl e ↦ record { component = component; there = rw e refl }
      | inr (n, e) ↦ record { component = n; there = rw e refl }
    ];
  }

  -- A component that is set up is active.
  pub try_network-IsActive :
      (component : Net) → Ends (λ s. Unit {0}) (try_network answers name component) IsActive
  unfolding try_network
  try_network-IsActive component =
      both {m = begin} (record { at = λ s a t h. tt })
        (with_text (role_of component) _ λ role.
          with_role answers (known_network_roles role) _ λ role_enum.
            both {m = emplace component} (emplace-IsActive component) (
              both (choose_namespace-Keeps component)
                (both mount_namespace-Keeps (setup_role-Keeps role_enum component))))
