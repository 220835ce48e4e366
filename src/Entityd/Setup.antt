-- ===== src/Entityd/Setup.antt =====
-- The parts of the set-up of a network keep what undoes them.
use Prim.Native.String.{◌++◌ as ◌⧺◌}
use nonsense.Base.{refl, String, Bool, true, false, List}
use nonsense.Base.Action.{pure, ◌>>◌}
use nonsense.Entityd.Command.{
  Call, inverse, runs, add_veth, del_veth, up_veth, add_bridge, del_bridge, up_bridge,
  veth_to_bridge, push_peer, pull_peer, add_peer_address, del_peer_address, add_route, del_route,
  up_peer, down_peer, peer_to_bridge, add_address, del_address, add_default, del_default,
}
use nonsense.Entityd.Cleanup.{
  Net, null, net, address_of, uplink_of, uplink_name_of, is_switch, add_clean,
}
use nonsense.Entityd.Network.{
  annotated_system, setup_interfaces, setup_bridge, add_routes, connect_switch, connect_other,
  connect, nth_address_in_subnet,
}
use nonsense.Entityd.Undo.{
  Settled, Tracks, Rests, Ends, with_text, with_abort, undoable, plain, both, either, keep-Ends,
  begin-Ends, keep_connection-Ends,
}

module _ (answers : List Call → Call → Bool) (name : String) where
  pub setup_interfaces-Ends : Ends Rests (setup_interfaces answers name) Rests
  unfolding setup_interfaces inverse
  setup_interfaces-Ends = both begin-Ends (
      undoable answers (add_veth name) (runs (del_veth name)) _ refl
        (plain answers (up_veth name) _ refl keep-Ends))

  pub setup_bridge-Ends : Ends Rests (setup_bridge answers name) Rests
  unfolding setup_bridge inverse
  setup_bridge-Ends = both begin-Ends (
      undoable answers (add_bridge name) (runs (del_bridge name)) _ refl (
        plain answers (up_bridge name) _ refl
          (plain answers (veth_to_bridge name) _ refl keep-Ends)))

  pub nothing-Ends : Ends {A = Unit} Tracks (pure tt) Tracks
  nothing-Ends = record { at = λ s a t h. t }

  pub add_default-Ends :
      (gateway : String)
      → Ends Tracks
          (do annotated_system answers (add_default gateway); add_clean (runs del_default))
          Tracks
  unfolding inverse
  add_default-Ends gateway =
      undoable answers (add_default gateway) (runs del_default) (pure tt) refl nothing-Ends

  pub add_routes-Ends :
      (network : String) (uplink : Net) → Ends Tracks (add_routes answers network uplink) Tracks
  unfolding add_routes inverse
  add_routes-Ends network null = nothing-Ends
  add_routes-Ends network (net role uplink_name address external misnamed default_ uplink) =
      let rest = add_routes-Ends network uplink in
      either (is_switch (net role uplink_name address external misnamed default_ uplink))
        (with_text uplink_name _ λ via_name. with_text address _ λ uplink_net.
          with_abort (nth_address_in_subnet uplink_net "2" false) _ λ via.
            undoable answers (add_route via_name network via) (runs (del_route via_name network)) _
              refl rest)
        nothing-Ends

  pub connect_switch-Ends :
      (uplink_name : String) (component : Net)
      → Ends Tracks (connect_switch answers name uplink_name component) Tracks
  unfolding connect_switch inverse
  connect_switch-Ends uplink_name component = with_text (address_of component) _ λ network.
      with_abort (nth_address_in_subnet network "1" true) _ λ downlink_address.
        undoable answers (add_peer_address uplink_name downlink_address name)
          (runs (del_peer_address uplink_name downlink_address name)) _ refl
          (both (add_routes-Ends network (uplink_of component)) (
            undoable answers (up_peer uplink_name name) (runs (down_peer uplink_name name)) _ refl (
              with_abort (nth_address_in_subnet network "1" false) _ λ gateway.
                with_abort (nth_address_in_subnet network "2" true) _ λ assigned_address.
                  undoable answers (add_address assigned_address ("nb-" ⧺ name))
                    (runs (del_address assigned_address ("nb-" ⧺ name))) _ refl
                    (add_default-Ends gateway))))

  pub connect_other-Ends :
      (uplink_name : String) (component : Net)
      → Ends Tracks (connect_other answers name uplink_name component) Tracks
  unfolding connect_other inverse
  connect_other-Ends uplink_name component =
      plain answers (peer_to_bridge uplink_name name) _ refl (
        with_text (address_of (uplink_of component)) _ λ uplink_net.
          with_abort (nth_address_in_subnet uplink_net "1" false) _ λ gateway.
            with_abort (nth_address_in_subnet uplink_net "3" true) _ λ assigned_address.
              undoable answers (up_peer uplink_name name) (runs (down_peer uplink_name name)) _ refl
                (undoable answers (add_address assigned_address ("nu-" ⧺ name))
                  (runs (del_address assigned_address ("nu-" ⧺ name))) _ refl
                  (add_default-Ends gateway)))

  pub connect-Ends : (component : Net) → Ends Rests (connect answers name component) Settled
  unfolding connect inverse
  connect-Ends component = both begin-Ends (
      with_text (uplink_name_of component) _ λ uplink_name.
        undoable answers (push_peer uplink_name name) (runs (pull_peer uplink_name name)) _ refl (
          both
            (either (is_switch component) (connect_switch-Ends uplink_name component)
              (connect_other-Ends uplink_name component))
            keep_connection-Ends))
