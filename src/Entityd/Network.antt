-- ===== src/Entityd/Network.antt =====
-- The functions of entityd/main.cpp. A failed assertion and a throw that leaves `add_network` end
-- the process.
use Prim.Native.String.{◌++◌}
use nonsense.Base.{String, Bool, true, false, Option, none, some, List, ◌∷◌, if◌then◌else◌, str_eq}
use nonsense.Base.Text.{cut, cut_last}
use nonsense.Base.Action.{Action, done, throws, aborts, pure, throw, abort, modify, ◌>>=◌, ◌>>◌}
use nonsense.Config.Names.{
  NetworkRole, root, interface, router, switch_, client, known_network_roles, known_components,
  ComponentType,
}
use nonsense.Entityd.Command.{
  Command, Call, render, runs, opens, creates, enters_namespace, unshares, creates_directories,
  mounts, unmounts, add_veth, del_veth, up_veth, add_bridge, del_bridge, up_bridge, veth_to_bridge,
  push_peer, pull_peer, add_peer_address, del_peer_address, add_route, del_route, up_peer,
  down_peer, peer_to_bridge, add_address, del_address, add_default, del_default,
}
use nonsense.Entityd.Cleanup.{
  Net, null, net, role_of, uplink_name_of, address_of, uplink_of, is_external, is_misnamed,
  is_default, is_switch, Process, add_clean, keep, keep_connection, begin,
}

abbrev pub before_last_dot : String → String
before_last_dot network = elim (cut_last b'.' network) [
  | none ↦ network
  | some (prefix, last) ↦ prefix
]

-- nth_address_in_subnet; `n` is the number as it is printed, and `none` is a failed assertion.
unfoldable pub nth_address_in_subnet : String → String → Bool → Option String
unfolding cut cut_last
nth_address_in_subnet net_value n include_mask = elim (cut b'/' net_value) [
  | none ↦ none
  | some (network, mask) ↦
      if str_eq mask "24"
      then some (before_last_dot network ++ "." ++ n ++ (if include_mask then "/" ++ mask else ""))
      else none
]

abbrev pub or_abort : Option String → Action Process String
or_abort none = abort
or_abort (some a) = pure a

abbrev pub nth : String → String → Bool → Action Process String
nth net_value n include_mask = or_abort (nth_address_in_subnet net_value n include_mask)

-- get_ref<std::string &>()
abbrev pub text : Option String → Action Process String
text none = throw "type must be string"
text (some a) = pure a

pub data Answer : Type 0 where
  already_active added : Answer

-- Whether a call succeeds, given the calls before it.
module _ (answers : List Call → Call → Bool) where
  abbrev logged : Call → Process → Process
  logged call s = record s { log = call ∷ s.log }

  -- A call whose result is not looked at.
  abbrev pub tries : Call → Action Process Unit
  tries call = modify (logged call)

  -- A call whose failure is a failed assertion, or std::abort.
  abbrev pub must : Call → Action Process Unit
  must call s = (if answers s.log call then done tt else aborts, logged call s)

  -- A call whose failure throws.
  abbrev pub may_throw : String → Call → Action Process Unit
  may_throw what call s = (if answers s.log call then done tt else throws what, logged call s)

  abbrev pub annotated_system : Command → Action Process Unit
  annotated_system command = may_throw ("system(" ++ render command ++ ") failed") (runs command)

  unfoldable pub setup_interfaces : String → Action Process Unit
  setup_interfaces name = do
    begin
    annotated_system (add_veth name)
    add_clean (runs (del_veth name))
    annotated_system (up_veth name)
    keep

  unfoldable pub setup_bridge : String → Action Process Unit
  setup_bridge name = do
    begin
    annotated_system (add_bridge name)
    add_clean (runs (del_bridge name))
    annotated_system (up_bridge name)
    annotated_system (veth_to_bridge name)
    keep

  unfoldable pub setup_nft : Action Process Unit
  setup_nft = abort

  -- The loop over the uplinks that are switches.
  unfoldable pub add_routes : String → Net → Action Process Unit
  unfolding nth_address_in_subnet
  add_routes network null = pure tt
  add_routes network (net role uplink_name address external misnamed default_ uplink) =
      let rest = add_routes network uplink in
      if is_switch (net role uplink_name address external misnamed default_ uplink)
      then (do
        name ← text uplink_name
        uplink_net ← text address
        via ← nth uplink_net "2" false
        annotated_system (add_route name network via)
        add_clean (runs (del_route name network))
        rest)
      else pure tt

  unfoldable pub connect_switch : String → String → Net → Action Process Unit
  unfolding add_routes nth_address_in_subnet
  connect_switch name uplink_name component = do
    network ← text (address_of component)
    downlink_address ← nth network "1" true
    annotated_system (add_peer_address uplink_name downlink_address name)
    add_clean (runs (del_peer_address uplink_name downlink_address name))
    add_routes network (uplink_of component)
    annotated_system (up_peer uplink_name name)
    add_clean (runs (down_peer uplink_name name))
    gateway ← nth network "1" false
    assigned_address ← nth network "2" true
    annotated_system (add_address assigned_address ("nb-" ++ name))
    add_clean (runs (del_address assigned_address ("nb-" ++ name)))
    annotated_system (add_default gateway)
    add_clean (runs del_default)

  unfoldable pub connect_other : String → String → Net → Action Process Unit
  unfolding nth_address_in_subnet
  connect_other name uplink_name component = do
    annotated_system (peer_to_bridge uplink_name name)
    uplink_net ← text (address_of (uplink_of component))
    gateway ← nth uplink_net "1" false
    assigned_address ← nth uplink_net "3" true
    annotated_system (up_peer uplink_name name)
    add_clean (runs (down_peer uplink_name name))
    annotated_system (add_address assigned_address ("nu-" ++ name))
    add_clean (runs (del_address assigned_address ("nu-" ++ name)))
    annotated_system (add_default gateway)
    add_clean (runs del_default)

  unfoldable pub connect : String → Net → Action Process Unit
  unfolding connect_switch connect_other
  connect name component = do
    begin
    uplink_name ← text (uplink_name_of component)
    annotated_system (push_peer uplink_name name)
    add_clean (runs (pull_peer uplink_name name))
    (if is_switch component
        then connect_switch name uplink_name component
        else connect_other name uplink_name component)
    keep_connection

  -- The switch over the role.
  unfoldable pub setup_role : NetworkRole → String → Net → Action Process Unit
  unfolding setup_interfaces setup_bridge setup_nft connect
  setup_role root name component = pure tt
  setup_role interface name component = abort
  setup_role router name component = do setup_interfaces name; setup_nft; connect name component
  setup_role switch_ name component = do
    setup_interfaces name
    setup_bridge name
    connect name component
  setup_role client name component = do setup_interfaces name; connect name component

  -- Which network namespace the process is in.
  unfoldable pub choose_namespace : String → Net → Action Process Unit
  choose_namespace name component =
      if is_external component
      then if is_misnamed component
        then throw "type must be string"
        else (do must (opens ("/var/run/netns/" ++ name)); tries enters_namespace)
      else if is_default component
      then pure tt
      else must unshares

  abbrev pub full_path : String → String
  full_path name = "/var/run/netns/nonsense:" ++ name

  unfoldable pub mount_namespace : String → Action Process Unit
  mount_namespace name = do
    may_throw "create_directories" (creates_directories "/var/run/netns")
    tries (unmounts (full_path name))
    must (creates (full_path name))
    must (mounts (full_path name))
    add_clean (unmounts (full_path name))
    keep

  -- The network role of a component; at() throws where there is none.
  abbrev pub found_role : Option NetworkRole → Action Process NetworkRole
  found_role none = throw "map::at"
  found_role (some role) = pure role

  -- The body of add_network's try.
  unfoldable pub try_network : String → Net → Action Process Unit
  unfolding known_network_roles choose_namespace mount_namespace setup_role
  try_network name component = do
    begin
    role ← text (role_of component)
    role_enum ← found_role (known_network_roles role)
    modify (λ s. record s { network = elim s.network [ none ↦ some component | some n ↦ some n ] })
    choose_namespace name component
    mount_namespace name
    setup_role role_enum name component

  -- add_network: `catch (...)` erases the component and fails an assertion.
  unfoldable pub add_network : String → Net → Action Process Unit
  unfolding try_network
  add_network name component s =
      let (o, s') = try_network name component s in
      elim o [
        | done u ↦ (done tt, s')
        | throws what ↦ (aborts, record s' { network = none })
        | aborts ↦ (aborts, s')
      ]

  abbrev pub add_parsed : String → Option Net → Action Process Answer
  add_parsed name none = throw "parse error"
  add_parsed name (some component) = do add_network name component; pure added

  -- current_components.contains(type)
  abbrev pub add_unless : Option Net → String → Option Net → Action Process Answer
  add_unless none name config = add_parsed name config
  add_unless (some active) name config = pure already_active

  -- What add_component does with a known type.
  abbrev pub add_known : String → Option Net → Action Process Answer
  add_known name config s = add_unless s.network name config s

  abbrev pub add_found : String → Option Net → Option ComponentType → Action Process Answer
  add_found name config none = abort
  add_found name config (some found) = add_known name config

  -- add_component. `type` is none where the message cannot be read, and `config` where its text is
  -- no JSON.
  unfoldable pub add_component : String → Option String → Option Net → Action Process Answer
  unfolding known_components add_network
  add_component name none config = abort
  add_component name (some type) config = add_found name config (known_components type)
