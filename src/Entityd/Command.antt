-- ===== src/Entityd/Command.antt =====
-- The commands that entityd/main.cpp passes to `system`, and what else it asks of the system.
use Prim.Native.String.{◌++◌}
use nonsense.Base.{String, Option, none, some}

-- `name` is the entity's, and `uplink` the entity's whose network is the uplink.
pub data Command : Type 0 where
  -- link add … type veth, and its link del
  add_veth del_veth : String → Command
  up_veth : String → Command
  -- link add … type bridge, and its link del
  add_bridge del_bridge : String → Command
  up_bridge veth_to_bridge : String → Command
  -- the far end of the veth pair, into the uplink's namespace and back
  push_peer pull_peer : (uplink name : String) → Command
  add_peer_address del_peer_address : (uplink address name : String) → Command
  add_route : (uplink net via : String) → Command
  del_route : (uplink net : String) → Command
  up_peer down_peer peer_to_bridge : (uplink name : String) → Command
  add_address del_address : (address device : String) → Command
  add_default : (gateway : String) → Command
  del_default : Command

abbrev inside : String → String
inside uplink = "ip netns exec nonsense:" ++ uplink

-- The text of a command.
unfoldable pub render : Command → String
render (add_veth name) = "ip link add nu-" ++ name ++ " type veth peer nd-" ++ name
render (del_veth name) = "ip link del nu-" ++ name
render (up_veth name) = "ip link set nu-" ++ name ++ " up"
render (add_bridge name) = "ip link add nb-" ++ name ++ " type bridge"
render (del_bridge name) = "ip link del nb-" ++ name
render (up_bridge name) = "ip link set nb-" ++ name ++ " up"
render (veth_to_bridge name) = "ip link set nu-" ++ name ++ " master nb-" ++ name
render (push_peer uplink name) = "ip link set nd-" ++ name ++ " netns nonsense:" ++ uplink
render (pull_peer uplink name) =
    inside uplink ++ " ip link set nd-" ++ name ++ " netns nonsense:" ++ name
render (add_peer_address uplink address name) =
    inside uplink ++ " ip addr add " ++ address ++ " dev nd-" ++ name
render (del_peer_address uplink address name) =
    inside uplink ++ " ip addr del " ++ address ++ " dev nd-" ++ name
render (add_route uplink net via) = inside uplink ++ " ip route add " ++ net ++ " via " ++ via
render (del_route uplink net) = inside uplink ++ " ip route del " ++ net
render (up_peer uplink name) = inside uplink ++ " ip link set nd-" ++ name ++ " up"
render (down_peer uplink name) = inside uplink ++ " ip link set nd-" ++ name ++ " down"
render (peer_to_bridge uplink name) =
    inside uplink ++ " ip link set nd-" ++ name ++ " master nb-" ++ uplink
render (add_address address device) = "ip addr add " ++ address ++ " dev " ++ device
render (del_address address device) = "ip addr del " ++ address ++ " dev " ++ device
render (add_default gateway) = "ip route add default via " ++ gateway
render del_default = "ip route del default"

-- What the process asks of the system.
pub data Call : Type 0 where
  runs : Command → Call
  -- open(path, 0), open(path, O_CREAT)
  opens creates : String → Call
  -- setns on what was opened last, unshare(CLONE_NEWNET)
  enters_namespace unshares : Call
  creates_directories : String → Call
  -- mount of /proc/self/ns/net, and umount
  mounts unmounts : String → Call

-- What undoes a call. A new link goes with its settings, and so those have nothing that undoes
-- them.
unfoldable pub inverse : Call → Option Call
inverse (runs (add_veth name)) = some (runs (del_veth name))
inverse (runs (add_bridge name)) = some (runs (del_bridge name))
inverse (runs (push_peer uplink name)) = some (runs (pull_peer uplink name))
inverse (runs (add_peer_address uplink address name)) =
    some (runs (del_peer_address uplink address name))
inverse (runs (add_route uplink net via)) = some (runs (del_route uplink net))
inverse (runs (up_peer uplink name)) = some (runs (down_peer uplink name))
inverse (runs (add_address address device)) = some (runs (del_address address device))
inverse (runs (add_default gateway)) = some (runs del_default)
inverse (mounts path) = some (unmounts path)
inverse _ = none
