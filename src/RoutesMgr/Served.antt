-- ===== src/RoutesMgr/Served.antt =====
-- What a discovery leaves of the route of its name.
use zenoh_plugin_ros2dds.Base.{◌≡◌, Text, Bool, Option, none, some, lookup}
use zenoh_plugin_ros2dds.Externals.{KeyExprs}
use zenoh_plugin_ros2dds.Events.{Ros2DiscoveryEvent}
use zenoh_plugin_ros2dds.Routes.{Calls}
use zenoh_plugin_ros2dds.RoutesMgr.{
  RoutesMgr, Kind, publisher, subscriber, service_srv, service_cli, action_srv, action_cli, Stored,
  select, ops,
}

module _ ⦃k : KeyExprs⦄ ⦃c : Calls⦄ where
  -- The route of a name, or a new one.
  abbrev pub old_or_new : (kind : Kind) → Text → Option (Stored kind) → Stored kind
  old_or_new kind name none = (ops kind).create name
  old_or_new kind name (some r) = r

  -- The route of the name is the old or a new one to which the node is added.
  abbrev pub IsAdded : (kind : Kind) → Text → Text → RoutesMgr → RoutesMgr × Bool → Type 0
  IsAdded kind node name s r =
      lookup name (select kind r.0)
      ≡ (ops kind).add_local_node node (old_or_new kind name (lookup name (select kind s)))

  abbrev pub IsServed : Ros2DiscoveryEvent → RoutesMgr → RoutesMgr × Bool → Type 0
  IsServed (Ros2DiscoveryEvent.discovered_msg_pub node i) s r = IsAdded publisher node i.name s r
  IsServed (Ros2DiscoveryEvent.discovered_msg_sub node i) s r = IsAdded subscriber node i.name s r
  IsServed (Ros2DiscoveryEvent.discovered_service_srv node i) s r =
      IsAdded service_srv node i.name s r
  IsServed (Ros2DiscoveryEvent.discovered_service_cli node i) s r =
      IsAdded service_cli node i.name s r
  IsServed (Ros2DiscoveryEvent.discovered_action_srv node i) s r =
      IsAdded action_srv node i.name s r
  IsServed (Ros2DiscoveryEvent.discovered_action_cli node i) s r =
      IsAdded action_cli node i.name s r
  IsServed (Ros2DiscoveryEvent.undiscovered_msg_pub node i) s r = Unit
  IsServed (Ros2DiscoveryEvent.undiscovered_msg_sub node i) s r = Unit
  IsServed (Ros2DiscoveryEvent.undiscovered_service_srv node i) s r = Unit
  IsServed (Ros2DiscoveryEvent.undiscovered_service_cli node i) s r = Unit
  IsServed (Ros2DiscoveryEvent.undiscovered_action_srv node i) s r = Unit
  IsServed (Ros2DiscoveryEvent.undiscovered_action_cli node i) s r = Unit
  IsServed (Ros2DiscoveryEvent.local_writers_changed name) s r = Unit
