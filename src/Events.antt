-- ===== src/Events.antt =====
-- `ROS2DiscoveryEvent` and `ROS2AnnouncementEvent` of zenoh-plugin-ros2dds/src/events.rs, and what a
-- discovery event is about.
use zenoh_plugin_ros2dds.Base.{Text, codes, Bool}
use zenoh_plugin_ros2dds.Interfaces.{MsgPub, MsgSub, ServiceSrv, ServiceCli, ActionSrv, ActionCli}

pub data Ros2DiscoveryEvent : Type 0 where
  discovered_msg_pub undiscovered_msg_pub : Text → MsgPub → Ros2DiscoveryEvent
  discovered_msg_sub undiscovered_msg_sub : Text → MsgSub → Ros2DiscoveryEvent
  discovered_service_srv undiscovered_service_srv : Text → ServiceSrv → Ros2DiscoveryEvent
  discovered_service_cli undiscovered_service_cli : Text → ServiceCli → Ros2DiscoveryEvent
  discovered_action_srv undiscovered_action_srv : Text → ActionSrv → Ros2DiscoveryEvent
  discovered_action_cli undiscovered_action_cli : Text → ActionCli → Ros2DiscoveryEvent
  local_writers_changed : Text → Ros2DiscoveryEvent

-- The node, the kind of interface and its name.
unfoldable pub interface_key : Ros2DiscoveryEvent → Text × Text × Text
interface_key (discovered_msg_pub node i) = (node, codes "MsgPub", i.name)
interface_key (undiscovered_msg_pub node i) = (node, codes "MsgPub", i.name)
interface_key (discovered_msg_sub node i) = (node, codes "MsgSub", i.name)
interface_key (undiscovered_msg_sub node i) = (node, codes "MsgSub", i.name)
interface_key (discovered_service_srv node i) = (node, codes "ServiceSrv", i.name)
interface_key (undiscovered_service_srv node i) = (node, codes "ServiceSrv", i.name)
interface_key (discovered_service_cli node i) = (node, codes "ServiceCli", i.name)
interface_key (undiscovered_service_cli node i) = (node, codes "ServiceCli", i.name)
interface_key (discovered_action_srv node i) = (node, codes "ActionSrv", i.name)
interface_key (undiscovered_action_srv node i) = (node, codes "ActionSrv", i.name)
interface_key (discovered_action_cli node i) = (node, codes "ActionCli", i.name)
interface_key (undiscovered_action_cli node i) = (node, codes "ActionCli", i.name)
interface_key (local_writers_changed name) = (codes "", codes "LocalWriters", name)

-- The id of the other bridge and the key expression, the ROS 2 type of what is announced, and for
-- messages whether the topic is keyless and the QoS, of type `Q`.
pub data Ros2AnnouncementEvent (Q : Type 0) : Type 0 where
  announced_msg_pub : Text → Text → Text → Bool → Q → Ros2AnnouncementEvent Q
  retired_msg_pub : Text → Text → Bool → Q → Ros2AnnouncementEvent Q
  announced_msg_sub : Text → Text → Text → Bool → Q → Ros2AnnouncementEvent Q
  retired_msg_sub : Text → Text → Ros2AnnouncementEvent Q
  announced_service_srv : Text → Text → Text → Ros2AnnouncementEvent Q
  retired_service_srv : Text → Text → Ros2AnnouncementEvent Q
  announced_service_cli : Text → Text → Text → Ros2AnnouncementEvent Q
  retired_service_cli : Text → Text → Ros2AnnouncementEvent Q
  announced_action_srv : Text → Text → Text → Ros2AnnouncementEvent Q
  retired_action_srv : Text → Text → Ros2AnnouncementEvent Q
  announced_action_cli : Text → Text → Text → Ros2AnnouncementEvent Q
  retired_action_cli : Text → Text → Ros2AnnouncementEvent Q
