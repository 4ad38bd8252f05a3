-- ===== src/RosDiscovery.antt =====
-- `NodeEntitiesInfo` of zenoh-plugin-ros2dds/src/ros_discovery.rs: what a ROS node declares of itself in
-- `ros_discovery_info`. A `HashSet<Gid>` is the list of its members.
use zenoh_plugin_ros2dds.Base.{Text, codes, List, [], ◌++◌, str_eq, if◌then◌else◌}
use zenoh_plugin_ros2dds.Gid.{Gid}

pub record NodeEntitiesInfo : Type 0 where
  pub node_namespace : Text
  pub node_name : Text
  pub reader_gid_seq : List Gid
  pub writer_gid_seq : List Gid

abbrev pub full_name : NodeEntitiesInfo → Text
full_name i =
    (if str_eq i.node_namespace (codes "/") then [] else i.node_namespace)
    ++ (codes "/" ++ i.node_name)
