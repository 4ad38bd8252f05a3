-- ===== src/Dds.antt =====
-- `DdsEntity` and `DdsParticipant` of zenoh-plugin-ros2dds/src/dds_discovery.rs. The type of the QoS
-- is a parameter; the type information, which nothing reads, is left out.
use zenoh_plugin_ros2dds.Base.{Text, Bool}
use zenoh_plugin_ros2dds.Gid.{Gid}

pub record DdsEntity (Q : Type 0) : Type 0 where
  pub key : Gid
  pub participant_key : Gid
  pub topic_name : Text
  pub type_name : Text
  pub keyless : Bool
  pub qos : Q

pub record DdsParticipant (Q : Type 0) : Type 0 where
  pub key : Gid
  pub qos : Q
