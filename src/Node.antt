-- ===== src/Node.antt =====
-- `NodeInfo` of zenoh-plugin-ros2dds/src/node_info.rs: a discovered ROS node, the interfaces that
-- it declares, and its construction. The operations and the proofs are in the modules below.
pub mod Slots
pub mod Spec
pub mod Update
pub mod Dispatch
pub mod Removal
pub mod Names
use zenoh_plugin_ros2dds.Base.{
  ℕ, ◌+◌, ◌-◌, Text, codes, not, Option, none, some, List, [], ◌∷◌, ◌++◌, Map, length, take, drop,
  str_eq, if◌then◌else◌,
}
use zenoh_plugin_ros2dds.Externals.{Externals}
use zenoh_plugin_ros2dds.Gid.{Gid, gid_to_string}
use zenoh_plugin_ros2dds.Interfaces.{MsgPub, MsgSub, ServiceSrv, ServiceCli, ActionSrv, ActionCli}

-- `Range<usize>`, and the slice of a text that it selects.
pub record Range : Type 0 where
  pub start : ℕ
  pub end : ℕ

abbrev pub slice : Text → Range → Text
slice s r = take (r.end - r.start) (drop r.start s)

pub record NodeInfo : Type 0 where
  pub id : Text
  pub fullname_range : Range
  pub namespace_range : Range
  pub name_range : Range
  pub msg_pub : Map MsgPub
  pub msg_sub : Map MsgSub
  pub service_srv : Map ServiceSrv
  pub service_cli : Map ServiceCli
  pub action_srv : Map ActionSrv
  pub action_cli : Map ActionCli
  pub undiscovered_reader : List Gid
  pub undiscovered_writer : List Gid

abbrev pub fullname : NodeInfo → Text
fullname n = slice n.id n.fullname_range

abbrev pub namespace : NodeInfo → Text
namespace n = slice n.id n.namespace_range

abbrev pub name : NodeInfo → Text
name n = slice n.id n.name_range

-- `NodeInfo::create`; `none` stands for `Err`.
unfoldable pub create_node : ⦃x : Externals⦄ → Text → Text → Gid → Option NodeInfo
create_node ⦃x⦄ node_namespace node_name participant =
    let gid = gid_to_string participant in
    let namespace_start = length gid in
    let id1 = gid ++ node_namespace in
    let namespace_end = length id1 in
    let id2 = if str_eq node_namespace (codes "/") then id1 else id1 ++ codes "/" in
    let name_start = length id2 in
    let id = id2 ++ node_name in
    if not (x.is_key_expr id)
    then none
    else some (record {
      id = id;
      fullname_range = record { start = namespace_start; end = length id };
      namespace_range = record { start = namespace_start; end = namespace_end };
      name_range = record { start = name_start; end = length id };
      msg_pub = [];
      msg_sub = [];
      service_srv = [];
      service_cli = [];
      action_srv = [];
      action_cli = [];
      undiscovered_reader = [];
      undiscovered_writer = [];
    })
