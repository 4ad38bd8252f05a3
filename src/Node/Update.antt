-- ===== src/Node/Update.antt =====
-- The `update_*` methods of `NodeInfo` in zenoh-plugin-ros2dds/src/node_info.rs. Each returns the node
-- and the event that it gives rise to.
mod Fields
pub use Fields.*
pub mod Lawful
pub mod Keeps
pub mod KeepsPub
pub mod KeepsSub
pub mod MessagesAgain
use zenoh_plugin_ros2dds.Base.{
  ℕ, ◌==◌, Text, Bool, ◌&&◌, Option, none, some, List, Map, lookup, insert, length, str_eq,
  if◌then◌else◌,
}
use zenoh_plugin_ros2dds.Externals.{Externals}
use zenoh_plugin_ros2dds.Gid.{Gid}
use zenoh_plugin_ros2dds.Interfaces.{
  MsgPub, MsgSub, ServiceSrv, ServiceCli, ActionSrv, ActionCli, ServiceSrvEntities,
  ServiceCliEntities, ActionSrvEntities, ActionCliEntities, Interface, set_insert, create_msg_pub,
  create_msg_sub, service_srv_endpoints, service_cli_endpoints, action_srv_endpoints,
  action_cli_endpoints,
}
use zenoh_plugin_ros2dds.Events.{
  Ros2DiscoveryEvent, discovered_msg_pub, discovered_msg_sub, discovered_service_srv,
  discovered_service_cli, discovered_action_srv, discovered_action_cli,
}
use zenoh_plugin_ros2dds.Node.{NodeInfo, fullname}
use zenoh_plugin_ros2dds.Node.Slots.{Slot, update_typed, update_untyped}

abbrev pub Updated : Type 0
Updated = NodeInfo × Option Ros2DiscoveryEvent

abbrev pub event_of {ℓ} :
    {A : Type ℓ} → (A → Ros2DiscoveryEvent) → Option A → Option Ros2DiscoveryEvent
event_of f none = none
event_of f (some a) = some (f a)

-- A change to one map of the node, with the event for the interface that the change announces.
abbrev pub on_service_srv : NodeInfo → Map ServiceSrv × Option ServiceSrv → Updated
on_service_srv n (m, found) =
    (record n { service_srv = m }, event_of (discovered_service_srv (fullname n)) found)

abbrev pub on_service_cli : NodeInfo → Map ServiceCli × Option ServiceCli → Updated
on_service_cli n (m, found) =
    (record n { service_cli = m }, event_of (discovered_service_cli (fullname n)) found)

abbrev pub on_action_srv : NodeInfo → Map ActionSrv × Option ActionSrv → Updated
on_action_srv n (m, found) =
    (record n { action_srv = m }, event_of (discovered_action_srv (fullname n)) found)

abbrev pub on_action_cli : NodeInfo → Map ActionCli × Option ActionCli → Updated
on_action_cli n (m, found) =
    (record n { action_cli = m }, event_of (discovered_action_cli (fullname n)) found)

-- The branch `Entry::Occupied` of `update_msg_pub` and of `update_msg_sub`: a second type is ignored,
-- and only the first endpoint is announced.
unfoldable pub join_msg_pub : Text → Gid → MsgPub → MsgPub × Option MsgPub
unfolding set_insert
join_msg_pub typ writer v =
    let (writers, is_new) = set_insert writer v.writers in
    let v' = record v { writers = writers } in
    if str_eq v.typ typ
    then (v', if is_new && (length writers == 1) then some v' else none)
    else (v, none)

unfoldable pub join_msg_sub : Text → Gid → MsgSub → MsgSub × Option MsgSub
unfolding set_insert
join_msg_sub typ reader v =
    let (readers, is_new) = set_insert reader v.readers in
    let v' = record v { readers = readers } in
    if str_eq v.typ typ
    then (v', if is_new && (length readers == 1) then some v' else none)
    else (v, none)

module _ ⦃x : Externals⦄ where
  unfoldable pub pub_step : Text → Text → Gid → Map MsgPub → Map MsgPub × Option MsgPub
  pub_step name typ writer m = elim (lookup name m) [
    | none ↦ elim (create_msg_pub name typ writer) [
      | none ↦ (m, none)
      | some t ↦ (insert name t m, some t)
    ]
    | some v ↦ let (v', found) = join_msg_pub typ writer v in (insert name v' m, found)
  ]

  unfoldable pub sub_step : Text → Text → Gid → Map MsgSub → Map MsgSub × Option MsgSub
  sub_step name typ reader m = elim (lookup name m) [
    | none ↦ elim (create_msg_sub name typ reader) [
      | none ↦ (m, none)
      | some t ↦ (insert name t m, some t)
    ]
    | some v ↦ let (v', found) = join_msg_sub typ reader v in (insert name v' m, found)
  ]

  unfoldable pub update_msg_pub : NodeInfo → Text → Text → Gid → Updated
  update_msg_pub n name typ writer =
      let (m, found) = pub_step name typ writer n.msg_pub in
      (record n { msg_pub = m }, event_of (discovered_msg_pub (fullname n)) found)

  unfoldable pub update_msg_sub : NodeInfo → Text → Text → Gid → Updated
  update_msg_sub n name typ reader =
      let (m, found) = sub_step name typ reader n.msg_sub in
      (record n { msg_sub = m }, event_of (discovered_msg_sub (fullname n)) found)

  unfoldable pub update_service_srv_req_reader : NodeInfo → Text → Text → Gid → Updated
  update_service_srv_req_reader n name typ reader =
      on_service_srv n (update_typed service_srv_req_reader name typ reader n.service_srv)

  unfoldable pub update_service_srv_rep_writer : NodeInfo → Text → Text → Gid → Updated
  update_service_srv_rep_writer n name typ writer =
      on_service_srv n (update_typed service_srv_rep_writer name typ writer n.service_srv)

  unfoldable pub update_service_cli_rep_reader : NodeInfo → Text → Text → Gid → Updated
  update_service_cli_rep_reader n name typ reader =
      on_service_cli n (update_typed service_cli_rep_reader name typ reader n.service_cli)

  unfoldable pub update_service_cli_req_writer : NodeInfo → Text → Text → Gid → Updated
  update_service_cli_req_writer n name typ writer =
      on_service_cli n (update_typed service_cli_req_writer name typ writer n.service_cli)

  unfoldable pub update_action_srv_send_req_reader : NodeInfo → Text → Text → Gid → Updated
  update_action_srv_send_req_reader n name typ reader =
      on_action_srv n (update_typed action_srv_send_req_reader name typ reader n.action_srv)

  unfoldable pub update_action_srv_send_rep_writer : NodeInfo → Text → Text → Gid → Updated
  update_action_srv_send_rep_writer n name typ writer =
      on_action_srv n (update_typed action_srv_send_rep_writer name typ writer n.action_srv)

  unfoldable pub update_action_srv_cancel_req_reader : NodeInfo → Text → Gid → Updated
  update_action_srv_cancel_req_reader n name reader =
      on_action_srv n (update_untyped action_srv_cancel_req_reader name reader n.action_srv)

  unfoldable pub update_action_srv_cancel_rep_writer : NodeInfo → Text → Gid → Updated
  update_action_srv_cancel_rep_writer n name writer =
      on_action_srv n (update_untyped action_srv_cancel_rep_writer name writer n.action_srv)

  unfoldable pub update_action_srv_result_req_reader : NodeInfo → Text → Text → Gid → Updated
  update_action_srv_result_req_reader n name typ reader =
      on_action_srv n (update_typed action_srv_result_req_reader name typ reader n.action_srv)

  unfoldable pub update_action_srv_result_rep_writer : NodeInfo → Text → Text → Gid → Updated
  update_action_srv_result_rep_writer n name typ writer =
      on_action_srv n (update_typed action_srv_result_rep_writer name typ writer n.action_srv)

  unfoldable pub update_action_srv_status_writer : NodeInfo → Text → Gid → Updated
  update_action_srv_status_writer n name writer =
      on_action_srv n (update_untyped action_srv_status_writer name writer n.action_srv)

  unfoldable pub update_action_srv_feedback_writer : NodeInfo → Text → Text → Gid → Updated
  update_action_srv_feedback_writer n name typ writer =
      on_action_srv n (update_typed action_srv_feedback_writer name typ writer n.action_srv)

  unfoldable pub update_action_cli_send_rep_reader : NodeInfo → Text → Text → Gid → Updated
  update_action_cli_send_rep_reader n name typ reader =
      on_action_cli n (update_typed action_cli_send_rep_reader name typ reader n.action_cli)

  unfoldable pub update_action_cli_send_req_writer : NodeInfo → Text → Text → Gid → Updated
  update_action_cli_send_req_writer n name typ writer =
      on_action_cli n (update_typed action_cli_send_req_writer name typ writer n.action_cli)

  unfoldable pub update_action_cli_cancel_rep_reader : NodeInfo → Text → Gid → Updated
  update_action_cli_cancel_rep_reader n name reader =
      on_action_cli n (update_untyped action_cli_cancel_rep_reader name reader n.action_cli)

  unfoldable pub update_action_cli_cancel_req_writer : NodeInfo → Text → Gid → Updated
  update_action_cli_cancel_req_writer n name writer =
      on_action_cli n (update_untyped action_cli_cancel_req_writer name writer n.action_cli)

  unfoldable pub update_action_cli_result_rep_reader : NodeInfo → Text → Text → Gid → Updated
  update_action_cli_result_rep_reader n name typ reader =
      on_action_cli n (update_typed action_cli_result_rep_reader name typ reader n.action_cli)

  unfoldable pub update_action_cli_result_req_writer : NodeInfo → Text → Text → Gid → Updated
  update_action_cli_result_req_writer n name typ writer =
      on_action_cli n (update_typed action_cli_result_req_writer name typ writer n.action_cli)

  unfoldable pub update_action_cli_status_reader : NodeInfo → Text → Gid → Updated
  update_action_cli_status_reader n name reader =
      on_action_cli n (update_untyped action_cli_status_reader name reader n.action_cli)

  unfoldable pub update_action_cli_feedback_reader : NodeInfo → Text → Text → Gid → Updated
  update_action_cli_feedback_reader n name typ reader =
      on_action_cli n (update_typed action_cli_feedback_reader name typ reader n.action_cli)
