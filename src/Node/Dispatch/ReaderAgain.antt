-- ===== src/Node/Dispatch/ReaderAgain.antt =====
-- `update_with_reader` is idempotent: a reader that is declared again changes nothing.
use zenoh_plugin_ros2dds.Base.{◌≡◌, refl, ◌∙◌, subst, sym, ap, Text, none, some}
use zenoh_plugin_ros2dds.Externals.{Externals}
use zenoh_plugin_ros2dds.Ros2Utils.{
  dds_type_to_ros2_message_type, dds_type_to_ros2_service_type, dds_type_to_ros2_action_type,
}
use zenoh_plugin_ros2dds.Dds.{DdsEntity}
use zenoh_plugin_ros2dds.Interfaces.{
  service_srv_endpoints, service_cli_endpoints, action_srv_endpoints, action_cli_endpoints,
}
use zenoh_plugin_ros2dds.Node.{NodeInfo}
use zenoh_plugin_ros2dds.Node.Slots.Laws.{update_typed_again, update_untyped_again}
use zenoh_plugin_ros2dds.Node.Update.{
  Updated, on_service_srv, on_service_cli, on_action_srv, on_action_cli, action_cli_status_reader,
  action_cli_feedback_reader, service_srv_req_reader, action_srv_send_req_reader,
  action_srv_cancel_req_reader, action_srv_result_req_reader, service_cli_rep_reader,
  action_cli_send_rep_reader, action_cli_cancel_rep_reader, action_cli_result_rep_reader,
  update_action_cli_cancel_rep_reader, update_action_cli_feedback_reader,
  update_action_cli_result_rep_reader, update_action_cli_send_rep_reader,
  update_action_cli_status_reader, update_action_srv_cancel_req_reader,
  update_action_srv_result_req_reader, update_action_srv_send_req_reader,
  update_service_cli_rep_reader, update_service_srv_req_reader,
}
use zenoh_plugin_ros2dds.Node.Update.Lawful.{
  action_cli_status_reader-IsLawful, action_cli_feedback_reader-IsLawful,
  service_srv_req_reader-IsLawful, action_srv_send_req_reader-IsLawful,
  action_srv_cancel_req_reader-IsLawful, action_srv_result_req_reader-IsLawful,
  service_cli_rep_reader-IsLawful, action_cli_send_rep_reader-IsLawful,
  action_cli_cancel_rep_reader-IsLawful, action_cli_result_rep_reader-IsLawful,
}
use zenoh_plugin_ros2dds.Node.Update.MessagesAgain.{update_msg_sub_again}
use zenoh_plugin_ros2dds.Node.Dispatch.{update_with_reader}
use zenoh_plugin_ros2dds.Node.Dispatch.Channels.{
  Channel, message, status, feedback, request, goal_request, cancel_request, result_request, reply,
  goal_reply, cancel_reply, result_reply,
}
use zenoh_plugin_ros2dds.Node.Dispatch.ReaderTopics.{reader_update}
use zenoh_plugin_ros2dds.Node.Dispatch.Classify.{
  Use, panics, ignored, used, topic_use, reader_run, update_with_reader-use,
}

module _ ⦃x : Externals⦄ {Q : Type 0} (entity : DdsEntity Q) where
  channel_again :
      (n : NodeInfo) (ch : Channel) (name : Text)
      → reader_update (reader_update n entity ch name).0 entity ch name
        ≡ ((reader_update n entity ch name).0, none)
  unfolding update_action_cli_status_reader update_action_cli_feedback_reader
      update_service_srv_req_reader update_action_srv_send_req_reader
      update_action_srv_cancel_req_reader update_action_srv_result_req_reader
      update_service_cli_rep_reader update_action_cli_send_rep_reader
      update_action_cli_cancel_rep_reader update_action_cli_result_rep_reader
  channel_again n message name =
      update_msg_sub_again n name (dds_type_to_ros2_message_type entity.type_name) entity.key
  channel_again n status name = ap (on_action_cli n) (
      update_untyped_again action_cli_status_reader action_cli_status_reader-IsLawful name
        entity.key n.action_cli)
  channel_again n feedback name = ap (on_action_cli n) (
      update_typed_again action_cli_feedback_reader action_cli_feedback_reader-IsLawful name
        (dds_type_to_ros2_action_type entity.type_name) entity.key n.action_cli)
  channel_again n request name = ap (on_service_srv n) (
      update_typed_again service_srv_req_reader service_srv_req_reader-IsLawful name
        (dds_type_to_ros2_service_type entity.type_name) entity.key n.service_srv)
  channel_again n goal_request name = ap (on_action_srv n) (
      update_typed_again action_srv_send_req_reader action_srv_send_req_reader-IsLawful name
        (dds_type_to_ros2_action_type entity.type_name) entity.key n.action_srv)
  channel_again n cancel_request name = ap (on_action_srv n) (
      update_untyped_again action_srv_cancel_req_reader action_srv_cancel_req_reader-IsLawful name
        entity.key n.action_srv)
  channel_again n result_request name = ap (on_action_srv n) (
      update_typed_again action_srv_result_req_reader action_srv_result_req_reader-IsLawful name
        (dds_type_to_ros2_action_type entity.type_name) entity.key n.action_srv)
  channel_again n reply name = ap (on_service_cli n) (
      update_typed_again service_cli_rep_reader service_cli_rep_reader-IsLawful name
        (dds_type_to_ros2_service_type entity.type_name) entity.key n.service_cli)
  channel_again n goal_reply name = ap (on_action_cli n) (
      update_typed_again action_cli_send_rep_reader action_cli_send_rep_reader-IsLawful name
        (dds_type_to_ros2_action_type entity.type_name) entity.key n.action_cli)
  channel_again n cancel_reply name = ap (on_action_cli n) (
      update_untyped_again action_cli_cancel_rep_reader action_cli_cancel_rep_reader-IsLawful name
        entity.key n.action_cli)
  channel_again n result_reply name = ap (on_action_cli n) (
      update_typed_again action_cli_result_rep_reader action_cli_result_rep_reader-IsLawful name
        (dds_type_to_ros2_action_type entity.type_name) entity.key n.action_cli)

  run_again :
      (n : NodeInfo) (u : Updated) (use_ : Use)
      → reader_run n entity use_ ≡ some u
      → reader_run u.0 entity use_ ≡ some (u.0, none)
  run_again n u panics h = cc
  run_again n u ignored h =
      let same : (n, none) ≡ u = cc in
      subst (λ (w : Updated). reader_run w.0 entity ignored ≡ some (w.0, none)) same refl
  run_again n u (used ch name) h =
      let same : reader_update n entity ch name ≡ u = cc in
      subst (λ (w : Updated). reader_run w.0 entity (used ch name) ≡ some (w.0, none)) same
        (ap (λ (w : Updated). some w) (channel_again n ch name))

-- A reader that a node has taken up and that is declared to it again changes nothing and raises no
-- event, for every node, topic, type and Gid for which the first call does not panic.
pub update_with_reader_again :
    ⦃x : Externals⦄ {Q : Type 0} (n : NodeInfo) (entity : DdsEntity Q) (u : Updated)
    → update_with_reader n entity ≡ some u
    → update_with_reader u.0 entity ≡ some (u.0, none)
update_with_reader_again n entity u h =
    update_with_reader-use u.0 entity
    ∙ run_again entity n u (topic_use entity.topic_name) (sym (update_with_reader-use n entity) ∙ h)
