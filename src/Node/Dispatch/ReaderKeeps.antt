-- ===== src/Node/Dispatch/ReaderKeeps.antt =====
-- What `update_with_reader` promises, whatever the topic.
use zenoh_plugin_ros2dds.Base.{◌≡◌, true, ◌∙◌, subst, sym, Text, none, some}
use zenoh_plugin_ros2dds.Externals.{Externals}
use zenoh_plugin_ros2dds.Ros2Utils.{
  dds_type_to_ros2_message_type, dds_type_to_ros2_service_type, dds_type_to_ros2_action_type,
}
use zenoh_plugin_ros2dds.Dds.{DdsEntity}
use zenoh_plugin_ros2dds.Interfaces.{
  known, service_srv_endpoints, service_cli_endpoints, action_srv_endpoints, action_cli_endpoints,
}
use zenoh_plugin_ros2dds.Node.{NodeInfo}
use zenoh_plugin_ros2dds.Node.Slots.Laws.{update_typed-Outcome, update_untyped-Outcome}
use zenoh_plugin_ros2dds.Node.Slots.{update_typed, update_untyped}
use zenoh_plugin_ros2dds.Node.Spec.{IsValid, Keeps}
use zenoh_plugin_ros2dds.Node.Update.Keeps.{unchanged-Keeps}
use zenoh_plugin_ros2dds.Node.Update.{
  Updated, action_cli_status_reader, action_cli_feedback_reader, service_srv_req_reader,
  action_srv_send_req_reader, action_srv_cancel_req_reader, action_srv_result_req_reader,
  service_cli_rep_reader, action_cli_send_rep_reader, action_cli_cancel_rep_reader,
  action_cli_result_rep_reader, update_action_cli_cancel_rep_reader,
  update_action_cli_feedback_reader, update_action_cli_result_rep_reader,
  update_action_cli_send_rep_reader, update_action_cli_status_reader,
  update_action_srv_cancel_req_reader, update_action_srv_result_req_reader,
  update_action_srv_send_req_reader, update_service_cli_rep_reader, update_service_srv_req_reader,
}
use zenoh_plugin_ros2dds.Node.Update.Lawful.{
  action_cli_status_reader-IsLawful, action_cli_feedback_reader-IsLawful,
  service_srv_req_reader-IsLawful, action_srv_send_req_reader-IsLawful,
  action_srv_cancel_req_reader-IsLawful, action_srv_result_req_reader-IsLawful,
  service_cli_rep_reader-IsLawful, action_cli_send_rep_reader-IsLawful,
  action_cli_cancel_rep_reader-IsLawful, action_cli_result_rep_reader-IsLawful,
}
use zenoh_plugin_ros2dds.Node.Update.Keeps.{
  on_service_srv-Keeps, on_service_cli-Keeps, on_action_srv-Keeps, on_action_cli-Keeps,
}
use zenoh_plugin_ros2dds.Node.Update.KeepsSub.{update_msg_sub-Keeps}
use zenoh_plugin_ros2dds.Node.Dispatch.{update_with_reader}
use zenoh_plugin_ros2dds.Node.Dispatch.Channels.{
  Channel, message, status, feedback, request, goal_request, cancel_request, result_request, reply,
  goal_reply, cancel_reply, result_reply,
}
use zenoh_plugin_ros2dds.Node.Dispatch.ReaderTopics.{reader_update}
use zenoh_plugin_ros2dds.Node.Dispatch.Classify.{
  Use, panics, ignored, used, topic_use, reader_run, update_with_reader-use,
}

module _ ⦃x : Externals⦄ {Q : Type 0} (n : NodeInfo) (entity : DdsEntity Q) where
  module _ (valid : IsValid n) (discovered : known entity.key ≡ true) where
    channel-Keeps : (ch : Channel) (name : Text) → Keeps n (reader_update n entity ch name)
    unfolding update_action_cli_status_reader update_action_cli_feedback_reader
        update_service_srv_req_reader update_action_srv_send_req_reader
        update_action_srv_cancel_req_reader update_action_srv_result_req_reader
        update_service_cli_rep_reader update_action_cli_send_rep_reader
        update_action_cli_cancel_rep_reader update_action_cli_result_rep_reader
    channel-Keeps message name =
        update_msg_sub-Keeps n valid name (dds_type_to_ros2_message_type entity.type_name)
          entity.key
    channel-Keeps status name =
        let u = update_untyped action_cli_status_reader name entity.key n.action_cli in
        on_action_cli-Keeps n valid name u.0 u.1 (
          update_untyped-Outcome action_cli_status_reader action_cli_status_reader-IsLawful name
            entity.key n.action_cli valid.action_clis.1 discovered)
    channel-Keeps feedback name =
        let u =
          update_typed action_cli_feedback_reader name
            (dds_type_to_ros2_action_type entity.type_name) entity.key n.action_cli in
        on_action_cli-Keeps n valid name u.0 u.1 (
          update_typed-Outcome action_cli_feedback_reader action_cli_feedback_reader-IsLawful name
            entity.key n.action_cli valid.action_clis.1 discovered
            (dds_type_to_ros2_action_type entity.type_name))
    channel-Keeps request name =
        let u =
          update_typed service_srv_req_reader name (dds_type_to_ros2_service_type entity.type_name)
            entity.key n.service_srv in
        on_service_srv-Keeps n valid name u.0 u.1 (
          update_typed-Outcome service_srv_req_reader service_srv_req_reader-IsLawful name
            entity.key n.service_srv valid.service_srvs.1 discovered
            (dds_type_to_ros2_service_type entity.type_name))
    channel-Keeps goal_request name =
        let u =
          update_typed action_srv_send_req_reader name
            (dds_type_to_ros2_action_type entity.type_name) entity.key n.action_srv in
        on_action_srv-Keeps n valid name u.0 u.1 (
          update_typed-Outcome action_srv_send_req_reader action_srv_send_req_reader-IsLawful name
            entity.key n.action_srv valid.action_srvs.1 discovered
            (dds_type_to_ros2_action_type entity.type_name))
    channel-Keeps cancel_request name =
        let u = update_untyped action_srv_cancel_req_reader name entity.key n.action_srv in
        on_action_srv-Keeps n valid name u.0 u.1 (
          update_untyped-Outcome action_srv_cancel_req_reader action_srv_cancel_req_reader-IsLawful
            name entity.key n.action_srv valid.action_srvs.1 discovered)
    channel-Keeps result_request name =
        let u =
          update_typed action_srv_result_req_reader name
            (dds_type_to_ros2_action_type entity.type_name) entity.key n.action_srv in
        on_action_srv-Keeps n valid name u.0 u.1 (
          update_typed-Outcome action_srv_result_req_reader action_srv_result_req_reader-IsLawful
            name entity.key n.action_srv valid.action_srvs.1 discovered
            (dds_type_to_ros2_action_type entity.type_name))
    channel-Keeps reply name =
        let u =
          update_typed service_cli_rep_reader name (dds_type_to_ros2_service_type entity.type_name)
            entity.key n.service_cli in
        on_service_cli-Keeps n valid name u.0 u.1 (
          update_typed-Outcome service_cli_rep_reader service_cli_rep_reader-IsLawful name
            entity.key n.service_cli valid.service_clis.1 discovered
            (dds_type_to_ros2_service_type entity.type_name))
    channel-Keeps goal_reply name =
        let u =
          update_typed action_cli_send_rep_reader name
            (dds_type_to_ros2_action_type entity.type_name) entity.key n.action_cli in
        on_action_cli-Keeps n valid name u.0 u.1 (
          update_typed-Outcome action_cli_send_rep_reader action_cli_send_rep_reader-IsLawful name
            entity.key n.action_cli valid.action_clis.1 discovered
            (dds_type_to_ros2_action_type entity.type_name))
    channel-Keeps cancel_reply name =
        let u = update_untyped action_cli_cancel_rep_reader name entity.key n.action_cli in
        on_action_cli-Keeps n valid name u.0 u.1 (
          update_untyped-Outcome action_cli_cancel_rep_reader action_cli_cancel_rep_reader-IsLawful
            name entity.key n.action_cli valid.action_clis.1 discovered)
    channel-Keeps result_reply name =
        let u =
          update_typed action_cli_result_rep_reader name
            (dds_type_to_ros2_action_type entity.type_name) entity.key n.action_cli in
        on_action_cli-Keeps n valid name u.0 u.1 (
          update_typed-Outcome action_cli_result_rep_reader action_cli_result_rep_reader-IsLawful
            name entity.key n.action_cli valid.action_clis.1 discovered
            (dds_type_to_ros2_action_type entity.type_name))

    run-Keeps : (u : Updated) (use_ : Use) → reader_run n entity use_ ≡ some u → Keeps n u
    run-Keeps u panics h = cc
    run-Keeps u ignored h =
        let same : (n, none) ≡ u = cc in subst (Keeps n) same (unchanged-Keeps n valid)
    run-Keeps u (used ch name) h =
        let same : reader_update n entity ch name ≡ u = cc in
        subst (Keeps n) same (channel-Keeps ch name)

-- From a valid node and a reader whose Gid is discovered, where `update_with_reader` does not panic, it
-- ends in a valid node with the same id, fullname and undiscovered endpoints. Its event, if there is one, names the node
-- and holds an interface as the new node stores it, complete or (for messages) with its first
-- endpoint; and a new publisher or subscriber, or a complete service or action that was not stored
-- so before, never goes without its event.
pub update_with_reader-Keeps :
    ⦃x : Externals⦄ {Q : Type 0} (n : NodeInfo) (entity : DdsEntity Q) (u : Updated)
    → IsValid n
    → known entity.key ≡ true
    → update_with_reader n entity ≡ some u
    → Keeps n u
update_with_reader-Keeps n entity u valid discovered h =
    run-Keeps n entity valid discovered u (topic_use entity.topic_name)
      (sym (update_with_reader-use n entity) ∙ h)
