-- ===== src/Node/Dispatch/WriterTopics.antt =====
-- `update_with_writer` finds back the interface and the endpoint for which a topic stands.
use zenoh_plugin_ros2dds.Base.{
  ℕ, ◌≡◌, refl, ap, ◌∙◌, Text, codes, false, some, ◌∷◌, ◌++◌, str_eq, is_continuation,
}
use mathlib.Core.List.{append-nil}
use zenoh_plugin_ros2dds.Base.Affixes.{
  ends_with-append, slice_to-append_sub, slice_to_three, slice_from_two,
}
use zenoh_plugin_ros2dds.Externals.{Externals}
use zenoh_plugin_ros2dds.Ros2Utils.{
  dds_type_to_ros2_message_type, dds_type_to_ros2_service_type, dds_type_to_ros2_action_type,
}
use zenoh_plugin_ros2dds.Dds.{DdsEntity}
use zenoh_plugin_ros2dds.Node.{NodeInfo}
use zenoh_plugin_ros2dds.Node.Update.{
  Updated, update_action_cli_cancel_req_writer, update_action_cli_result_req_writer,
  update_action_cli_send_req_writer, update_action_srv_cancel_rep_writer,
  update_action_srv_feedback_writer, update_action_srv_result_rep_writer,
  update_action_srv_send_rep_writer, update_action_srv_status_writer, update_msg_pub,
  update_service_cli_req_writer, update_service_srv_rep_writer,
}
use zenoh_plugin_ros2dds.Node.Dispatch.{
  writer_on_message, writer_on_request, writer_on_reply, writer_on_topic, update_with_writer,
}
use zenoh_plugin_ros2dds.Node.Dispatch.Channels.{
  Channel, message, status, feedback, request, goal_request, cancel_request, result_request, reply,
  goal_reply, cancel_reply, result_reply, topic, suffix, IsPlain,
}
use zenoh_plugin_ros2dds.Node.Dispatch.Suffixes.{
  feedback_not_status, message_not_status, message_not_feedback, cancel_request_not_goal,
  result_request_not_goal, result_request_not_cancel, request_not_goal, request_not_cancel,
  request_not_result, cancel_reply_not_goal, result_reply_not_goal, result_reply_not_cancel,
  reply_not_goal, reply_not_cancel, reply_not_result,
}

module _ ⦃x : Externals⦄ {Q : Type 0} (n : NodeInfo) (entity : DdsEntity Q) where
  -- The update that a writer on the topic of an interface stands for.
  abbrev pub writer_update : Channel → Text → Updated
  writer_update message name =
      update_msg_pub n name (dds_type_to_ros2_message_type entity.type_name) entity.key
  writer_update status name = update_action_srv_status_writer n name entity.key
  writer_update feedback name =
      update_action_srv_feedback_writer n name (dds_type_to_ros2_action_type entity.type_name)
        entity.key
  writer_update request name =
      update_service_cli_req_writer n name (dds_type_to_ros2_service_type entity.type_name)
        entity.key
  writer_update goal_request name =
      update_action_cli_send_req_writer n name (dds_type_to_ros2_action_type entity.type_name)
        entity.key
  writer_update cancel_request name = update_action_cli_cancel_req_writer n name entity.key
  writer_update result_request name =
      update_action_cli_result_req_writer n name (dds_type_to_ros2_action_type entity.type_name)
        entity.key
  writer_update reply name =
      update_service_srv_rep_writer n name (dds_type_to_ros2_service_type entity.type_name)
        entity.key
  writer_update goal_reply name =
      update_action_srv_send_rep_writer n name (dds_type_to_ros2_action_type entity.type_name)
        entity.key
  writer_update cancel_reply name = update_action_srv_cancel_rep_writer n name entity.key
  writer_update result_reply name =
      update_action_srv_result_rep_writer n name (dds_type_to_ros2_action_type entity.type_name)
        entity.key

  module _ (name : Text) where
    on_plain_message :
        IsPlain message name → writer_on_message n name entity ≡ some (writer_update message name)
    unfolding writer_on_message
    on_plain_message plain = rw (message_not_status name plain, message_not_feedback name plain)

    on_status :
        writer_on_message n (name ++ suffix status) entity ≡ some (writer_update status name)
    unfolding writer_on_message
    on_status = rw (
      ends_with-append name (suffix status),
      slice_to-append_sub name 47 (codes "_action/status") 15 refl refl,
    )

    on_feedback :
        writer_on_message n (name ++ suffix feedback) entity ≡ some (writer_update feedback name)
    unfolding writer_on_message
    on_feedback = rw (
      feedback_not_status name,
      ends_with-append name (suffix feedback),
      slice_to-append_sub name 47 (codes "_action/feedback") 17 refl refl,
    )

    on_goal_request :
        writer_on_request n (name ++ suffix goal_request) entity
        ≡ some (writer_update goal_request name)
    unfolding writer_on_request
    on_goal_request = rw (
      ends_with-append name (suffix goal_request),
      slice_to-append_sub name 47 (codes "_action/send_goalRequest") 25 refl refl,
    )

    on_cancel_request :
        writer_on_request n (name ++ suffix cancel_request) entity
        ≡ some (writer_update cancel_request name)
    unfolding writer_on_request
    on_cancel_request = rw (
      cancel_request_not_goal name,
      ends_with-append name (suffix cancel_request),
      slice_to-append_sub name 47 (codes "_action/cancel_goalRequest") 27 refl refl,
    )

    on_result_request :
        writer_on_request n (name ++ suffix result_request) entity
        ≡ some (writer_update result_request name)
    unfolding writer_on_request
    on_result_request = rw (
      result_request_not_goal name,
      result_request_not_cancel name,
      ends_with-append name (suffix result_request),
      slice_to-append_sub name 47 (codes "_action/get_resultRequest") 26 refl refl,
    )

    on_request :
        IsPlain request name
        → writer_on_request n (name ++ suffix request) entity ≡ some (writer_update request name)
    unfolding writer_on_request
    on_request plain = rw (
      request_not_goal name plain,
      request_not_cancel name plain,
      request_not_result name plain,
      ends_with-append name (suffix request),
      slice_to-append_sub name 82 (codes "equest") 7 refl refl,
    )

    on_goal_reply :
        writer_on_reply n (name ++ suffix goal_reply) entity ≡ some (writer_update goal_reply name)
    unfolding writer_on_reply
    on_goal_reply = rw (
      ends_with-append name (suffix goal_reply),
      slice_to-append_sub name 47 (codes "_action/send_goalReply") 23 refl refl,
    )

    on_cancel_reply :
        writer_on_reply n (name ++ suffix cancel_reply) entity
        ≡ some (writer_update cancel_reply name)
    unfolding writer_on_reply
    on_cancel_reply = rw (
      cancel_reply_not_goal name,
      ends_with-append name (suffix cancel_reply),
      slice_to-append_sub name 47 (codes "_action/cancel_goalReply") 25 refl refl,
    )

    on_result_reply :
        writer_on_reply n (name ++ suffix result_reply) entity
        ≡ some (writer_update result_reply name)
    unfolding writer_on_reply
    on_result_reply = rw (
      result_reply_not_goal name,
      result_reply_not_cancel name,
      ends_with-append name (suffix result_reply),
      slice_to-append_sub name 47 (codes "_action/get_resultReply") 24 refl refl,
    )

    on_reply :
        IsPlain reply name
        → writer_on_reply n (name ++ suffix reply) entity ≡ some (writer_update reply name)
    unfolding writer_on_reply
    on_reply plain = rw (
      reply_not_goal name plain,
      reply_not_cancel name plain,
      reply_not_result name plain,
      ends_with-append name (suffix reply),
      slice_to-append_sub name 82 (codes "eply") 5 refl refl,
    )

  module _ (c : ℕ) (rest : Text) (start : is_continuation c ≡ false) where
    message_arm :
        writer_on_topic n (codes "rt/" ++ c ∷ rest) entity
        ≡ writer_on_message n (47 ∷ c ∷ rest) entity
    unfolding writer_on_topic str_eq
    message_arm =
        rw (slice_to_three 114 116 47 c rest start, slice_from_two 114 116 47 (c ∷ rest) refl)

    request_arm :
        writer_on_topic n (codes "rq/" ++ c ∷ rest) entity
        ≡ writer_on_request n (47 ∷ c ∷ rest) entity
    unfolding writer_on_topic str_eq
    request_arm =
        rw (slice_to_three 114 113 47 c rest start, slice_from_two 114 113 47 (c ∷ rest) refl)

    reply_arm :
        writer_on_topic n (codes "rr/" ++ c ∷ rest) entity
        ≡ writer_on_reply n (47 ∷ c ∷ rest) entity
    unfolding writer_on_topic str_eq
    reply_arm =
        rw (slice_to_three 114 114 47 c rest start, slice_from_two 114 114 47 (c ∷ rest) refl)

  on_topic :
      (ch : Channel) (c : ℕ) (rest : Text)
      → is_continuation c ≡ false
      → IsPlain ch (47 ∷ c ∷ rest)
      → writer_on_topic n (topic ch (47 ∷ c ∷ rest)) entity
        ≡ some (writer_update ch (47 ∷ c ∷ rest))
  on_topic message c rest start plain =
      rw append-nil (message_arm c rest start ∙ on_plain_message (47 ∷ c ∷ rest) plain)
  on_topic status c rest start plain =
      message_arm c (rest ++ suffix status) start ∙ on_status (47 ∷ c ∷ rest)
  on_topic feedback c rest start plain =
      message_arm c (rest ++ suffix feedback) start ∙ on_feedback (47 ∷ c ∷ rest)
  on_topic request c rest start plain =
      request_arm c (rest ++ suffix request) start ∙ on_request (47 ∷ c ∷ rest) plain
  on_topic goal_request c rest start plain =
      request_arm c (rest ++ suffix goal_request) start ∙ on_goal_request (47 ∷ c ∷ rest)
  on_topic cancel_request c rest start plain =
      request_arm c (rest ++ suffix cancel_request) start ∙ on_cancel_request (47 ∷ c ∷ rest)
  on_topic result_request c rest start plain =
      request_arm c (rest ++ suffix result_request) start ∙ on_result_request (47 ∷ c ∷ rest)
  on_topic reply c rest start plain =
      reply_arm c (rest ++ suffix reply) start ∙ on_reply (47 ∷ c ∷ rest) plain
  on_topic goal_reply c rest start plain =
      reply_arm c (rest ++ suffix goal_reply) start ∙ on_goal_reply (47 ∷ c ∷ rest)
  on_topic cancel_reply c rest start plain =
      reply_arm c (rest ++ suffix cancel_reply) start ∙ on_cancel_reply (47 ∷ c ∷ rest)
  on_topic result_reply c rest start plain =
      reply_arm c (rest ++ suffix result_reply) start ∙ on_result_reply (47 ∷ c ∷ rest)

-- A writer on the topic of an interface makes the update of that channel, with the interface's name,
-- whatever the node: for every channel and every name that is '/' and a character, provided that a
-- message's name is not an action's feedback or status, and a service's name not one of an action's.
pub update_with_writer-topic :
    ⦃x : Externals⦄ {Q : Type 0} (n : NodeInfo) (entity : DdsEntity Q) (ch : Channel) (c : ℕ)
    (rest : Text)
    → is_continuation c ≡ false
    → IsPlain ch (47 ∷ c ∷ rest)
    → entity.topic_name ≡ topic ch (47 ∷ c ∷ rest)
    → update_with_writer n entity ≡ some (writer_update n entity ch (47 ∷ c ∷ rest))
unfolding update_with_writer
update_with_writer-topic n entity ch c rest start plain e =
    ap (λ (t : Text). writer_on_topic n t entity) e ∙ on_topic n entity ch c rest start plain
