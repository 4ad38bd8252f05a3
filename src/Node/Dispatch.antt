-- ===== src/Node/Dispatch.antt =====
-- `update_with_reader` and `update_with_writer` of `NodeInfo`: what a DDS endpoint is for is read off
-- its topic name. `none` stands for the panic of a slice outside its text or inside a character.
pub mod Channels
pub mod Suffixes
pub mod Classify
pub mod ReaderKeeps
pub mod WriterKeeps
pub mod ReaderAgain
pub mod WriterAgain
pub mod ReaderTopics
pub mod WriterTopics
pub mod Short
use zenoh_plugin_ros2dds.Base.{
  ℕ, ◌-◌, Text, codes, Option, none, some, length, str_eq, ends_with, slice_to, slice_from,
  if◌then◌else◌,
}
use zenoh_plugin_ros2dds.Externals.{Externals}
use zenoh_plugin_ros2dds.Ros2Utils.{
  dds_type_to_ros2_message_type, dds_type_to_ros2_service_type, dds_type_to_ros2_action_type,
}
use zenoh_plugin_ros2dds.Dds.{DdsEntity}
use zenoh_plugin_ros2dds.Node.{NodeInfo}
use zenoh_plugin_ros2dds.Node.Update.{
  Updated, update_action_cli_cancel_rep_reader, update_action_cli_cancel_req_writer,
  update_action_cli_feedback_reader, update_action_cli_result_rep_reader,
  update_action_cli_result_req_writer, update_action_cli_send_rep_reader,
  update_action_cli_send_req_writer, update_action_cli_status_reader,
  update_action_srv_cancel_rep_writer, update_action_srv_cancel_req_reader,
  update_action_srv_feedback_writer, update_action_srv_result_rep_writer,
  update_action_srv_result_req_reader, update_action_srv_send_rep_writer,
  update_action_srv_send_req_reader, update_action_srv_status_writer, update_msg_pub,
  update_msg_sub, update_service_cli_rep_reader, update_service_cli_req_writer,
  update_service_srv_rep_writer, update_service_srv_req_reader,
}

infixl 5 ◌>>=◌
abbrev pub ◌>>=◌ {ℓ κ} : {A : Type ℓ} {B : Type κ} → Option A → (A → Option B) → Option B
none >>= f = none
some a >>= f = f a

-- `&topic_suffix[..topic_suffix.len() - n]`, handed to an update.
abbrev on_prefix : Text → ℕ → (Text → Updated) → Option Updated
on_prefix suffix n update = do name ← slice_to suffix (length suffix - n); some (update name)

module _ ⦃x : Externals⦄ {Q : Type 0} where
  -- The arms for the prefix "rt/", then "rq/", then "rr/".
  unfoldable pub reader_on_message : NodeInfo → Text → DdsEntity Q → Option Updated
  reader_on_message n suffix entity =
      if ends_with suffix (codes "/_action/status")
      then on_prefix suffix 15 (λ name. update_action_cli_status_reader n name entity.key)
      else if ends_with suffix (codes "/_action/feedback")
      then on_prefix suffix 17 (λ name.
        update_action_cli_feedback_reader n name (dds_type_to_ros2_action_type entity.type_name)
          entity.key)
      else some
          (update_msg_sub n suffix (dds_type_to_ros2_message_type entity.type_name) entity.key)

  unfoldable pub reader_on_request : NodeInfo → Text → DdsEntity Q → Option Updated
  reader_on_request n suffix entity =
      if ends_with suffix (codes "/_action/send_goalRequest")
      then on_prefix suffix 25 (λ name.
        update_action_srv_send_req_reader n name (dds_type_to_ros2_action_type entity.type_name)
          entity.key)
      else if ends_with suffix (codes "/_action/cancel_goalRequest")
      then on_prefix suffix 27 (λ name. update_action_srv_cancel_req_reader n name entity.key)
      else if ends_with suffix (codes "/_action/get_resultRequest")
      then on_prefix suffix 26 (λ name.
        update_action_srv_result_req_reader n name (dds_type_to_ros2_action_type entity.type_name)
          entity.key)
      else if ends_with suffix (codes "Request")
      then on_prefix suffix 7 (λ name.
        update_service_srv_req_reader n name (dds_type_to_ros2_service_type entity.type_name)
          entity.key)
      else some (n, none)

  unfoldable pub reader_on_reply : NodeInfo → Text → DdsEntity Q → Option Updated
  reader_on_reply n suffix entity =
      if ends_with suffix (codes "/_action/send_goalReply")
      then on_prefix suffix 23 (λ name.
        update_action_cli_send_rep_reader n name (dds_type_to_ros2_action_type entity.type_name)
          entity.key)
      else if ends_with suffix (codes "/_action/cancel_goalReply")
      then on_prefix suffix 25 (λ name. update_action_cli_cancel_rep_reader n name entity.key)
      else if ends_with suffix (codes "/_action/get_resultReply")
      then on_prefix suffix 24 (λ name.
        update_action_cli_result_rep_reader n name (dds_type_to_ros2_action_type entity.type_name)
          entity.key)
      else if ends_with suffix (codes "Reply")
      then on_prefix suffix 5 (λ name.
        update_service_cli_rep_reader n name (dds_type_to_ros2_service_type entity.type_name)
          entity.key)
      else some (n, none)

  -- The topic's name is an argument of its own.
  unfoldable pub reader_on_topic : NodeInfo → Text → DdsEntity Q → Option Updated
  reader_on_topic n topic_name entity = do
    prefix ← slice_to topic_name 3
    suffix ← slice_from topic_name 2
    if str_eq prefix (codes "rt/")
        then reader_on_message n suffix entity
        else if str_eq prefix (codes "rq/")
        then reader_on_request n suffix entity
        else if str_eq prefix (codes "rr/")
        then reader_on_reply n suffix entity
        else some (n, none)

  unfoldable pub update_with_reader : NodeInfo → DdsEntity Q → Option Updated
  update_with_reader n entity = reader_on_topic n entity.topic_name entity

  -- The arms for the prefix "rt/", then "rq/", then "rr/".
  unfoldable pub writer_on_message : NodeInfo → Text → DdsEntity Q → Option Updated
  writer_on_message n suffix entity =
      if ends_with suffix (codes "/_action/status")
      then on_prefix suffix 15 (λ name. update_action_srv_status_writer n name entity.key)
      else if ends_with suffix (codes "/_action/feedback")
      then on_prefix suffix 17 (λ name.
        update_action_srv_feedback_writer n name (dds_type_to_ros2_action_type entity.type_name)
          entity.key)
      else some
          (update_msg_pub n suffix (dds_type_to_ros2_message_type entity.type_name) entity.key)

  unfoldable pub writer_on_request : NodeInfo → Text → DdsEntity Q → Option Updated
  writer_on_request n suffix entity =
      if ends_with suffix (codes "/_action/send_goalRequest")
      then on_prefix suffix 25 (λ name.
        update_action_cli_send_req_writer n name (dds_type_to_ros2_action_type entity.type_name)
          entity.key)
      else if ends_with suffix (codes "/_action/cancel_goalRequest")
      then on_prefix suffix 27 (λ name. update_action_cli_cancel_req_writer n name entity.key)
      else if ends_with suffix (codes "/_action/get_resultRequest")
      then on_prefix suffix 26 (λ name.
        update_action_cli_result_req_writer n name (dds_type_to_ros2_action_type entity.type_name)
          entity.key)
      else if ends_with suffix (codes "Request")
      then on_prefix suffix 7 (λ name.
        update_service_cli_req_writer n name (dds_type_to_ros2_service_type entity.type_name)
          entity.key)
      else some (n, none)

  unfoldable pub writer_on_reply : NodeInfo → Text → DdsEntity Q → Option Updated
  writer_on_reply n suffix entity =
      if ends_with suffix (codes "/_action/send_goalReply")
      then on_prefix suffix 23 (λ name.
        update_action_srv_send_rep_writer n name (dds_type_to_ros2_action_type entity.type_name)
          entity.key)
      else if ends_with suffix (codes "/_action/cancel_goalReply")
      then on_prefix suffix 25 (λ name. update_action_srv_cancel_rep_writer n name entity.key)
      else if ends_with suffix (codes "/_action/get_resultReply")
      then on_prefix suffix 24 (λ name.
        update_action_srv_result_rep_writer n name (dds_type_to_ros2_action_type entity.type_name)
          entity.key)
      else if ends_with suffix (codes "Reply")
      then on_prefix suffix 5 (λ name.
        update_service_srv_rep_writer n name (dds_type_to_ros2_service_type entity.type_name)
          entity.key)
      else some (n, none)

  -- The topic's name is an argument of its own.
  unfoldable pub writer_on_topic : NodeInfo → Text → DdsEntity Q → Option Updated
  writer_on_topic n topic_name entity = do
    prefix ← slice_to topic_name 3
    suffix ← slice_from topic_name 2
    if str_eq prefix (codes "rt/")
        then writer_on_message n suffix entity
        else if str_eq prefix (codes "rq/")
        then writer_on_request n suffix entity
        else if str_eq prefix (codes "rr/")
        then writer_on_reply n suffix entity
        else some (n, none)

  unfoldable pub update_with_writer : NodeInfo → DdsEntity Q → Option Updated
  update_with_writer n entity = writer_on_topic n entity.topic_name entity
