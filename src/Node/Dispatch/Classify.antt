-- ===== src/Node/Dispatch/Classify.antt =====
-- The decision that `update_with_reader` and `update_with_writer` share, apart from the node: which
-- channel of which interface a topic stands for.
use zenoh_plugin_ros2dds.Base.{
  ℕ, ◌≡◌, ◌-◌, Text, codes, Option, none, some, length, str_eq, ends_with, slice_to, slice_from,
  unwrap_or, [], if◌then◌else◌, arith,
}
use zenoh_plugin_ros2dds.Externals.{Externals}
use zenoh_plugin_ros2dds.Dds.{DdsEntity}
use zenoh_plugin_ros2dds.Node.{NodeInfo}
use zenoh_plugin_ros2dds.Node.Update.{Updated}
use zenoh_plugin_ros2dds.Node.Dispatch.{
  reader_on_message, reader_on_request, reader_on_reply, reader_on_topic, update_with_reader,
  writer_on_message, writer_on_request, writer_on_reply, writer_on_topic, update_with_writer,
}
use zenoh_plugin_ros2dds.Node.Dispatch.Channels.{
  Channel, message, status, feedback, request, goal_request, cancel_request, result_request, reply,
  goal_reply, cancel_reply, result_reply,
}
use zenoh_plugin_ros2dds.Node.Dispatch.ReaderTopics.{reader_update}
use zenoh_plugin_ros2dds.Node.Dispatch.WriterTopics.{writer_update}

-- A panic, a topic that is ignored, or a channel and a name.
pub data Use : Type 0 where
  panics ignored : Use
  used : Channel → Text → Use

abbrev named : Channel → Option Text → Use
named ch none = panics
named ch (some name) = used ch name

abbrev cut : Channel → Text → ℕ → Use
cut ch suffix n = named ch (slice_to suffix (length suffix - n))

message_use : Text → Use
message_use suffix =
    if ends_with suffix (codes "/_action/status")
    then cut status suffix 15
    else if ends_with suffix (codes "/_action/feedback")
    then cut feedback suffix 17
    else used message suffix

request_use : Text → Use
request_use suffix =
    if ends_with suffix (codes "/_action/send_goalRequest")
    then cut goal_request suffix 25
    else if ends_with suffix (codes "/_action/cancel_goalRequest")
    then cut cancel_request suffix 27
    else if ends_with suffix (codes "/_action/get_resultRequest")
    then cut result_request suffix 26
    else if ends_with suffix (codes "Request")
    then cut request suffix 7
    else ignored

reply_use : Text → Use
reply_use suffix =
    if ends_with suffix (codes "/_action/send_goalReply")
    then cut goal_reply suffix 23
    else if ends_with suffix (codes "/_action/cancel_goalReply")
    then cut cancel_reply suffix 25
    else if ends_with suffix (codes "/_action/get_resultReply")
    then cut result_reply suffix 24
    else if ends_with suffix (codes "Reply")
    then cut reply suffix 5
    else ignored

abbrev topic_parts : Option Text → Option Text → Use
topic_parts none suffix = panics
topic_parts (some prefix) none = panics
topic_parts (some prefix) (some suffix) =
    if str_eq prefix (codes "rt/")
    then message_use suffix
    else if str_eq prefix (codes "rq/")
    then request_use suffix
    else if str_eq prefix (codes "rr/")
    then reply_use suffix
    else ignored

pub topic_use : Text → Use
topic_use topic_name = topic_parts (slice_to topic_name 3) (slice_from topic_name 2)

module _ ⦃x : Externals⦄ {Q : Type 0} where
  abbrev pub reader_run : NodeInfo → DdsEntity Q → Use → Option Updated
  reader_run n entity panics = none
  reader_run n entity ignored = some (n, none)
  reader_run n entity (used ch name) = some (reader_update n entity ch name)

  abbrev pub writer_run : NodeInfo → DdsEntity Q → Use → Option Updated
  writer_run n entity panics = none
  writer_run n entity ignored = some (n, none)
  writer_run n entity (used ch name) = some (writer_update n entity ch name)

  module _ (n : NodeInfo) (entity : DdsEntity Q) where
    reader_message_use :
        (suffix : Text)
        → reader_on_message n suffix entity ≡ reader_run n entity (message_use suffix)
    unfolding reader_on_message message_use
    reader_message_use suffix = ground arith

    reader_request_use :
        (suffix : Text)
        → reader_on_request n suffix entity ≡ reader_run n entity (request_use suffix)
    unfolding reader_on_request request_use
    reader_request_use suffix = ground arith

    reader_reply_use :
        (suffix : Text) → reader_on_reply n suffix entity ≡ reader_run n entity (reply_use suffix)
    unfolding reader_on_reply reply_use
    reader_reply_use suffix = ground arith

    -- `update_with_reader` is determined by the use of the topic.
    pub update_with_reader-use :
        update_with_reader n entity ≡ reader_run n entity (topic_use entity.topic_name)
    unfolding update_with_reader reader_on_topic topic_use
    update_with_reader-use =
        let suffix = unwrap_or (slice_from entity.topic_name 2) [] in
        ground
          (arith, reader_message_use suffix, reader_request_use suffix, reader_reply_use suffix)

  module _ (n : NodeInfo) (entity : DdsEntity Q) where
    writer_message_use :
        (suffix : Text)
        → writer_on_message n suffix entity ≡ writer_run n entity (message_use suffix)
    unfolding writer_on_message message_use
    writer_message_use suffix = ground arith

    writer_request_use :
        (suffix : Text)
        → writer_on_request n suffix entity ≡ writer_run n entity (request_use suffix)
    unfolding writer_on_request request_use
    writer_request_use suffix = ground arith

    writer_reply_use :
        (suffix : Text) → writer_on_reply n suffix entity ≡ writer_run n entity (reply_use suffix)
    unfolding writer_on_reply reply_use
    writer_reply_use suffix = ground arith

    -- `update_with_writer` is determined by the use of the topic.
    pub update_with_writer-use :
        update_with_writer n entity ≡ writer_run n entity (topic_use entity.topic_name)
    unfolding update_with_writer writer_on_topic topic_use
    update_with_writer-use =
        let suffix = unwrap_or (slice_from entity.topic_name 2) [] in
        ground
          (arith, writer_message_use suffix, writer_request_use suffix, writer_reply_use suffix)
