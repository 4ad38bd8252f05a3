-- ===== src/Node/Dispatch/Channels.antt =====
-- The DDS topics of ROS 2 interfaces.
use zenoh_plugin_ros2dds.Base.{◌≡◌, false, Text, codes, [], ◌++◌}
use zenoh_plugin_ros2dds.Ros2Utils.{is_message_for_action, is_service_for_action}

-- What a DDS topic carries for an interface.
pub data Channel : Type 0 where
  message status feedback : Channel
  request goal_request cancel_request result_request : Channel
  reply goal_reply cancel_reply result_reply : Channel

-- The topic's name is the prefix, the interface's name and the suffix.
abbrev pub prefix : Channel → Text
prefix message = codes "rt"
prefix status = codes "rt"
prefix feedback = codes "rt"
prefix request = codes "rq"
prefix goal_request = codes "rq"
prefix cancel_request = codes "rq"
prefix result_request = codes "rq"
prefix reply = codes "rr"
prefix goal_reply = codes "rr"
prefix cancel_reply = codes "rr"
prefix result_reply = codes "rr"

abbrev pub suffix : Channel → Text
suffix message = []
suffix status = codes "/_action/status"
suffix feedback = codes "/_action/feedback"
suffix request = codes "Request"
suffix goal_request = codes "/_action/send_goalRequest"
suffix cancel_request = codes "/_action/cancel_goalRequest"
suffix result_request = codes "/_action/get_resultRequest"
suffix reply = codes "Reply"
suffix goal_reply = codes "/_action/send_goalReply"
suffix cancel_reply = codes "/_action/cancel_goalReply"
suffix result_reply = codes "/_action/get_resultReply"

abbrev pub topic : Channel → Text → Text
topic ch name = prefix ch ++ (name ++ suffix ch)

-- A message or service of its own, and not one that belongs to an action.
abbrev pub IsPlain : Channel → Text → Type 0
IsPlain message name = is_message_for_action name ≡ false
IsPlain request name = is_service_for_action name ≡ false
IsPlain reply name = is_service_for_action name ≡ false
IsPlain _ name = Unit
