-- ===== src/Node/Dispatch/Suffixes.antt =====
-- Which of the suffixes of action topics a topic has.
use zenoh_plugin_ros2dds.Base.{
  ◌≡◌, refl, false, Text, codes, ◌++◌, Bool-cases, inl, inr, ends_with, str_eq, arith,
}
use zenoh_plugin_ros2dds.Base.Affixes.{
  ends_with_trans, not_ends_with, not_ends_with_long, not_ends_with_both,
}
use zenoh_plugin_ros2dds.Ros2Utils.{is_message_for_action, is_service_for_action}

-- A suffix that is absent is absent with more in front of it.
not_longer : (s v u : Text) → ends_with s u ≡ false → ends_with s (v ++ u) ≡ false
not_longer s v u h = elim (Bool-cases (ends_with s (v ++ u))) [
  | inl found ↦ cc (ends_with_trans s v u found)
  | inr absent ↦ absent
]

module _ (name : Text) where
  pub feedback_not_status :
      ends_with (name ++ codes "/_action/feedback") (codes "/_action/status") ≡ false
  feedback_not_status =
      not_ends_with name (codes "/_action/feedback") (codes "/_action/status") (omega arith)
        (unfold ends_with str_eq in refl)

  pub message_not_status :
      is_message_for_action name ≡ false → ends_with name (codes "/_action/status") ≡ false
  unfolding is_message_for_action
  message_not_status h = not_longer name (codes "/") (codes "_action/status") (ground arith)

  pub message_not_feedback :
      is_message_for_action name ≡ false → ends_with name (codes "/_action/feedback") ≡ false
  unfolding is_message_for_action
  message_not_feedback h = not_longer name (codes "/") (codes "_action/feedback") (ground arith)

  service_not_goal :
      is_service_for_action name ≡ false → ends_with name (codes "/_action/send_goal") ≡ false
  unfolding is_service_for_action
  service_not_goal h = not_longer name (codes "/") (codes "_action/send_goal") (ground arith)

  service_not_cancel :
      is_service_for_action name ≡ false → ends_with name (codes "/_action/cancel_goal") ≡ false
  unfolding is_service_for_action
  service_not_cancel h = not_longer name (codes "/") (codes "_action/cancel_goal") (ground arith)

  service_not_result :
      is_service_for_action name ≡ false → ends_with name (codes "/_action/get_result") ≡ false
  unfolding is_service_for_action
  service_not_result h = not_longer name (codes "/") (codes "_action/get_result") (ground arith)

  pub cancel_request_not_goal :
      ends_with (name ++ codes "/_action/cancel_goalRequest") (codes "/_action/send_goalRequest")
      ≡ false
  cancel_request_not_goal =
      not_ends_with name (codes "/_action/cancel_goalRequest") (codes "/_action/send_goalRequest")
        (omega arith) (unfold ends_with str_eq in refl)

  pub result_request_not_goal :
      ends_with (name ++ codes "/_action/get_resultRequest") (codes "/_action/send_goalRequest")
      ≡ false
  result_request_not_goal =
      not_ends_with name (codes "/_action/get_resultRequest") (codes "/_action/send_goalRequest")
        (omega arith) (unfold ends_with str_eq in refl)

  pub result_request_not_cancel :
      ends_with (name ++ codes "/_action/get_resultRequest") (codes "/_action/cancel_goalRequest")
      ≡ false
  result_request_not_cancel =
      not_ends_with_long name (codes "/_action/get_resultRequest") (codes "/")
        (codes "_action/cancel_goalRequest") (omega arith) (unfold ends_with str_eq in refl)

  module _ (plain : is_service_for_action name ≡ false) where
    pub request_not_goal :
        ends_with (name ++ codes "Request") (codes "/_action/send_goalRequest") ≡ false
    request_not_goal =
        not_ends_with_both name (codes "/_action/send_goal") (codes "Request")
          (service_not_goal plain)

    pub request_not_cancel :
        ends_with (name ++ codes "Request") (codes "/_action/cancel_goalRequest") ≡ false
    request_not_cancel =
        not_ends_with_both name (codes "/_action/cancel_goal") (codes "Request")
          (service_not_cancel plain)

    pub request_not_result :
        ends_with (name ++ codes "Request") (codes "/_action/get_resultRequest") ≡ false
    request_not_result =
        not_ends_with_both name (codes "/_action/get_result") (codes "Request")
          (service_not_result plain)

  pub cancel_reply_not_goal :
      ends_with (name ++ codes "/_action/cancel_goalReply") (codes "/_action/send_goalReply")
      ≡ false
  cancel_reply_not_goal =
      not_ends_with name (codes "/_action/cancel_goalReply") (codes "/_action/send_goalReply")
        (omega arith) (unfold ends_with str_eq in refl)

  pub result_reply_not_goal :
      ends_with (name ++ codes "/_action/get_resultReply") (codes "/_action/send_goalReply") ≡ false
  result_reply_not_goal =
      not_ends_with name (codes "/_action/get_resultReply") (codes "/_action/send_goalReply")
        (omega arith) (unfold ends_with str_eq in refl)

  pub result_reply_not_cancel :
      ends_with (name ++ codes "/_action/get_resultReply") (codes "/_action/cancel_goalReply")
      ≡ false
  result_reply_not_cancel =
      not_ends_with_long name (codes "/_action/get_resultReply") (codes "/")
        (codes "_action/cancel_goalReply") (omega arith) (unfold ends_with str_eq in refl)

  module _ (plain : is_service_for_action name ≡ false) where
    pub reply_not_goal : ends_with (name ++ codes "Reply") (codes "/_action/send_goalReply") ≡ false
    reply_not_goal =
        not_ends_with_both name (codes "/_action/send_goal") (codes "Reply")
          (service_not_goal plain)

    pub reply_not_cancel :
        ends_with (name ++ codes "Reply") (codes "/_action/cancel_goalReply") ≡ false
    reply_not_cancel =
        not_ends_with_both name (codes "/_action/cancel_goal") (codes "Reply")
          (service_not_cancel plain)

    pub reply_not_result :
        ends_with (name ++ codes "Reply") (codes "/_action/get_resultReply") ≡ false
    reply_not_result =
        not_ends_with_both name (codes "/_action/get_result") (codes "Reply")
          (service_not_result plain)
