-- ===== src/Ros2Utils.antt =====
-- zenoh-plugin-ros2dds/src/ros2_utils.rs: the names and types of ROS 2 interfaces.
pub mod Names
pub mod KeyExpressions
use zenoh_plugin_ros2dds.Base.{
  ℕ, zero, suc, ◌-◌, Text, codes, String, Bool, not, ◌||◌, Option, none, some, List, [], ◌∷◌, ◌++◌,
  length, take, starts_with, ends_with, strip_suffix, if◌then◌else◌,
}
use zenoh_plugin_ros2dds.Externals.{Externals}

-- `str::replace`, for a pattern that is not empty. `skip` bytes of a match are still to be passed.
replace_from : ℕ → Text → Text → Text → Text
replace_from skip pattern to [] = []
replace_from (suc skip) pattern to (b ∷ s) = replace_from skip pattern to s
replace_from zero pattern to (b ∷ s) =
    let found = starts_with (b ∷ s) pattern in
    let rest = replace_from (if found then length pattern - 1 else 0) pattern to s in
    if found then to ++ rest else b ∷ rest

unfoldable pub replace : Text → Text → Text → Text
unfolding replace_from starts_with
replace s pattern to = replace_from 0 pattern to s

-- `Option::or`
abbrev or : Option Text → Option Text → Option Text
or none b = b
or (some a) b = some a

abbrev or_self : Option Text → Text → Text
or_self none d = d
or_self (some a) d = a

-- The byte dropped is '_', so the slice never panics.
unfoldable pub dds_type_to_ros2_message_type : Text → Text
unfolding replace ends_with
dds_type_to_ros2_message_type dds_topic =
    let result =
      replace (replace dds_topic (codes "::dds_::") (codes "::")) (codes "::") (codes "/") in
    if ends_with result (codes "_") then take (length result - 1) result else result

unfoldable pub dds_type_to_ros2_service_type : Text → Text
unfolding dds_type_to_ros2_message_type strip_suffix
dds_type_to_ros2_service_type dds_topic = dds_type_to_ros2_message_type (
    or_self
      (or (strip_suffix dds_topic (codes "_Request_"))
        (strip_suffix dds_topic (codes "_Response_")))
      dds_topic)

unfoldable pub dds_type_to_ros2_action_type : Text → Text
unfolding dds_type_to_ros2_message_type strip_suffix
dds_type_to_ros2_action_type dds_topic = dds_type_to_ros2_message_type (
    or_self
      (or (strip_suffix dds_topic (codes "_SendGoal_Request_")) (
        or (strip_suffix dds_topic (codes "_SendGoal_Response_")) (
          or (strip_suffix dds_topic (codes "_GetResult_Request_")) (
            or (strip_suffix dds_topic (codes "_GetResult_Response_"))
              (strip_suffix dds_topic (codes "_FeedbackMessage_"))))))
      dds_topic)

-- `Ok(())` is `some tt` and `Err(_)`, whose message is only logged, is `none`. The text that the
-- source hands to `KeyExpr::try_from` is this literal, and not the name.
unfoldable pub check_ros_name : ⦃x : Externals⦄ → Text → Option (Unit {0})
unfolding starts_with
check_ros_name ⦃x⦄ name =
    if not (starts_with name (codes "/")) || not (x.is_key_expr (codes "&(name[1..])"))
    then none
    else some tt

unfoldable pub is_service_for_action : Text → Bool
is_service_for_action ros2_service_name =
    ends_with ros2_service_name (codes "_action/send_goal")
    || ends_with ros2_service_name (codes "_action/cancel_goal")
    || ends_with ros2_service_name (codes "_action/get_result")

unfoldable pub is_message_for_action : Text → Bool
is_message_for_action ros2_message_name =
    ends_with ros2_message_name (codes "_action/feedback")
    || ends_with ros2_message_name (codes "_action/status")
