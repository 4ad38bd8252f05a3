-- ===== src/Routes/Subscriber.antt =====
-- `RouteSubscriber` of zenoh-plugin-ros2dds/src/route_subscriber.rs: what it serves. `Q` is the type of
-- the QoS and `qos_text` stands for the text of an announced QoS in a key.
use zenoh_plugin_ros2dds.Base.{
  Text, codes, Bool, true, false, ◌&&◌, ◌==◌, ◌++◌, length, is_empty, Option, some, if◌then◌else◌,
}
use zenoh_plugin_ros2dds.Interfaces.{contains, without, set_insert}
use zenoh_plugin_ros2dds.Ros2Utils.{is_message_for_action}
use zenoh_plugin_ros2dds.Routes.{
  Route, Calls, declare_token, with_token, remote_key, retain_others, is_shorter,
}

abbrev pub matched_readers_key : Text
matched_readers_key = codes "<matched_dds_readers>"

module _ ⦃c : Calls⦄ where
  -- The writer and the zenoh subscriber come first, and without them there is no token.
  abbrev pub announce_route : Route → Option Route
  announce_route r =
      let subscriber = record r { active = true } in
      if c.activates r.ros2_name
      then (if is_message_for_action r.ros2_name
          then some subscriber
          else with_token subscriber (declare_token r.ros2_name))
      else some r

  unfoldable pub add_local_node : Text → Route → Option Route
  add_local_node entity_key r =
      let r' = record r { local_nodes = (set_insert entity_key r.local_nodes).0 } in
      if length r'.local_nodes == 1 then announce_route r' else some r'

abbrev pub retire_route : Route → Route
retire_route r = record r { active = false; announced = false }

unfoldable pub remove_local_node : Text → Route → Route
remove_local_node entity_key r =
    let r' = record r { local_nodes = without entity_key r.local_nodes } in
    if is_empty r'.local_nodes then retire_route r' else r'

-- A matched DDS Reader is local interest, whether its node declares it or not.
unfoldable pub update_matched_readers : ⦃c : Calls⦄ → Bool → Route → Option Route
unfolding contains
update_matched_readers true r =
    let (nodes, is_new) = set_insert matched_readers_key r.local_nodes in
    let r' = record r { local_nodes = nodes } in
    if is_new && (length nodes == 1) then announce_route r' else some r'
update_matched_readers false r =
    let r' = record r { local_nodes = without matched_readers_key r.local_nodes } in
    if contains matched_readers_key r.local_nodes && is_empty r'.local_nodes
    then some (retire_route r')
    else some r'

unfoldable pub add_remote_route : Text → Text → Route → Route
add_remote_route zenoh_id zenoh_key_expr r = record r {
  remote_routes = (set_insert (remote_key zenoh_id zenoh_key_expr) r.remote_routes).0;
}

unfoldable pub remove_remote_route : Text → Text → Route → Route
remove_remote_route zenoh_id zenoh_key_expr r = record r {
  remote_routes = without (remote_key zenoh_id zenoh_key_expr) r.remote_routes;
}

-- "<zenoh_id>:<zenoh_key_expr>:<qos>"
abbrev pub remote_publisher_key : Text → Text → Text → Text
remote_publisher_key zenoh_id zenoh_key_expr qos_text =
    remote_key zenoh_id (zenoh_key_expr ++ (codes ":" ++ qos_text))

unfoldable pub add_remote_publisher : Text → Text → Text → Route → Route
add_remote_publisher zenoh_id zenoh_key_expr qos_text r = record r {
  remote_routes =
      (set_insert (remote_publisher_key zenoh_id zenoh_key_expr qos_text) r.remote_routes).0;
}

unfoldable pub remove_remote_publisher : Text → Text → Text → Route → Route
remove_remote_publisher zenoh_id zenoh_key_expr qos_text r = record r {
  remote_routes = without (remote_publisher_key zenoh_id zenoh_key_expr qos_text) r.remote_routes;
}

unfoldable pub prune_remote_routes_with_prefix : Text → Route → Route × Bool
prune_remote_routes_with_prefix prefix r = (
  record r { remote_routes = retain_others prefix r.remote_routes },
  is_shorter prefix r.remote_routes,
)
