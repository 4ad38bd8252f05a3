-- ===== src/Routes/ServiceCli.antt =====
-- `RouteServiceCli` of zenoh-plugin-ros2dds/src/route_service_cli.rs: what it serves.
use zenoh_plugin_ros2dds.Base.{
  Text, Bool, true, false, not, ◌&&◌, ◌==◌, length, is_empty, Option, some, if◌then◌else◌,
}
use zenoh_plugin_ros2dds.Interfaces.{without, set_insert}
use zenoh_plugin_ros2dds.Ros2Utils.{is_service_for_action}
use zenoh_plugin_ros2dds.Routes.{
  Route, Calls, declare_token, with_token, remote_key, retain_others, is_shorter,
}

module _ ⦃c : Calls⦄ where
  abbrev pub announce_route : Route → Option Route
  announce_route r =
      if is_service_for_action r.ros2_name then some r else with_token r (declare_token r.ros2_name)

  unfoldable pub add_local_node : Text → Route → Option Route
  add_local_node node r =
      let r' = record r { local_nodes = (set_insert node r.local_nodes).0 } in
      if length r'.local_nodes == 1 then announce_route r' else some r'

  -- The matching listener may not fire again, so the DDS entities are made here.
  unfoldable pub add_remote_route : Text → Text → Route → Route
  add_remote_route zenoh_id zenoh_key_expr r =
      let r' = record r {
        remote_routes = (set_insert (remote_key zenoh_id zenoh_key_expr) r.remote_routes).0;
      } in
      if not r.active && c.matches r.ros2_name && c.activates r.ros2_name
      then record r' { active = true }
      else r'

abbrev pub retire_route : Route → Route
retire_route r = record r { announced = false }

unfoldable pub remove_local_node : Text → Route → Route
remove_local_node node r =
    let r' = record r { local_nodes = without node r.local_nodes } in
    if is_empty r'.local_nodes then retire_route r' else r'

-- Without a remote route, the DDS entities are deleted.
abbrev pub deactivate_if_alone : Route → Route
deactivate_if_alone r = if is_empty r.remote_routes then record r { active = false } else r

unfoldable pub remove_remote_route : Text → Text → Route → Route
remove_remote_route zenoh_id zenoh_key_expr r =
    deactivate_if_alone
      (record r { remote_routes = without (remote_key zenoh_id zenoh_key_expr) r.remote_routes })

unfoldable pub prune_remote_routes_with_prefix : Text → Route → Route × Bool
prune_remote_routes_with_prefix prefix r =
    let r' = record r { remote_routes = retain_others prefix r.remote_routes } in
    if is_shorter prefix r.remote_routes then (deactivate_if_alone r', true) else (r', false)
