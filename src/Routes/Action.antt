-- ===== src/Routes/Action.antt =====
-- `RouteActionSrv` and `RouteActionCli` of zenoh-plugin-ros2dds/src/route_action_srv.rs and
-- route_action_cli.rs: three routes of services and two of messages. A server's are service servers
-- and publishers, a client's are service clients and subscribers.
use zenoh_plugin_ros2dds.Base.{
  Text, codes, Bool, true, false, ◌&&◌, ◌||◌, List, [], ◌++◌, ◌==◌, length, is_empty, any,
  starts_with, Option, some, if◌then◌else◌,
}
use zenoh_plugin_ros2dds.Externals.{KeyExprs}
use zenoh_plugin_ros2dds.Interfaces.{without, set_insert}
use zenoh_plugin_ros2dds.Node.Dispatch.{◌>>=◌}
use zenoh_plugin_ros2dds.Routes.{Route, Calls, declare_token, remote_key, retain_others, is_shorter}
use zenoh_plugin_ros2dds.Routes.Interface.{
  RouteOps, publisher_ops, subscriber_ops, service_srv_ops, service_cli_ops,
}

pub record ActionRoute : Type 0 where
  pub ros2_name : Text
  pub is_active : Bool
  pub announced : Bool
  pub route_send_goal : Route
  pub route_cancel_goal : Route
  pub route_get_result : Route
  pub route_feedback : Route
  pub route_status : Route
  pub remote_routes : List Text
  pub local_nodes : List Text

abbrev pub retire_route : ActionRoute → ActionRoute
retire_route r = record r { is_active = false; announced = false }

module _ ⦃c : Calls⦄ where
  -- The route is active even when its token is not declared.
  abbrev pub announce_route : ActionRoute → Option ActionRoute
  announce_route r = do
    declared ← declare_token r.ros2_name
    some (record r { is_active = true; announced = r.announced || declared })

  -- The route is announced for its first node.
  abbrev pub announce_first : ActionRoute → Option ActionRoute
  announce_first r = if length r.local_nodes == 1 then announce_route r else some r

-- Over the routes of its services and of its messages.
module _ ⦃k : KeyExprs⦄ ⦃c : Calls⦄ (services messages : RouteOps Route) where
  unfoldable pub create : Text → ActionRoute
  create ros2_name = record {
    ros2_name = ros2_name;
    is_active = false;
    announced = false;
    route_send_goal = services.create (ros2_name ++ codes "/_action/send_goal");
    route_cancel_goal = services.create (ros2_name ++ codes "/_action/cancel_goal");
    route_get_result = services.create (ros2_name ++ codes "/_action/get_result");
    route_feedback = messages.create (ros2_name ++ codes "/_action/feedback");
    route_status = messages.create (ros2_name ++ codes "/_action/status");
    remote_routes = [];
    local_nodes = [];
  }

  -- Each route with its part of the action's key expression, which was announced: with one, the
  -- operator `/` does not panic.
  abbrev pub at_parts : Text → (RouteOps Route → Text → Route → Route) → ActionRoute → ActionRoute
  at_parts ke f r = record r {
    route_send_goal = f services (k.join ke (codes "_action/send_goal")) r.route_send_goal;
    route_cancel_goal = f services (k.join ke (codes "_action/cancel_goal")) r.route_cancel_goal;
    route_get_result = f services (k.join ke (codes "_action/get_result")) r.route_get_result;
    route_feedback = f messages (k.join ke (codes "_action/feedback")) r.route_feedback;
    route_status = f messages (k.join ke (codes "_action/status")) r.route_status;
  }

  unfoldable pub add_remote_route : Text → Text → ActionRoute → ActionRoute
  add_remote_route zenoh_id ke r =
      let r' = at_parts ke (λ o part s. o.add_remote_route zenoh_id part s) r in
      record r' { remote_routes = (set_insert (remote_key zenoh_id ke) r.remote_routes).0 }

  unfoldable pub remove_remote_route : Text → Text → ActionRoute → ActionRoute
  remove_remote_route zenoh_id ke r =
      let r' = at_parts ke (λ o part s. o.remove_remote_route zenoh_id part s) r in
      record r' { remote_routes = without (remote_key zenoh_id ke) r.remote_routes }

  unfoldable pub prune_remote_routes_with_prefix : Text → ActionRoute → ActionRoute × Bool
  prune_remote_routes_with_prefix prefix r =
      let send_goal = services.prune prefix r.route_send_goal in
      let cancel_goal = services.prune prefix r.route_cancel_goal in
      let get_result = services.prune prefix r.route_get_result in
      let feedback = messages.prune prefix r.route_feedback in
      let status = messages.prune prefix r.route_status in
      let pruned = send_goal.1 || cancel_goal.1 || get_result.1 || feedback.1 || status.1 in
      (
        record r {
          route_send_goal = send_goal.0;
          route_cancel_goal = cancel_goal.0;
          route_get_result = get_result.0;
          route_feedback = feedback.0;
          route_status = status.0;
          remote_routes = retain_others prefix r.remote_routes;
        },
        pruned || is_shorter prefix r.remote_routes,
      )

  unfoldable pub add_local_node : Text → ActionRoute → Option ActionRoute
  add_local_node node r = do
    send_goal ← services.add_local_node node r.route_send_goal
    cancel_goal ← services.add_local_node node r.route_cancel_goal
    get_result ← services.add_local_node node r.route_get_result
    feedback ← messages.add_local_node node r.route_feedback
    status ← messages.add_local_node node r.route_status
    announce_first (record r {
      route_send_goal = send_goal;
      route_cancel_goal = cancel_goal;
      route_get_result = get_result;
      route_feedback = feedback;
      route_status = status;
      local_nodes = (set_insert node r.local_nodes).0;
    })

  unfoldable pub remove_local_node : Text → ActionRoute → ActionRoute
  remove_local_node node r =
      let r' = record r {
        route_send_goal = services.remove_local_node node r.route_send_goal;
        route_cancel_goal = services.remove_local_node node r.route_cancel_goal;
        route_get_result = services.remove_local_node node r.route_get_result;
        route_feedback = messages.remove_local_node node r.route_feedback;
        route_status = messages.remove_local_node node r.route_status;
        local_nodes = without node r.local_nodes;
      } in
      if is_empty r'.local_nodes then retire_route r' else r'

  unfoldable pub is_unused : ActionRoute → Bool
  is_unused r =
      services.is_unused r.route_send_goal
      && services.is_unused r.route_cancel_goal
      && services.is_unused r.route_get_result
      && messages.is_unused r.route_status
      && messages.is_unused r.route_feedback

  abbrev pub serves : Text → ActionRoute → Bool
  serves prefix r =
      services.serves prefix r.route_send_goal
      || services.serves prefix r.route_cancel_goal
      || services.serves prefix r.route_get_result
      || messages.serves prefix r.route_feedback
      || messages.serves prefix r.route_status
      || any (λ e. starts_with e prefix) r.remote_routes

  abbrev pub action_ops : RouteOps ActionRoute
  action_ops = record {
    create = create;
    is_unused = is_unused;
    add_local_node = add_local_node;
    remove_local_node = remove_local_node;
    add_remote_route = add_remote_route;
    remove_remote_route = remove_remote_route;
    prune = prune_remote_routes_with_prefix;
    serves = serves;
  }

module _ ⦃k : KeyExprs⦄ ⦃c : Calls⦄ where
  abbrev pub action_srv_ops : RouteOps ActionRoute
  action_srv_ops = action_ops service_srv_ops publisher_ops

  abbrev pub action_cli_ops : RouteOps ActionRoute
  action_cli_ops = action_ops service_cli_ops subscriber_ops
