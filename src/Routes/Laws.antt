-- ===== src/Routes/Laws.antt =====
-- The routes keep to the laws of the interface.
use zenoh_plugin_ros2dds.Base.{
  ◌≡◌, refl, Text, codes, true, false, Option, none, some, List, [], ◌∷◌, is_empty, any, filter,
  starts_with, arith,
}
use zenoh_plugin_ros2dds.Externals.{KeyExprs}
use zenoh_plugin_ros2dds.Interfaces.{contains, set_insert}
use zenoh_plugin_ros2dds.Routes.{
  Route, Calls, HasTokens, declare_token_lem, is_unused, remote_key, retain_others, is_shorter,
}
use zenoh_plugin_ros2dds.Routes.Publisher as Publisher
use zenoh_plugin_ros2dds.Routes.Subscriber as Subscriber
use zenoh_plugin_ros2dds.Routes.ServiceSrv as ServiceSrv
use zenoh_plugin_ros2dds.Routes.ServiceCli as ServiceCli
use zenoh_plugin_ros2dds.Routes.Interface.{
  RouteOps, RouteLaws, NodeLaws, fills, publisher_ops, subscriber_ops, service_srv_ops,
  service_cli_ops,
}
use zenoh_plugin_ros2dds.Routes.Action as Action
use zenoh_plugin_ros2dds.Routes.Action.{ActionRoute, action_ops}

set_insert-filled : (x : Text) (s : List Text) → is_empty (set_insert x s).0 ≡ false
unfolding set_insert contains
set_insert-filled x [] = refl
set_insert-filled x (y ∷ s) = ground arith

retain_others-gone :
    (prefix : Text) (s : List Text)
    → any (λ e. starts_with e prefix) (retain_others prefix s) ≡ false
unfolding any filter
retain_others-gone prefix [] = refl
retain_others-gone prefix (y ∷ s) = ground (arith, retain_others-gone prefix s)

retain_others-kept :
    (prefix other : Text) (s : List Text)
    → any (λ e. starts_with e other) s ≡ false
    → any (λ e. starts_with e other) (retain_others prefix s) ≡ false
unfolding any filter
retain_others-kept prefix other [] h = refl
retain_others-kept prefix other (y ∷ s) h = ground (arith, retain_others-kept prefix other s)

retain_others-same :
    (prefix : Text) (s : List Text)
    → is_shorter prefix s ≡ false
    → is_empty (retain_others prefix s) ≡ is_empty s
unfolding filter
retain_others-same prefix [] h = refl
retain_others-same prefix (y ∷ s) h = ground arith

module _ ⦃c : Calls⦄ where
  pub publisher_laws : RouteLaws Route publisher_ops
  unfolding Publisher.add_remote_route Publisher.prune_remote_routes_with_prefix
  publisher_laws = record {
    add_remote_route-used =
        λ z ke r. ground (arith, set_insert-filled (remote_key z ke) r.remote_routes);
    prune-untouched = λ prefix r h. ground (arith, retain_others-same prefix r.remote_routes);
    prune-kept =
        λ prefix other r h. ground (arith, retain_others-kept prefix other r.remote_routes);
    prune-gone = λ prefix r. ground (arith, retain_others-gone prefix r.remote_routes);
  }

  pub subscriber_laws : RouteLaws Route subscriber_ops
  unfolding Subscriber.add_remote_route Subscriber.prune_remote_routes_with_prefix
  subscriber_laws = record {
    add_remote_route-used =
        λ z ke r. ground (arith, set_insert-filled (remote_key z ke) r.remote_routes);
    prune-untouched = λ prefix r h. ground (arith, retain_others-same prefix r.remote_routes);
    prune-kept =
        λ prefix other r h. ground (arith, retain_others-kept prefix other r.remote_routes);
    prune-gone = λ prefix r. ground (arith, retain_others-gone prefix r.remote_routes);
  }

  pub service_srv_laws : RouteLaws Route service_srv_ops
  unfolding ServiceSrv.add_remote_route ServiceSrv.prune_remote_routes_with_prefix
  service_srv_laws = record {
    add_remote_route-used =
        λ z ke r. ground (arith, set_insert-filled (remote_key z ke) r.remote_routes);
    prune-untouched = λ prefix r h. ground (arith, retain_others-same prefix r.remote_routes);
    prune-kept =
        λ prefix other r h. ground (arith, retain_others-kept prefix other r.remote_routes);
    prune-gone = λ prefix r. ground (arith, retain_others-gone prefix r.remote_routes);
  }

  pub service_cli_laws : RouteLaws Route service_cli_ops
  unfolding ServiceCli.add_remote_route ServiceCli.prune_remote_routes_with_prefix
  service_cli_laws = record {
    add_remote_route-used =
        λ z ke r. ground (arith, set_insert-filled (remote_key z ke) r.remote_routes);
    prune-untouched = λ prefix r h. ground (arith, retain_others-same prefix r.remote_routes);
    prune-kept =
        λ prefix other r h. ground (arith, retain_others-kept prefix other r.remote_routes);
    prune-gone = λ prefix r. ground (arith, retain_others-gone prefix r.remote_routes);
  }

module _ ⦃c : Calls⦄ (h : HasTokens c) where
  pub publisher_nodes : NodeLaws Route publisher_ops
  unfolding Publisher.add_local_node
  publisher_nodes = record {
    fills-add_local_node = λ node r.
        rw (Publisher.add_local_node, declare_token_lem h r.ros2_name)
          (ground (arith, set_insert-filled node r.local_nodes));
  }

  pub subscriber_nodes : NodeLaws Route subscriber_ops
  unfolding Subscriber.add_local_node
  subscriber_nodes = record {
    fills-add_local_node = λ node r.
        rw (Subscriber.add_local_node, declare_token_lem h r.ros2_name)
          (ground (arith, set_insert-filled node r.local_nodes));
  }

  pub service_srv_nodes : NodeLaws Route service_srv_ops
  unfolding ServiceSrv.add_local_node
  service_srv_nodes = record {
    fills-add_local_node = λ node r.
        rw (ServiceSrv.add_local_node, declare_token_lem h r.ros2_name)
          (ground (arith, set_insert-filled node r.local_nodes));
  }

  pub service_cli_nodes : NodeLaws Route service_cli_ops
  unfolding ServiceCli.add_local_node
  service_cli_nodes = record {
    fills-add_local_node = λ node r.
        rw (ServiceCli.add_local_node, declare_token_lem h r.ros2_name)
          (ground (arith, set_insert-filled node r.local_nodes));
  }

module _ ⦃k : KeyExprs⦄ ⦃c : Calls⦄ (services messages : RouteOps Route)
    (sl : RouteLaws Route services) (ml : RouteLaws Route messages) where
  pub action_laws : RouteLaws ActionRoute (action_ops services messages)
  unfolding Action.add_remote_route Action.prune_remote_routes_with_prefix Action.is_unused
  action_laws = record {
    add_remote_route-used = λ z ke r. ground (
      arith,
      sl.add_remote_route-used z (k.join ke (codes "_action/send_goal")) r.route_send_goal,
    );
    prune-untouched = λ prefix r h. ground (
      arith,
      sl.prune-untouched prefix r.route_send_goal,
      sl.prune-untouched prefix r.route_cancel_goal,
      sl.prune-untouched prefix r.route_get_result,
      ml.prune-untouched prefix r.route_feedback,
      ml.prune-untouched prefix r.route_status,
    );
    prune-kept = λ prefix other r h. ground (
      arith,
      sl.prune-kept prefix other r.route_send_goal,
      sl.prune-kept prefix other r.route_cancel_goal,
      sl.prune-kept prefix other r.route_get_result,
      ml.prune-kept prefix other r.route_feedback,
      ml.prune-kept prefix other r.route_status,
      retain_others-kept prefix other r.remote_routes,
    );
    prune-gone = λ prefix r.
        rw
          (
            sl.prune-gone prefix r.route_send_goal,
            sl.prune-gone prefix r.route_cancel_goal,
            sl.prune-gone prefix r.route_get_result,
            ml.prune-gone prefix r.route_feedback,
            ml.prune-gone prefix r.route_status,
          )
          (retain_others-gone prefix r.remote_routes);
  }

-- An operation that fills a route has a route for its result, which is used.
pub filled :
    {R : Type 0} (o : RouteOps R) (r : Option R)
    → fills o r ≡ true
    → (r' : R) × (r ≡ some r') × (o.is_unused r' ≡ false)
filled o none h = cc
filled o (some r') h = (r', refl, ground (arith, h))

module _ ⦃k : KeyExprs⦄ ⦃c : Calls⦄ (h : HasTokens c) (services messages : RouteOps Route)
    (sl : NodeLaws Route services) (ml : NodeLaws Route messages) where
  pub action_nodes : NodeLaws ActionRoute (action_ops services messages)
  unfolding Action.add_local_node Action.is_unused
  action_nodes = record {
    fills-add_local_node = λ node r.
        let (send_goal, e1, used) =
          filled services _ (sl.fills-add_local_node node r.route_send_goal) in
        let (cancel_goal, e2, _) =
          filled services _ (sl.fills-add_local_node node r.route_cancel_goal) in
        let (get_result, e3, _) =
          filled services _ (sl.fills-add_local_node node r.route_get_result) in
        let (feedback, e4, _) = filled messages _ (ml.fills-add_local_node node r.route_feedback) in
        let (status, e5, _) = filled messages _ (ml.fills-add_local_node node r.route_status) in
        rw (Action.add_local_node, e1, e2, e3, e4, e5, declare_token_lem h r.ros2_name)
          (ground (arith, used));
  }

pub add_remote_publisher-used :
    (zenoh_id ke qos_text : Text) (r : Route)
    → is_unused (Subscriber.add_remote_publisher zenoh_id ke qos_text r) ≡ false
unfolding Subscriber.add_remote_publisher
add_remote_publisher-used zenoh_id ke qos_text r = ground (
  arith,
  set_insert-filled (Subscriber.remote_publisher_key zenoh_id ke qos_text) r.remote_routes,
)
