-- ===== src/Routes/Interface.antt =====
-- What the routes manager and the action routes use of a route, and what it owes them.
use zenoh_plugin_ros2dds.Base.{
  ◌≡◌, Text, Bool, true, false, not, Option, none, some, any, starts_with,
}
use zenoh_plugin_ros2dds.Routes.{Route, Calls, new_route, is_unused}
use zenoh_plugin_ros2dds.Routes.Publisher as Publisher
use zenoh_plugin_ros2dds.Routes.Subscriber as Subscriber
use zenoh_plugin_ros2dds.Routes.ServiceSrv as ServiceSrv
use zenoh_plugin_ros2dds.Routes.ServiceCli as ServiceCli

pub record RouteOps (R : Type 0) : Type 0 where
  pub create : Text → R
  pub is_unused : R → Bool
  -- `none` is a panic
  pub add_local_node : Text → R → Option R
  pub remove_local_node : Text → R → R
  pub add_remote_route : Text → Text → R → R
  pub remove_remote_route : Text → Text → R → R
  pub prune : Text → R → R × Bool
  -- whether a remote route has a prefix
  pub serves : Text → R → Bool

-- A route is used once it serves a remote route. Pruning leaves nothing of the prefix and
-- adds nothing, and a
-- route that it reports as untouched is as unused as before.
pub record RouteLaws (R : Type 0) (o : RouteOps R) : Type 0 where
  pub add_remote_route-used :
      (zenoh_id ke : Text) (r : R) → o.is_unused (o.add_remote_route zenoh_id ke r) ≡ false
  pub prune-untouched :
      (prefix : Text) (r : R)
      → (o.prune prefix r).1 ≡ false
      → o.is_unused (o.prune prefix r).0 ≡ o.is_unused r
  pub prune-kept :
      (prefix other : Text) (r : R)
      → o.serves other r ≡ false
      → o.serves other (o.prune prefix r).0 ≡ false
  pub prune-gone : (prefix : Text) (r : R) → o.serves prefix (o.prune prefix r).0 ≡ false

-- Whether an operation did not panic and left a route that is used.
abbrev pub fills : {R : Type 0} → RouteOps R → Option R → Bool
fills o none = false
fills o (some r) = not (o.is_unused r)

-- A route is used once it serves a node.
pub record NodeLaws (R : Type 0) (o : RouteOps R) : Type 0 where
  pub fills-add_local_node : (node : Text) (r : R) → fills o (o.add_local_node node r) ≡ true

abbrev pub serves : Text → Route → Bool
serves prefix r = any (λ e. starts_with e prefix) r.remote_routes

module _ ⦃c : Calls⦄ where
  abbrev pub publisher_ops : RouteOps Route
  publisher_ops = record {
    create = new_route;
    is_unused = is_unused;
    add_local_node = Publisher.add_local_node;
    remove_local_node = Publisher.remove_local_node;
    add_remote_route = Publisher.add_remote_route;
    remove_remote_route = Publisher.remove_remote_route;
    prune = Publisher.prune_remote_routes_with_prefix;
    serves = serves;
  }

  abbrev pub subscriber_ops : RouteOps Route
  subscriber_ops = record {
    create = new_route;
    is_unused = is_unused;
    add_local_node = Subscriber.add_local_node;
    remove_local_node = Subscriber.remove_local_node;
    add_remote_route = Subscriber.add_remote_route;
    remove_remote_route = Subscriber.remove_remote_route;
    prune = Subscriber.prune_remote_routes_with_prefix;
    serves = serves;
  }

  abbrev pub service_srv_ops : RouteOps Route
  service_srv_ops = record {
    create = new_route;
    is_unused = is_unused;
    add_local_node = ServiceSrv.add_local_node;
    remove_local_node = ServiceSrv.remove_local_node;
    add_remote_route = ServiceSrv.add_remote_route;
    remove_remote_route = ServiceSrv.remove_remote_route;
    prune = ServiceSrv.prune_remote_routes_with_prefix;
    serves = serves;
  }

  abbrev pub service_cli_ops : RouteOps Route
  service_cli_ops = record {
    create = new_route;
    is_unused = is_unused;
    add_local_node = ServiceCli.add_local_node;
    remove_local_node = ServiceCli.remove_local_node;
    add_remote_route = ServiceCli.add_remote_route;
    remove_remote_route = ServiceCli.remove_remote_route;
    prune = ServiceCli.prune_remote_routes_with_prefix;
    serves = serves;
  }
