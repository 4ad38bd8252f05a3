-- ===== src/Routes.antt =====
-- The routes between DDS and zenoh: zenoh-plugin-ros2dds/src/route_*.rs. Of a route, what it serves is
-- modelled: the local nodes, the remote routes, and whether it is announced and active.
pub mod ForwardQueue
pub mod Publisher
pub mod Subscriber
pub mod ServiceSrv
pub mod ServiceCli
pub mod Interface
pub mod Action
pub mod Laws
pub mod Departed
pub mod Examples
use zenoh_plugin_ros2dds.Base.{
  Text, codes, Bool, true, false, not, ◌&&◌, List, [], ◌++◌, ◌==◌, length, is_empty, filter,
  starts_with, ◌≡◌, refl, Option, none, some,
}
use zenoh_plugin_ros2dds.Externals.{Externals}
use zenoh_plugin_ros2dds.Node.Dispatch.{◌>>=◌}
use zenoh_plugin_ros2dds.Liveliness.{replace_slashes, key_expr_of, escape_slashes}

-- The shape that `RoutePublisher`, `RouteSubscriber`, `RouteServiceSrv` and `RouteServiceCli` share.
-- `announced` is whether there is a liveliness token, and `active` whether there is a DDS Reader
-- (publisher, service client), a zenoh subscriber or a queryable.
pub record Route : Type 0 where
  pub ros2_name : Text
  pub announced : Bool
  pub active : Bool
  pub remote_routes : List Text
  pub local_nodes : List Text

-- How the calls of zenoh and Cyclone DDS turn out that a route makes, by its name: whether a token is
-- declared, whether the Reader, subscriber or queryable is made, and whether zenoh reports a match. Of
-- a token, the route's key expression and type, which do not change, are given by the name too.
pub record Calls : Type 0 where
  pub zenoh : Externals
  pub zenoh_key_expr : Text → Text
  pub ros2_type : Text → Text
  pub declares : Text → Bool
  pub activates : Text → Bool
  pub matches : Text → Bool

-- Whether the token of a route is declared; `none` is the panic of `escape_slashes` in `new_ke_liveliness_*`.
unfoldable pub declare_token : ⦃c : Calls⦄ → Text → Option Bool
unfolding escape_slashes
declare_token ⦃c⦄ name = do
  ke ← escape_slashes ⦃x = c.zenoh⦄ (c.zenoh_key_expr name)
  typ ← escape_slashes ⦃x = c.zenoh⦄ (c.ros2_type name)
  some (c.declares name)

-- zenoh accepts the escaped key expression and the escaped type of every route.
abbrev pub HasTokens : Calls → Type 0
HasTokens c =
    (n : Text)
    → (c.zenoh.is_key_expr (replace_slashes (c.zenoh_key_expr n)) ≡ true)
      × (c.zenoh.is_key_expr (replace_slashes (c.ros2_type n)) ≡ true)

pub declare_token_lem :
    ⦃c : Calls⦄ → HasTokens c → (n : Text) → declare_token n ≡ some (c.declares n)
unfolding declare_token escape_slashes key_expr_of
declare_token_lem h n = rw ((h n).0, (h n).1) refl

-- The route after its token was declared or not.
abbrev pub with_token : Route → Option Bool → Option Route
with_token r none = none
with_token r (some false) = some r
with_token r (some true) = some (record r { announced = true })

abbrev pub new_route : Text → Route
new_route ros2_name = record {
  ros2_name = ros2_name;
  announced = false;
  active = false;
  remote_routes = [];
  local_nodes = [];
}

-- "<zenoh_id>:<zenoh_key_expr>"
abbrev pub remote_key : Text → Text → Text
remote_key zenoh_id zenoh_key_expr = zenoh_id ++ (codes ":" ++ zenoh_key_expr)

abbrev pub is_serving_remote_route : Route → Bool
is_serving_remote_route r = not (is_empty r.remote_routes)

abbrev pub is_serving_local_node : Route → Bool
is_serving_local_node r = not (is_empty r.local_nodes)

abbrev pub is_unused : Route → Bool
is_unused r = not (is_serving_local_node r) && not (is_serving_remote_route r)

-- `remote_routes` without the entries of a prefix, and whether that changes their number.
abbrev pub retain_others : Text → List Text → List Text
retain_others prefix routes = filter (λ r. not (starts_with r prefix)) routes

abbrev pub is_shorter : Text → List Text → Bool
is_shorter prefix routes = not (length (retain_others prefix routes) == length routes)
