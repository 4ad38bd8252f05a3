-- ===== src/RoutesMgr.antt =====
-- `RoutesMgr` of zenoh-plugin-ros2dds/src/routes_mgr.rs: the maps of routes by name, the admin space
-- that refers to them, and the steps that its handlers share. `none` is a panic: of a slice of a
-- name, of the operator `/` of zenoh, or in the operation on a route.
pub mod Events
pub mod Kinds
pub mod Consistency
pub mod Steps
pub mod Handlers
pub mod Served
pub mod Pruning
pub mod Departure
pub mod Outside
pub mod Examples
use zenoh_plugin_ros2dds.Base.{
  Text, codes, Bool, true, false, ◌&&◌, Option, none, some, List, [], ◌∷◌, Map, lookup, insert,
  remove, if◌then◌else◌,
}
use zenoh_plugin_ros2dds.Externals.{KeyExprs}
use zenoh_plugin_ros2dds.Ros2Utils.KeyExpressions.{Config, ros2_name_to_key_expr}
use zenoh_plugin_ros2dds.Routes.{Route, Calls}
use zenoh_plugin_ros2dds.Routes.Action.{ActionRoute, action_srv_ops, action_cli_ops}
use zenoh_plugin_ros2dds.Routes.Interface.{
  RouteOps, publisher_ops, subscriber_ops, service_srv_ops, service_cli_ops,
}

pub data RouteRef : Type 0 where
  publisher_ref subscriber_ref service_srv_ref service_cli_ref action_srv_ref action_cli_ref :
      Text → RouteRef

pub record RoutesMgr : Type 0 where
  pub routes_publishers : Map Route
  pub routes_subscribers : Map Route
  pub routes_service_srv : Map Route
  pub routes_service_cli : Map Route
  pub routes_action_srv : Map ActionRoute
  pub routes_action_cli : Map ActionRoute
  pub admin_space : Map RouteRef

abbrev pub new : RoutesMgr
new = record {
  routes_publishers = [];
  routes_subscribers = [];
  routes_service_srv = [];
  routes_service_cli = [];
  routes_action_srv = [];
  routes_action_cli = [];
  admin_space = [];
}

-- The six kinds of routes, one for each map.
pub data Kind : Type 0 where
  publisher subscriber service_srv service_cli action_srv action_cli : Kind

abbrev pub Stored : Kind → Type 0
Stored publisher = Route
Stored subscriber = Route
Stored service_srv = Route
Stored service_cli = Route
Stored action_srv = ActionRoute
Stored action_cli = ActionRoute

abbrev pub select : (k : Kind) → RoutesMgr → Map (Stored k)
select publisher s = s.routes_publishers
select subscriber s = s.routes_subscribers
select service_srv s = s.routes_service_srv
select service_cli s = s.routes_service_cli
select action_srv s = s.routes_action_srv
select action_cli s = s.routes_action_cli

-- A map and the admin space are written.
abbrev pub store : (k : Kind) → Map (Stored k) → Map RouteRef → RoutesMgr → RoutesMgr
store publisher m admin s = record s { routes_publishers = m; admin_space = admin }
store subscriber m admin s = record s { routes_subscribers = m; admin_space = admin }
store service_srv m admin s = record s { routes_service_srv = m; admin_space = admin }
store service_cli m admin s = record s { routes_service_cli = m; admin_space = admin }
store action_srv m admin s = record s { routes_action_srv = m; admin_space = admin }
store action_cli m admin s = record s { routes_action_cli = m; admin_space = admin }

abbrev pub ref_of : Kind → Text → RouteRef
ref_of publisher name = publisher_ref name
ref_of subscriber name = subscriber_ref name
ref_of service_srv name = service_srv_ref name
ref_of service_cli name = service_cli_ref name
ref_of action_srv name = action_srv_ref name
ref_of action_cli name = action_cli_ref name

abbrev pub ke_prefix : Kind → Text
ke_prefix publisher = codes "route/topic/pub"
ke_prefix subscriber = codes "route/topic/sub"
ke_prefix service_srv = codes "route/service/srv"
ke_prefix service_cli = codes "route/service/cli"
ke_prefix action_srv = codes "route/action/srv"
ke_prefix action_cli = codes "route/action/cli"

-- Whether a route is created, and whether the DDS and zenoh entities of a route are adapted to a
-- changed QoS, by the route's name.
pub record Outcomes : Type 0 where
  pub creates : Text → Bool
  pub adapts : Text → Bool

module _ ⦃k : KeyExprs⦄ where
  -- The result of `*KE_PREFIX / key_expr`, which panics unless zenoh accepts it.
  abbrev pub admin_key : Kind → Text → Text
  admin_key kind ke = k.join (ke_prefix kind) ke

module _ ⦃k : KeyExprs⦄ ⦃c : Calls⦄ where
  abbrev pub ops : (kind : Kind) → RouteOps (Stored kind)
  ops publisher = publisher_ops
  ops subscriber = subscriber_ops
  ops service_srv = service_srv_ops
  ops service_cli = service_cli_ops
  ops action_srv = action_srv_ops
  ops action_cli = action_cli_ops

module _ ⦃k : KeyExprs⦄ ⦃c : Calls⦄ ⦃t : Outcomes⦄ (config : Config) where
  -- The route of a name, created if there is none, after an operation on it; and whether it could be
  -- created. The admin space refers to a new route.
  unfoldable pub with_route :
      (kind : Kind)
      → Text
      → (Stored kind → Option (Stored kind))
      → RoutesMgr
      → Option (RoutesMgr × Bool)
  with_route kind ros2_name f s = elim (lookup ros2_name (select kind s)) [
    | some r ↦ elim (f r) [
      | none ↦ none
      | some r' ↦ some (store kind (insert ros2_name r' (select kind s)) s.admin_space s, true)
    ]
    | none ↦ elim (ros2_name_to_key_expr ros2_name config) [
      | none ↦ none
      | some ke ↦
          if t.creates ros2_name
          then (if k.is_key_expr (admin_key kind ke)
              then elim (f ((ops kind).create ros2_name)) [
                | none ↦ none
                | some r ↦ some (
                  store kind (insert ros2_name r (select kind s))
                      (insert (admin_key kind ke) (ref_of kind ros2_name) s.admin_space) s,
                  true,
                )
              ]
              else none)
          else some (s, false)
    ]
  ]

  -- An operation on the route of a name, if there is one, which goes when it is unused. The second
  -- component is the result of the caller's next step on a route that stays.
  unfoldable pub release :
      (kind : Kind)
      → Text
      → Option Text
      → (Stored kind → Stored kind)
      → Bool
      → RoutesMgr
      → Option (RoutesMgr × Bool)
  release kind ros2_name key f adapted s = elim (lookup ros2_name (select kind s)) [
    | none ↦ some (s, true)
    | some r ↦
        if (ops kind).is_unused (f r)
        then elim key [
          | none ↦ none
          | some ke ↦
              if k.is_key_expr (admin_key kind ke)
              then some (
                store kind (remove ros2_name (select kind s))
                    (remove (admin_key kind ke) s.admin_space) s,
                true,
              )
              else none
        ]
        else some (store kind (insert ros2_name (f r) (select kind s)) s.admin_space s, adapted)
  ]

  abbrev keep_route :
      (kind : Kind)
      → Text
      → Stored kind
      → Option (Map (Stored kind) × Map RouteRef)
      → Option (Map (Stored kind) × Map RouteRef)
  keep_route kind ros2_name r none = none
  keep_route kind ros2_name r (some rest) = some ((ros2_name, r) ∷ rest.0, rest.1)

  -- `prune_map!`
  unfoldable pub prune_map :
      (kind : Kind)
      → Text
      → Map (Stored kind)
      → Map RouteRef
      → Option (Map (Stored kind) × Map RouteRef)
  prune_map kind prefix [] admin = some ([], admin)
  prune_map kind prefix ((ros2_name, r) ∷ m) admin =
      let p = (ops kind).prune prefix r in
      elim (p.1 && (ops kind).is_unused p.0) [
        | false ↦ keep_route kind ros2_name p.0 (prune_map kind prefix m admin)
        | true ↦ elim (ros2_name_to_key_expr ros2_name config) [
          | none ↦ none
          | some ke ↦ elim (k.is_key_expr (admin_key kind ke)) [
            | false ↦ none
            | true ↦ prune_map kind prefix m (remove (admin_key kind ke) admin)
          ]
        ]
      ]
