-- ===== src/Runtime.antt =====
-- `ROS2PluginRuntime` of zenoh-plugin-ros2dds/src/lib.rs: which events are allowed, and the queue of
-- discovery events whose treatment failed and is tried again.
pub mod Allowed
pub mod Retries
pub mod Receipt
pub mod Announcements
pub mod Examples
use zenoh_plugin_ros2dds.Base.{
  ℕ, zero, suc, ◌+◌, Text, Bool, true, false, not, ◌&&◌, Option, none, some, List, [], ◌∷◌, ◌++◌,
  filter, str_eq, ltb, if◌then◌else◌,
}
use zenoh_plugin_ros2dds.Externals.{KeyExprs}
use zenoh_plugin_ros2dds.Events.{Ros2DiscoveryEvent, Ros2AnnouncementEvent, interface_key}
use zenoh_plugin_ros2dds.Entities.{DiscoveredEntities}
use zenoh_plugin_ros2dds.Config.{
  Regex, Allowance, is_publisher_allowed, is_subscriber_allowed, is_service_srv_allowed,
  is_service_cli_allowed, is_action_srv_allowed, is_action_cli_allowed,
}
use zenoh_plugin_ros2dds.Ros2Utils.KeyExpressions.{Config, key_expr_to_ros2_name}
use zenoh_plugin_ros2dds.Routes.{Calls}
use zenoh_plugin_ros2dds.RoutesMgr.{RoutesMgr, Outcomes}
use zenoh_plugin_ros2dds.RoutesMgr.Events.{on_ros_discovery_event}

-- `none` is the panic of a slice of the namespace.
abbrev pub with_name : Text → Config → (Text → Bool) → Option Bool
with_name ke config f = elim (key_expr_to_ros2_name ke config) [
  | none ↦ none
  | some name ↦ some (f name)
]

module _ {R : Type 0} ⦃x : Regex R⦄ where
  unfoldable pub is_allowed : Option (Allowance R) → Ros2DiscoveryEvent → Bool
  is_allowed none evt = true
  is_allowed (some a) (Ros2DiscoveryEvent.discovered_msg_pub node i) = is_publisher_allowed a i.name
  is_allowed (some a) (Ros2DiscoveryEvent.undiscovered_msg_pub node i) =
      is_publisher_allowed a i.name
  is_allowed (some a) (Ros2DiscoveryEvent.local_writers_changed name) = is_publisher_allowed a name
  is_allowed (some a) (Ros2DiscoveryEvent.discovered_msg_sub node i) =
      is_subscriber_allowed a i.name
  is_allowed (some a) (Ros2DiscoveryEvent.undiscovered_msg_sub node i) =
      is_subscriber_allowed a i.name
  is_allowed (some a) (Ros2DiscoveryEvent.discovered_service_srv node i) =
      is_service_srv_allowed a i.name
  is_allowed (some a) (Ros2DiscoveryEvent.undiscovered_service_srv node i) =
      is_service_srv_allowed a i.name
  is_allowed (some a) (Ros2DiscoveryEvent.discovered_service_cli node i) =
      is_service_cli_allowed a i.name
  is_allowed (some a) (Ros2DiscoveryEvent.undiscovered_service_cli node i) =
      is_service_cli_allowed a i.name
  is_allowed (some a) (Ros2DiscoveryEvent.discovered_action_srv node i) =
      is_action_srv_allowed a i.name
  is_allowed (some a) (Ros2DiscoveryEvent.undiscovered_action_srv node i) =
      is_action_srv_allowed a i.name
  is_allowed (some a) (Ros2DiscoveryEvent.discovered_action_cli node i) =
      is_action_cli_allowed a i.name
  is_allowed (some a) (Ros2DiscoveryEvent.undiscovered_action_cli node i) =
      is_action_cli_allowed a i.name

  -- An announcement is allowed if the interface that answers it is.
  unfoldable pub is_announcement_allowed :
      {Q : Type 0} → Option (Allowance R) → Config → Ros2AnnouncementEvent Q → Option Bool
  unfolding key_expr_to_ros2_name
  is_announcement_allowed none config evt = some true
  is_announcement_allowed (some a) config
        (Ros2AnnouncementEvent.announced_msg_pub id ke typ keyless q) =
      with_name ke config (is_subscriber_allowed a)
  is_announcement_allowed (some a) config (Ros2AnnouncementEvent.retired_msg_pub id ke keyless q) =
      with_name ke config (is_subscriber_allowed a)
  is_announcement_allowed (some a) config
        (Ros2AnnouncementEvent.announced_msg_sub id ke typ keyless q) =
      with_name ke config (is_publisher_allowed a)
  is_announcement_allowed (some a) config (Ros2AnnouncementEvent.retired_msg_sub id ke) =
      with_name ke config (is_publisher_allowed a)
  is_announcement_allowed (some a) config (Ros2AnnouncementEvent.announced_service_srv id ke typ) =
      with_name ke config (is_service_cli_allowed a)
  is_announcement_allowed (some a) config (Ros2AnnouncementEvent.retired_service_srv id ke) =
      with_name ke config (is_service_cli_allowed a)
  is_announcement_allowed (some a) config (Ros2AnnouncementEvent.announced_service_cli id ke typ) =
      with_name ke config (is_service_srv_allowed a)
  is_announcement_allowed (some a) config (Ros2AnnouncementEvent.retired_service_cli id ke) =
      with_name ke config (is_service_srv_allowed a)
  is_announcement_allowed (some a) config (Ros2AnnouncementEvent.announced_action_srv id ke typ) =
      with_name ke config (is_action_cli_allowed a)
  is_announcement_allowed (some a) config (Ros2AnnouncementEvent.retired_action_srv id ke) =
      with_name ke config (is_action_cli_allowed a)
  is_announcement_allowed (some a) config (Ros2AnnouncementEvent.announced_action_cli id ke typ) =
      with_name ke config (is_action_srv_allowed a)
  is_announcement_allowed (some a) config (Ros2AnnouncementEvent.retired_action_cli id ke) =
      with_name ke config (is_action_srv_allowed a)

abbrev pub max_event_retries : ℕ
max_event_retries = 10

-- `==` on the keys of two events.
unfoldable pub same_interface : Ros2DiscoveryEvent → Ros2DiscoveryEvent → Bool
unfolding interface_key str_eq
same_interface a b =
    str_eq (interface_key a).0 (interface_key b).0
    && str_eq (interface_key a).1 (interface_key b).1
    && str_eq (interface_key a).2 (interface_key b).2

-- The routes, and the failed events with the number of their attempts.
pub record Runtime : Type 0 where
  pub routes_mgr : RoutesMgr
  pub retry_queue : List (Ros2DiscoveryEvent × ℕ)

-- What stays of an event that was tried again, and failed or not.
abbrev pub requeue : Ros2DiscoveryEvent → ℕ → Bool → List (Ros2DiscoveryEvent × ℕ)
requeue evt attempts true = []
requeue evt attempts false = if ltb attempts max_event_retries then (evt, attempts + 1) ∷ [] else []

module _ ⦃k : KeyExprs⦄ {Q I T R : Type 0} ⦃x : Regex R⦄ (config : Config)
    (allowance : Option (Allowance R)) (entities : DiscoveredEntities Q I T) where
  -- A discovery event is received. It supersedes what waits for the same interface, and waits itself
  -- if its treatment fails. `none` is a panic of the handler.
  unfoldable pub receive :
      ⦃c : Calls⦄ ⦃t : Outcomes⦄ → Ros2DiscoveryEvent → Runtime → Option Runtime
  unfolding is_allowed same_interface on_ros_discovery_event filter
  receive evt s =
      if is_allowed allowance evt
      then (let others = filter (λ q. not (same_interface q.0 evt)) s.retry_queue in
          elim (on_ros_discovery_event config entities evt s.routes_mgr) [
            | none ↦ none
            | some r ↦ some (record {
              routes_mgr = r.0;
              retry_queue = if r.1 then others else others ++ (evt, 1) ∷ [];
            })
          ])
      else some s

module _ ⦃k : KeyExprs⦄ {Q I T : Type 0} (config : Config)
    (entities : DiscoveredEntities Q I T) where
  -- The pending events are tried again in their order. Each has its own answers of zenoh and DDS.
  unfoldable pub retry :
      (ℕ → Calls) → (ℕ → Outcomes) → List (Ros2DiscoveryEvent × ℕ) → Runtime → Option Runtime
  unfolding on_ros_discovery_event
  retry calls outcomes [] s = some s
  retry calls outcomes ((evt, attempts) ∷ pending) s =
      elim (on_ros_discovery_event ⦃c = calls 0⦄ ⦃t = outcomes 0⦄ config entities evt
        s.routes_mgr) [
          | none ↦ none
          | some r ↦
              retry (λ i. calls (i + 1)) (λ i. outcomes (i + 1)) pending
                (record {
                  routes_mgr = r.0;
                  retry_queue = s.retry_queue ++ requeue evt attempts r.1;
                })
        ]

  -- The timer ticks: `std::mem::take` of the queue, and each of its events once more.
  unfoldable pub tick : (ℕ → Calls) → (ℕ → Outcomes) → Runtime → Option Runtime
  unfolding retry
  tick calls outcomes s = retry calls outcomes s.retry_queue (record s { retry_queue = [] })
