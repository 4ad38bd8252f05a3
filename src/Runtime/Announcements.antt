-- ===== src/Runtime/Announcements.antt =====
-- `ROS2PluginRuntime::run` of zenoh-plugin-ros2dds/src/lib.rs on announcements: the queue of those that
-- failed, and the bridges that were lost. An id of zenoh is its text.
pub mod Superseded
pub mod Lost
use zenoh_plugin_ros2dds.Base.{
  ℕ, ◌+◌, Text, codes, Bool, true, false, not, ◌&&◌, any, Option, none, some, List, [], ◌∷◌, ◌++◌,
  filter, str_eq, starts_with, ltb, if◌then◌else◌,
}
use zenoh_plugin_ros2dds.Externals.{KeyExprs}
use zenoh_plugin_ros2dds.Events.{Ros2AnnouncementEvent}
use zenoh_plugin_ros2dds.Config.{Regex, Allowance}
use zenoh_plugin_ros2dds.Ros2Utils.KeyExpressions.{Config}
use zenoh_plugin_ros2dds.Routes.{Calls}
use zenoh_plugin_ros2dds.RoutesMgr.{RoutesMgr, Outcomes}
use zenoh_plugin_ros2dds.RoutesMgr.Events.{on_ros_announcement_event, on_remote_bridge_left}
use zenoh_plugin_ros2dds.Runtime.{is_announcement_allowed, max_event_retries}

-- The routes, the failed announcements with their attempts, and the bridges to prune at the next tick.
pub record Remotes (Q : Type 0) : Type 0 where
  pub routes_mgr : RoutesMgr
  pub announcement_retry_queue : List (Ros2AnnouncementEvent Q × ℕ)
  pub pending_prunes : List Text

-- `==` on the ids of two announcements that have one.
abbrev pub same_id : Option Text → Text → Bool
same_id none id = false
same_id (some a) id = str_eq a id

-- Whether an id is of another bridge than the one with these two beginnings.
abbrev pub is_kept : Text → Text → Option Text → Bool
is_kept mp ms none = true
is_kept mp ms (some id) = not (starts_with id mp) && not (starts_with id ms)

module _ {Q : Type 0} (qos_text : Bool → Q → Text) where
  unfoldable pub msg_route_id : Ros2AnnouncementEvent Q → Option Text
  msg_route_id (Ros2AnnouncementEvent.announced_msg_pub id ke typ keyless q) =
      some (codes "MP:" ++ (id ++ (codes ":" ++ (ke ++ (codes ":" ++ qos_text keyless q)))))
  msg_route_id (Ros2AnnouncementEvent.retired_msg_pub id ke keyless q) =
      some (codes "MP:" ++ (id ++ (codes ":" ++ (ke ++ (codes ":" ++ qos_text keyless q)))))
  msg_route_id (Ros2AnnouncementEvent.announced_msg_sub id ke typ keyless q) =
      some (codes "MS:" ++ (id ++ (codes ":" ++ ke)))
  msg_route_id (Ros2AnnouncementEvent.retired_msg_sub id ke) =
      some (codes "MS:" ++ (id ++ (codes ":" ++ ke)))
  msg_route_id (Ros2AnnouncementEvent.announced_service_srv id ke typ) = none
  msg_route_id (Ros2AnnouncementEvent.retired_service_srv id ke) = none
  msg_route_id (Ros2AnnouncementEvent.announced_service_cli id ke typ) = none
  msg_route_id (Ros2AnnouncementEvent.retired_service_cli id ke) = none
  msg_route_id (Ros2AnnouncementEvent.announced_action_srv id ke typ) = none
  msg_route_id (Ros2AnnouncementEvent.retired_action_srv id ke) = none
  msg_route_id (Ros2AnnouncementEvent.announced_action_cli id ke typ) = none
  msg_route_id (Ros2AnnouncementEvent.retired_action_cli id ke) = none

  -- What an announcement supersedes is taken out of the queue.
  unfoldable pub supersede :
      Option Text → List (Ros2AnnouncementEvent Q × ℕ) → List (Ros2AnnouncementEvent Q × ℕ)
  unfolding msg_route_id filter str_eq
  supersede none queue = queue
  supersede (some id) queue = filter (λ q. not (same_id (msg_route_id q.0) id)) queue

  -- What the queue is given of an announcement that was treated, or failed.
  abbrev pub retry_copy :
      Ros2AnnouncementEvent Q → Option Text → Bool → List (Ros2AnnouncementEvent Q × ℕ)
  retry_copy evt id true = []
  retry_copy evt none false = []
  retry_copy evt (some id) false = (evt, 1) ∷ []

  module _ ⦃k : KeyExprs⦄ ⦃c : Calls⦄ ⦃t : Outcomes⦄ (config : Config) where
    treat :
        Ros2AnnouncementEvent Q
        → List (Ros2AnnouncementEvent Q × ℕ)
        → Remotes Q
        → Option (Remotes Q)
    unfolding msg_route_id on_ros_announcement_event
    treat evt others s = elim (on_ros_announcement_event config qos_text evt s.routes_mgr) [
      | none ↦ none
      | some r ↦ some (record s {
        routes_mgr = r.0;
        announcement_retry_queue = others ++ retry_copy evt (msg_route_id evt) r.1;
      })
    ]

    -- An announcement is received. `none` is a panic.
    unfoldable pub receive_announcement :
        {R : Type 0} ⦃x : Regex R⦄
        → Option (Allowance R)
        → Ros2AnnouncementEvent Q
        → Remotes Q
        → Option (Remotes Q)
    unfolding is_announcement_allowed supersede treat
    receive_announcement allowance evt s = elim (is_announcement_allowed allowance config evt) [
      | none ↦ none
      | some false ↦ some s
      | some true ↦ treat evt (supersede (msg_route_id evt) s.announcement_retry_queue) s
    ]

    -- The lost bridge's remote routes go, and the announcements of it that wait.
    unfoldable pub prune_bridge : Text → Remotes Q → Option (Remotes Q)
    unfolding on_remote_bridge_left msg_route_id filter starts_with
    prune_bridge zenoh_id s = elim (on_remote_bridge_left config zenoh_id s.routes_mgr) [
      | none ↦ none
      | some routes ↦
          let mp = codes "MP:" ++ (zenoh_id ++ codes ":") in
          let ms = codes "MS:" ++ (zenoh_id ++ codes ":") in
          some (record s {
            routes_mgr = routes;
            announcement_retry_queue =
                filter (λ q. is_kept mp ms (msg_route_id q.0)) s.announcement_retry_queue;
          })
    ]

    prune_each : (Text → Bool) → List Text → Remotes Q → Option (Remotes Q)
    unfolding prune_bridge
    prune_each reconnected [] s = some s
    prune_each reconnected (zenoh_id ∷ ids) s = elim (reconnected zenoh_id) [
      | true ↦ prune_each reconnected ids s
      | false ↦ elim (prune_bridge zenoh_id s) [
        | none ↦ none
        | some s' ↦ prune_each reconnected ids s'
      ]
    ]

    -- At a tick the lost bridges are pruned, but for those that zenoh lists again.
    unfoldable pub prune_pending : (Text → Bool) → Remotes Q → Option (Remotes Q)
    unfolding prune_each
    prune_pending reconnected s =
        prune_each reconnected s.pending_prunes (record s { pending_prunes = [] })

  -- A transport to a bridge was lost.
  unfoldable pub schedule_prune : Text → Remotes Q → Remotes Q
  unfolding str_eq
  schedule_prune zid s =
      if any (λ z. str_eq z zid) s.pending_prunes
      then s
      else record s { pending_prunes = s.pending_prunes ++ zid ∷ [] }
