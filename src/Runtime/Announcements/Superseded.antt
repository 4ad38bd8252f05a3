-- ===== src/Runtime/Announcements/Superseded.antt =====
-- What an announcement does to the queue of retries.
use zenoh_plugin_ros2dds.Base.{
  ℕ, ◌≡◌, refl, ◌⊎◌, inl, inr, Text, Bool, true, false, not, Option, none, some, List, [], ◌∷◌,
  ◌++◌, All, All-append, All-imp, filter, arith,
}
use zenoh_plugin_ros2dds.Externals.{KeyExprs, IsJoin}
use zenoh_plugin_ros2dds.Events.{Ros2AnnouncementEvent}
use zenoh_plugin_ros2dds.Config.{Regex, Allowance}
use zenoh_plugin_ros2dds.Ros2Utils.KeyExpressions.{Config, Corresponds}
use zenoh_plugin_ros2dds.Routes.{Calls}
use zenoh_plugin_ros2dds.RoutesMgr.{Outcomes}
use zenoh_plugin_ros2dds.RoutesMgr.Consistency.{IsConsistent}
use zenoh_plugin_ros2dds.RoutesMgr.Handlers.{
  announced_key_expr, on_ros_announcement_event-IsConsistent,
}
use zenoh_plugin_ros2dds.Runtime.{is_announcement_allowed}
use zenoh_plugin_ros2dds.Runtime.Receipt.{filter-All}
use zenoh_plugin_ros2dds.Runtime.Announcements.{
  Remotes, same_id, msg_route_id, supersede, retry_copy, treat, receive_announcement,
}

module _ {Q : Type 0} (qos_text : Bool → Q → Text) where
  -- A waiting announcement does not have the id, if there is one, or it is the new one after its first
  -- attempt.
  abbrev pub IsCurrentAnnouncement :
      Ros2AnnouncementEvent Q → Option Text → Ros2AnnouncementEvent Q × ℕ → Type 0
  IsCurrentAnnouncement evt none q = Unit
  IsCurrentAnnouncement evt (some id) q =
      (same_id (msg_route_id qos_text q.0) id ≡ false) ⊎ (q ≡ (evt, 1))

  trivial :
      (evt : Ros2AnnouncementEvent Q) (l : List (Ros2AnnouncementEvent Q × ℕ))
      → All (IsCurrentAnnouncement evt none) l
  trivial evt [] = tt
  trivial evt (q ∷ l) = (tt, trivial evt l)

  supersede-IsCurrent :
      (evt : Ros2AnnouncementEvent Q) (id : Option Text)
      (queue : List (Ros2AnnouncementEvent Q × ℕ)) (ok : Bool)
      → All
          (IsCurrentAnnouncement evt id)
          (supersede qos_text id queue ++ retry_copy qos_text evt id ok)
  unfolding supersede
  supersede-IsCurrent evt none queue ok = trivial evt (queue ++ retry_copy qos_text evt none ok)
  supersede-IsCurrent evt (some id) queue ok =
      let older =
        All-imp (filter (λ q. not (same_id (msg_route_id qos_text q.0) id)) queue)
          (λ q g. inl (ground arith))
          (filter-All (λ q. not (same_id (msg_route_id qos_text q.0) id)) queue) in
      All-append (IsCurrentAnnouncement evt (some id)) _ (retry_copy qos_text evt (some id) ok)
        older (copy ok)
    where
      copy :
          (b : Bool)
          → All (IsCurrentAnnouncement evt (some id)) (retry_copy qos_text evt (some id) b)
      copy true = tt
      copy false = (inr refl, tt)

  module _ ⦃k : KeyExprs⦄ ⦃j : IsJoin k⦄ ⦃c : Calls⦄ ⦃t : Outcomes⦄ {R : Type 0} ⦃x : Regex R⦄
      (config : Config) (allowance : Option (Allowance R)) where
    -- With consistent routes, an allowed announcement whose key expression and name are converted to each
    -- other is received without a panic: the routes are consistent afterwards, the bridges to prune the
    -- same, and if the announcement has an id, what waits has another one, or it is this announcement
    -- after its first attempt.
    pub receive_announcement-IsCurrent :
        (evt : Ros2AnnouncementEvent Q) (name : Text) (s : Remotes Q)
        → is_announcement_allowed allowance config evt ≡ some true
        → Corresponds config name (announced_key_expr evt)
        → IsConsistent config s.routes_mgr
        → (s' : Remotes Q) × (receive_announcement qos_text config allowance evt s ≡ some s')
          × IsConsistent config s'.routes_mgr
          × (s'.pending_prunes ≡ s.pending_prunes)
          × All (IsCurrentAnnouncement evt (msg_route_id qos_text evt)) s'.announcement_retry_queue
    unfolding receive_announcement treat
    receive_announcement-IsCurrent evt name s allowed e h =
        let (r, treated, kept) =
          on_ros_announcement_event-IsConsistent config qos_text evt name s.routes_mgr h e in
        let id = msg_route_id qos_text evt in
        (
          record s {
            routes_mgr = r.0;
            announcement_retry_queue =
                supersede qos_text id s.announcement_retry_queue ++ retry_copy qos_text evt id r.1;
          },
          rw (receive_announcement, allowed, treat, treated) refl,
          kept,
          refl,
          supersede-IsCurrent evt id s.announcement_retry_queue r.1,
        )
