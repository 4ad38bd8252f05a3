-- ===== src/Runtime/Announcements/Lost.antt =====
-- What a tick leaves of the bridges that were lost.
use zenoh_plugin_ros2dds.Base.{
  ℕ, ◌≡◌, refl, ◌≢◌, ◌⊎◌, Text, codes, Bool, true, false, some, List, [], ◌∷◌, ◌++◌, All, All-imp,
  Bool-cases, inl, inr, ◌∙◌, filter, starts_with, arith,
}
use zenoh_plugin_ros2dds.Externals.{KeyExprs, IsJoin}
use zenoh_plugin_ros2dds.Events.{Ros2AnnouncementEvent}
use zenoh_plugin_ros2dds.Ros2Utils.KeyExpressions.{Config}
use zenoh_plugin_ros2dds.Routes.{Calls}
use zenoh_plugin_ros2dds.RoutesMgr.{Kind, Outcomes}
use zenoh_plugin_ros2dds.RoutesMgr.Consistency.{IsConsistent}
use zenoh_plugin_ros2dds.RoutesMgr.Departure.Steps.{IsFree}
use zenoh_plugin_ros2dds.RoutesMgr.Departure.{
  on_remote_bridge_left-IsFree, on_remote_bridge_left-stays-IsFree,
}
use zenoh_plugin_ros2dds.Runtime.Receipt.{All-filter, filter-All}
use zenoh_plugin_ros2dds.Runtime.Announcements.{
  Remotes, is_kept, msg_route_id, prune_bridge, prune_each, prune_pending,
}

starts_with-middle : (z p s : Text) → starts_with (z ++ (p ++ s)) (z ++ p) ≡ true
unfolding starts_with
starts_with-middle [] [] s = refl
starts_with-middle [] (b ∷ p) s = ground (arith, starts_with-middle [] p s)
starts_with-middle (b ∷ z) p s = ground (arith, starts_with-middle z p s)

module _ {Q : Type 0} where
  -- The announcement of a publisher or a subscriber is another bridge's.
  abbrev pub IsElsewhere : Text → Ros2AnnouncementEvent Q → Type 0
  IsElsewhere z (Ros2AnnouncementEvent.announced_msg_pub id ke typ keyless q) = id ≢ z
  IsElsewhere z (Ros2AnnouncementEvent.retired_msg_pub id ke keyless q) = id ≢ z
  IsElsewhere z (Ros2AnnouncementEvent.announced_msg_sub id ke typ keyless q) = id ≢ z
  IsElsewhere z (Ros2AnnouncementEvent.retired_msg_sub id ke) = id ≢ z
  IsElsewhere z (Ros2AnnouncementEvent.announced_service_srv id ke typ) = Unit
  IsElsewhere z (Ros2AnnouncementEvent.retired_service_srv id ke) = Unit
  IsElsewhere z (Ros2AnnouncementEvent.announced_service_cli id ke typ) = Unit
  IsElsewhere z (Ros2AnnouncementEvent.retired_service_cli id ke) = Unit
  IsElsewhere z (Ros2AnnouncementEvent.announced_action_srv id ke typ) = Unit
  IsElsewhere z (Ros2AnnouncementEvent.retired_action_srv id ke) = Unit
  IsElsewhere z (Ros2AnnouncementEvent.announced_action_cli id ke typ) = Unit
  IsElsewhere z (Ros2AnnouncementEvent.retired_action_cli id ke) = Unit

  module _ (qos_text : Bool → Q → Text) where
    other_pub :
        (z id s : Text)
        → is_kept
            (codes "MP:" ++ (z ++ codes ":"))
            (codes "MS:" ++ (z ++ codes ":"))
            (some (codes "MP:" ++ (id ++ (codes ":" ++ s))))
          ≡ true
        → id ≢ z
    unfolding starts_with
    other_pub z id s h e =
        let found : starts_with (id ++ (codes ":" ++ s)) (z ++ codes ":") ≡ true =
          rw e (starts_with-middle z (codes ":") s) in
        let not_found : starts_with (id ++ (codes ":" ++ s)) (z ++ codes ":") ≡ false =
          ground (arith, h) in
        absurd (cc (found, not_found))

    other_sub :
        (z id s : Text)
        → is_kept
            (codes "MP:" ++ (z ++ codes ":"))
            (codes "MS:" ++ (z ++ codes ":"))
            (some (codes "MS:" ++ (id ++ (codes ":" ++ s))))
          ≡ true
        → id ≢ z
    unfolding starts_with
    other_sub z id s h e =
        let found : starts_with (id ++ (codes ":" ++ s)) (z ++ codes ":") ≡ true =
          rw e (starts_with-middle z (codes ":") s) in
        let not_found : starts_with (id ++ (codes ":" ++ s)) (z ++ codes ":") ≡ false =
          ground (arith, h) in
        absurd (cc (found, not_found))

    kept-IsElsewhere :
        (z : Text) (evt : Ros2AnnouncementEvent Q)
        → is_kept
            (codes "MP:" ++ (z ++ codes ":"))
            (codes "MS:" ++ (z ++ codes ":"))
            (msg_route_id qos_text evt)
          ≡ true
        → IsElsewhere z evt
    unfolding msg_route_id
    kept-IsElsewhere z (Ros2AnnouncementEvent.announced_msg_pub id ke typ keyless q) h =
        other_pub z id (ke ++ (codes ":" ++ qos_text keyless q)) h
    kept-IsElsewhere z (Ros2AnnouncementEvent.retired_msg_pub id ke keyless q) h =
        other_pub z id (ke ++ (codes ":" ++ qos_text keyless q)) h
    kept-IsElsewhere z (Ros2AnnouncementEvent.announced_msg_sub id ke typ keyless q) h =
        other_sub z id ke h
    kept-IsElsewhere z (Ros2AnnouncementEvent.retired_msg_sub id ke) h = other_sub z id ke h
    kept-IsElsewhere z (Ros2AnnouncementEvent.announced_service_srv id ke typ) h = tt
    kept-IsElsewhere z (Ros2AnnouncementEvent.retired_service_srv id ke) h = tt
    kept-IsElsewhere z (Ros2AnnouncementEvent.announced_service_cli id ke typ) h = tt
    kept-IsElsewhere z (Ros2AnnouncementEvent.retired_service_cli id ke) h = tt
    kept-IsElsewhere z (Ros2AnnouncementEvent.announced_action_srv id ke typ) h = tt
    kept-IsElsewhere z (Ros2AnnouncementEvent.retired_action_srv id ke) h = tt
    kept-IsElsewhere z (Ros2AnnouncementEvent.announced_action_cli id ke typ) h = tt
    kept-IsElsewhere z (Ros2AnnouncementEvent.retired_action_cli id ke) h = tt

    module _ ⦃k : KeyExprs⦄ ⦃j : IsJoin k⦄ ⦃c : Calls⦄ ⦃t : Outcomes⦄ (config : Config) where
      -- What waits are announcements of other bridges, and no route has a remote route of the bridge.
      abbrev pub IsRid : Text → Remotes Q → Type 0
      IsRid z s =
          All (λ q. IsElsewhere z q.0) s.announcement_retry_queue
          × ((kind : Kind) → IsFree config (z ++ codes ":") kind s.routes_mgr)

      -- Of a pruned bridge nothing is left, and of another one nothing comes.
      prune_bridge-IsRid :
          (z : Text) (s : Remotes Q)
          → IsConsistent config s.routes_mgr
          → (s' : Remotes Q) × (prune_bridge qos_text config z s ≡ some s')
            × IsConsistent config s'.routes_mgr
            × (s'.pending_prunes ≡ s.pending_prunes)
            × IsRid z s'
            × ((y : Text) → IsRid y s → IsRid y s')
      unfolding prune_bridge
      prune_bridge-IsRid z s h =
          let (routes, left, kept, survivors, free) =
            on_remote_bridge_left-IsFree config z s.routes_mgr h in
          let mp = codes "MP:" ++ (z ++ codes ":") in
          let ms = codes "MS:" ++ (z ++ codes ":") in
          let stays : Ros2AnnouncementEvent Q × ℕ → Bool =
            λ q. is_kept mp ms (msg_route_id qos_text q.0) in
          let queue = filter stays s.announcement_retry_queue in
          (
            record s { routes_mgr = routes; announcement_retry_queue = queue },
            rw (prune_bridge, left) refl,
            kept,
            refl,
            (
              All-imp queue (λ q g. kept-IsElsewhere z q.0 g)
                  (filter-All stays s.announcement_retry_queue),
              free,
            ),
            λ y g. (
              All-filter (λ q. IsElsewhere y q.0) stays s.announcement_retry_queue g.0,
              λ kind.
                  on_remote_bridge_left-stays-IsFree config z (y ++ codes ":") s.routes_mgr routes
                    survivors kind (g.1 kind),
            ),
          )

      -- Each of the bridges is connected again, or nothing of it is left.
      abbrev pub AreRid : (Text → Bool) → List Text → Remotes Q → Type 0
      AreRid reconnected ids s = All (λ z. (reconnected z ≡ true) ⊎ IsRid z s) ids

      prune_each-AreRid :
          (reconnected : Text → Bool) (ids : List Text) (s : Remotes Q)
          → IsConsistent config s.routes_mgr
          → (s' : Remotes Q) × (prune_each qos_text config reconnected ids s ≡ some s')
            × IsConsistent config s'.routes_mgr
            × (s'.pending_prunes ≡ s.pending_prunes)
            × AreRid reconnected ids s'
            × ((y : Text) → IsRid y s → IsRid y s')
      unfolding prune_each
      prune_each-AreRid reconnected [] s h = (s, refl, h, refl, tt, λ y g. g)
      prune_each-AreRid reconnected (z ∷ ids) s h = elim (Bool-cases (reconnected z)) [
        | inl again ↦
            let (s', e, kept, same, rid, others) = prune_each-AreRid reconnected ids s h in
            (s', rw (prune_each, again) e, kept, same, (inl again, rid), others)
        | inr lost ↦
            let (s1, e1, kept1, same1, rid1, others1) = prune_bridge-IsRid z s h in
            let (s', e, kept, same, rid, others) = prune_each-AreRid reconnected ids s1 kept1 in
            (
              s',
              rw (prune_each, lost, e1) e,
              kept,
              same ∙ same1,
              (inr (others z rid1), rid),
              λ y g. others y (others1 y g),
            )
      ]

      -- From a state with consistent routes, a tick prunes the lost bridges without a panic: the routes are
      -- consistent afterwards, no bridge is left to prune, and of each bridge that was to be pruned
      -- and that zenoh does not list again, no announcement of a publisher or a subscriber waits, and
      -- no route of any kind has a remote route whose key starts with its id and a colon.
      pub prune_pending-AreRid :
          (reconnected : Text → Bool) (s : Remotes Q)
          → IsConsistent config s.routes_mgr
          → (s' : Remotes Q) × (prune_pending qos_text config reconnected s ≡ some s')
            × IsConsistent config s'.routes_mgr
            × (s'.pending_prunes ≡ [])
            × AreRid reconnected s.pending_prunes s'
      unfolding prune_pending
      prune_pending-AreRid reconnected s h =
          let (s', e, kept, same, rid, others) =
            prune_each-AreRid reconnected s.pending_prunes (record s { pending_prunes = [] }) h in
          (s', e, kept, same, rid)
