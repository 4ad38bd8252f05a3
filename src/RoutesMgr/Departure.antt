-- ===== src/RoutesMgr/Departure.antt =====
-- What `on_remote_bridge_left` leaves of a bridge that is gone.
pub mod Steps
use zenoh_plugin_ros2dds.Base.{
  ◌≡◌, refl, sym, ap, ◌∙◌, subst, Text, codes, ◌++◌, false, Bool-cases, inl, inr, Option, none,
  some, Map, lookup, if◌then◌else◌, arith,
}
use zenoh_plugin_ros2dds.Externals.{KeyExprs, IsJoin}
use zenoh_plugin_ros2dds.Ros2Utils.KeyExpressions.{Config, Corresponds}
use zenoh_plugin_ros2dds.Routes.{Calls}
use zenoh_plugin_ros2dds.RoutesMgr.{
  RouteRef, RoutesMgr, Kind, publisher, subscriber, service_srv, service_cli, action_srv,
  action_cli, Stored, select, store, admin_key, ops, Outcomes,
}
use zenoh_plugin_ros2dds.RoutesMgr.Kinds.{
  same_kind, Comparison, same, other, compare_kinds, select-store_same, select-store_other,
  admin_space-store,
}
use zenoh_plugin_ros2dds.RoutesMgr.Events.{pruned, on_remote_bridge_left}
use zenoh_plugin_ros2dds.RoutesMgr.Consistency.{
  reference, laws, IsUsed, IsConsistent, store-Distinct,
}
use zenoh_plugin_ros2dds.RoutesMgr.Pruning.{goes, is_gone, survivor, Pruned, prune_map-Pruned}
use zenoh_plugin_ros2dds.RoutesMgr.Departure.Steps.{
  IsFree, survivor-IsFree, pruned-Step, steps-survivor,
}

-- From a consistent state, for `/` of zenoh as documented, `on_remote_bridge_left` does not panic and leaves a consistent state. A route stays as pruning
-- leaves it, but for one from which that takes a remote route and which is then unused, which goes;
-- and no route has a remote route left whose key starts with the bridge's id and a colon.
pub on_remote_bridge_left-IsFree :
    ⦃k : KeyExprs⦄ ⦃j : IsJoin k⦄ ⦃c : Calls⦄ ⦃t : Outcomes⦄ (config : Config) (zenoh_id : Text)
    (s : RoutesMgr)
    → IsConsistent config s
    → (s' : RoutesMgr) × (on_remote_bridge_left config zenoh_id s ≡ some s')
      × IsConsistent config s'
      × ((kind : Kind) (name : Text)
          → lookup name (select kind s')
            ≡ survivor config kind (zenoh_id ++ codes ":") (lookup name (select kind s)))
      × ((kind : Kind) → IsFree config (zenoh_id ++ codes ":") kind s')
unfolding on_remote_bridge_left
on_remote_bridge_left-IsFree config zenoh_id s h =
    let prefix = zenoh_id ++ codes ":" in
    let (s1, e1, p1) = pruned-Step config prefix publisher s h in
    let (s2, e2, p2) = pruned-Step config prefix subscriber s1 p1.consistent in
    let (s3, e3, p3) = pruned-Step config prefix service_srv s2 p2.consistent in
    let (s4, e4, p4) = pruned-Step config prefix service_cli s3 p3.consistent in
    let (s5, e5, p5) = pruned-Step config prefix action_srv s4 p4.consistent in
    let (s6, e6, p6) = pruned-Step config prefix action_cli s5 p5.consistent in
    let left = steps-survivor config prefix s s1 s2 s3 s4 s5 s6 p1 p2 p3 p4 p5 p6 in
    (
      s6,
      rw (on_remote_bridge_left, e1, e2, e3, e4, e5) e6,
      p6.consistent,
      left,
      λ kind name r found.
          survivor-IsFree config prefix kind (lookup name (select kind s)) r
            (sym (left kind name) ∙ found),
    )

-- When a bridge leaves, no route gets a remote route of another prefix that it did not have.
pub on_remote_bridge_left-stays-IsFree :
    ⦃k : KeyExprs⦄ ⦃j : IsJoin k⦄ ⦃c : Calls⦄ ⦃t : Outcomes⦄ (config : Config) (zenoh_id y : Text)
    (s s' : RoutesMgr)
    → ((kind : Kind) (name : Text)
        → lookup name (select kind s')
          ≡ survivor config kind (zenoh_id ++ codes ":") (lookup name (select kind s)))
    → (kind : Kind) → IsFree config y kind s
    → IsFree config y kind s'
on_remote_bridge_left-stays-IsFree config zenoh_id y s s' left kind free name r found =
    of_lookup (lookup name (select kind s)) refl (sym (left kind name) ∙ found)
  where
    of_lookup :
        (o : Option (Stored kind))
        → lookup name (select kind s) ≡ o
        → survivor config kind (zenoh_id ++ codes ":") o ≡ some r
        → (ops kind).serves y r ≡ false
    of_lookup none e h = absurd cc
    of_lookup (some q) e h = elim (Bool-cases (goes config kind (zenoh_id ++ codes ":") q)) [
      | inl leaves ↦ let bad : none ≡ some r = (rw leaves at h) in absurd cc
      | inr stays ↦
          let here : some ((ops kind).prune (zenoh_id ++ codes ":") q).0 ≡ some r =
            (rw stays at h) in
          let held : ((ops kind).prune (zenoh_id ++ codes ":") q).0 ≡ r = cc in
          subst (λ (x : Stored kind). (ops kind).serves y x ≡ false) held
            ((laws kind).prune-kept (zenoh_id ++ codes ":") y q (free name q e))
    ]
