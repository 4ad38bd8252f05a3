-- ===== src/RoutesMgr/Departure/Steps.antt =====
-- One map of routes after another when a bridge leaves.
use zenoh_plugin_ros2dds.Base.{
  ◌≡◌, refl, ap, ◌∙◌, subst, Text, false, Bool-cases, inl, inr, Option, none, some, Map, lookup,
  if◌then◌else◌, arith,
}
use zenoh_plugin_ros2dds.Externals.{KeyExprs, IsJoin}
use zenoh_plugin_ros2dds.Ros2Utils.KeyExpressions.{Config, Corresponds}
use zenoh_plugin_ros2dds.Routes.{Calls}
use zenoh_plugin_ros2dds.RoutesMgr.{
  RouteRef, RoutesMgr, Kind, publisher, subscriber, service_srv, service_cli, action_srv,
  action_cli, Stored, select, store, admin_key, ops, Outcomes,
}
use zenoh_plugin_ros2dds.RoutesMgr.Kinds.{
  same_kind, Comparison, same, other, compare_kinds, select-store_same, select-store_other,
  admin_space-store,
}
use zenoh_plugin_ros2dds.RoutesMgr.Events.{pruned}
use zenoh_plugin_ros2dds.RoutesMgr.Consistency.{
  reference, laws, IsUsed, IsConsistent, store-Distinct,
}
use zenoh_plugin_ros2dds.RoutesMgr.Pruning.{goes, is_gone, survivor, Pruned, prune_map-Pruned}

module _ ⦃k : KeyExprs⦄ ⦃j : IsJoin k⦄ ⦃c : Calls⦄ ⦃t : Outcomes⦄ (config : Config)
    (prefix : Text) where
  -- No route of a kind has a remote route with the prefix.
  abbrev pub IsFree : Kind → RoutesMgr → Type 0
  IsFree kind s =
      (name : Text) (r : Stored kind)
      → lookup name (select kind s) ≡ some r
      → (ops kind).serves prefix r ≡ false

  pub survivor-IsFree :
      (kind : Kind) (o : Option (Stored kind)) (r : Stored kind)
      → survivor config kind prefix o ≡ some r
      → (ops kind).serves prefix r ≡ false
  survivor-IsFree kind none r e = absurd cc
  survivor-IsFree kind (some q) r e = elim (Bool-cases (goes config kind prefix q)) [
    | inl leaves ↦ let bad : none ≡ some r = (rw leaves at e) in absurd cc
    | inr stays ↦
        let here : some ((ops kind).prune prefix q).0 ≡ some r = (rw stays at e) in
        let held : ((ops kind).prune prefix q).0 ≡ r = cc in
        subst (λ (x : Stored kind). (ops kind).serves prefix x ≡ false) held
          ((laws kind).prune-gone prefix q)
  ]

  survivor-IsUsed :
      (kind : Kind) (o : Option (Stored kind))
      → IsUsed kind o
      → IsUsed kind (survivor config kind prefix o)
  survivor-IsUsed kind none h = tt
  survivor-IsUsed kind (some r) h = elim (Bool-cases (goes config kind prefix r)) [
    | inl leaves ↦ rw leaves tt
    | inr stays ↦ rw stays (elim (Bool-cases ((ops kind).prune prefix r).1) [
      | inl shorter ↦ ground (arith, stays, shorter)
      | inr untouched ↦ (laws kind).prune-untouched prefix r untouched ∙ h
    ])
  ]

  survivor-reference :
      (kind : Kind) (name : Text) (o : Option (Stored kind))
      → (if is_gone config kind prefix o then none else reference kind name o)
        ≡ reference kind name (survivor config kind prefix o)
  survivor-reference kind name none = refl
  survivor-reference kind name (some r) = elim (Bool-cases (goes config kind prefix r)) [
    | inl leaves ↦ rw leaves refl
    | inr stays ↦ rw stays refl
  ]

  survivor-origin :
      (kind : Kind) (o : Option (Stored kind)) (r : Stored kind)
      → survivor config kind prefix o ≡ some r
      → (q : Stored kind) × (o ≡ some q)
  survivor-origin kind none r e = absurd cc
  survivor-origin kind (some q) r e = (q, refl)

  -- One map is pruned, and the others stay as they are.
  module _ (kind : Kind) (s : RoutesMgr) (u : Map (Stored kind) × Map RouteRef)
      (h : IsConsistent config s)
      (p : Pruned config kind prefix (select kind s) s.admin_space u) where
    pruned_listed :
        (kind' : Kind) (name ke : Text)
        → Comparison kind kind'
        → Corresponds config name ke
        → lookup (admin_key kind' ke) u.1
          ≡ reference kind' name (lookup name (select kind' (store kind u.0 u.1 s)))
    pruned_listed _ name ke (same _ e) corresponds =
        let left : lookup (admin_key kind ke) u.1 ≡ (
            if is_gone config kind prefix (lookup name (select kind s))
            then none
            else reference kind name (lookup name (select kind s))) =
          rw (e, h.listed kind name ke corresponds) at (p.refs kind name ke corresponds) in
        rw (select-store_same kind u.0 u.1 s, p.routes name)
          (left ∙ survivor-reference kind name (lookup name (select kind s)))
    pruned_listed kind' name ke (other _ _ e) corresponds =
        rw (select-store_other kind kind' u.0 u.1 s e, ← h.listed kind' name ke corresponds)
          (rw e at (p.refs kind' name ke corresponds))

    pruned-IsUsed :
        (kind' : Kind) (name : Text)
        → Comparison kind kind'
        → IsUsed kind' (lookup name (select kind' (store kind u.0 u.1 s)))
    pruned-IsUsed _ name (same _ e) =
        rw (select-store_same kind u.0 u.1 s, p.routes name)
          (survivor-IsUsed kind (lookup name (select kind s)) (h.used kind name))
    pruned-IsUsed kind' name (other _ _ e) =
        rw (select-store_other kind kind' u.0 u.1 s e) (h.used kind' name)

    pruned-has_key :
        (kind' : Kind) (name : Text) (r : Stored kind')
        → Comparison kind kind'
        → lookup name (select kind' (store kind u.0 u.1 s)) ≡ some r
        → (ke : Text) × Corresponds config name ke
    pruned-has_key _ name r (same _ e) found =
        let left : survivor config kind prefix (lookup name (select kind s)) ≡ some r =
          rw (select-store_same kind u.0 u.1 s, p.routes name) at found in
        let (q, there) = survivor-origin kind (lookup name (select kind s)) r left in
        h.has_key kind name q there
    pruned-has_key kind' name r (other _ _ e) found =
        h.has_key kind' name r (rw (select-store_other kind kind' u.0 u.1 s e) at found)

    pruned-IsConsistent : IsConsistent config (store kind u.0 u.1 s)
    pruned-IsConsistent = record {
      listed = λ kind' name ke corresponds.
          ap (lookup (admin_key kind' ke)) (admin_space-store kind u.0 u.1 s)
          ∙ pruned_listed kind' name ke (compare_kinds kind kind') corresponds;
      used = λ kind' name. pruned-IsUsed kind' name (compare_kinds kind kind');
      has_key = λ kind' name r found. pruned-has_key kind' name r (compare_kinds kind kind') found;
      distinct = λ kind'.
          store-Distinct config kind kind' u.0 u.1 s (compare_kinds kind kind') h p.distinct;
    }

  -- One pruning step: a consistent state with what is left of the routes of one kind, and the routes
  -- of the other kinds as before.
  pub record Step (kind : Kind) (s s' : RoutesMgr) : Type 0 where
    pub consistent : IsConsistent config s'
    pub routes :
        (name : Text)
        → lookup name (select kind s') ≡ survivor config kind prefix (lookup name (select kind s))
    pub others : (kind' : Kind) → same_kind kind kind' ≡ false → select kind' s' ≡ select kind' s

  pub pruned-Step :
      (kind : Kind) (s : RoutesMgr)
      → IsConsistent config s
      → (s' : RoutesMgr) × (pruned config kind prefix (some s) ≡ some s') × Step kind s s'
  unfolding pruned
  pruned-Step kind s h =
      let (u, e, p) =
        prune_map-Pruned config kind prefix (select kind s) s.admin_space (h.distinct kind)
          (h.has_key kind) in
      (
        store kind u.0 u.1 s,
        rw (pruned, e) refl,
        record {
          consistent = pruned-IsConsistent kind s u h p;
          routes = λ name. rw (select-store_same kind u.0 u.1 s) (p.routes name);
          others = λ kind' e'. select-store_other kind kind' u.0 u.1 s e';
        },
      )

  pub steps-survivor :
      (s s1 s2 s3 s4 s5 s6 : RoutesMgr)
      → Step publisher s s1
      → Step subscriber s1 s2
      → Step service_srv s2 s3
      → Step service_cli s3 s4
      → Step action_srv s4 s5
      → Step action_cli s5 s6
      → (kind : Kind) (name : Text)
      → lookup name (select kind s6) ≡ survivor config kind prefix (lookup name (select kind s))
  steps-survivor s s1 s2 s3 s4 s5 s6 p1 p2 p3 p4 p5 p6 publisher name =
      rw
        (
          p6.others publisher refl,
          p5.others publisher refl,
          p4.others publisher refl,
          p3.others publisher refl,
          p2.others publisher refl,
          p1.routes name,
        )
        refl
  steps-survivor s s1 s2 s3 s4 s5 s6 p1 p2 p3 p4 p5 p6 subscriber name =
      rw
        (
          p6.others subscriber refl,
          p5.others subscriber refl,
          p4.others subscriber refl,
          p3.others subscriber refl,
          p2.routes name,
          p1.others subscriber refl,
        )
        refl
  steps-survivor s s1 s2 s3 s4 s5 s6 p1 p2 p3 p4 p5 p6 service_srv name =
      rw
        (
          p6.others service_srv refl,
          p5.others service_srv refl,
          p4.others service_srv refl,
          p3.routes name,
          p2.others service_srv refl,
          p1.others service_srv refl,
        )
        refl
  steps-survivor s s1 s2 s3 s4 s5 s6 p1 p2 p3 p4 p5 p6 service_cli name =
      rw
        (
          p6.others service_cli refl,
          p5.others service_cli refl,
          p4.routes name,
          p3.others service_cli refl,
          p2.others service_cli refl,
          p1.others service_cli refl,
        )
        refl
  steps-survivor s s1 s2 s3 s4 s5 s6 p1 p2 p3 p4 p5 p6 action_srv name =
      rw
        (
          p6.others action_srv refl,
          p5.routes name,
          p4.others action_srv refl,
          p3.others action_srv refl,
          p2.others action_srv refl,
          p1.others action_srv refl,
        )
        refl
  steps-survivor s s1 s2 s3 s4 s5 s6 p1 p2 p3 p4 p5 p6 action_cli name =
      rw
        (
          p6.routes name,
          p5.others action_cli refl,
          p4.others action_cli refl,
          p3.others action_cli refl,
          p2.others action_cli refl,
          p1.others action_cli refl,
        )
        refl
