-- ===== src/RoutesMgr/Kinds.antt =====
-- The kinds of routes are told apart by their maps and by their prefixes of the admin space.
use zenoh_plugin_ros2dds.Base.{◌≡◌, refl, Text, codes, Bool, true, false, ◌&&◌, Map, str_eq}
use zenoh_plugin_ros2dds.Externals.{KeyExprs, IsJoin}
use zenoh_plugin_ros2dds.RoutesMgr.{
  RouteRef, RoutesMgr, Kind, publisher, subscriber, service_srv, service_cli, action_srv,
  action_cli, Stored, select, store, admin_key,
}

abbrev pub same_kind : Kind → Kind → Bool
same_kind publisher publisher = true
same_kind publisher subscriber = false
same_kind publisher service_srv = false
same_kind publisher service_cli = false
same_kind publisher action_srv = false
same_kind publisher action_cli = false
same_kind subscriber publisher = false
same_kind subscriber subscriber = true
same_kind subscriber service_srv = false
same_kind subscriber service_cli = false
same_kind subscriber action_srv = false
same_kind subscriber action_cli = false
same_kind service_srv publisher = false
same_kind service_srv subscriber = false
same_kind service_srv service_srv = true
same_kind service_srv service_cli = false
same_kind service_srv action_srv = false
same_kind service_srv action_cli = false
same_kind service_cli publisher = false
same_kind service_cli subscriber = false
same_kind service_cli service_srv = false
same_kind service_cli service_cli = true
same_kind service_cli action_srv = false
same_kind service_cli action_cli = false
same_kind action_srv publisher = false
same_kind action_srv subscriber = false
same_kind action_srv service_srv = false
same_kind action_srv service_cli = false
same_kind action_srv action_srv = true
same_kind action_srv action_cli = false
same_kind action_cli publisher = false
same_kind action_cli subscriber = false
same_kind action_cli service_srv = false
same_kind action_cli service_cli = false
same_kind action_cli action_srv = false
same_kind action_cli action_cli = true

pub data Comparison : Kind → Kind → Type 0 where
  same : (k : Kind) → same_kind k k ≡ true → Comparison k k
  other : (k j : Kind) → same_kind k j ≡ false → Comparison k j

pub compare_kinds : (k j : Kind) → Comparison k j
compare_kinds publisher publisher = same publisher refl
compare_kinds publisher subscriber = other publisher subscriber refl
compare_kinds publisher service_srv = other publisher service_srv refl
compare_kinds publisher service_cli = other publisher service_cli refl
compare_kinds publisher action_srv = other publisher action_srv refl
compare_kinds publisher action_cli = other publisher action_cli refl
compare_kinds subscriber publisher = other subscriber publisher refl
compare_kinds subscriber subscriber = same subscriber refl
compare_kinds subscriber service_srv = other subscriber service_srv refl
compare_kinds subscriber service_cli = other subscriber service_cli refl
compare_kinds subscriber action_srv = other subscriber action_srv refl
compare_kinds subscriber action_cli = other subscriber action_cli refl
compare_kinds service_srv publisher = other service_srv publisher refl
compare_kinds service_srv subscriber = other service_srv subscriber refl
compare_kinds service_srv service_srv = same service_srv refl
compare_kinds service_srv service_cli = other service_srv service_cli refl
compare_kinds service_srv action_srv = other service_srv action_srv refl
compare_kinds service_srv action_cli = other service_srv action_cli refl
compare_kinds service_cli publisher = other service_cli publisher refl
compare_kinds service_cli subscriber = other service_cli subscriber refl
compare_kinds service_cli service_srv = other service_cli service_srv refl
compare_kinds service_cli service_cli = same service_cli refl
compare_kinds service_cli action_srv = other service_cli action_srv refl
compare_kinds service_cli action_cli = other service_cli action_cli refl
compare_kinds action_srv publisher = other action_srv publisher refl
compare_kinds action_srv subscriber = other action_srv subscriber refl
compare_kinds action_srv service_srv = other action_srv service_srv refl
compare_kinds action_srv service_cli = other action_srv service_cli refl
compare_kinds action_srv action_srv = same action_srv refl
compare_kinds action_srv action_cli = other action_srv action_cli refl
compare_kinds action_cli publisher = other action_cli publisher refl
compare_kinds action_cli subscriber = other action_cli subscriber refl
compare_kinds action_cli service_srv = other action_cli service_srv refl
compare_kinds action_cli service_cli = other action_cli service_cli refl
compare_kinds action_cli action_srv = other action_cli action_srv refl
compare_kinds action_cli action_cli = same action_cli refl

pub select-store_same :
    (k : Kind) (m : Map (Stored k)) (a : Map RouteRef) (s : RoutesMgr)
    → select k (store k m a s) ≡ m
select-store_same publisher m a s = refl
select-store_same subscriber m a s = refl
select-store_same service_srv m a s = refl
select-store_same service_cli m a s = refl
select-store_same action_srv m a s = refl
select-store_same action_cli m a s = refl

pub admin_space-store :
    (k : Kind) (m : Map (Stored k)) (a : Map RouteRef) (s : RoutesMgr)
    → (store k m a s).admin_space ≡ a
admin_space-store publisher m a s = refl
admin_space-store subscriber m a s = refl
admin_space-store service_srv m a s = refl
admin_space-store service_cli m a s = refl
admin_space-store action_srv m a s = refl
admin_space-store action_cli m a s = refl

pub select-store_other :
    (k j : Kind) (m : Map (Stored k)) (a : Map RouteRef) (s : RoutesMgr)
    → same_kind k j ≡ false
    → select j (store k m a s) ≡ select j s
select-store_other publisher publisher m a s h = absurd cc
select-store_other publisher subscriber m a s h = refl
select-store_other publisher service_srv m a s h = refl
select-store_other publisher service_cli m a s h = refl
select-store_other publisher action_srv m a s h = refl
select-store_other publisher action_cli m a s h = refl
select-store_other subscriber publisher m a s h = refl
select-store_other subscriber subscriber m a s h = absurd cc
select-store_other subscriber service_srv m a s h = refl
select-store_other subscriber service_cli m a s h = refl
select-store_other subscriber action_srv m a s h = refl
select-store_other subscriber action_cli m a s h = refl
select-store_other service_srv publisher m a s h = refl
select-store_other service_srv subscriber m a s h = refl
select-store_other service_srv service_srv m a s h = absurd cc
select-store_other service_srv service_cli m a s h = refl
select-store_other service_srv action_srv m a s h = refl
select-store_other service_srv action_cli m a s h = refl
select-store_other service_cli publisher m a s h = refl
select-store_other service_cli subscriber m a s h = refl
select-store_other service_cli service_srv m a s h = refl
select-store_other service_cli service_cli m a s h = absurd cc
select-store_other service_cli action_srv m a s h = refl
select-store_other service_cli action_cli m a s h = refl
select-store_other action_srv publisher m a s h = refl
select-store_other action_srv subscriber m a s h = refl
select-store_other action_srv service_srv m a s h = refl
select-store_other action_srv service_cli m a s h = refl
select-store_other action_srv action_srv m a s h = absurd cc
select-store_other action_srv action_cli m a s h = refl
select-store_other action_cli publisher m a s h = refl
select-store_other action_cli subscriber m a s h = refl
select-store_other action_cli service_srv m a s h = refl
select-store_other action_cli service_cli m a s h = refl
select-store_other action_cli action_srv m a s h = refl
select-store_other action_cli action_cli m a s h = absurd cc

module _ ⦃k : KeyExprs⦄ ⦃j : IsJoin k⦄ where
  pub admin_key-eq :
      (a b : Kind) (x y : Text)
      → str_eq (admin_key a x) (admin_key b y) ≡ (same_kind a b && str_eq x y)
  unfolding str_eq
  admin_key-eq publisher publisher x y =
      rw (j.join_lem (codes "route/topic/pub") x refl, j.join_lem (codes "route/topic/pub") y refl)
        refl
  admin_key-eq publisher subscriber x y =
      rw (j.join_lem (codes "route/topic/pub") x refl, j.join_lem (codes "route/topic/sub") y refl)
        refl
  admin_key-eq publisher service_srv x y =
      rw
        (j.join_lem (codes "route/topic/pub") x refl, j.join_lem (codes "route/service/srv") y refl)
        refl
  admin_key-eq publisher service_cli x y =
      rw
        (j.join_lem (codes "route/topic/pub") x refl, j.join_lem (codes "route/service/cli") y refl)
        refl
  admin_key-eq publisher action_srv x y =
      rw (j.join_lem (codes "route/topic/pub") x refl, j.join_lem (codes "route/action/srv") y refl)
        refl
  admin_key-eq publisher action_cli x y =
      rw (j.join_lem (codes "route/topic/pub") x refl, j.join_lem (codes "route/action/cli") y refl)
        refl
  admin_key-eq subscriber publisher x y =
      rw (j.join_lem (codes "route/topic/sub") x refl, j.join_lem (codes "route/topic/pub") y refl)
        refl
  admin_key-eq subscriber subscriber x y =
      rw (j.join_lem (codes "route/topic/sub") x refl, j.join_lem (codes "route/topic/sub") y refl)
        refl
  admin_key-eq subscriber service_srv x y =
      rw
        (j.join_lem (codes "route/topic/sub") x refl, j.join_lem (codes "route/service/srv") y refl)
        refl
  admin_key-eq subscriber service_cli x y =
      rw
        (j.join_lem (codes "route/topic/sub") x refl, j.join_lem (codes "route/service/cli") y refl)
        refl
  admin_key-eq subscriber action_srv x y =
      rw (j.join_lem (codes "route/topic/sub") x refl, j.join_lem (codes "route/action/srv") y refl)
        refl
  admin_key-eq subscriber action_cli x y =
      rw (j.join_lem (codes "route/topic/sub") x refl, j.join_lem (codes "route/action/cli") y refl)
        refl
  admin_key-eq service_srv publisher x y =
      rw
        (j.join_lem (codes "route/service/srv") x refl, j.join_lem (codes "route/topic/pub") y refl)
        refl
  admin_key-eq service_srv subscriber x y =
      rw
        (j.join_lem (codes "route/service/srv") x refl, j.join_lem (codes "route/topic/sub") y refl)
        refl
  admin_key-eq service_srv service_srv x y =
      rw
        (
          j.join_lem (codes "route/service/srv") x refl,
          j.join_lem (codes "route/service/srv") y refl,
        )
        refl
  admin_key-eq service_srv service_cli x y =
      rw
        (
          j.join_lem (codes "route/service/srv") x refl,
          j.join_lem (codes "route/service/cli") y refl,
        )
        refl
  admin_key-eq service_srv action_srv x y =
      rw
        (
          j.join_lem (codes "route/service/srv") x refl,
          j.join_lem (codes "route/action/srv") y refl,
        )
        refl
  admin_key-eq service_srv action_cli x y =
      rw
        (
          j.join_lem (codes "route/service/srv") x refl,
          j.join_lem (codes "route/action/cli") y refl,
        )
        refl
  admin_key-eq service_cli publisher x y =
      rw
        (j.join_lem (codes "route/service/cli") x refl, j.join_lem (codes "route/topic/pub") y refl)
        refl
  admin_key-eq service_cli subscriber x y =
      rw
        (j.join_lem (codes "route/service/cli") x refl, j.join_lem (codes "route/topic/sub") y refl)
        refl
  admin_key-eq service_cli service_srv x y =
      rw
        (
          j.join_lem (codes "route/service/cli") x refl,
          j.join_lem (codes "route/service/srv") y refl,
        )
        refl
  admin_key-eq service_cli service_cli x y =
      rw
        (
          j.join_lem (codes "route/service/cli") x refl,
          j.join_lem (codes "route/service/cli") y refl,
        )
        refl
  admin_key-eq service_cli action_srv x y =
      rw
        (
          j.join_lem (codes "route/service/cli") x refl,
          j.join_lem (codes "route/action/srv") y refl,
        )
        refl
  admin_key-eq service_cli action_cli x y =
      rw
        (
          j.join_lem (codes "route/service/cli") x refl,
          j.join_lem (codes "route/action/cli") y refl,
        )
        refl
  admin_key-eq action_srv publisher x y =
      rw (j.join_lem (codes "route/action/srv") x refl, j.join_lem (codes "route/topic/pub") y refl)
        refl
  admin_key-eq action_srv subscriber x y =
      rw (j.join_lem (codes "route/action/srv") x refl, j.join_lem (codes "route/topic/sub") y refl)
        refl
  admin_key-eq action_srv service_srv x y =
      rw
        (
          j.join_lem (codes "route/action/srv") x refl,
          j.join_lem (codes "route/service/srv") y refl,
        )
        refl
  admin_key-eq action_srv service_cli x y =
      rw
        (
          j.join_lem (codes "route/action/srv") x refl,
          j.join_lem (codes "route/service/cli") y refl,
        )
        refl
  admin_key-eq action_srv action_srv x y =
      rw
        (j.join_lem (codes "route/action/srv") x refl, j.join_lem (codes "route/action/srv") y refl)
        refl
  admin_key-eq action_srv action_cli x y =
      rw
        (j.join_lem (codes "route/action/srv") x refl, j.join_lem (codes "route/action/cli") y refl)
        refl
  admin_key-eq action_cli publisher x y =
      rw (j.join_lem (codes "route/action/cli") x refl, j.join_lem (codes "route/topic/pub") y refl)
        refl
  admin_key-eq action_cli subscriber x y =
      rw (j.join_lem (codes "route/action/cli") x refl, j.join_lem (codes "route/topic/sub") y refl)
        refl
  admin_key-eq action_cli service_srv x y =
      rw
        (
          j.join_lem (codes "route/action/cli") x refl,
          j.join_lem (codes "route/service/srv") y refl,
        )
        refl
  admin_key-eq action_cli service_cli x y =
      rw
        (
          j.join_lem (codes "route/action/cli") x refl,
          j.join_lem (codes "route/service/cli") y refl,
        )
        refl
  admin_key-eq action_cli action_srv x y =
      rw
        (j.join_lem (codes "route/action/cli") x refl, j.join_lem (codes "route/action/srv") y refl)
        refl
  admin_key-eq action_cli action_cli x y =
      rw
        (j.join_lem (codes "route/action/cli") x refl, j.join_lem (codes "route/action/cli") y refl)
        refl

module _ ⦃k : KeyExprs⦄ ⦃j : IsJoin k⦄ where
  -- With a key expression, `*KE_PREFIX / key_expr` does not panic.
  pub is_key_expr-admin_key :
      (kind : Kind) (ke : Text) → k.is_key_expr ke ≡ true → k.is_key_expr (admin_key kind ke) ≡ true
  is_key_expr-admin_key publisher ke h = j.is_key_expr-join (codes "route/topic/pub") ke refl h
  is_key_expr-admin_key subscriber ke h = j.is_key_expr-join (codes "route/topic/sub") ke refl h
  is_key_expr-admin_key service_srv ke h = j.is_key_expr-join (codes "route/service/srv") ke refl h
  is_key_expr-admin_key service_cli ke h = j.is_key_expr-join (codes "route/service/cli") ke refl h
  is_key_expr-admin_key action_srv ke h = j.is_key_expr-join (codes "route/action/srv") ke refl h
  is_key_expr-admin_key action_cli ke h = j.is_key_expr-join (codes "route/action/cli") ke refl h
