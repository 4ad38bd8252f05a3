-- ===== src/RoutesMgr/Outside.antt =====
-- What is left of a route for a key expression that is not in the namespace of the bridge.
use zenoh_plugin_ros2dds.Base.{
  ℕ, ◌≡◌, refl, ap, Text, codes, Bool, true, false, Bool-cases, inl, inr, some, [], ◌∷◌, ◌++◌,
  length, length-append, lookup, insert, remove, str_eq, str_eq_refl, eq_of_str_eq, arith,
}
use zenoh_plugin_ros2dds.Externals.{KeyExprs, IsJoin}
use zenoh_plugin_ros2dds.Events.{Ros2AnnouncementEvent}
use zenoh_plugin_ros2dds.Interfaces.{contains, without, set_insert}
use zenoh_plugin_ros2dds.Ros2Utils.KeyExpressions.{
  Config, ros2_name_to_key_expr, key_expr_to_ros2_name,
}
use zenoh_plugin_ros2dds.Routes.{Calls, remote_key, is_unused, new_route}
use zenoh_plugin_ros2dds.Routes.ServiceCli as ServiceCli
use zenoh_plugin_ros2dds.RoutesMgr.{
  RoutesMgr, service_cli, service_cli_ref, admin_key, Outcomes, with_route, release, new,
}
use zenoh_plugin_ros2dds.RoutesMgr.Kinds.{admin_key-eq, is_key_expr-admin_key}
use zenoh_plugin_ros2dds.RoutesMgr.Events.{named, announced, retired, on_ros_announcement_event}

-- To remove what was inserted alone leaves nothing.
without-set_insert : (x : Text) → without x (set_insert x []).0 ≡ []
unfolding set_insert without contains
without-set_insert x = rw (str_eq_refl x) refl

module _ ⦃k : KeyExprs⦄ ⦃j : IsJoin k⦄ ⦃c : Calls⦄ ⦃t : Outcomes⦄ where
  unused_again :
      (id ke name : Text)
      → is_unused (
          ServiceCli.remove_remote_route id ke (ServiceCli.add_remote_route id ke (new_route name)))
        ≡ true
  unfolding ServiceCli.add_remote_route ServiceCli.remove_remote_route
  unused_again id ke name = ground (arith, without-set_insert (remote_key id ke))

  other_key : (p ke : Text) → str_eq (p ++ (codes "/" ++ ke)) ke ≡ false
  other_key p ke = elim (Bool-cases (str_eq (p ++ (codes "/" ++ ke)) ke)) [
    | inr other ↦ other
    | inl same ↦
        let e = ap (length {A = ℕ}) (eq_of_str_eq (p ++ (codes "/" ++ ke)) ke same) in
        absurd (omega (arith, e, length-append p (codes "/" ++ ke)))
  ]

  -- For a key expression `ke` that is named '/' and `ke`, while that name is converted to `p` and '/'
  -- and `ke` (as in a namespace of `p` that `ke` is not in): where zenoh accepts both for key
  -- expressions, routes can be created, and `/` of zenoh is as documented, the announcement of a
  -- service server at `ke` and its retirement, from no routes, both succeed and leave no route, and
  -- yet the admin space still refers to one.
  pub retired_service_srv-dangling :
      (config : Config) (qos_text : Bool → Text → Text) (id ke typ p : Text)
      → key_expr_to_ros2_name ke config ≡ some (codes "/" ++ ke)
      → ros2_name_to_key_expr (codes "/" ++ ke) config ≡ some (p ++ (codes "/" ++ ke))
      → t.creates (codes "/" ++ ke) ≡ true
      → k.is_key_expr ke ≡ true
      → k.is_key_expr (p ++ (codes "/" ++ ke)) ≡ true
      → (s s' : RoutesMgr) × (on_ros_announcement_event config qos_text
            (Ros2AnnouncementEvent.announced_service_srv id ke typ)
            new
          ≡ some (s, true))
        × (on_ros_announcement_event config qos_text
              (Ros2AnnouncementEvent.retired_service_srv id ke)
              s
            ≡ some (s', true))
        × (s'.routes_service_cli ≡ [])
        × (lookup (admin_key service_cli (p ++ (codes "/" ++ ke))) s'.admin_space
            ≡ some (service_cli_ref (codes "/" ++ ke)))
  unfolding on_ros_announcement_event with_route release lookup insert remove
  retired_service_srv-dangling config qos_text id ke typ p named_so keyed creates valid valid' =
      let name = codes "/" ++ ke in
      let r = ServiceCli.add_remote_route id ke (new_route name) in
      let key = admin_key service_cli (p ++ (codes "/" ++ ke)) in
      let s : RoutesMgr = record new {
        routes_service_cli = (name, r) ∷ [];
        admin_space = (key, service_cli_ref name) ∷ [];
      } in
      let s' : RoutesMgr = record new { admin_space = (key, service_cli_ref name) ∷ [] } in
      (
        s,
        s',
        rw
            (
              announced,
              named,
              named_so,
              with_route,
              keyed,
              creates,
              is_key_expr-admin_key service_cli (p ++ (codes "/" ++ ke)) valid',
            )
            refl,
        rw
            (
              retired,
              named,
              named_so,
              release,
              str_eq_refl name,
              unused_again id ke name,
              is_key_expr-admin_key service_cli ke valid,
              admin_key-eq service_cli service_cli (p ++ (codes "/" ++ ke)) ke,
              other_key p ke,
              str_eq_refl ke,
            )
            refl,
        refl,
        rw (str_eq_refl key) refl,
      )
