-- ===== src/RoutesMgr/Handlers.antt =====
-- The handlers of events keep the routes and the admin space consistent.
use zenoh_plugin_ros2dds.Base.{
  ◌≡◌, refl, Text, Bool, true, false, ◌&&◌, Option, none, some, lookup, arith, if◌then◌else◌,
}
use zenoh_plugin_ros2dds.Externals.{KeyExprs, IsJoin}
use zenoh_plugin_ros2dds.Dds.{DdsEntity}
use zenoh_plugin_ros2dds.Entities.{DiscoveredEntities}
use zenoh_plugin_ros2dds.Events.{Ros2DiscoveryEvent, Ros2AnnouncementEvent, interface_key}
use zenoh_plugin_ros2dds.Ros2Utils.KeyExpressions.{Config, ros2_name_to_key_expr, Corresponds}
use zenoh_plugin_ros2dds.Routes.{Route, Calls, HasTokens}
use zenoh_plugin_ros2dds.Routes.Laws.{add_remote_publisher-used}
use zenoh_plugin_ros2dds.Routes.Subscriber as Subscriber
use zenoh_plugin_ros2dds.RoutesMgr.{
  RoutesMgr, Kind, publisher, subscriber, service_srv, service_cli, action_srv, action_cli, ops,
  Outcomes,
}
use zenoh_plugin_ros2dds.RoutesMgr.Events.{
  find_entity, has_local_writers, and_then, named, discovered, undiscovered, announced, retired,
  on_ros_discovery_event, on_ros_announcement_event,
}
use zenoh_plugin_ros2dds.RoutesMgr.Consistency.{laws, nodes, IsConsistent}
use zenoh_plugin_ros2dds.RoutesMgr.Steps.{Keeps, with_route-Keeps, release-Keeps}

-- The key expression of an announcement.
unfoldable pub announced_key_expr : {Q : Type 0} → Ros2AnnouncementEvent Q → Text
announced_key_expr (Ros2AnnouncementEvent.announced_msg_pub id ke typ keyless q) = ke
announced_key_expr (Ros2AnnouncementEvent.retired_msg_pub id ke keyless q) = ke
announced_key_expr (Ros2AnnouncementEvent.announced_msg_sub id ke typ keyless q) = ke
announced_key_expr (Ros2AnnouncementEvent.retired_msg_sub id ke) = ke
announced_key_expr (Ros2AnnouncementEvent.announced_service_srv id ke typ) = ke
announced_key_expr (Ros2AnnouncementEvent.retired_service_srv id ke) = ke
announced_key_expr (Ros2AnnouncementEvent.announced_service_cli id ke typ) = ke
announced_key_expr (Ros2AnnouncementEvent.retired_service_cli id ke) = ke
announced_key_expr (Ros2AnnouncementEvent.announced_action_srv id ke typ) = ke
announced_key_expr (Ros2AnnouncementEvent.retired_action_srv id ke) = ke
announced_key_expr (Ros2AnnouncementEvent.announced_action_cli id ke typ) = ke
announced_key_expr (Ros2AnnouncementEvent.retired_action_cli id ke) = ke

module _ ⦃k : KeyExprs⦄ ⦃j : IsJoin k⦄ ⦃c : Calls⦄ ⦃t : Outcomes⦄ (config : Config) where
  and_then-Keeps :
      (adapted : Bool) (o : Option (RoutesMgr × Bool))
      → Keeps config o
      → Keeps config (and_then adapted o)
  and_then-Keeps adapted o (r, e, h) = ((r.0, r.1 && adapted), rw e refl, h)

  named-Keeps :
      (ke name : Text) (f : Text → Option (RoutesMgr × Bool))
      → Corresponds config name ke
      → Keeps config (f name)
      → Keeps config (named config ke f)
  named-Keeps ke name f h (r, e, kept) = (r, rw (named, h.1) e, kept)

  discovered-Keeps :
      HasTokens c
      → (kind : Kind) (node name ke : Text) (s : RoutesMgr) → IsConsistent config s
      → Corresponds config name ke
      → Keeps config (discovered config kind node name s)
  discovered-Keeps tokens kind node name ke s h corresponds =
      with_route-Keeps config kind name ke ((ops kind).add_local_node node) s
        ((nodes tokens kind).fills-add_local_node node) h corresponds

  undiscovered-Keeps :
      (kind : Kind) (node name ke : Text) (adapted : Bool) (s : RoutesMgr)
      → IsConsistent config s
      → Corresponds config name ke
      → Keeps config (undiscovered config kind node name adapted s)
  undiscovered-Keeps kind node name ke adapted s h corresponds =
      release-Keeps config kind name ke (ros2_name_to_key_expr name config)
        ((ops kind).remove_local_node node) adapted s corresponds.0 h corresponds

  announced-Keeps :
      (kind : Kind) (id ke name : Text) (s : RoutesMgr)
      → IsConsistent config s
      → Corresponds config name ke
      → Keeps config (announced config kind id ke s)
  announced-Keeps kind id ke name s h corresponds = named-Keeps ke name _ corresponds (
      with_route-Keeps config kind name ke (λ r. some ((ops kind).add_remote_route id ke r)) s
        (λ r. ground (arith, (laws kind).add_remote_route-used id ke r)) h corresponds)

  retired-Keeps :
      (kind : Kind) (id ke name : Text) (s : RoutesMgr)
      → IsConsistent config s
      → Corresponds config name ke
      → Keeps config (retired config kind id ke s)
  retired-Keeps kind id ke name s h corresponds = named-Keeps ke name _ corresponds (
      release-Keeps config kind name ke (some ke) ((ops kind).remove_remote_route id ke) true s refl
        h corresponds)

  -- From a consistent state (the admin space refers to just the routes that there are, and none of
  -- them is unused), whatever zenoh and Cyclone DDS answer, `on_ros_discovery_event` does not panic
  -- and leaves a consistent state, also when it returns an error. That is for an event whose name and
  -- a key expression that zenoh accepts are converted to each other, where zenoh accepts also what
  -- the tokens of routes are made of (their key expressions and types, escaped), and for `/` of zenoh
  -- as documented.
  pub on_ros_discovery_event-IsConsistent :
      {Q I T : Type 0} (entities : DiscoveredEntities Q I T) (event : Ros2DiscoveryEvent)
      (ke : Text) (s : RoutesMgr)
      → HasTokens c
      → IsConsistent config s
      → Corresponds config (interface_key event).2 ke
      → Keeps config (on_ros_discovery_event config entities event s)
  unfolding on_ros_discovery_event interface_key
  on_ros_discovery_event-IsConsistent {Q = Q} entities
        (Ros2DiscoveryEvent.discovered_msg_pub node i) ke s tokens h e =
      of_entity (find_entity i.writers entities.writers) refl
    where
      of_entity :
          (o : Option (DdsEntity Q))
          → find_entity i.writers entities.writers ≡ o
          → Keeps config (
              on_ros_discovery_event config entities
                (Ros2DiscoveryEvent.discovered_msg_pub node i)
                s)
      of_entity none found = ((s, false), rw (on_ros_discovery_event, found) refl, h)
      of_entity (some w) found =
          let kept =
            and_then-Keeps (t.adapts i.name) _
              (discovered-Keeps tokens publisher node i.name ke s h e) in
          (kept.0, rw (on_ros_discovery_event, found) kept.1, kept.2)
  on_ros_discovery_event-IsConsistent entities (Ros2DiscoveryEvent.undiscovered_msg_pub node i) ke s
        tokens h e =
      undiscovered-Keeps publisher node i.name ke (t.adapts i.name) s h e
  on_ros_discovery_event-IsConsistent entities (Ros2DiscoveryEvent.local_writers_changed name) ke s
        tokens h e =
      of_lookup (lookup name s.routes_publishers) refl
    where
      of_lookup :
          (o : Option Route)
          → lookup name s.routes_publishers ≡ o
          → Keeps config (
              on_ros_discovery_event config entities
                (Ros2DiscoveryEvent.local_writers_changed name)
                s)
      of_lookup none found = ((s, true), rw (on_ros_discovery_event, found) refl, h)
      of_lookup (some r) found = (
        (s, if has_local_writers name entities.writers then t.adapts name else true),
        rw (on_ros_discovery_event, found) refl,
        h,
      )
  on_ros_discovery_event-IsConsistent {Q = Q} entities
        (Ros2DiscoveryEvent.discovered_msg_sub node i) ke s tokens h e =
      of_entity (find_entity i.readers entities.readers) refl
    where
      of_entity :
          (o : Option (DdsEntity Q))
          → find_entity i.readers entities.readers ≡ o
          → Keeps config (
              on_ros_discovery_event config entities
                (Ros2DiscoveryEvent.discovered_msg_sub node i)
                s)
      of_entity none found = ((s, false), rw (on_ros_discovery_event, found) refl, h)
      of_entity (some w) found =
          let kept = discovered-Keeps tokens subscriber node i.name ke s h e in
          (kept.0, rw (on_ros_discovery_event, found) kept.1, kept.2)
  on_ros_discovery_event-IsConsistent entities (Ros2DiscoveryEvent.undiscovered_msg_sub node i) ke s
        tokens h e =
      undiscovered-Keeps subscriber node i.name ke true s h e
  on_ros_discovery_event-IsConsistent entities (Ros2DiscoveryEvent.discovered_service_srv node i) ke
        s tokens h e =
      discovered-Keeps tokens service_srv node i.name ke s h e
  on_ros_discovery_event-IsConsistent entities (Ros2DiscoveryEvent.undiscovered_service_srv node i)
        ke s tokens h e =
      undiscovered-Keeps service_srv node i.name ke true s h e
  on_ros_discovery_event-IsConsistent entities (Ros2DiscoveryEvent.discovered_service_cli node i) ke
        s tokens h e =
      discovered-Keeps tokens service_cli node i.name ke s h e
  on_ros_discovery_event-IsConsistent entities (Ros2DiscoveryEvent.undiscovered_service_cli node i)
        ke s tokens h e =
      undiscovered-Keeps service_cli node i.name ke true s h e
  on_ros_discovery_event-IsConsistent entities (Ros2DiscoveryEvent.discovered_action_srv node i) ke
        s tokens h e =
      discovered-Keeps tokens action_srv node i.name ke s h e
  on_ros_discovery_event-IsConsistent entities (Ros2DiscoveryEvent.undiscovered_action_srv node i)
        ke s tokens h e =
      undiscovered-Keeps action_srv node i.name ke true s h e
  on_ros_discovery_event-IsConsistent entities (Ros2DiscoveryEvent.discovered_action_cli node i) ke
        s tokens h e =
      discovered-Keeps tokens action_cli node i.name ke s h e
  on_ros_discovery_event-IsConsistent entities (Ros2DiscoveryEvent.undiscovered_action_cli node i)
        ke s tokens h e =
      undiscovered-Keeps action_cli node i.name ke true s h e

  -- From a consistent state, whatever zenoh and Cyclone DDS answer, `on_ros_announcement_event` does
  -- not panic and leaves a consistent state, also when it returns an error; for an announcement whose
  -- key expression zenoh accepts, and is converted to a name and back, and for `/` of zenoh as
  -- documented.
  pub on_ros_announcement_event-IsConsistent :
      {Q : Type 0} (qos_text : Bool → Q → Text) (event : Ros2AnnouncementEvent Q) (name : Text)
      (s : RoutesMgr)
      → IsConsistent config s
      → Corresponds config name (announced_key_expr event)
      → Keeps config (on_ros_announcement_event config qos_text event s)
  unfolding on_ros_announcement_event announced_key_expr
  on_ros_announcement_event-IsConsistent qos_text
        (Ros2AnnouncementEvent.announced_msg_pub id ke typ keyless q) name s h e =
      named-Keeps ke name _ e (
        and_then-Keeps (t.adapts name) _ (
          with_route-Keeps config subscriber name ke
            (λ r. some (Subscriber.add_remote_publisher id ke (qos_text keyless q) r)) s
            (λ r. ground (arith, add_remote_publisher-used id ke (qos_text keyless q) r)) h e))
  on_ros_announcement_event-IsConsistent qos_text
        (Ros2AnnouncementEvent.retired_msg_pub id ke keyless q) name s h e =
      named-Keeps ke name _ e (
        release-Keeps config subscriber name ke (some ke)
          (Subscriber.remove_remote_publisher id ke (qos_text keyless q)) (t.adapts name) s refl h
          e)
  on_ros_announcement_event-IsConsistent qos_text
        (Ros2AnnouncementEvent.announced_msg_sub id ke typ keyless q) name s h e =
      announced-Keeps publisher id ke name s h e
  on_ros_announcement_event-IsConsistent qos_text (Ros2AnnouncementEvent.retired_msg_sub id ke) name
        s h e =
      retired-Keeps publisher id ke name s h e
  on_ros_announcement_event-IsConsistent qos_text
        (Ros2AnnouncementEvent.announced_service_srv id ke typ) name s h e =
      announced-Keeps service_cli id ke name s h e
  on_ros_announcement_event-IsConsistent qos_text (Ros2AnnouncementEvent.retired_service_srv id ke)
        name s h e =
      retired-Keeps service_cli id ke name s h e
  on_ros_announcement_event-IsConsistent qos_text
        (Ros2AnnouncementEvent.announced_service_cli id ke typ) name s h e =
      announced-Keeps service_srv id ke name s h e
  on_ros_announcement_event-IsConsistent qos_text (Ros2AnnouncementEvent.retired_service_cli id ke)
        name s h e =
      retired-Keeps service_srv id ke name s h e
  on_ros_announcement_event-IsConsistent qos_text
        (Ros2AnnouncementEvent.announced_action_srv id ke typ) name s h e =
      announced-Keeps action_cli id ke name s h e
  on_ros_announcement_event-IsConsistent qos_text (Ros2AnnouncementEvent.retired_action_srv id ke)
        name s h e =
      retired-Keeps action_cli id ke name s h e
  on_ros_announcement_event-IsConsistent qos_text
        (Ros2AnnouncementEvent.announced_action_cli id ke typ) name s h e =
      announced-Keeps action_srv id ke name s h e
  on_ros_announcement_event-IsConsistent qos_text (Ros2AnnouncementEvent.retired_action_cli id ke)
        name s h e =
      retired-Keeps action_srv id ke name s h e
