-- ===== src/RoutesMgr/Events.antt =====
-- The handlers of `RoutesMgr`, of zenoh-plugin-ros2dds/src/routes_mgr.rs. A handler returns the state
-- and whether it returned `Ok`; `none` is a panic. The QoS that a handler derives for a route are not
-- modelled: they change neither what the route serves nor the admin space.
use zenoh_plugin_ros2dds.Base.{
  Text, codes, ◌++◌, Bool, true, false, ◌&&◌, any, Option, none, some, List, [], ◌∷◌, Map, lookup,
  insert, values, str_eq, if◌then◌else◌,
}
use zenoh_plugin_ros2dds.Externals.{KeyExprs}
use zenoh_plugin_ros2dds.Gid.{Gid}
use zenoh_plugin_ros2dds.Dds.{DdsEntity}
use zenoh_plugin_ros2dds.Entities.{DiscoveredEntities}
use zenoh_plugin_ros2dds.Events.{Ros2DiscoveryEvent, Ros2AnnouncementEvent}
use zenoh_plugin_ros2dds.Ros2Utils.KeyExpressions.{
  Config, ros2_name_to_key_expr, key_expr_to_ros2_name,
}
use zenoh_plugin_ros2dds.Routes.{Calls}
use zenoh_plugin_ros2dds.Routes.Subscriber as Subscriber
use zenoh_plugin_ros2dds.RoutesMgr.{
  RoutesMgr, Kind, publisher, subscriber, service_srv, service_cli, action_srv, action_cli, select,
  store, Outcomes, ops, with_route, release, prune_map,
}

-- `find_map` of the first endpoint that is discovered.
unfoldable pub find_entity : {Q : Type 0} → List Gid → Map (DdsEntity Q) → Option (DdsEntity Q)
find_entity [] m = none
find_entity (g ∷ gs) m =
    let rest = find_entity gs m in elim (lookup g m) [ none ↦ rest | some w ↦ some w ]

-- Whether there is a writer on the topic of a name.
unfoldable pub has_local_writers : {Q : Type 0} → Text → Map (DdsEntity Q) → Bool
unfolding any
has_local_writers ros2_name writers =
    any (λ w. str_eq w.topic_name (codes "rt" ++ ros2_name)) (values writers)

-- A step that may fail comes after one that did not.
abbrev pub and_then : Bool → Option (RoutesMgr × Bool) → Option (RoutesMgr × Bool)
and_then adapted none = none
and_then adapted (some r) = some (r.0, r.1 && adapted)

module _ ⦃k : KeyExprs⦄ ⦃c : Calls⦄ ⦃t : Outcomes⦄ (config : Config) where
  -- The name of a key expression goes to the next step.
  abbrev pub named : Text → (Text → Option (RoutesMgr × Bool)) → Option (RoutesMgr × Bool)
  named ke f = elim (key_expr_to_ros2_name ke config) [ none ↦ none | some ros2_name ↦ f ros2_name ]

  abbrev pub discovered : Kind → Text → Text → RoutesMgr → Option (RoutesMgr × Bool)
  discovered kind node ros2_name s =
      with_route config kind ros2_name ((ops kind).add_local_node node) s

  abbrev pub undiscovered : Kind → Text → Text → Bool → RoutesMgr → Option (RoutesMgr × Bool)
  undiscovered kind node ros2_name adapted s =
      release config kind ros2_name (ros2_name_to_key_expr ros2_name config)
        ((ops kind).remove_local_node node) adapted s

  abbrev pub announced : Kind → Text → Text → RoutesMgr → Option (RoutesMgr × Bool)
  announced kind zenoh_id ke s = named ke (λ ros2_name.
      with_route config kind ros2_name (λ r. some ((ops kind).add_remote_route zenoh_id ke r)) s)

  abbrev pub retired : Kind → Text → Text → RoutesMgr → Option (RoutesMgr × Bool)
  retired kind zenoh_id ke s = named ke (λ ros2_name.
      release config kind ros2_name (some ke) ((ops kind).remove_remote_route zenoh_id ke) true s)

  unfoldable pub on_ros_discovery_event :
      {Q I T : Type 0}
      → DiscoveredEntities Q I T
      → Ros2DiscoveryEvent
      → RoutesMgr
      → Option (RoutesMgr × Bool)
  unfolding find_entity has_local_writers with_route release ros2_name_to_key_expr
  on_ros_discovery_event entities (Ros2DiscoveryEvent.discovered_msg_pub node i) s =
      elim (find_entity i.writers entities.writers) [
        | none ↦ some (s, false)
        | some entity ↦ and_then (t.adapts i.name) (discovered publisher node i.name s)
      ]
  on_ros_discovery_event entities (Ros2DiscoveryEvent.undiscovered_msg_pub node i) s =
      undiscovered publisher node i.name (t.adapts i.name) s
  on_ros_discovery_event entities (Ros2DiscoveryEvent.local_writers_changed name) s =
      elim (lookup name s.routes_publishers) [
        | none ↦ some (s, true)
        | some r ↦ some (s, if has_local_writers name entities.writers then t.adapts name else true)
      ]
  on_ros_discovery_event entities (Ros2DiscoveryEvent.discovered_msg_sub node i) s =
      elim (find_entity i.readers entities.readers) [
        | none ↦ some (s, false)
        | some entity ↦ discovered subscriber node i.name s
      ]
  on_ros_discovery_event entities (Ros2DiscoveryEvent.undiscovered_msg_sub node i) s =
      undiscovered subscriber node i.name true s
  on_ros_discovery_event entities (Ros2DiscoveryEvent.discovered_service_srv node i) s =
      discovered service_srv node i.name s
  on_ros_discovery_event entities (Ros2DiscoveryEvent.undiscovered_service_srv node i) s =
      undiscovered service_srv node i.name true s
  on_ros_discovery_event entities (Ros2DiscoveryEvent.discovered_service_cli node i) s =
      discovered service_cli node i.name s
  on_ros_discovery_event entities (Ros2DiscoveryEvent.undiscovered_service_cli node i) s =
      undiscovered service_cli node i.name true s
  on_ros_discovery_event entities (Ros2DiscoveryEvent.discovered_action_srv node i) s =
      discovered action_srv node i.name s
  on_ros_discovery_event entities (Ros2DiscoveryEvent.undiscovered_action_srv node i) s =
      undiscovered action_srv node i.name true s
  on_ros_discovery_event entities (Ros2DiscoveryEvent.discovered_action_cli node i) s =
      discovered action_cli node i.name s
  on_ros_discovery_event entities (Ros2DiscoveryEvent.undiscovered_action_cli node i) s =
      undiscovered action_cli node i.name true s

  -- `qos_text` makes the text of an announced QoS. An announced server is served by a client route,
  -- and the other way round.
  unfoldable pub on_ros_announcement_event :
      {Q : Type 0}
      → (Bool → Q → Text)
      → Ros2AnnouncementEvent Q
      → RoutesMgr
      → Option (RoutesMgr × Bool)
  unfolding with_route release key_expr_to_ros2_name
  on_ros_announcement_event qos_text (Ros2AnnouncementEvent.announced_msg_pub id ke typ keyless q)
        s =
      named ke (λ ros2_name. and_then (t.adapts ros2_name) (
        with_route config subscriber ros2_name
          (λ r. some (Subscriber.add_remote_publisher id ke (qos_text keyless q) r)) s))
  on_ros_announcement_event qos_text (Ros2AnnouncementEvent.retired_msg_pub id ke keyless q) s =
      named ke (λ ros2_name.
        release config subscriber ros2_name (some ke)
          (Subscriber.remove_remote_publisher id ke (qos_text keyless q)) (t.adapts ros2_name) s)
  on_ros_announcement_event qos_text (Ros2AnnouncementEvent.announced_msg_sub id ke typ keyless q)
        s =
      announced publisher id ke s
  on_ros_announcement_event qos_text (Ros2AnnouncementEvent.retired_msg_sub id ke) s =
      retired publisher id ke s
  on_ros_announcement_event qos_text (Ros2AnnouncementEvent.announced_service_srv id ke typ) s =
      announced service_cli id ke s
  on_ros_announcement_event qos_text (Ros2AnnouncementEvent.retired_service_srv id ke) s =
      retired service_cli id ke s
  on_ros_announcement_event qos_text (Ros2AnnouncementEvent.announced_service_cli id ke typ) s =
      announced service_srv id ke s
  on_ros_announcement_event qos_text (Ros2AnnouncementEvent.retired_service_cli id ke) s =
      retired service_srv id ke s
  on_ros_announcement_event qos_text (Ros2AnnouncementEvent.announced_action_srv id ke typ) s =
      announced action_cli id ke s
  on_ros_announcement_event qos_text (Ros2AnnouncementEvent.retired_action_srv id ke) s =
      retired action_cli id ke s
  on_ros_announcement_event qos_text (Ros2AnnouncementEvent.announced_action_cli id ke typ) s =
      announced action_srv id ke s
  on_ros_announcement_event qos_text (Ros2AnnouncementEvent.retired_action_cli id ke) s =
      retired action_srv id ke s

  -- A matched DDS Reader came or went; a route that is left unused stays.
  unfoldable pub on_matched_reader_event : Text → Bool → RoutesMgr → Option RoutesMgr
  unfolding lookup insert
  on_matched_reader_event ros2_name matched s = elim (lookup ros2_name s.routes_subscribers) [
    | none ↦ some s
    | some r ↦ elim (Subscriber.update_matched_readers matched r) [
      | none ↦ none
      | some r' ↦ some (record s { routes_subscribers = insert ros2_name r' s.routes_subscribers })
    ]
  ]

  unfoldable pub pruned : Kind → Text → Option RoutesMgr → Option RoutesMgr
  unfolding prune_map
  pruned kind prefix none = none
  pruned kind prefix (some s) = elim (prune_map config kind prefix (select kind s) s.admin_space) [
    | none ↦ none
    | some r ↦ some (store kind r.0 r.1 s)
  ]

  unfoldable pub on_remote_bridge_left : Text → RoutesMgr → Option RoutesMgr
  unfolding pruned
  on_remote_bridge_left zenoh_id s =
      let prefix = zenoh_id ++ codes ":" in
      pruned action_cli prefix (
        pruned action_srv prefix (
          pruned service_cli prefix (
            pruned service_srv prefix
              (pruned subscriber prefix (pruned publisher prefix (some s))))))
