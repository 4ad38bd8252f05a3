-- ===== src/Runtime/Allowed.antt =====
-- What the configuration allows of the two sides of a route.
use zenoh_plugin_ros2dds.Base.{◌≡◌, refl, Text, Bool, not, Option, none, some, []}
use zenoh_plugin_ros2dds.Interfaces.{
  service_srv_default, service_cli_default, action_srv_default, action_cli_default,
}
use zenoh_plugin_ros2dds.Events.{Ros2DiscoveryEvent, Ros2AnnouncementEvent}
use zenoh_plugin_ros2dds.Config.{Regex, Ros2InterfacesRegex, Allowance, allow, deny, is_allowed_by}
use zenoh_plugin_ros2dds.Ros2Utils.KeyExpressions.{Config, key_expr_to_ros2_name}
use zenoh_plugin_ros2dds.RoutesMgr.Handlers.{announced_key_expr}
use zenoh_plugin_ros2dds.Runtime.{is_allowed, is_announcement_allowed, with_name}

-- The discovery of a local interface that an announced one is for: a subscriber for a publisher, a
-- client for a server, and the other way round.
unfoldable pub counterpart : {Q : Type 0} → Ros2AnnouncementEvent Q → Text → Ros2DiscoveryEvent
counterpart (Ros2AnnouncementEvent.announced_msg_pub id ke typ keyless q) name =
    Ros2DiscoveryEvent.discovered_msg_sub [] (record { name = name; typ = []; readers = [] })
counterpart (Ros2AnnouncementEvent.retired_msg_pub id ke keyless q) name =
    Ros2DiscoveryEvent.discovered_msg_sub [] (record { name = name; typ = []; readers = [] })
counterpart (Ros2AnnouncementEvent.announced_msg_sub id ke typ keyless q) name =
    Ros2DiscoveryEvent.discovered_msg_pub [] (record { name = name; typ = []; writers = [] })
counterpart (Ros2AnnouncementEvent.retired_msg_sub id ke) name =
    Ros2DiscoveryEvent.discovered_msg_pub [] (record { name = name; typ = []; writers = [] })
counterpart (Ros2AnnouncementEvent.announced_service_srv id ke typ) name =
    Ros2DiscoveryEvent.discovered_service_cli []
      (record { name = name; typ = []; entities = service_cli_default })
counterpart (Ros2AnnouncementEvent.retired_service_srv id ke) name =
    Ros2DiscoveryEvent.discovered_service_cli []
      (record { name = name; typ = []; entities = service_cli_default })
counterpart (Ros2AnnouncementEvent.announced_service_cli id ke typ) name =
    Ros2DiscoveryEvent.discovered_service_srv []
      (record { name = name; typ = []; entities = service_srv_default })
counterpart (Ros2AnnouncementEvent.retired_service_cli id ke) name =
    Ros2DiscoveryEvent.discovered_service_srv []
      (record { name = name; typ = []; entities = service_srv_default })
counterpart (Ros2AnnouncementEvent.announced_action_srv id ke typ) name =
    Ros2DiscoveryEvent.discovered_action_cli []
      (record { name = name; typ = []; entities = action_cli_default })
counterpart (Ros2AnnouncementEvent.retired_action_srv id ke) name =
    Ros2DiscoveryEvent.discovered_action_cli []
      (record { name = name; typ = []; entities = action_cli_default })
counterpart (Ros2AnnouncementEvent.announced_action_cli id ke typ) name =
    Ros2DiscoveryEvent.discovered_action_srv []
      (record { name = name; typ = []; entities = action_srv_default })
counterpart (Ros2AnnouncementEvent.retired_action_cli id ke) name =
    Ros2DiscoveryEvent.discovered_action_srv []
      (record { name = name; typ = []; entities = action_srv_default })

with_name_lem :
    (ke name : Text) (config : Config) (f : Text → Bool)
    → key_expr_to_ros2_name ke config ≡ some name
    → with_name ke config f ≡ some (f name)
with_name_lem ke name config f h = rw (with_name, h) refl

module _ {R : Type 0} ⦃x : Regex R⦄ where
  -- For each announcement whose key expression has a name, `is_announcement_allowed` answers as
  -- `is_allowed` does for the local interface of that name which the announced one is for: a bridge
  -- takes up another bridge's publisher just where it routes its own subscriber, and so on.
  pub is_announcement_allowed-counterpart :
      {Q : Type 0} (allowance : Option (Allowance R)) (config : Config)
      (evt : Ros2AnnouncementEvent Q) (name : Text)
      → key_expr_to_ros2_name (announced_key_expr evt) config ≡ some name
      → is_announcement_allowed allowance config evt
        ≡ some (is_allowed allowance (counterpart evt name))
  unfolding is_announcement_allowed is_allowed counterpart announced_key_expr
  is_announcement_allowed-counterpart none config evt name h = refl
  is_announcement_allowed-counterpart (some r) config
        (Ros2AnnouncementEvent.announced_msg_pub id ke typ keyless q) name h =
      with_name_lem ke name config _ h
  is_announcement_allowed-counterpart (some r) config
        (Ros2AnnouncementEvent.retired_msg_pub id ke keyless q) name h =
      with_name_lem ke name config _ h
  is_announcement_allowed-counterpart (some r) config
        (Ros2AnnouncementEvent.announced_msg_sub id ke typ keyless q) name h =
      with_name_lem ke name config _ h
  is_announcement_allowed-counterpart (some r) config (Ros2AnnouncementEvent.retired_msg_sub id ke)
        name h =
      with_name_lem ke name config _ h
  is_announcement_allowed-counterpart (some r) config
        (Ros2AnnouncementEvent.announced_service_srv id ke typ) name h =
      with_name_lem ke name config _ h
  is_announcement_allowed-counterpart (some r) config
        (Ros2AnnouncementEvent.retired_service_srv id ke) name h =
      with_name_lem ke name config _ h
  is_announcement_allowed-counterpart (some r) config
        (Ros2AnnouncementEvent.announced_service_cli id ke typ) name h =
      with_name_lem ke name config _ h
  is_announcement_allowed-counterpart (some r) config
        (Ros2AnnouncementEvent.retired_service_cli id ke) name h =
      with_name_lem ke name config _ h
  is_announcement_allowed-counterpart (some r) config
        (Ros2AnnouncementEvent.announced_action_srv id ke typ) name h =
      with_name_lem ke name config _ h
  is_announcement_allowed-counterpart (some r) config
        (Ros2AnnouncementEvent.retired_action_srv id ke) name h =
      with_name_lem ke name config _ h
  is_announcement_allowed-counterpart (some r) config
        (Ros2AnnouncementEvent.announced_action_cli id ke typ) name h =
      with_name_lem ke name config _ h
  is_announcement_allowed-counterpart (some r) config
        (Ros2AnnouncementEvent.retired_action_cli id ke) name h =
      with_name_lem ke name config _ h

  deny-not :
      (field : Ros2InterfacesRegex R → Option R) (r : Ros2InterfacesRegex R) (name : Text)
      → is_allowed_by field (deny r) name ≡ not (is_allowed_by field (allow r) name)
  deny-not field r name = of_field (field r) refl
    where
      of_field :
          (o : Option R)
          → field r ≡ o
          → is_allowed_by field (deny r) name ≡ not (is_allowed_by field (allow r) name)
      of_field none e = rw (is_allowed_by, e) refl
      of_field (some re) e = rw (is_allowed_by, e) refl

  -- For the same expressions, a denial allows just the events that an allowance does not, also those
  -- about interfaces for which no expression is given.
  pub is_allowed-deny :
      (r : Ros2InterfacesRegex R) (evt : Ros2DiscoveryEvent)
      → is_allowed (some (deny r)) evt ≡ not (is_allowed (some (allow r)) evt)
  unfolding is_allowed
  is_allowed-deny r (Ros2DiscoveryEvent.discovered_msg_pub node i) =
      deny-not (λ e. e.publishers) r i.name
  is_allowed-deny r (Ros2DiscoveryEvent.undiscovered_msg_pub node i) =
      deny-not (λ e. e.publishers) r i.name
  is_allowed-deny r (Ros2DiscoveryEvent.discovered_msg_sub node i) =
      deny-not (λ e. e.subscribers) r i.name
  is_allowed-deny r (Ros2DiscoveryEvent.undiscovered_msg_sub node i) =
      deny-not (λ e. e.subscribers) r i.name
  is_allowed-deny r (Ros2DiscoveryEvent.discovered_service_srv node i) =
      deny-not (λ e. e.service_servers) r i.name
  is_allowed-deny r (Ros2DiscoveryEvent.undiscovered_service_srv node i) =
      deny-not (λ e. e.service_servers) r i.name
  is_allowed-deny r (Ros2DiscoveryEvent.discovered_service_cli node i) =
      deny-not (λ e. e.service_clients) r i.name
  is_allowed-deny r (Ros2DiscoveryEvent.undiscovered_service_cli node i) =
      deny-not (λ e. e.service_clients) r i.name
  is_allowed-deny r (Ros2DiscoveryEvent.discovered_action_srv node i) =
      deny-not (λ e. e.action_servers) r i.name
  is_allowed-deny r (Ros2DiscoveryEvent.undiscovered_action_srv node i) =
      deny-not (λ e. e.action_servers) r i.name
  is_allowed-deny r (Ros2DiscoveryEvent.discovered_action_cli node i) =
      deny-not (λ e. e.action_clients) r i.name
  is_allowed-deny r (Ros2DiscoveryEvent.undiscovered_action_cli node i) =
      deny-not (λ e. e.action_clients) r i.name
  is_allowed-deny r (Ros2DiscoveryEvent.local_writers_changed name) =
      deny-not (λ e. e.publishers) r name
