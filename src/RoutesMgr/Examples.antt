-- ===== src/RoutesMgr/Examples.antt =====
-- A bridge in the namespace "/bot", its routes after a discovery, an announcement and a departure.
use zenoh_plugin_ros2dds.Base.{
  ◌≡◌, refl, ℕ, inr, Text, codes, ◌++◌, Bool, true, false, Option, some, [], ◌∷◌, lookup, insert,
  ends_with, starts_with, is_char_boundary, subst, arith,
}
use zenoh_plugin_ros2dds.Externals.{KeyExprs, IsJoin}
use zenoh_plugin_ros2dds.Interfaces as Interfaces
use zenoh_plugin_ros2dds.Routes.ServiceSrv as ServiceSrv
use zenoh_plugin_ros2dds.Ros2Utils.{is_service_for_action}
use zenoh_plugin_ros2dds.Interfaces.{contains, service_srv_default}
use zenoh_plugin_ros2dds.Entities.{DiscoveredEntities}
use zenoh_plugin_ros2dds.Events.{Ros2DiscoveryEvent, Ros2AnnouncementEvent, interface_key}
use zenoh_plugin_ros2dds.Ros2Utils.KeyExpressions.{
  Config, ros2_name_to_key_expr, key_expr_to_ros2_name, Corresponds, IsNamespace,
  ros2_name-roundtrip, key_expr_to_ros2_name-cut,
}
use zenoh_plugin_ros2dds.Liveliness.{escape_slashes, key_expr_of}
use zenoh_plugin_ros2dds.Liveliness.Examples.{all_key_exprs}
use zenoh_plugin_ros2dds.Routes.{Calls, HasTokens, declare_token}
use zenoh_plugin_ros2dds.RoutesMgr.{
  select, RoutesMgr, Kind, Outcomes, service_srv_ref, service_cli_ref, admin_key, new,
}
use zenoh_plugin_ros2dds.RoutesMgr.Events.{
  on_ros_discovery_event, on_ros_announcement_event, on_remote_bridge_left,
}
use zenoh_plugin_ros2dds.RoutesMgr.Consistency.{IsConsistent, new-IsConsistent}
use zenoh_plugin_ros2dds.RoutesMgr.Steps.{Keeps}
use zenoh_plugin_ros2dds.RoutesMgr.Handlers.{
  announced_key_expr, on_ros_discovery_event-IsConsistent, on_ros_announcement_event-IsConsistent,
}
use zenoh_plugin_ros2dds.RoutesMgr.Pruning.{survivor}
use zenoh_plugin_ros2dds.RoutesMgr.Outside.{retired_service_srv-dangling}
use zenoh_plugin_ros2dds.RoutesMgr.Departure.Steps.{IsFree}
use zenoh_plugin_ros2dds.RoutesMgr.Departure.{on_remote_bridge_left-IsFree}

instance abbrev pub slashes : KeyExprs
slashes = record { is_key_expr = λ s. true; join = λ a b. a ++ (codes "/" ++ b) }

instance abbrev pub slashes-IsJoin : IsJoin slashes
slashes-IsJoin = record { join_lem = λ a b h. refl; is_key_expr-join = λ a b h g. refl }

instance abbrev pub all_calls : Calls
all_calls = record {
  zenoh = all_key_exprs;
  zenoh_key_expr = λ n. n;
  ros2_type = λ n. codes "demo/srv/Add";
  declares = λ n. true;
  activates = λ n. true;
  matches = λ n. true;
}

all_calls-HasTokens : HasTokens all_calls
all_calls-HasTokens n = (refl, refl)

instance abbrev pub all_outcomes : Outcomes
all_outcomes = record { creates = λ n. true; adapts = λ n. true }

abbrev pub bot : Config
bot = record { namespace = codes "/bot" }

bot-IsNamespace : IsNamespace bot
bot-IsNamespace = inr (98, codes "ot", refl, refl, refl)

ros2_name-roundtrip_example : (ke : Text) × Corresponds bot (codes "/add") ke
ros2_name-roundtrip_example = ros2_name-roundtrip bot (codes "add") bot-IsNamespace refl refl

key_expr_to_ros2_name-cut_example :
    (name : Text) × (key_expr_to_ros2_name (codes "bot" ++ codes "2/add") bot ≡ some name)
    × (starts_with name (codes "/") ≡ false)
key_expr_to_ros2_name-cut_example =
    key_expr_to_ros2_name-cut bot 98 (codes "ot") 50 (codes "/add") refl refl
      (λ e. omega (arith, e))

add_name : Corresponds bot (codes "/add") (codes "bot/add")
unfolding ros2_name_to_key_expr key_expr_to_ros2_name is_char_boundary
add_name = (refl, refl, refl)

abbrev pub no_entities : DiscoveredEntities ℕ ℕ ℕ
no_entities = record {
  participants = [];
  writers = [];
  readers = [];
  ros_participant_info = [];
  nodes_info = [];
  admin_space = [];
  orphan_first_seen = [];
}

abbrev adder : Interfaces.ServiceSrv
adder = record { name = codes "/add"; typ = codes "demo/srv/Add"; entities = service_srv_default }

abbrev pub found : Ros2DiscoveryEvent
found = Ros2DiscoveryEvent.discovered_service_srv (codes "/adder") adder

abbrev pub told : Ros2AnnouncementEvent ℕ
told =
    Ros2AnnouncementEvent.announced_service_cli (codes "a1") (codes "bot/add")
      (codes "demo/srv/Add")

abbrev no_text : Bool → ℕ → Text
no_text keyless q = []

-- The route of the service that a node asked for.
abbrev waiting : RoutesMgr
waiting = record new {
  routes_service_srv =
      (
        codes "/add",
        record {
          ros2_name = codes "/add";
          announced = true;
          active = true;
          remote_routes = [];
          local_nodes = codes "/adder" ∷ [];
        },
      )
      ∷ [];
  admin_space = (codes "route/service/srv/bot/add", service_srv_ref (codes "/add")) ∷ [];
}

-- The route of the service that both a node and another bridge asked for.
abbrev served : RoutesMgr
served = record new {
  routes_service_srv =
      (
        codes "/add",
        record {
          ros2_name = codes "/add";
          announced = true;
          active = true;
          remote_routes = codes "a1:bot/add" ∷ [];
          local_nodes = codes "/adder" ∷ [];
        },
      )
      ∷ [];
  admin_space = (codes "route/service/srv/bot/add", service_srv_ref (codes "/add")) ∷ [];
}

on_ros_discovery_event-IsConsistent_example :
    Keeps bot (on_ros_discovery_event bot no_entities found new)
unfolding interface_key
on_ros_discovery_event-IsConsistent_example =
    on_ros_discovery_event-IsConsistent bot no_entities found (codes "bot/add") new
      all_calls-HasTokens (new-IsConsistent bot) add_name

-- The state that a handler returns is consistent.
result :
    (o : Option (RoutesMgr × Bool)) (s : RoutesMgr) (b : Bool)
    → Keeps bot o
    → o ≡ some (s, b)
    → IsConsistent bot s
result o s b (r, e, h) k =
    let same : r.0 ≡ s = cc (e, k) in subst (λ (x : RoutesMgr). IsConsistent bot x) same h

route_found : on_ros_discovery_event bot no_entities found new ≡ some (waiting, true)
unfolding on_ros_discovery_event on_ros_announcement_event ros2_name_to_key_expr
    key_expr_to_ros2_name is_char_boundary ServiceSrv.add_local_node ServiceSrv.add_remote_route
    declare_token escape_slashes key_expr_of contains is_service_for_action lookup insert
    Interfaces.set_insert ends_with
route_found = refl

waiting-IsConsistent : IsConsistent bot waiting
unfolding interface_key
waiting-IsConsistent =
    result (on_ros_discovery_event bot no_entities found new) waiting true
      (on_ros_discovery_event-IsConsistent bot no_entities found (codes "bot/add") new
        all_calls-HasTokens (new-IsConsistent bot) add_name)
      route_found

on_ros_announcement_event-IsConsistent_example :
    Keeps bot (on_ros_announcement_event bot no_text told waiting)
unfolding announced_key_expr
on_ros_announcement_event-IsConsistent_example =
    on_ros_announcement_event-IsConsistent bot no_text told (codes "/add") waiting
      waiting-IsConsistent add_name

route_served : on_ros_announcement_event bot no_text told waiting ≡ some (served, true)
unfolding on_ros_discovery_event on_ros_announcement_event ros2_name_to_key_expr
    key_expr_to_ros2_name is_char_boundary ServiceSrv.add_local_node ServiceSrv.add_remote_route
    declare_token escape_slashes key_expr_of contains is_service_for_action lookup insert
    Interfaces.set_insert ends_with
route_served = refl

served-IsConsistent : IsConsistent bot served
unfolding announced_key_expr
served-IsConsistent =
    result (on_ros_announcement_event bot no_text told waiting) served true
      (on_ros_announcement_event-IsConsistent bot no_text told (codes "/add") waiting
        waiting-IsConsistent add_name)
      route_served

on_remote_bridge_left-IsFree_example :
    (s : RoutesMgr) × (on_remote_bridge_left bot (codes "a1") served ≡ some s)
    × IsConsistent bot s
    × ((kind : Kind) (name : Text)
        → lookup name (select kind s)
          ≡ survivor bot kind (codes "a1" ++ codes ":") (lookup name (select kind served)))
    × ((kind : Kind) → IsFree bot (codes "a1" ++ codes ":") kind s)
on_remote_bridge_left-IsFree_example =
    on_remote_bridge_left-IsFree bot (codes "a1") served served-IsConsistent

other_name : key_expr_to_ros2_name (codes "other/add") bot ≡ some (codes "/other/add")
unfolding key_expr_to_ros2_name is_char_boundary
other_name = refl

other_key : ros2_name_to_key_expr (codes "/other/add") bot ≡ some (codes "bot/other/add")
unfolding ros2_name_to_key_expr is_char_boundary
other_key = refl

abbrev type_text : Bool → Text → Text
type_text keyless q = q

retired_service_srv-dangling_example :
    (s s' : RoutesMgr) × (on_ros_announcement_event bot type_text
        (Ros2AnnouncementEvent.announced_service_srv
          (codes "a1")
          (codes "other/add")
          (codes "demo/srv/Add"))
        new
      ≡ some (s, true))
    × (on_ros_announcement_event bot type_text
          (Ros2AnnouncementEvent.retired_service_srv (codes "a1") (codes "other/add"))
          s
        ≡ some (s', true))
    × (s'.routes_service_cli ≡ [])
    × (lookup (admin_key Kind.service_cli (codes "bot/other/add")) s'.admin_space
        ≡ some (service_cli_ref (codes "/other/add")))
retired_service_srv-dangling_example =
    retired_service_srv-dangling bot type_text (codes "a1") (codes "other/add")
      (codes "demo/srv/Add") (codes "bot") other_name other_key refl refl refl
