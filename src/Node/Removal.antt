-- ===== src/Node/Removal.antt =====
-- `remove_reader`, `remove_writer` and `remove_all_entities` of `NodeInfo`. Where the source unwraps
-- the removal of a key that it has just found in the map, no event stands for the panic.
pub mod Maps
pub mod Gone
pub mod Everything
pub mod Writer
pub mod Reader
use zenoh_plugin_ros2dds.Base.{
  Text, Bool, true, false, not, ◌&&◌, ◌||◌, Option, none, some, List, [], ◌∷◌, ◌++◌, map, Map,
  lookup, remove, values, is_empty, filter, str_eq, if◌then◌else◌,
}
use zenoh_plugin_ros2dds.Gid.{Gid}
use zenoh_plugin_ros2dds.Interfaces.{
  MsgPub, MsgSub, ServiceSrv, ServiceCli, ActionSrv, ActionCli, contains, without,
}
use zenoh_plugin_ros2dds.Events.{
  Ros2DiscoveryEvent, undiscovered_msg_pub, undiscovered_msg_sub, undiscovered_service_srv,
  undiscovered_service_cli, undiscovered_action_srv, undiscovered_action_cli,
}
use zenoh_plugin_ros2dds.Node.{NodeInfo, fullname}
use zenoh_plugin_ros2dds.Node.Update.{Updated, event_of}

-- `iter_mut().find_map(..)`: the entries are visited up to the first whose last endpoint goes.
unfoldable pub release_writer : Gid → Map MsgPub → Map MsgPub × Option Text
release_writer writer [] = ([], none)
release_writer writer ((name, p) ∷ m) =
    let p' = record p { writers = without writer p.writers } in
    let rest = release_writer writer m in
    if contains writer p.writers && is_empty p'.writers
    then ((name, p') ∷ m, some name)
    else ((name, p') ∷ rest.0, rest.1)

unfoldable pub release_reader : Gid → Map MsgSub → Map MsgSub × Option Text
release_reader reader [] = ([], none)
release_reader reader ((name, s) ∷ m) =
    let s' = record s { readers = without reader s.readers } in
    let rest = release_reader reader m in
    if contains reader s.readers && is_empty s'.readers
    then ((name, s') ∷ m, some name)
    else ((name, s') ∷ rest.0, rest.1)

-- `iter().find(..)`, for the key of the entry.
unfoldable pub find_key {ℓ} : {V : Type ℓ} → (V → Bool) → Map V → Option Text
find_key p [] = none
find_key p ((name, v) ∷ m) = if p v then some name else find_key p m

-- `Vec::retain` of the other gids.
abbrev pub retain_others : Gid → List Gid → List Gid
retain_others gid = filter (λ g. not (str_eq g gid))

abbrev pub service_srv_reads : Gid → ServiceSrv → Bool
service_srv_reads g v = str_eq v.entities.req_reader g

abbrev pub service_cli_reads : Gid → ServiceCli → Bool
service_cli_reads g v = str_eq v.entities.rep_reader g

abbrev pub service_srv_writes : Gid → ServiceSrv → Bool
service_srv_writes g v = str_eq v.entities.rep_writer g

abbrev pub service_cli_writes : Gid → ServiceCli → Bool
service_cli_writes g v = str_eq v.entities.req_writer g

abbrev pub action_srv_reads : Gid → ActionSrv → Bool
action_srv_reads g v =
    str_eq v.entities.send_goal.req_reader g
    || str_eq v.entities.cancel_goal.req_reader g
    || str_eq v.entities.get_result.req_reader g

abbrev pub action_cli_reads : Gid → ActionCli → Bool
action_cli_reads g v =
    str_eq v.entities.send_goal.rep_reader g
    || str_eq v.entities.cancel_goal.rep_reader g
    || str_eq v.entities.get_result.rep_reader g
    || str_eq v.entities.status_reader g
    || str_eq v.entities.feedback_reader g

abbrev pub action_srv_writes : Gid → ActionSrv → Bool
action_srv_writes g v =
    str_eq v.entities.send_goal.rep_writer g
    || str_eq v.entities.cancel_goal.rep_writer g
    || str_eq v.entities.get_result.rep_writer g
    || str_eq v.entities.status_writer g
    || str_eq v.entities.feedback_writer g

abbrev pub action_cli_writes : Gid → ActionCli → Bool
action_cli_writes g v =
    str_eq v.entities.send_goal.req_writer g
    || str_eq v.entities.cancel_goal.req_writer g
    || str_eq v.entities.get_result.req_writer g

-- The removal of one interface, with its event.
abbrev pub drop_msg_pub : NodeInfo → Text → Updated
drop_msg_pub n name = (
  record n { msg_pub = remove name n.msg_pub },
  event_of (undiscovered_msg_pub (fullname n)) (lookup name n.msg_pub),
)

abbrev pub drop_msg_sub : NodeInfo → Text → Updated
drop_msg_sub n name = (
  record n { msg_sub = remove name n.msg_sub },
  event_of (undiscovered_msg_sub (fullname n)) (lookup name n.msg_sub),
)

abbrev pub drop_service_srv : NodeInfo → Text → Updated
drop_service_srv n name = (
  record n { service_srv = remove name n.service_srv },
  event_of (undiscovered_service_srv (fullname n)) (lookup name n.service_srv),
)

abbrev pub drop_service_cli : NodeInfo → Text → Updated
drop_service_cli n name = (
  record n { service_cli = remove name n.service_cli },
  event_of (undiscovered_service_cli (fullname n)) (lookup name n.service_cli),
)

abbrev pub drop_action_srv : NodeInfo → Text → Updated
drop_action_srv n name = (
  record n { action_srv = remove name n.action_srv },
  event_of (undiscovered_action_srv (fullname n)) (lookup name n.action_srv),
)

abbrev pub drop_action_cli : NodeInfo → Text → Updated
drop_action_cli n name = (
  record n { action_cli = remove name n.action_cli },
  event_of (undiscovered_action_cli (fullname n)) (lookup name n.action_cli),
)

-- `if let Some(name) = ... { return Some(..) }`, and the rest of the method.
abbrev pub or_return : Option Text → (Text → Updated) → Updated → Updated
or_return none found rest = rest
or_return (some name) found rest = found name

unfoldable pub remove_reader : NodeInfo → Gid → Updated
unfolding release_reader find_key
remove_reader n reader =
    let (subs, emptied) = release_reader reader n.msg_sub in
    let n1 = record n { msg_sub = subs } in
    or_return emptied (drop_msg_sub n1) (
      or_return (find_key (service_srv_reads reader) n1.service_srv) (drop_service_srv n1) (
        or_return (find_key (service_cli_reads reader) n1.service_cli) (drop_service_cli n1) (
          or_return (find_key (action_srv_reads reader) n1.action_srv) (drop_action_srv n1) (
            or_return (find_key (action_cli_reads reader) n1.action_cli) (drop_action_cli n1) (
              record n1 { undiscovered_reader = retain_others reader n1.undiscovered_reader },
              none,
            )))))

unfoldable pub remove_writer : NodeInfo → Gid → Updated
unfolding release_writer find_key
remove_writer n writer =
    let (pubs, emptied) = release_writer writer n.msg_pub in
    let n1 = record n { msg_pub = pubs } in
    or_return emptied (drop_msg_pub n1) (
      or_return (find_key (service_srv_writes writer) n1.service_srv) (drop_service_srv n1) (
        or_return (find_key (service_cli_writes writer) n1.service_cli) (drop_service_cli n1) (
          or_return (find_key (action_srv_writes writer) n1.action_srv) (drop_action_srv n1) (
            or_return (find_key (action_cli_writes writer) n1.action_cli) (drop_action_cli n1) (
              record n1 { undiscovered_writer = retain_others writer n1.undiscovered_writer },
              none,
            )))))

unfoldable pub remove_all_entities : NodeInfo → NodeInfo × List Ros2DiscoveryEvent
remove_all_entities n =
    let full = fullname n in
    (
      record n {
        msg_pub = [];
        msg_sub = [];
        service_srv = [];
        service_cli = [];
        action_srv = [];
        action_cli = [];
        undiscovered_reader = [];
        undiscovered_writer = [];
      },
      map (undiscovered_msg_pub full) (values n.msg_pub)
          ++ (map (undiscovered_msg_sub full) (values n.msg_sub)
              ++ (map (undiscovered_service_srv full) (values n.service_srv)
                  ++ (map (undiscovered_service_cli full) (values n.service_cli)
                      ++ (map (undiscovered_action_srv full) (values n.action_srv)
                          ++ map (undiscovered_action_cli full) (values n.action_cli))))),
    )
