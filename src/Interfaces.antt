-- ===== src/Interfaces.antt =====
-- The interfaces that a ROS node declares: `MsgPub` to `ActionCli` of
-- zenoh-plugin-ros2dds/src/node_info.rs. A `HashSet<Gid>` is the list of its members.
use zenoh_plugin_ros2dds.Base.{
  Text, Bool, true, false, not, ◌&&◌, Option, none, some, List, [], ◌∷◌, str_eq, if◌then◌else◌,
}
use zenoh_plugin_ros2dds.Externals.{Externals}
use zenoh_plugin_ros2dds.Gid.{Gid, not_discovered}
use zenoh_plugin_ros2dds.Ros2Utils.{check_ros_name}

-- `HashSet::contains`, `insert` (which tells whether the value is new) and `remove`.
unfoldable pub contains : Gid → List Gid → Bool
contains g [] = false
contains g (h ∷ s) = if str_eq h g then true else contains g s

unfoldable pub without : Gid → List Gid → List Gid
without g [] = []
without g (h ∷ s) = let rest = without g s in if str_eq h g then rest else h ∷ rest

unfoldable pub set_insert : Gid → List Gid → List Gid × Bool
unfolding contains
set_insert g s = if contains g s then (s, false) else (g ∷ s, true)

pub record MsgPub : Type 0 where
  pub name : Text
  pub typ : Text
  pub writers : List Gid

pub record MsgSub : Type 0 where
  pub name : Text
  pub typ : Text
  pub readers : List Gid

-- A Gid that was discovered.
abbrev pub known : Gid → Bool
known g = not (str_eq g not_discovered)

pub record ServiceSrvEntities : Type 0 where
  pub req_reader : Gid
  pub rep_writer : Gid

pub record ServiceCliEntities : Type 0 where
  pub req_writer : Gid
  pub rep_reader : Gid

pub record ActionSrvEntities : Type 0 where
  pub send_goal : ServiceSrvEntities
  pub cancel_goal : ServiceSrvEntities
  pub get_result : ServiceSrvEntities
  pub status_writer : Gid
  pub feedback_writer : Gid

pub record ActionCliEntities : Type 0 where
  pub send_goal : ServiceCliEntities
  pub cancel_goal : ServiceCliEntities
  pub get_result : ServiceCliEntities
  pub status_reader : Gid
  pub feedback_reader : Gid

-- `Default::default()` and `is_complete()` of the four types of entities.
pub record Endpoints (E : Type 0) : Type 0 where
  pub default : E
  pub is_complete : E → Bool

abbrev pub service_srv_default : ServiceSrvEntities
service_srv_default = record { req_reader = not_discovered; rep_writer = not_discovered }

abbrev pub service_cli_default : ServiceCliEntities
service_cli_default = record { req_writer = not_discovered; rep_reader = not_discovered }

abbrev pub action_srv_default : ActionSrvEntities
action_srv_default = record {
  send_goal = service_srv_default;
  cancel_goal = service_srv_default;
  get_result = service_srv_default;
  status_writer = not_discovered;
  feedback_writer = not_discovered;
}

abbrev pub action_cli_default : ActionCliEntities
action_cli_default = record {
  send_goal = service_cli_default;
  cancel_goal = service_cli_default;
  get_result = service_cli_default;
  status_reader = not_discovered;
  feedback_reader = not_discovered;
}

abbrev pub service_srv_is_complete : ServiceSrvEntities → Bool
service_srv_is_complete e = known e.req_reader && known e.rep_writer

abbrev pub service_cli_is_complete : ServiceCliEntities → Bool
service_cli_is_complete e = known e.rep_reader && known e.req_writer

abbrev pub action_srv_is_complete : ActionSrvEntities → Bool
action_srv_is_complete e =
    service_srv_is_complete e.send_goal
    && service_srv_is_complete e.cancel_goal
    && service_srv_is_complete e.get_result
    && known e.status_writer
    && known e.feedback_writer

abbrev pub action_cli_is_complete : ActionCliEntities → Bool
action_cli_is_complete e =
    service_cli_is_complete e.send_goal
    && service_cli_is_complete e.cancel_goal
    && service_cli_is_complete e.get_result
    && known e.status_reader
    && known e.feedback_reader

instance abbrev pub service_srv_endpoints : Endpoints ServiceSrvEntities
service_srv_endpoints = record {
  default = service_srv_default;
  is_complete = service_srv_is_complete;
}

instance abbrev pub service_cli_endpoints : Endpoints ServiceCliEntities
service_cli_endpoints = record {
  default = service_cli_default;
  is_complete = service_cli_is_complete;
}

instance abbrev pub action_srv_endpoints : Endpoints ActionSrvEntities
action_srv_endpoints = record { default = action_srv_default; is_complete = action_srv_is_complete }

instance abbrev pub action_cli_endpoints : Endpoints ActionCliEntities
action_cli_endpoints = record { default = action_cli_default; is_complete = action_cli_is_complete }

-- The shape that the four structs share.
pub record Interface (E : Type 0) : Type 0 where
  pub name : Text
  pub typ : Text
  pub entities : E

abbrev pub ServiceSrv : Type 0
ServiceSrv = Interface ServiceSrvEntities

abbrev pub ServiceCli : Type 0
ServiceCli = Interface ServiceCliEntities

abbrev pub ActionSrv : Type 0
ActionSrv = Interface ActionSrvEntities

abbrev pub ActionCli : Type 0
ActionCli = Interface ActionCliEntities

-- The `create` functions; `none` stands for `Err`.
module _ ⦃x : Externals⦄ where
  unfoldable pub create_msg_pub : Text → Text → Gid → Option MsgPub
  create_msg_pub name typ writer = elim (check_ros_name name) [
    | none ↦ none
    | some _ ↦ some (record { name = name; typ = typ; writers = writer ∷ [] })
  ]

  unfoldable pub create_msg_sub : Text → Text → Gid → Option MsgSub
  create_msg_sub name typ reader = elim (check_ros_name name) [
    | none ↦ none
    | some _ ↦ some (record { name = name; typ = typ; readers = reader ∷ [] })
  ]

  unfoldable pub create : {E : Type 0} ⦃e : Endpoints E⦄ → Text → Text → Option (Interface E)
  create ⦃e⦄ name typ = elim (check_ros_name name) [
    | none ↦ none
    | some _ ↦ some (record { name = name; typ = typ; entities = e.default })
  ]
