-- ===== src/Node/Spec.antt =====
-- What the operations of a node promise: the invariant of its maps, what an event says of the node
-- that sent it, and that no change of a complete interface goes without an event.
use zenoh_plugin_ros2dds.Base.{
  ◌≡◌, ◌≢◌, ◌⊎◌, Text, true, Option, none, some, [], Map, lookup, length,
}
use zenoh_plugin_ros2dds.Base.Maps.Entries.{Table}
use zenoh_plugin_ros2dds.Interfaces.{
  MsgPub, MsgSub, Interface, Endpoints, service_srv_endpoints, service_cli_endpoints,
  action_srv_endpoints, action_cli_endpoints,
}
use zenoh_plugin_ros2dds.Events.{
  Ros2DiscoveryEvent, discovered_msg_pub, discovered_msg_sub, discovered_service_srv,
  discovered_service_cli, discovered_action_srv, discovered_action_cli,
}
use zenoh_plugin_ros2dds.Node.{NodeInfo, fullname}
use zenoh_plugin_ros2dds.Node.Slots.{is_complete}
use zenoh_plugin_ros2dds.Node.Update.{Updated}

abbrev pub IsPubEntry : Text → MsgPub → Type 0
IsPubEntry k v = (v.name ≡ k) × (v.writers ≢ [])

abbrev pub IsSubEntry : Text → MsgSub → Type 0
IsSubEntry k v = (v.name ≡ k) × (v.readers ≢ [])

abbrev pub IsNamed : {E : Type 0} → Text → Interface E → Type 0
IsNamed k v = v.name ≡ k

-- Keys are distinct, every interface is stored under its own name, and a publisher or subscriber has an endpoint.
pub record IsValid (n : NodeInfo) : Type 0 where
  pub pubs : Table IsPubEntry n.msg_pub
  pub subs : Table IsSubEntry n.msg_sub
  pub service_srvs : Table IsNamed n.service_srv
  pub service_clis : Table IsNamed n.service_cli
  pub action_srvs : Table IsNamed n.action_srv
  pub action_clis : Table IsNamed n.action_cli

abbrev pub Stored :
    {E : Type 0} ⦃e : Endpoints E⦄ → NodeInfo → Text → Map (Interface E) → Interface E → Type 0
Stored n node m v = (node ≡ fullname n) × (lookup v.name m ≡ some v) × (is_complete v ≡ true)

-- The event of an update names the node, and holds an interface as the node now stores it: with its
-- first endpoint, or complete.
abbrev pub Announces : NodeInfo → Option Ros2DiscoveryEvent → Type 0
Announces n none = Unit
Announces n (some (discovered_msg_pub node v)) =
    (node ≡ fullname n) × (lookup v.name n.msg_pub ≡ some v) × (length v.writers ≡ 1)
Announces n (some (discovered_msg_sub node v)) =
    (node ≡ fullname n) × (lookup v.name n.msg_sub ≡ some v) × (length v.readers ≡ 1)
Announces n (some (discovered_service_srv node v)) = Stored n node n.service_srv v
Announces n (some (discovered_service_cli node v)) = Stored n node n.service_cli v
Announces n (some (discovered_action_srv node v)) = Stored n node n.action_srv v
Announces n (some (discovered_action_cli node v)) = Stored n node n.action_cli v
Announces n (some _) = ⊥

-- A complete interface of the new map was there before, or is the event's.
abbrev pub NoneMissed :
    {E : Type 0} ⦃e : Endpoints E⦄
    → (Interface E → Ros2DiscoveryEvent)
    → Map (Interface E)
    → Map (Interface E)
    → Option Ros2DiscoveryEvent
    → Type 0
NoneMissed {E} event before after result =
    (k : Text) (v : Interface E)
    → lookup k after ≡ some v
    → is_complete v ≡ true
    → (lookup k before ≡ some v) ⊎ (result ≡ some (event v))

-- Of the first node, the updated node and the event.
pub record IsAnnounced (n : NodeInfo) (u : Updated) : Type 0 where
  pub pubs :
      (k : Text) (v : MsgPub)
      → lookup k u.0.msg_pub ≡ some v
      → (lookup k n.msg_pub ≢ none) ⊎ (u.1 ≡ some (discovered_msg_pub (fullname n) v))
  pub subs :
      (k : Text) (v : MsgSub)
      → lookup k u.0.msg_sub ≡ some v
      → (lookup k n.msg_sub ≢ none) ⊎ (u.1 ≡ some (discovered_msg_sub (fullname n) v))
  pub service_srvs :
      NoneMissed (discovered_service_srv (fullname n)) n.service_srv u.0.service_srv u.1
  pub service_clis :
      NoneMissed (discovered_service_cli (fullname n)) n.service_cli u.0.service_cli u.1
  pub action_srvs : NoneMissed (discovered_action_srv (fullname n)) n.action_srv u.0.action_srv u.1
  pub action_clis : NoneMissed (discovered_action_cli (fullname n)) n.action_cli u.0.action_cli u.1

-- What an update leaves alone.
pub record SameNode (n n' : NodeInfo) : Type 0 where
  pub id : n'.id ≡ n.id
  pub fullname_lem : fullname n' ≡ fullname n
  pub undiscovered_reader : n'.undiscovered_reader ≡ n.undiscovered_reader
  pub undiscovered_writer : n'.undiscovered_writer ≡ n.undiscovered_writer

-- All that an update promises of its result.
pub record Keeps (n : NodeInfo) (u : Updated) : Type 0 where
  pub valid : IsValid u.0
  pub announces : Announces u.0 u.1
  pub announced : IsAnnounced n u
  pub same : SameNode n u.0
