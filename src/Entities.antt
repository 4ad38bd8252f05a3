-- ===== src/Entities.antt =====
-- `DiscoveredEntities` of zenoh-plugin-ros2dds/src/discovered_entities.rs: the participants, readers,
-- writers and nodes that were discovered, and the admin space that refers to them. `none` stands for a
-- panic: of an `unwrap` of a formatted key, or in a node's update.
pub mod Purge
pub mod Undiscovery
pub mod Examples
use zenoh_plugin_ros2dds.Base.{
  Text, Option, none, some, List, [], ◌∷◌, ◌++◌, map, Map, lookup, insert, remove, values, filter,
  str_eq, if◌then◌else◌,
}
use zenoh_plugin_ros2dds.Externals.{Externals}
use zenoh_plugin_ros2dds.Gid.{Gid}
use zenoh_plugin_ros2dds.Dds.{DdsEntity, DdsParticipant}
use zenoh_plugin_ros2dds.Interfaces.{contains}
use zenoh_plugin_ros2dds.Events.{Ros2DiscoveryEvent}
use zenoh_plugin_ros2dds.Node.{NodeInfo}
use zenoh_plugin_ros2dds.Node.Update.{Updated}
use zenoh_plugin_ros2dds.Node.Dispatch.{◌>>=◌, update_with_reader, update_with_writer}
use zenoh_plugin_ros2dds.Node.Removal as Removal
use zenoh_plugin_ros2dds.Node.Removal.{remove_all_entities}

-- `keformat!` of the four formatters, which `kedefine!` of zenoh generates.
pub record AdminKeys : Type 0 where
  pub ke_admin_participant : Gid → Option Text
  pub ke_admin_writer : Gid → Gid → Text → Option Text
  pub ke_admin_reader : Gid → Gid → Text → Option Text
  pub ke_admin_node : Text → Option Text

pub data EntityRef : Type 0 where
  participant_ref writer_ref reader_ref : Gid → EntityRef
  node_ref : Gid → Text → EntityRef

-- `I` is the type of the participants' ROS information and `T` that of instants.
pub record DiscoveredEntities (Q I T : Type 0) : Type 0 where
  pub participants : Map (DdsParticipant Q)
  pub writers : Map (DdsEntity Q)
  pub readers : Map (DdsEntity Q)
  pub ros_participant_info : Map I
  pub nodes_info : Map (Map NodeInfo)
  pub admin_space : Map EntityRef
  pub orphan_first_seen : Map T

module _ ⦃a : AdminKeys⦄ where
  -- The nodes of a participant that leaves.
  unfoldable pub forget_nodes :
      Map NodeInfo → Map EntityRef → Option (Map EntityRef × List Ros2DiscoveryEvent)
  forget_nodes [] admin = some (admin, [])
  forget_nodes ((name, node) ∷ nodes) admin = do
    key ← a.ke_admin_node node.id
    rest ← forget_nodes nodes (remove key admin)
    some (rest.0, (remove_all_entities node).1 ++ rest.1)

  abbrev pub forget_nodes_of :
      Option (Map NodeInfo) → Map EntityRef → Option (Map EntityRef × List Ros2DiscoveryEvent)
  forget_nodes_of none admin = some (admin, [])
  forget_nodes_of (some nodes) admin = forget_nodes nodes admin

-- `values().filter(..).map(..)`: the keys of the participant's entities.
abbrev pub stale : {Q : Type 0} → Gid → Map (DdsEntity Q) → List Gid
stale gid m = map (λ w. w.key) (filter (λ w. str_eq w.participant_key gid) (values m))

-- The admin space without the entity that was removed, if one was.
abbrev pub forget_key :
    {Q : Type 0}
    → (Gid → Gid → Text → Option Text)
    → Option (DdsEntity Q)
    → Map EntityRef
    → Option (Map EntityRef)
forget_key format none admin = some admin
forget_key format (some w) admin = do
  key ← format w.participant_key w.key w.topic_name
  some (remove key admin)

module _ ⦃a : AdminKeys⦄ {Q T : Type 0} where
  unfoldable pub forget_writers :
      List Gid
      → Map (DdsEntity Q)
      → Map EntityRef
      → Map T
      → Option (Map (DdsEntity Q) × Map EntityRef × Map T)
  forget_writers [] writers admin first_seen = some (writers, admin, first_seen)
  forget_writers (gid ∷ gids) writers admin first_seen = do
    admin' ← forget_key a.ke_admin_writer (lookup gid writers) admin
    forget_writers gids (remove gid writers) admin' (remove gid first_seen)

module _ ⦃a : AdminKeys⦄ {Q : Type 0} where
  unfoldable pub forget_readers :
      List Gid → Map (DdsEntity Q) → Map EntityRef → Option (Map (DdsEntity Q) × Map EntityRef)
  forget_readers [] readers admin = some (readers, admin)
  forget_readers (gid ∷ gids) readers admin = do
    admin' ← forget_key a.ke_admin_reader (lookup gid readers) admin
    forget_readers gids (remove gid readers) admin'

-- `Vec::remove` at the position of the gid.
abbrev pub remove_first : Gid → List Gid → List Gid
remove_first gid [] = []
remove_first gid (g ∷ gs) = if str_eq g gid then gs else g ∷ remove_first gid gs

module _ ⦃x : Externals⦄ {Q : Type 0} where
  -- The first node of a participant that waits for the writer takes it up.
  unfoldable pub take_up_writer :
      DdsEntity Q → Map NodeInfo → Option (Map NodeInfo × Option Ros2DiscoveryEvent)
  take_up_writer writer [] = some ([], none)
  take_up_writer writer ((name, node) ∷ nodes) =
      let waiting = record node {
        undiscovered_writer = remove_first writer.key node.undiscovered_writer;
      } in
      let rest = take_up_writer writer nodes in
      if contains writer.key node.undiscovered_writer
      then update_with_writer waiting writer >>= (λ u. some ((name, u.0) ∷ nodes, u.1))
      else rest >>= (λ r. some ((name, node) ∷ r.0, r.1))

  unfoldable pub take_up_reader :
      DdsEntity Q → Map NodeInfo → Option (Map NodeInfo × Option Ros2DiscoveryEvent)
  take_up_reader reader [] = some ([], none)
  take_up_reader reader ((name, node) ∷ nodes) =
      let waiting = record node {
        undiscovered_reader = remove_first reader.key node.undiscovered_reader;
      } in
      let rest = take_up_reader reader nodes in
      if contains reader.key node.undiscovered_reader
      then update_with_reader waiting reader >>= (λ u. some ((name, u.0) ∷ nodes, u.1))
      else rest >>= (λ r. some ((name, node) ∷ r.0, r.1))

-- A loop over the nodes or the participants ends with the first event, and leaves the others alone.
abbrev pub until {ℓ} :
    {V : Type ℓ}
    → Text
    → Map V
    → Map V × Option Ros2DiscoveryEvent
    → V × Option Ros2DiscoveryEvent
    → Map V × Option Ros2DiscoveryEvent
until name others rest (v, none) = ((name, v) ∷ rest.0, rest.1)
until name others rest (v, some event) = ((name, v) ∷ others, some event)

unfoldable pub until_event :
    (Map NodeInfo → Option (Map NodeInfo × Option Ros2DiscoveryEvent))
    → Map (Map NodeInfo)
    → Option (Map (Map NodeInfo) × Option Ros2DiscoveryEvent)
until_event f [] = some ([], none)
until_event f ((gid, nodes) ∷ m) =
    let rest = until_event f m in
    f nodes >>= (λ u. elim u.1 [
      | some event ↦ some (until gid m (m, none) u)
      | none ↦ rest >>= (λ r. some (until gid m r u))
    ])

unfoldable pub until_told {ℓ} :
    {V : Type ℓ} → (V → V × Option Ros2DiscoveryEvent) → Map V → Map V × Option Ros2DiscoveryEvent
until_told f [] = ([], none)
until_told f ((name, node) ∷ nodes) =
    let rest = until_told f nodes in until name nodes rest (f node)

module _ ⦃a : AdminKeys⦄ {Q I T : Type 0} where
  unfoldable pub add_participant :
      DiscoveredEntities Q I T → DdsParticipant Q → Option (DiscoveredEntities Q I T)
  add_participant e participant = do
    key ← a.ke_admin_participant participant.key
    some (record e {
      admin_space = insert key (participant_ref participant.key) e.admin_space;
      participants = insert participant.key participant e.participants;
    })

  unfoldable pub remove_participant :
      DiscoveredEntities Q I T → Gid → Option (DiscoveredEntities Q I T × List Ros2DiscoveryEvent)
  unfolding forget_nodes forget_writers forget_readers
  remove_participant e gid = do
    key ← a.ke_admin_participant gid
    nodes ← forget_nodes_of (lookup gid e.nodes_info) (remove key e.admin_space)
    ws ← forget_writers (stale gid e.writers) e.writers nodes.0 e.orphan_first_seen
    rs ← forget_readers (stale gid e.readers) e.readers ws.1
    some (
      record e {
        participants = remove gid e.participants;
        nodes_info = remove gid e.nodes_info;
        writers = ws.0;
        readers = rs.0;
        admin_space = rs.1;
        orphan_first_seen = ws.2;
      },
      nodes.1,
    )

  unfoldable pub remove_writer :
      DiscoveredEntities Q I T → Gid → Option (DiscoveredEntities Q I T × Option Ros2DiscoveryEvent)
  unfolding until_told
  remove_writer e gid = elim (lookup gid e.writers) [
    | none ↦ some (e, none)
    | some writer ↦ do
      key ← a.ke_admin_writer writer.participant_key writer.key writer.topic_name
      some (
        record e {
          writers = remove gid e.writers;
          admin_space = remove key e.admin_space;
          nodes_info = (until_told (until_told (λ n. Removal.remove_writer n gid)) e.nodes_info).0;
        },
        (until_told (until_told (λ n. Removal.remove_writer n gid)) e.nodes_info).1,
      )
  ]

  unfoldable pub remove_reader :
      DiscoveredEntities Q I T → Gid → Option (DiscoveredEntities Q I T × Option Ros2DiscoveryEvent)
  unfolding until_told
  remove_reader e gid = elim (lookup gid e.readers) [
    | none ↦ some (e, none)
    | some reader ↦ do
      key ← a.ke_admin_reader reader.participant_key reader.key reader.topic_name
      some (
        record e {
          readers = remove gid e.readers;
          admin_space = remove key e.admin_space;
          nodes_info = (until_told (until_told (λ n. Removal.remove_reader n gid)) e.nodes_info).0;
        },
        (until_told (until_told (λ n. Removal.remove_reader n gid)) e.nodes_info).1,
      )
  ]

module _ ⦃a : AdminKeys⦄ ⦃x : Externals⦄ {Q I T : Type 0} where
  unfoldable pub add_writer :
      DiscoveredEntities Q I T
      → DdsEntity Q
      → Option (DiscoveredEntities Q I T × Option Ros2DiscoveryEvent)
  unfolding until_event take_up_writer
  add_writer e writer = do
    key ← a.ke_admin_writer writer.participant_key writer.key writer.topic_name
    r ← until_event (take_up_writer writer) e.nodes_info
    some (
      record e {
        admin_space = insert key (writer_ref writer.key) e.admin_space;
        nodes_info = r.0;
        writers = insert writer.key writer e.writers;
      },
      r.1,
    )

  unfoldable pub add_reader :
      DiscoveredEntities Q I T
      → DdsEntity Q
      → Option (DiscoveredEntities Q I T × Option Ros2DiscoveryEvent)
  unfolding until_event take_up_reader
  add_reader e reader = do
    key ← a.ke_admin_reader reader.participant_key reader.key reader.topic_name
    r ← until_event (take_up_reader reader) e.nodes_info
    some (
      record e {
        admin_space = insert key (reader_ref reader.key) e.admin_space;
        nodes_info = r.0;
        readers = insert reader.key reader e.readers;
      },
      r.1,
    )
