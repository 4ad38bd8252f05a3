-- ===== src/Entities/Purge.antt =====
-- What `remove_participant` leaves of a participant.
use zenoh_plugin_ros2dds.Base.{
  ◌≡◌, refl, ◌∙◌, subst, inl, inr, Text, true, false, Bool-cases, Option, none, some, List, [], ◌∷◌,
  ◌++◌, Map, lookup, remove, lookup-remove, filter, str_eq, eq_of_str_eq, if◌then◌else◌, arith,
}
use zenoh_plugin_ros2dds.Base.Maps.Entries.{
  Entries, Table, Distinct, Entries-lookup, Entries-remove,
}
use zenoh_plugin_ros2dds.Gid.{Gid}
use zenoh_plugin_ros2dds.Dds.{DdsEntity}
use zenoh_plugin_ros2dds.Interfaces.{contains}
use zenoh_plugin_ros2dds.Events.{Ros2DiscoveryEvent}
use zenoh_plugin_ros2dds.Node.{NodeInfo}
use zenoh_plugin_ros2dds.Node.Removal.{remove_all_entities}
use zenoh_plugin_ros2dds.Entities.{
  AdminKeys, EntityRef, DiscoveredEntities, forget_nodes, forget_nodes_of, stale, forget_key,
  forget_writers, forget_readers, remove_participant,
}

module _ {Q : Type 0} where
  abbrev pub IsKeyed : Text → DdsEntity Q → Type 0
  IsKeyed k w = w.key ≡ k

  -- A format accepts the entity.
  abbrev pub IsFormatted : (Gid → Gid → Text → Option Text) → Text → DdsEntity Q → Type 0
  IsFormatted format k w = (key : Text) × (format w.participant_key w.key w.topic_name ≡ some key)

  -- What stays of an entity when the participant leaves.
  abbrev pub survivor : Gid → Option (DdsEntity Q) → Option (DdsEntity Q)
  survivor gid none = none
  survivor gid (some w) = if str_eq w.participant_key gid then none else some w

  stale-none :
      (gid k : Gid) (m : Map (DdsEntity Q))
      → Entries IsKeyed m
      → lookup k m ≡ none
      → contains k (stale gid m) ≡ false
  unfolding contains lookup filter
  stale-none gid k [] h e = refl
  stale-none gid k ((j, w) ∷ m) h e = elim (Bool-cases (str_eq j k)) [
    | inl same ↦ let bad : some w ≡ none = (rw same at e) in cc
    | inr other ↦
        let rest = stale-none gid k m h.1 (rw other at e) in
        let differs : str_eq w.key k ≡ false = rw h.0 other in
        elim (Bool-cases (str_eq w.participant_key gid)) [
          | inl its ↦ rw (its, differs) rest
          | inr not_its ↦ rw not_its rest
        ]
  ]

  stale-some :
      (gid k : Gid) (m : Map (DdsEntity Q)) (v : DdsEntity Q)
      → Distinct m
      → Entries IsKeyed m
      → lookup k m ≡ some v
      → contains k (stale gid m) ≡ str_eq v.participant_key gid
  unfolding contains lookup filter
  stale-some gid k [] v d h e = cc
  stale-some gid k ((j, w) ∷ m) v d h e = elim (Bool-cases (str_eq j k)) [
    | inl same ↦
        let here : some w ≡ some v = (rw same at e) in
        let held : w ≡ v = cc in
        let gone : lookup k m ≡ none =
          subst (λ (i : Text). lookup i m ≡ none) (eq_of_str_eq j k same) d.0 in
        let rest = stale-none gid k m h.1 gone in
        let keyed : str_eq w.key k ≡ true = rw h.0 same in
        subst
          (λ (u : DdsEntity Q). contains k (stale gid ((j, w) ∷ m)) ≡ str_eq u.participant_key gid)
          held
          (elim (Bool-cases (str_eq w.participant_key gid)) [
            | inl its ↦ rw (its, keyed) refl
            | inr not_its ↦ rw (not_its, rest) refl
          ])
    | inr other ↦
        let rest = stale-some gid k m v d.1 h.1 (rw other at e) in
        let differs : str_eq w.key k ≡ false = rw h.0 other in
        elim (Bool-cases (str_eq w.participant_key gid)) [
          | inl its ↦ rw (its, differs) rest
          | inr not_its ↦ rw not_its rest
        ]
  ]

  -- To remove the stale entities leaves the survivors.
  stale-survivor :
      (gid k : Gid) (m : Map (DdsEntity Q))
      → Table IsKeyed m
      → (if contains k (stale gid m) then none else lookup k m) ≡ survivor gid (lookup k m)
  stale-survivor gid k m table = of_lookup (lookup k m) refl
    where
      of_lookup :
          (o : Option (DdsEntity Q))
          → lookup k m ≡ o
          → (if contains k (stale gid m) then none else lookup k m) ≡ survivor gid (lookup k m)
      of_lookup none e = rw (e, stale-none gid k m table.1 e) refl
      of_lookup (some v) e = rw (e, stale-some gid k m v table.0 table.1 e) refl

  -- A key that is formatted is taken out of the admin space.
  forget_key-some :
      (format : Gid → Gid → Text → Option Text) (gid : Gid) (m : Map (DdsEntity Q))
      (admin : Map EntityRef)
      → Entries (IsFormatted format) m
      → (admin' : Map EntityRef) × (forget_key format (lookup gid m) admin ≡ some admin')
  forget_key-some format gid m admin h = of_lookup (lookup gid m) refl
    where
      of_lookup :
          (o : Option (DdsEntity Q))
          → lookup gid m ≡ o
          → (admin' : Map EntityRef) × (forget_key format (lookup gid m) admin ≡ some admin')
      of_lookup none e = (admin, rw e refl)
      of_lookup (some w) e =
          let (key, formatted) = Entries-lookup (IsFormatted format) gid w m h e in
          (remove key admin, rw (e, formatted) refl)

module _ ⦃a : AdminKeys⦄ {Q T : Type 0} where
  -- The writers are removed, and no other.
  Forgotten : List Gid → Map (DdsEntity Q) → Map EntityRef → Map T → Type 0
  Forgotten gids writers admin first_seen =
      (r : Map (DdsEntity Q) × Map EntityRef × Map T) × (forget_writers gids writers admin
          first_seen
        ≡ some r)
      × ((k : Gid) → lookup k r.0 ≡ (if contains k gids then none else lookup k writers))

  forget_writers-Forgotten :
      (gids : List Gid) (writers : Map (DdsEntity Q)) (admin : Map EntityRef) (first_seen : Map T)
      → Entries (IsFormatted a.ke_admin_writer) writers
      → Forgotten gids writers admin first_seen
  unfolding Forgotten forget_writers contains
  forget_writers-Forgotten [] writers admin first_seen h =
      ((writers, admin, first_seen), refl, λ k. refl)
  forget_writers-Forgotten (gid ∷ gids) writers admin first_seen h =
      let (admin', e) = forget_key-some a.ke_admin_writer gid writers admin h in
      let (r, returns, left) =
        forget_writers-Forgotten gids (remove gid writers) admin' (remove gid first_seen)
          (Entries-remove (IsFormatted a.ke_admin_writer) gid writers h) in
      (r, rw e returns, λ k. left k ∙ ground (arith, lookup-remove gid k writers))

module _ ⦃a : AdminKeys⦄ {Q : Type 0} where
  ForgottenReaders : List Gid → Map (DdsEntity Q) → Map EntityRef → Type 0
  ForgottenReaders gids readers admin =
      (r : Map (DdsEntity Q) × Map EntityRef) × (forget_readers gids readers admin ≡ some r)
      × ((k : Gid) → lookup k r.0 ≡ (if contains k gids then none else lookup k readers))

  forget_readers-Forgotten :
      (gids : List Gid) (readers : Map (DdsEntity Q)) (admin : Map EntityRef)
      → Entries (IsFormatted a.ke_admin_reader) readers
      → ForgottenReaders gids readers admin
  unfolding ForgottenReaders forget_readers contains
  forget_readers-Forgotten [] readers admin h = ((readers, admin), refl, λ k. refl)
  forget_readers-Forgotten (gid ∷ gids) readers admin h =
      let (admin', e) = forget_key-some a.ke_admin_reader gid readers admin h in
      let (r, returns, left) =
        forget_readers-Forgotten gids (remove gid readers) admin'
          (Entries-remove (IsFormatted a.ke_admin_reader) gid readers h) in
      (r, rw e returns, λ k. left k ∙ ground (arith, lookup-remove gid k readers))

-- The undiscovery events of the nodes.
abbrev pub node_events : Option (Map NodeInfo) → List Ros2DiscoveryEvent
node_events none = []
node_events (some []) = []
node_events (some ((name, node) ∷ nodes)) = (remove_all_entities node).1 ++ node_events (some nodes)

module _ ⦃a : AdminKeys⦄ where
  abbrev pub IsFormattedNode : Text → NodeInfo → Type 0
  IsFormattedNode name node = (key : Text) × (a.ke_admin_node node.id ≡ some key)

  abbrev pub AreFormatted : Option (Map NodeInfo) → Type 0
  AreFormatted none = Unit
  AreFormatted (some nodes) = Entries IsFormattedNode nodes

  forget_nodes_lem :
      (nodes : Map NodeInfo) (admin : Map EntityRef)
      → Entries IsFormattedNode nodes
      → (admin' : Map EntityRef) × (forget_nodes nodes admin
          ≡ some (admin', node_events (some nodes)))
  unfolding forget_nodes
  forget_nodes_lem [] admin h = (admin, refl)
  forget_nodes_lem ((name, node) ∷ nodes) admin h =
      let (key, formatted) = h.0 in
      let (admin', returns) = forget_nodes_lem nodes (remove key admin) h.1 in
      (admin', rw (formatted, returns) refl)

  forget_nodes_of-some :
      (nodes : Option (Map NodeInfo)) (admin : Map EntityRef)
      → AreFormatted nodes
      → (admin' : Map EntityRef) × (forget_nodes_of nodes admin ≡ some (admin', node_events nodes))
  forget_nodes_of-some none admin h = (admin, refl)
  forget_nodes_of-some (some nodes) admin h = forget_nodes_lem nodes admin h

-- The entities are stored under their own keys, and the formatters accept what the participant left in
-- the admin space.
pub record IsTidy ⦃a : AdminKeys⦄ {Q I T : Type 0} (e : DiscoveredEntities Q I T) (gid : Gid)
    : Type 0 where
  pub writers : Table IsKeyed e.writers
  pub readers : Table IsKeyed e.readers
  pub formatted : (key : Text) × (a.ke_admin_participant gid ≡ some key)
  pub nodes_formatted : AreFormatted (lookup gid e.nodes_info)
  pub writers_formatted : Entries (IsFormatted a.ke_admin_writer) e.writers
  pub readers_formatted : Entries (IsFormatted a.ke_admin_reader) e.readers

-- Nothing of the participant is left, all of the others is.
pub record IsPurged {Q I T : Type 0} (e : DiscoveredEntities Q I T) (gid : Gid)
    (e' : DiscoveredEntities Q I T) : Type 0 where
  pub participants :
      (k : Gid)
      → lookup k e'.participants ≡ (if str_eq gid k then none else lookup k e.participants)
  pub nodes :
      (k : Gid) → lookup k e'.nodes_info ≡ (if str_eq gid k then none else lookup k e.nodes_info)
  pub writers : (k : Gid) → lookup k e'.writers ≡ survivor gid (lookup k e.writers)
  pub readers : (k : Gid) → lookup k e'.readers ≡ survivor gid (lookup k e.readers)

-- Where entities are stored under their own keys and the formatters accept the keys of the admin space,
-- `remove_participant` does not panic: it returns the undiscovery events of all nodes of the participant,
-- removes the participant and its nodes and no others, and of the writers and readers leaves just those
-- of other participants.
pub remove_participant-IsPurged :
    ⦃a : AdminKeys⦄ {Q I T : Type 0} (e : DiscoveredEntities Q I T) (gid : Gid)
    → IsTidy e gid
    → (e' : DiscoveredEntities Q I T) × (remove_participant e gid
        ≡ some (e', node_events (lookup gid e.nodes_info)))
      × IsPurged e gid e'
unfolding remove_participant Forgotten ForgottenReaders
remove_participant-IsPurged {Q} {I} {T} e gid tidy =
    let (key, formatted) = tidy.formatted in
    let (admin1, nodes_gone) =
      forget_nodes_of-some (lookup gid e.nodes_info) (remove key e.admin_space)
        tidy.nodes_formatted in
    let (ws, writers_gone, writers_left) =
      forget_writers-Forgotten (stale gid e.writers) e.writers admin1 e.orphan_first_seen
        tidy.writers_formatted in
    let (rs, readers_gone, readers_left) =
      forget_readers-Forgotten (stale gid e.readers) e.readers ws.1 tidy.readers_formatted in
    (
      record e {
        participants = remove gid e.participants;
        nodes_info = remove gid e.nodes_info;
        writers = ws.0;
        readers = rs.0;
        admin_space = rs.1;
        orphan_first_seen = ws.2;
      },
      rw (formatted, nodes_gone, writers_gone, readers_gone) refl,
      record {
        participants = λ k. lookup-remove gid k e.participants;
        nodes = λ k. lookup-remove gid k e.nodes_info;
        writers = λ k. writers_left k ∙ stale-survivor gid k e.writers tidy.writers;
        readers = λ k. readers_left k ∙ stale-survivor gid k e.readers tidy.readers;
      },
    )
