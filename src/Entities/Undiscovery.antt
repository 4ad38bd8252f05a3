-- ===== src/Entities/Undiscovery.antt =====
-- What `remove_writer` leaves of a writer in the nodes of all participants.
use zenoh_plugin_ros2dds.Base.{◌≡◌, refl, Text, Option, none, some, [], ◌∷◌, Map, lookup, remove}
use zenoh_plugin_ros2dds.Base.Maps.Entries.{Entries, lookup-remove_self}
use zenoh_plugin_ros2dds.Gid.{Gid}
use zenoh_plugin_ros2dds.Dds.{DdsEntity}
use zenoh_plugin_ros2dds.Events.{Ros2DiscoveryEvent}
use zenoh_plugin_ros2dds.Node.{NodeInfo}
use zenoh_plugin_ros2dds.Node.Spec.{IsValid}
use zenoh_plugin_ros2dds.Node.Removal as Removal
use zenoh_plugin_ros2dds.Node.Removal.Writer.{IsUnusedWriter, RemovedWriter, remove_writer-Removed}
use zenoh_plugin_ros2dds.Entities.{AdminKeys, DiscoveredEntities, until, until_told, remove_writer}

-- Every value is good, and without an event it is finished.
abbrev IsLeft : {V : Type 0} → (V → Type 0) → (V → Type 0) → V × Option Ros2DiscoveryEvent → Type 0
IsLeft Good Done (v, none) = Good v × Done v
IsLeft Good Done (v, some _) = Good v

module _ {V : Type 0} (Good Done : V → Type 0) where
  until-IsLeft :
      (name : Text) (others : Map V) (rest : Map V × Option Ros2DiscoveryEvent)
      (u : V × Option Ros2DiscoveryEvent)
      → IsLeft Good Done u
      → Entries (λ k v. Good v) others
      → IsLeft (Entries (λ k v. Good v)) (Entries (λ k v. Done v)) rest
      → IsLeft (Entries (λ k v. Good v)) (Entries (λ k v. Done v)) (until name others rest u)
  until-IsLeft name others (m, none) (v, none) h good left = ((h.0, left.0), (h.1, left.1))
  until-IsLeft name others (m, some event) (v, none) h good left = (h.0, left)
  until-IsLeft name others rest (v, some event) h good left = (h, good)

  until_told-IsLeft :
      (f : V → V × Option Ros2DiscoveryEvent) (m : Map V)
      → ((v : V) → Good v → IsLeft Good Done (f v))
      → Entries (λ k v. Good v) m
      → IsLeft (Entries (λ k v. Good v)) (Entries (λ k v. Done v)) (until_told f m)
  unfolding until_told
  until_told-IsLeft f [] keeps good = (tt, tt)
  until_told-IsLeft f ((name, v) ∷ m) keeps good =
      until-IsLeft name m (until_told f m) (f v) (keeps v good.0) good.1
        (until_told-IsLeft f m keeps good.1)

removed-IsLeft :
    (g : Gid) (n : NodeInfo) (u : NodeInfo × Option Ros2DiscoveryEvent)
    → RemovedWriter g n u
    → IsLeft IsValid (IsUnusedWriter g) u
removed-IsLeft g n (n', none) h = h
removed-IsLeft g n (n', some event) h = h.0

abbrev pub AllValid : Map (Map NodeInfo) → Type 0
AllValid m = Entries (λ gid nodes. Entries (λ name n. IsValid n) nodes) m

abbrev pub AllUnused : Gid → Map (Map NodeInfo) → Type 0
AllUnused g m = Entries (λ gid nodes. Entries (λ name n. IsUnusedWriter g n) nodes) m

-- All nodes are valid, and without an event none of them uses the writer.
abbrev pub IsUndiscovered : Gid → Map (Map NodeInfo) → Option Ros2DiscoveryEvent → Type 0
IsUndiscovered g m none = AllValid m × AllUnused g m
IsUndiscovered g m (some _) = AllValid m

of_left :
    (g : Gid) (r : Map (Map NodeInfo) × Option Ros2DiscoveryEvent)
    → IsLeft AllValid (AllUnused g) r
    → IsUndiscovered g r.0 r.1
of_left g (m, none) h = h
of_left g (m, some event) h = h

-- With valid nodes and a writer that is stored and whose key is formatted, `remove_writer` does not panic: the
-- writer is stored no more and all nodes are valid; and if it returns no event, no interface of any
-- node uses the writer, and no node waits for it.
pub remove_writer-IsUndiscovered :
    ⦃a : AdminKeys⦄ {Q I T : Type 0} (e : DiscoveredEntities Q I T) (gid : Gid) (w : DdsEntity Q)
    (key : Text)
    → AllValid e.nodes_info
    → lookup gid e.writers ≡ some w
    → a.ke_admin_writer w.participant_key w.key w.topic_name ≡ some key
    → (e' : DiscoveredEntities Q I T) × (event : Option Ros2DiscoveryEvent) × (remove_writer e gid
        ≡ some (e', event))
      × (lookup gid e'.writers ≡ none)
      × IsUndiscovered gid e'.nodes_info event
unfolding remove_writer
remove_writer-IsUndiscovered e gid w key valid held formatted =
    let r = until_told (until_told (λ n. Removal.remove_writer n gid)) e.nodes_info in
    (
      record e {
        writers = remove gid e.writers;
        admin_space = remove key e.admin_space;
        nodes_info = r.0;
      },
      r.1,
      rw (held, remove_writer, formatted) refl,
      lookup-remove_self gid e.writers,
      of_left gid r (
          until_told-IsLeft (Entries (λ name n. IsValid n))
            (Entries (λ name n. IsUnusedWriter gid n))
            (until_told (λ n. Removal.remove_writer n gid)) e.nodes_info
            (λ nodes good.
              until_told-IsLeft IsValid (IsUnusedWriter gid) (λ n. Removal.remove_writer n gid)
                nodes
                (λ n v.
                  removed-IsLeft gid n (Removal.remove_writer n gid)
                    (remove_writer-Removed gid n v))
                good)
            valid),
    )
