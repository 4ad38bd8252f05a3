-- ===== src/Entities/Examples.antt =====
-- Two participants, of which one has a writer and a node.
use zenoh_plugin_ros2dds.Base.{
  ◌≡◌, refl, Text, Option, none, codes, some, [], ◌∷◌, ◌++◌, lookup, replicate, str_eq, true,
}
use zenoh_plugin_ros2dds.Gid.{Gid}
use zenoh_plugin_ros2dds.Dds.{DdsEntity}
use zenoh_plugin_ros2dds.Node.{NodeInfo}
use zenoh_plugin_ros2dds.Entities.{
  AdminKeys, DiscoveredEntities, participant_ref, node_ref, remove_participant, remove_writer,
}
use zenoh_plugin_ros2dds.Entities.Undiscovery.{
  AllValid, IsUndiscovered, remove_writer-IsUndiscovered,
}
use zenoh_plugin_ros2dds.Events.{Ros2DiscoveryEvent}
use zenoh_plugin_ros2dds.Entities.Purge.{IsTidy, IsPurged, node_events, remove_participant-IsPurged}

abbrev keys : AdminKeys
keys = record {
  ke_admin_participant = λ g. some (codes "dds/" ++ g);
  ke_admin_writer =
      λ p g t. some (codes "dds/" ++ (p ++ (codes "/writer/" ++ (g ++ (codes "/" ++ t)))));
  ke_admin_reader =
      λ p g t. some (codes "dds/" ++ (p ++ (codes "/reader/" ++ (g ++ (codes "/" ++ t)))));
  ke_admin_node = λ n. some (codes "node/" ++ n);
}

abbrev leaving : Gid
leaving = replicate 16 7

abbrev staying : Gid
staying = replicate 16 8

abbrev writer_of : Gid → Gid → DdsEntity (Unit {0})
writer_of key participant = record {
  key = key;
  participant_key = participant;
  topic_name = codes "rt/chatter";
  type_name = codes "std_msgs::msg::dds_::String_";
  keyless = true;
  qos = tt;
}

abbrev listener : NodeInfo
listener = record {
  id = codes "p/listener";
  fullname_range = record { start = 1; end = 10 };
  namespace_range = record { start = 1; end = 2 };
  name_range = record { start = 2; end = 10 };
  msg_pub =
      (
        codes "/chatter",
        record {
          name = codes "/chatter";
          typ = codes "std_msgs/msg/String";
          writers = replicate 16 1 ∷ [];
        },
      )
      ∷ [];
  msg_sub = [];
  service_srv = [];
  service_cli = [];
  action_srv = [];
  action_cli = [];
  undiscovered_reader = [];
  undiscovered_writer = [];
}

abbrev domain : DiscoveredEntities (Unit {0}) (Unit {0}) (Unit {0})
domain = record {
  participants =
      (leaving, record { key = leaving; qos = tt })
      ∷ (staying, record { key = staying; qos = tt })
      ∷ [];
  writers =
      (replicate 16 1, writer_of (replicate 16 1) leaving)
      ∷ (replicate 16 2, writer_of (replicate 16 2) staying)
      ∷ [];
  readers = [];
  ros_participant_info = [];
  nodes_info = (leaving, (codes "/listener", listener) ∷ []) ∷ [];
  admin_space =
      (codes "dds/" ++ leaving, participant_ref leaving)
      ∷ (codes "node/p/listener", node_ref leaving (codes "/listener"))
      ∷ [];
  orphan_first_seen = [];
}

domain-IsTidy : IsTidy ⦃a = keys⦄ domain leaving
unfolding lookup str_eq
domain-IsTidy = record {
  writers = ((refl, (refl, tt)), (refl, (refl, tt)));
  readers = (tt, tt);
  formatted = (codes "dds/" ++ leaving, refl);
  nodes_formatted = ((codes "node/p/listener", refl), tt);
  writers_formatted = ((_, refl), ((_, refl), tt));
  readers_formatted = tt;
}

remove_participant-IsPurged_example :
    (e' : DiscoveredEntities (Unit {0}) (Unit {0}) (Unit {0})) × (remove_participant ⦃a = keys⦄
        domain leaving
      ≡ some (e', node_events (lookup leaving domain.nodes_info)))
    × IsPurged domain leaving e'
remove_participant-IsPurged_example =
    remove_participant-IsPurged ⦃a = keys⦄ domain leaving domain-IsTidy

domain-AllValid : AllValid domain.nodes_info
unfolding lookup
domain-AllValid = (
  (
    record {
      pubs = ((refl, tt), ((refl, λ h. cc), tt));
      subs = (tt, tt);
      service_srvs = (tt, tt);
      service_clis = (tt, tt);
      action_srvs = (tt, tt);
      action_clis = (tt, tt);
    },
    tt,
  ),
  tt,
)

domain-writer : lookup (replicate 16 1) domain.writers ≡ some (writer_of (replicate 16 1) leaving)
unfolding lookup str_eq
domain-writer = refl

abbrev writer_key : Text
writer_key =
    codes "dds/" ++ (leaving ++ (codes "/writer/" ++ (replicate 16 1 ++ codes "/rt/chatter")))

remove_writer-IsUndiscovered_example :
    (e' : DiscoveredEntities (Unit {0}) (Unit {0}) (Unit {0})) × (event : Option Ros2DiscoveryEvent)
    × (remove_writer ⦃a = keys⦄ domain (replicate 16 1) ≡ some (e', event))
    × (lookup (replicate 16 1) e'.writers ≡ none)
    × IsUndiscovered (replicate 16 1) e'.nodes_info event
remove_writer-IsUndiscovered_example =
    remove_writer-IsUndiscovered ⦃a = keys⦄ domain (replicate 16 1)
      (writer_of (replicate 16 1) leaving) writer_key domain-AllValid domain-writer refl
