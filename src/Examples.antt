-- ===== src/Examples.antt =====
-- Concrete inputs: a node with a publisher and a server, and endpoints that it meets.
use zenoh_plugin_ros2dds.Base.{
  ◌≡◌, refl, Text, codes, none, some, [], ◌∷◌, replicate, lookup, true, str_eq, ends_with, arith,
}
use zenoh_plugin_ros2dds.Externals.{Externals}
use zenoh_plugin_ros2dds.Gid.{Gid, not_discovered}
use zenoh_plugin_ros2dds.Dds.{DdsEntity}
use zenoh_plugin_ros2dds.Interfaces.{known}
use zenoh_plugin_ros2dds.Ros2Utils.{check_ros_name, is_service_for_action, is_message_for_action}
use zenoh_plugin_ros2dds.Ros2Utils.Names.{check_ros_name-slash}
use zenoh_plugin_ros2dds.Node.{NodeInfo, create_node}
use zenoh_plugin_ros2dds.RosDiscovery.{NodeEntitiesInfo}
use zenoh_plugin_ros2dds.Node.Names.{IsCreated, create_node-IsCreated}
use zenoh_plugin_ros2dds.Node.Spec.{IsValid, Keeps}
use zenoh_plugin_ros2dds.Node.Dispatch.{update_with_reader, update_with_writer}
use zenoh_plugin_ros2dds.Node.Dispatch.Channels.{request, message}
use zenoh_plugin_ros2dds.Node.Dispatch.Short.{update_with-short}
use zenoh_plugin_ros2dds.Node.Dispatch.ReaderTopics.{reader_update, update_with_reader-topic}
use zenoh_plugin_ros2dds.Node.Dispatch.WriterTopics.{writer_update, update_with_writer-topic}
use zenoh_plugin_ros2dds.Node.Dispatch.ReaderKeeps.{update_with_reader-Keeps}
use zenoh_plugin_ros2dds.Node.Dispatch.WriterKeeps.{update_with_writer-Keeps}
use zenoh_plugin_ros2dds.Node.Dispatch.ReaderAgain.{update_with_reader_again}
use zenoh_plugin_ros2dds.Node.Dispatch.WriterAgain.{update_with_writer_again}
use zenoh_plugin_ros2dds.Node.Removal.{remove_writer, remove_reader, remove_all_entities}
use zenoh_plugin_ros2dds.Node.Removal.Writer.{RemovedWriter, remove_writer-Removed}
use zenoh_plugin_ros2dds.Node.Removal.Reader.{RemovedReader, remove_reader-Removed}
use zenoh_plugin_ros2dds.Node.Removal.Everything.{IsEmptied, remove_all_entities-IsEmptied}

abbrev accepting : Externals
accepting = record { hex_encode = λ t. t; is_key_expr = λ t. true }

abbrev gid_1 : Gid
gid_1 = replicate 16 1

abbrev gid_2 : Gid
gid_2 = replicate 16 2

abbrev gid_3 : Gid
gid_3 = replicate 16 3

-- "/talker", with its publisher of "/chatter" and a server of "/add" that waits for its request reader.
abbrev talker : NodeInfo
talker = record {
  id = codes "p/talker";
  fullname_range = record { start = 1; end = 8 };
  namespace_range = record { start = 1; end = 2 };
  name_range = record { start = 2; end = 8 };
  msg_pub =
      (
        codes "/chatter",
        record { name = codes "/chatter"; typ = codes "std_msgs/msg/String"; writers = gid_1 ∷ [] },
      )
      ∷ [];
  msg_sub = [];
  service_srv =
      (
        codes "/add",
        record {
          name = codes "/add";
          typ = codes "example/srv/Add";
          entities = record { req_reader = not_discovered; rep_writer = gid_2 };
        },
      )
      ∷ [];
  service_cli = [];
  action_srv = [];
  action_cli = [];
  undiscovered_reader = gid_3 ∷ [];
  undiscovered_writer = [];
}

talker-IsValid : IsValid talker
unfolding lookup
talker-IsValid = record {
  pubs = ((refl, tt), ((refl, λ h. cc), tt));
  subs = (tt, tt);
  service_srvs = ((refl, tt), (refl, tt));
  service_clis = (tt, tt);
  action_srvs = (tt, tt);
  action_clis = (tt, tt);
}

abbrev endpoint : Text → Text → DdsEntity (Unit {0})
endpoint topic_name type_name = record {
  key = gid_3;
  participant_key = gid_1;
  topic_name = topic_name;
  type_name = type_name;
  keyless = true;
  qos = tt;
}

abbrev add_request : DdsEntity (Unit {0})
add_request = endpoint (codes "rq/addRequest") (codes "example::srv::dds_::Add_Request_")

abbrev chatter : DdsEntity (Unit {0})
chatter = endpoint (codes "rt/chatter") (codes "std_msgs::msg::dds_::String_")

check_ros_name-slash_example :
    check_ros_name ⦃x = accepting⦄ (codes "/a") ≡ check_ros_name ⦃x = accepting⦄ (codes "/{")
check_ros_name-slash_example = check_ros_name-slash ⦃x = accepting⦄ (codes "a") (codes "{")

update_with-short_example :
    (update_with_reader ⦃x = accepting⦄ talker (endpoint (codes "rt") []) ≡ none)
    × (update_with_writer ⦃x = accepting⦄ talker (endpoint (codes "rt") []) ≡ none)
update_with-short_example =
    update_with-short ⦃x = accepting⦄ talker (endpoint (codes "rt") []) (omega arith)

gid_3-known : known gid_3 ≡ true
gid_3-known = unfold str_eq in refl

update_with_reader-topic_example :
    update_with_reader ⦃x = accepting⦄ talker add_request
    ≡ some (reader_update ⦃x = accepting⦄ talker add_request request (codes "/add"))
update_with_reader-topic_example =
    update_with_reader-topic ⦃x = accepting⦄ talker add_request request 97 (codes "dd") refl
      (unfold is_service_for_action ends_with str_eq in refl) refl

update_with_writer-topic_example :
    update_with_writer ⦃x = accepting⦄ talker chatter
    ≡ some (writer_update ⦃x = accepting⦄ talker chatter message (codes "/chatter"))
update_with_writer-topic_example =
    update_with_writer-topic ⦃x = accepting⦄ talker chatter message 99 (codes "hatter") refl
      (unfold is_message_for_action ends_with str_eq in refl) refl

update_with_reader-Keeps_example :
    Keeps talker (reader_update ⦃x = accepting⦄ talker add_request request (codes "/add"))
update_with_reader-Keeps_example =
    update_with_reader-Keeps ⦃x = accepting⦄ talker add_request
      (reader_update ⦃x = accepting⦄ talker add_request request (codes "/add")) talker-IsValid
      gid_3-known update_with_reader-topic_example

update_with_writer-Keeps_example :
    Keeps talker (writer_update ⦃x = accepting⦄ talker chatter message (codes "/chatter"))
update_with_writer-Keeps_example =
    update_with_writer-Keeps ⦃x = accepting⦄ talker chatter
      (writer_update ⦃x = accepting⦄ talker chatter message (codes "/chatter")) talker-IsValid
      gid_3-known update_with_writer-topic_example

update_with_reader_again_example :
    update_with_reader ⦃x = accepting⦄
      (reader_update ⦃x = accepting⦄ talker add_request request (codes "/add")).0
      add_request
    ≡ some ((reader_update ⦃x = accepting⦄ talker add_request request (codes "/add")).0, none)
update_with_reader_again_example =
    update_with_reader_again ⦃x = accepting⦄ talker add_request
      (reader_update ⦃x = accepting⦄ talker add_request request (codes "/add"))
      update_with_reader-topic_example

update_with_writer_again_example :
    update_with_writer ⦃x = accepting⦄
      (writer_update ⦃x = accepting⦄ talker chatter message (codes "/chatter")).0
      chatter
    ≡ some ((writer_update ⦃x = accepting⦄ talker chatter message (codes "/chatter")).0, none)
update_with_writer_again_example =
    update_with_writer_again ⦃x = accepting⦄ talker chatter
      (writer_update ⦃x = accepting⦄ talker chatter message (codes "/chatter"))
      update_with_writer-topic_example

remove_writer-Removed_example : RemovedWriter gid_1 talker (remove_writer talker gid_1)
remove_writer-Removed_example = remove_writer-Removed gid_1 talker talker-IsValid

remove_reader-Removed_example : RemovedReader gid_3 talker (remove_reader talker gid_3)
remove_reader-Removed_example = remove_reader-Removed gid_3 talker talker-IsValid

remove_all_entities-IsEmptied_example :
    IsEmptied talker (remove_all_entities talker).0 (remove_all_entities talker).1
remove_all_entities-IsEmptied_example = remove_all_entities-IsEmptied talker

abbrev declared : NodeEntitiesInfo
declared = record {
  node_namespace = codes "/ns";
  node_name = codes "talker";
  reader_gid_seq = [];
  writer_gid_seq = [];
}

create_node-IsCreated_example :
    IsCreated ⦃x = accepting⦄ declared gid_1
      (create_node ⦃x = accepting⦄ (codes "/ns") (codes "talker") gid_1)
create_node-IsCreated_example = create_node-IsCreated ⦃x = accepting⦄ declared gid_1
