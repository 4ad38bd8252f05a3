-- ===== src/Lib.antt =====
-- The plugin zenoh-plugin-ros2dds routes the ROS 2 interfaces of a DDS domain over zenoh. DDS
-- discovery tells it of readers and writers, and each ROS node tells in `ros_discovery_info` which
-- of them are its own. From both the plugin derives the interfaces of every node (publishers,
-- subscribers, services, actions) and sends an event when one is complete or gone; the events make
-- and remove the routes. A route's DDS endpoint gets a QoS that is derived from the endpoints which
-- it stands for, on this side or, through announcements, on the side of another bridge.
--
-- Files, and the code of zenoh-plugin-ros2dds/src/ that they model:
--   Gid, Dds, Events      gid.rs, the structs of dds_discovery.rs, and `ROS2DiscoveryEvent` of events.rs.
--   Ros2Utils             the names and types of ros2_utils.rs that nodes use.
--   Interfaces            the structs `MsgPub` to `ActionCli` of node_info.rs and their `create`. The four
--                         structs of services and actions are one record `Interface` over their entities.
--   RosDiscovery          `NodeEntitiesInfo` of ros_discovery.rs.
--   Node                  `NodeInfo` of node_info.rs and `NodeInfo::create` (`create_node`).
--     Node/Names          the names of a node that was made.
--     Node/Slots          the body that the `update_service_*` and `update_action_*` methods share, over
--                         the field that each one assigns.
--     Node/Update         the `update_*` methods, under their names.
--     Node/Dispatch       `update_with_reader` and `update_with_writer`: one function for each prefix.
--     Node/Removal        `remove_reader`, `remove_writer` and `remove_all_entities`.
--     Node/Spec           the invariant of a node, and what its events promise.
--   Entities              `DiscoveredEntities` of discovered_entities.rs: its maps, and the methods that
--                         add and remove participants, readers and writers.
--   Qos, Qos/Routes       qos_helpers.rs, function by function. Of a QoS, the fields that the source names.
--   Ros2Utils/KeyExpressions  the names and key expressions of ros2_utils.rs.
--   Config                `Allowance` of config.rs.
--   Liveliness            the tokens of services and actions, of liveliness_mgt.rs.
--   Routes                what the routes of route_*.rs serve: local nodes and remote routes.
--     Routes/Publisher, Subscriber, ServiceSrv, ServiceCli, Action  the methods of each kind of route. A
--                         server's and a client's action routes are one record over their parts.
--     Routes/Interface    what the routes manager uses of a route, with laws that Routes/Laws proves.
--     Routes/ForwardQueue `FwdQueue` of route_publisher.rs over a channel of flume, its bounds and its
--                         content after any sequence of pushes and pops.
--   RoutesMgr             `RoutesMgr` of routes_mgr.rs; RoutesMgr/Events has its handlers.
--   Runtime               of lib.rs, which events are allowed, and the retries of discovery events;
--     Runtime/Announcements  the receipt of announcements, and the pruning of lost bridges.
--   Examples, and a module Examples beside others  concrete states, at which the theorems apply.
--   Base                  numbers, lists, texts (their UTF-8 bytes) and maps (lists of entries).
--
-- State is passed explicitly: a method takes the node and returns the node and its result. `Option`
-- stands for `Result` where the error is only logged, in Node/Dispatch for the panic of a slice,
-- and in Entities for any panic. The iteration order of a `HashMap` is the order of the list, which
-- the theorems leave arbitrary. i32 and i64 are signed integers over the native numbers, with casts
-- and saturation written out; the sum of the depths is exact, since only a list of more than 2^32
-- QoS could pass i64. Every loop is a structural recursion, but the one of `FwdQueue::push`, whose
-- fuel is one more than the channel holds: each round takes a command. A handler of the routes
-- manager returns its state and whether it returned `Ok`.
--
-- Parameters stand for code of other crates: the key expressions of zenoh and the hex encoding
-- (Externals), the channels of flume (`Channel`), regular expressions (`Regex`), how the calls of
-- zenoh and Cyclone DDS turn out (`Calls`, `Outcomes`), the formatters of the admin space's keys
-- (`AdminKeys`) and of the tokens (`LivelinessFormats`), the constants and defaults of cyclors
-- (`Cyclors`, `DefaultQos`), and the types of the QoS policies that the code only copies or drops.
-- The hypotheses on them are that the formatters accept the keys of the entities that are removed
-- (Entities/Purge and Entities/Undiscovery), that a channel is first in, first out and bounded
-- (`IsFifo`), that the operator `/` of zenoh puts a slash after a key expression without wildcards
-- and accepts what is one then (`IsJoin`), that zenoh accepts what the tokens of routes are made of
-- (`HasTokens`), and that a token whose fields are single chunks without wildcards can be formatted
-- and parsed again (`IsFormats`). The text of a QoS in the key of a remote publisher is a parameter
-- too (`qos_text`).
--
-- Not modelled: logs and the texts for display; the other methods of discovered_entities.rs, which
-- take up `ros_discovery_info` and the writers that no node declares; the rest of ros_discovery.rs;
-- the tokens of publishers and subscribers, with QoS, of liveliness_mgt.rs; of config.rs all but
-- the allowance; of the routes, the QoS that they derive for their endpoints and the samples,
-- requests and replies that they pass on, which are calls of zenoh and Cyclone DDS; of lib.rs the
-- parsing of announcements and their retries at a tick; the bridge's command line and the tests.
pub mod Base
pub mod Externals
pub mod Gid
pub mod Ros2Utils
pub mod Dds
pub mod Interfaces
pub mod Events
pub mod RosDiscovery
pub mod Node
pub mod Entities
pub mod Qos
pub mod Liveliness
pub mod Routes
pub mod RoutesMgr
pub mod Config
pub mod Runtime
pub mod Examples
