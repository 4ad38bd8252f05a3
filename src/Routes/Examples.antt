-- ===== src/Routes/Examples.antt =====
-- A route that serves two bridges, the id of one of which begins with the id of the other.
use zenoh_plugin_ros2dds.Base.{codes, true, all, [], ◌∷◌, ◌++◌, refl}
use zenoh_plugin_ros2dds.Routes.{Route}
use zenoh_plugin_ros2dds.Routes.Publisher as Publisher
use zenoh_plugin_ros2dds.Routes.Subscriber as Subscriber
use zenoh_plugin_ros2dds.Routes.ServiceSrv as ServiceSrv
use zenoh_plugin_ros2dds.Routes.ServiceCli as ServiceCli
use zenoh_plugin_ros2dds.Routes.Departed.{IsWithout, prune_remote_routes_with_prefix-IsWithout}

abbrev two_bridges : Route
two_bridges = record {
  ros2_name = codes "/chatter";
  announced = true;
  active = true;
  remote_routes = codes "a1:chatter" ∷ codes "a12:chatter" ∷ [];
  local_nodes = codes "/talker" ∷ [];
}

prune_remote_routes_with_prefix-IsWithout_example :
    IsWithout
      (codes "a1")
      two_bridges.remote_routes
      (Publisher.prune_remote_routes_with_prefix
        (codes "a1" ++ codes ":")
        two_bridges).0.remote_routes
    × IsWithout
        (codes "a1")
        two_bridges.remote_routes
        (Subscriber.prune_remote_routes_with_prefix
          (codes "a1" ++ codes ":")
          two_bridges).0.remote_routes
    × IsWithout
        (codes "a1")
        two_bridges.remote_routes
        (ServiceSrv.prune_remote_routes_with_prefix
          (codes "a1" ++ codes ":")
          two_bridges).0.remote_routes
    × IsWithout
        (codes "a1")
        two_bridges.remote_routes
        (ServiceCli.prune_remote_routes_with_prefix
          (codes "a1" ++ codes ":")
          two_bridges).0.remote_routes
unfolding all
prune_remote_routes_with_prefix-IsWithout_example =
    prune_remote_routes_with_prefix-IsWithout (codes "a1") two_bridges refl
