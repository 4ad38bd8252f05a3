-- ===== src/Qos/Examples.antt =====
-- Writers of "/tf_static" and of others: a transient local one, a volatile one, and a best-effort one.
use zenoh_plugin_ros2dds.Base.{
  ◌≡◌, refl, codes, true, false, none, some, List, [], ◌∷◌, any, All, filter, arith,
}
use zenoh_plugin_ros2dds.Base.Int.{pos, negsuc}
use zenoh_plugin_ros2dds.Qos.{
  Qos, Cyclors, DefaultQos, best_effort, reliable, transient_local, volatile, keep_last,
  is_transient_local, ReliabilityKind, DurabilityKind, history_of,
}
use zenoh_plugin_ros2dds.Qos.Routes.{
  Announcement, route_history, max_history, split_mixed_durability, local_writers_disagree,
  reader_qos_for_local_writers, readers_qos_for_local_writers, announced_qos_for_local_writers,
  writer_qos_for_remote_writers, writers_qos_for_remote_writers,
}
use zenoh_plugin_ros2dds.Qos.Depths.{AtMost, HoldsAll, max_history-AtMost, route_history-HoldsAll}
use zenoh_plugin_ros2dds.Qos.Split.{IsSplit, split_mixed_durability-IsSplit}
use zenoh_plugin_ros2dds.Qos.Readers.{
  accepts, IsPermissive, IsServed, reader_qos_for_local_writers-accepts,
  readers_qos_for_local_writers-IsServed,
}
use zenoh_plugin_ros2dds.Qos.Writers.{offers, ServesHistory, writer_qos_for_remote_writers-offers}
use zenoh_plugin_ros2dds.Qos.Bridges.{IsSeparated, writers_qos_for_remote_writers-IsSeparated}
use zenoh_plugin_ros2dds.Qos.Announced.{route_history-announced_qos_for_local_writers}
use zenoh_plugin_ros2dds.Qos.{is_reliable}

abbrev empty_qos : Qos (Unit {0})
empty_qos = record {
  durability = none;
  durability_service = none;
  presentation = none;
  deadline = none;
  latency_budget = none;
  ownership_strength = none;
  liveliness = none;
  time_based_filter = none;
  reliability = none;
  transport_priority = none;
  lifespan = none;
  destination_order = none;
  history = none;
  resource_limits = none;
  writer_data_lifecycle = none;
  reader_data_lifecycle = none;
  writer_batching = none;
  properties = none;
  ignore_local = none;
  data_representation = none;
  entity_name = none;
  rest = tt;
}

abbrev cyclors : Cyclors
cyclors = record {
  dds_100ms_duration = 100000000;
  dds_1s_duration = 1000000000;
  dds_infinite_time = pos 9223372036854775807;
  dds_length_unlimited = negsuc 0;
  default_history = record { kind = keep_last; depth = pos 1 };
}

abbrev defaults : DefaultQos (Unit {0})
defaults = record { default_qos = empty_qos }

abbrev writer_of : ReliabilityKind → DurabilityKind → Qos (Unit {0})
writer_of r d = record empty_qos {
  reliability = some (record { kind = r; max_blocking_time = pos 1 });
  durability = some d;
  history = some (record { kind = keep_last; depth = pos 7 });
}

abbrev static_writer : Qos (Unit {0})
static_writer = writer_of reliable transient_local

abbrev volatile_writer : Qos (Unit {0})
volatile_writer = writer_of best_effort volatile

abbrev writers : List (Qos (Unit {0}))
writers = static_writer ∷ volatile_writer ∷ static_writer ∷ []

abbrev announcements : List (Announcement (Unit {0}))
announcements =
    (codes "a", static_writer) ∷ (codes "b", volatile_writer) ∷ (codes "a", volatile_writer) ∷ []

max_history-AtMost_example :
    All
      (λ q. AtMost (history_of ⦃c = cyclors⦄ q) (max_history ⦃c = cyclors⦄ ⦃d = defaults⦄ writers))
      writers
max_history-AtMost_example = max_history-AtMost ⦃c = cyclors⦄ ⦃d = defaults⦄ writers

some_tl : any is_transient_local writers ≡ true
unfolding any
some_tl = refl

writers_last : (max_history ⦃c = cyclors⦄ ⦃d = defaults⦄ writers).kind ≡ keep_last
unfolding max_history
writers_last = refl

route_history-HoldsAll_example :
    HoldsAll ⦃c = cyclors⦄ writers (route_history ⦃c = cyclors⦄ ⦃d = defaults⦄ writers 10)
route_history-HoldsAll_example =
    route_history-HoldsAll ⦃c = cyclors⦄ ⦃d = defaults⦄ writers 10 (omega arith) some_tl
      writers_last

split_mixed_durability-IsSplit_example : IsSplit writers (split_mixed_durability writers)
split_mixed_durability-IsSplit_example = split_mixed_durability-IsSplit writers

reader_qos_for_local_writers-accepts_example :
    All
      (λ w.
        accepts (reader_qos_for_local_writers ⦃c = cyclors⦄ ⦃d = defaults⦄ writers empty_qos 10) w
        ≡ true)
      writers
    × IsPermissive ⦃c = cyclors⦄
        (reader_qos_for_local_writers ⦃c = cyclors⦄ ⦃d = defaults⦄ writers empty_qos 10)
reader_qos_for_local_writers-accepts_example =
    reader_qos_for_local_writers-accepts ⦃c = cyclors⦄ ⦃d = defaults⦄ writers empty_qos 10

writers-agree : local_writers_disagree writers ≡ false
unfolding local_writers_disagree filter
writers-agree = refl

readers_qos_for_local_writers-IsServed_example :
    All
      (IsServed (readers_qos_for_local_writers ⦃c = cyclors⦄ ⦃d = defaults⦄ writers empty_qos 10))
      writers
readers_qos_for_local_writers-IsServed_example =
    readers_qos_for_local_writers-IsServed ⦃c = cyclors⦄ ⦃d = defaults⦄ writers empty_qos 10
      writers-agree

writer_qos_for_remote_writers-offers_example :
    All
      (λ q. offers (writer_qos_for_remote_writers ⦃c = cyclors⦄ ⦃d = defaults⦄ writers) q ≡ true)
      writers
    × (is_reliable (writer_qos_for_remote_writers ⦃c = cyclors⦄ ⦃d = defaults⦄ writers) ≡ true)
    × ServesHistory ⦃c = cyclors⦄
        (writer_qos_for_remote_writers ⦃c = cyclors⦄ ⦃d = defaults⦄ writers)
        (route_history ⦃c = cyclors⦄ ⦃d = defaults⦄ writers 1)
writer_qos_for_remote_writers-offers_example =
    writer_qos_for_remote_writers-offers ⦃c = cyclors⦄ ⦃d = defaults⦄ writers

writers_qos_for_remote_writers-IsSeparated_example :
    IsSeparated announcements
      (writers_qos_for_remote_writers ⦃c = cyclors⦄ ⦃d = defaults⦄ announcements)
writers_qos_for_remote_writers-IsSeparated_example =
    writers_qos_for_remote_writers-IsSeparated ⦃c = cyclors⦄ ⦃d = defaults⦄ announcements

route_history-announced_qos_for_local_writers_example :
    route_history ⦃c = cyclors⦄ ⦃d = defaults⦄
      (announced_qos_for_local_writers ⦃c = cyclors⦄ ⦃d = defaults⦄ writers 10 ∷ [])
      1
    ≡ route_history ⦃c = cyclors⦄ ⦃d = defaults⦄ writers 10
route_history-announced_qos_for_local_writers_example =
    route_history-announced_qos_for_local_writers ⦃c = cyclors⦄ ⦃d = defaults⦄ writers 10
      (omega arith)
