-- ===== src/Node/Dispatch/Short.antt =====
-- The panic of `update_with_reader` and `update_with_writer` on a topic of less than three bytes.
use zenoh_plugin_ros2dds.Base.{
  ◌≡◌, refl, ◌<◌, Text, none, [], ◌∷◌, length, slice_to, is_char_boundary, arith,
}
use zenoh_plugin_ros2dds.Externals.{Externals}
use zenoh_plugin_ros2dds.Dds.{DdsEntity}
use zenoh_plugin_ros2dds.Node.{NodeInfo}
use zenoh_plugin_ros2dds.Node.Dispatch.{
  update_with_reader, update_with_writer, reader_on_topic, writer_on_topic,
}

slice_to_short : (s : Text) → length s < 3 → slice_to s 3 ≡ none
unfolding slice_to is_char_boundary
slice_to_short [] h = refl
slice_to_short (a ∷ []) h = refl
slice_to_short (a ∷ b ∷ []) h = refl
slice_to_short (a ∷ b ∷ c ∷ s) h = ground arith

-- A reader or a writer whose topic's name is shorter than three bytes makes `update_with_reader` and
-- `update_with_writer` panic, whatever the node.
pub update_with-short :
    ⦃x : Externals⦄ {Q : Type 0} (n : NodeInfo) (entity : DdsEntity Q)
    → length entity.topic_name < 3
    → (update_with_reader n entity ≡ none) × (update_with_writer n entity ≡ none)
unfolding update_with_reader update_with_writer reader_on_topic writer_on_topic
update_with-short n entity h =
    (rw (slice_to_short entity.topic_name h) refl, rw (slice_to_short entity.topic_name h) refl)
