-- ===== src/Gid.antt =====
-- zenoh-plugin-ros2dds/src/gid.rs: the 16 bytes that identify a DDS entity or participant.
use zenoh_plugin_ros2dds.Base.{Text, codes, replicate, str_eq, if◌then◌else◌}
use zenoh_plugin_ros2dds.Externals.{Externals}

abbrev pub Gid : Type 0
Gid = Text

abbrev pub not_discovered : Gid
not_discovered = replicate 16 0

-- `Debug::fmt`, which `Display::fmt` and so `to_string` call.
unfoldable pub gid_to_string : ⦃x : Externals⦄ → Gid → Text
gid_to_string ⦃x⦄ g = if str_eq g not_discovered then codes "NOT_DISCOVERED" else x.hex_encode g
