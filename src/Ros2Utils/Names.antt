-- ===== src/Ros2Utils/Names.antt =====
-- What `check_ros_name` tells two names apart by.
use zenoh_plugin_ros2dds.Base.{◌≡◌, refl, Text, codes, ◌++◌}
use zenoh_plugin_ros2dds.Externals.{Externals}
use zenoh_plugin_ros2dds.Ros2Utils.{check_ros_name}

-- Whatever key expressions zenoh accepts, `check_ros_name` gives any two names that start with '/' the
-- same answer: it does not look at the rest of a name.
pub check_ros_name-slash :
    ⦃x : Externals⦄ (a b : Text) → check_ros_name (codes "/" ++ a) ≡ check_ros_name (codes "/" ++ b)
unfolding check_ros_name
check_ros_name-slash a b = refl
