-- ===== src/Liveliness/Examples.antt =====
-- Formats that put slashes between the fields, and a service's token.
use zenoh_plugin_ros2dds.Base.{
  any, ℕ, ◌==◌, ◌≡◌, refl, Text, codes, true, false, Option, none, some, [], ◌∷◌, ◌++◌, ◌⊎◌, inl,
  inr, if◌then◌else◌, arith,
}
use zenoh_plugin_ros2dds.Externals.{Externals}
use zenoh_plugin_ros2dds.Liveliness.{
  Formatter, LivelinessFormats, replace_slashes, new_ke_liveliness_service_srv,
  parse_ke_liveliness_service_srv, new_ke_liveliness_service_cli, parse_ke_liveliness_service_cli,
  new_ke_liveliness_action_srv, parse_ke_liveliness_action_srv, new_ke_liveliness_action_cli,
  parse_ke_liveliness_action_cli,
}
use zenoh_plugin_ros2dds.Liveliness.Slashes.{has_slash}
use zenoh_plugin_ros2dds.Liveliness.Tokens.{IsFormatter, IsFormats, GetsBack, liveliness-roundtrip}

instance abbrev pub all_key_exprs : Externals
all_key_exprs = record { hex_encode = λ s. s; is_key_expr = λ s. true }

with_first : ℕ → Option (Text × Text) → Option (Text × Text)
with_first a none = none
with_first a (some (p, r)) = some (a ∷ p, r)

-- A text's part before its first slash, and the one after it.
cut : Text → Option (Text × Text)
cut [] = none
cut (a ∷ s) = if a == 47 then some ([], s) else with_first a (cut s)

cut-append : (p s : Text) → has_slash p ≡ false → cut (p ++ 47 ∷ s) ≡ some (p, s)
unfolding cut with_first
cut-append [] s h = refl
cut-append (a ∷ p) s h =
    let tail = cut-append p s (ground (arith, h)) in
    let other : (a == 47) ≡ false = ground (arith, h) in rw (other, tail) refl

cut_rest : Text → Option (Text × Text) → Text ⊎ (Text × Text × Text)
cut_rest z none = inl (codes "no slash")
cut_rest z (some (k, t)) = inr (z, k, t)

cut_twice : Option (Text × Text) → Text ⊎ (Text × Text × Text)
unfolding cut cut_rest
cut_twice none = inl (codes "no slash")
cut_twice (some (z, r)) = cut_rest z (cut r)

abbrev with_slashes : Formatter
unfolding cut cut_twice
with_slashes = record {
  format = λ z k t. inr (z ++ 47 ∷ (k ++ 47 ∷ t));
  parse = λ ke. cut_twice (cut ke);
}

with_slashes-IsFormatter : IsFormatter all_key_exprs with_slashes
unfolding cut_twice cut_rest with_slashes
with_slashes-IsFormatter = record {
  parse-format = λ z k t i j h. (
    z ++ 47 ∷ (k ++ 47 ∷ t),
    refl,
    rw (cut-append z (k ++ 47 ∷ t) i.0) (rw (cut-append k t j.0) refl),
  );
}

instance abbrev formats : LivelinessFormats
formats = record {
  service_srv = with_slashes;
  service_cli = with_slashes;
  action_srv = with_slashes;
  action_cli = with_slashes;
}

formats-IsFormats : IsFormats all_key_exprs formats
formats-IsFormats = record {
  service_srv_lem = with_slashes-IsFormatter;
  service_cli_lem = with_slashes-IsFormatter;
  action_srv_lem = with_slashes-IsFormatter;
  action_cli_lem = with_slashes-IsFormatter;
}

abbrev service_name : Text
service_name = codes "robot/add"

abbrev service_type : Text
service_type = codes "pkg/srv/Add"

liveliness-roundtrip_example :
    GetsBack new_ke_liveliness_service_srv parse_ke_liveliness_service_srv
      (codes "a1")
      service_name
      service_type
    × GetsBack new_ke_liveliness_service_cli parse_ke_liveliness_service_cli
        (codes "a1")
        service_name
        service_type
    × GetsBack new_ke_liveliness_action_srv parse_ke_liveliness_action_srv
        (codes "a1")
        service_name
        service_type
    × GetsBack new_ke_liveliness_action_cli parse_ke_liveliness_action_cli
        (codes "a1")
        service_name
        service_type
unfolding replace_slashes any
liveliness-roundtrip_example =
    liveliness-roundtrip (codes "a1") service_name service_type formats-IsFormats
      (refl, refl, refl, refl) (refl, refl, refl, refl, refl) (refl, refl, refl, refl, refl)
