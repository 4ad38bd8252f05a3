-- ===== src/Liveliness.antt =====
-- Liveliness tokens of service and action routes: zenoh-plugin-ros2dds/src/liveliness_mgt.rs. A result
-- `none` is the panic of an `unwrap`, `inl` an error and its message. Not here: the tokens of publishers and
-- subscribers, which hold QoS as well.
pub mod Slashes
pub mod Tokens
pub mod Examples
use zenoh_plugin_ros2dds.Base.{
  ℕ, ◌==◌, ◌&&◌, ◌⊎◌, inl, inr, Text, codes, Bool, true, false, Option, none, some, [], ◌∷◌, ◌++◌,
  if◌then◌else◌,
}
use zenoh_plugin_ros2dds.Externals.{Externals}
use zenoh_plugin_ros2dds.Node.Dispatch.{◌>>=◌}

-- A formatter of `kedefine!` of zenoh, with its parser, for the three fields `zenoh_id`, `ke` and `typ`.
pub record Formatter : Type 0 where
  pub format : Text → Text → Text → Text ⊎ Text
  pub parse : Text → Text ⊎ (Text × Text × Text)

-- The formats that `kedefine!` makes for these tokens.
pub record LivelinessFormats : Type 0 where
  pub service_srv : Formatter
  pub service_cli : Formatter
  pub action_srv : Formatter
  pub action_cli : Formatter

-- `s.replace('/', SLASH_REPLACEMSNT_CHAR)`: the character § has the bytes 194 and 167.
unfoldable pub replace_slashes : Text → Text
replace_slashes [] = []
replace_slashes (a ∷ s) =
    let rest = replace_slashes s in if a == 47 then 194 ∷ 167 ∷ rest else a ∷ rest

-- `ke.as_str().replace(SLASH_REPLACEMSNT_CHAR, "/")`
unfoldable pub replace_marks : Text → Text
replace_marks [] = []
replace_marks (a ∷ []) = a ∷ []
replace_marks (a ∷ b ∷ s) = elim ((a == 194) && (b == 167)) [
  | true ↦ 47 ∷ replace_marks s
  | false ↦ a ∷ replace_marks (b ∷ s)
]

-- `OwnedKeyExpr::try_from(s).unwrap()`
unfoldable pub key_expr_of : ⦃x : Externals⦄ → Text → Option Text
key_expr_of ⦃x⦄ s = if x.is_key_expr s then some s else none

module _ ⦃x : Externals⦄ where
  unfoldable pub escape_slashes : Text → Option Text
  unfolding replace_slashes key_expr_of
  escape_slashes s = key_expr_of (replace_slashes s)

  unfoldable pub unescape_slashes : Text → Option Text
  unfolding replace_marks key_expr_of
  unescape_slashes ke = key_expr_of (replace_marks ke)

  -- What the constructors of tokens without QoS do, with their formatter.
  -- What the constructors of tokens without QoS do, with their formatter.
  abbrev new_token : Formatter → Text → Text → Text → Option (Text ⊎ Text)
  new_token f zenoh_id zenoh_key_expr ros2_type = do
    ke ← escape_slashes zenoh_key_expr
    typ ← escape_slashes ros2_type
    some (f.format zenoh_id ke typ)

  abbrev parsed_fields : Text → Text ⊎ (Text × Text × Text) → Option (Text ⊎ (Text × Text × Text))
  parsed_fields ke (inl e) =
      some (inl (codes "failed to parse liveliness keyexpr " ++ (ke ++ (codes ": " ++ e))))
  parsed_fields ke (inr (zenoh_id, k, t)) = do
    zenoh_key_expr ← unescape_slashes k
    ros2_type ← unescape_slashes t
    some (inr (zenoh_id, zenoh_key_expr, ros2_type))

  -- What the parsers of tokens without QoS do.
  abbrev parse_token : Formatter → Text → Option (Text ⊎ (Text × Text × Text))
  parse_token f ke = parsed_fields ke (f.parse ke)

  module _ ⦃l : LivelinessFormats⦄ where
    unfoldable pub new_ke_liveliness_service_srv : Text → Text → Text → Option (Text ⊎ Text)
    unfolding escape_slashes
    new_ke_liveliness_service_srv = new_token l.service_srv

    unfoldable pub parse_ke_liveliness_service_srv : Text → Option (Text ⊎ (Text × Text × Text))
    unfolding unescape_slashes
    parse_ke_liveliness_service_srv = parse_token l.service_srv

    unfoldable pub new_ke_liveliness_service_cli : Text → Text → Text → Option (Text ⊎ Text)
    unfolding escape_slashes
    new_ke_liveliness_service_cli = new_token l.service_cli

    unfoldable pub parse_ke_liveliness_service_cli : Text → Option (Text ⊎ (Text × Text × Text))
    unfolding unescape_slashes
    parse_ke_liveliness_service_cli = parse_token l.service_cli

    unfoldable pub new_ke_liveliness_action_srv : Text → Text → Text → Option (Text ⊎ Text)
    unfolding escape_slashes
    new_ke_liveliness_action_srv = new_token l.action_srv

    unfoldable pub parse_ke_liveliness_action_srv : Text → Option (Text ⊎ (Text × Text × Text))
    unfolding unescape_slashes
    parse_ke_liveliness_action_srv = parse_token l.action_srv

    unfoldable pub new_ke_liveliness_action_cli : Text → Text → Text → Option (Text ⊎ Text)
    unfolding escape_slashes
    new_ke_liveliness_action_cli = new_token l.action_cli

    unfoldable pub parse_ke_liveliness_action_cli : Text → Option (Text ⊎ (Text × Text × Text))
    unfolding unescape_slashes
    parse_ke_liveliness_action_cli = parse_token l.action_cli
