-- ===== src/Liveliness/Tokens.antt =====
-- The tokens of services and actions, and what their parsers get back.
use zenoh_plugin_ros2dds.Base.{
  ◌≡◌, ◌==◌, refl, Text, Bool, any, [], ◌∷◌, arith, true, false, some, ◌⊎◌, inr, Option,
}
use zenoh_plugin_ros2dds.Externals.{Externals}
use zenoh_plugin_ros2dds.Liveliness.{
  Formatter, LivelinessFormats, replace_slashes, escape_slashes, unescape_slashes, key_expr_of,
  new_token, parse_token, new_ke_liveliness_service_srv, parse_ke_liveliness_service_srv,
  new_ke_liveliness_service_cli, parse_ke_liveliness_service_cli, new_ke_liveliness_action_srv,
  parse_ke_liveliness_action_srv, new_ke_liveliness_action_cli, parse_ke_liveliness_action_cli,
}
use zenoh_plugin_ros2dds.Liveliness.Slashes.{
  has_slash, has_mark, replace_slashes-no_slash, replace_marks-replace_slashes,
}

-- Whether a text has a '*' in it, or begins with '@' as a verbatim chunk does.
abbrev pub has_wildcard : Text → Bool
has_wildcard s = any (λ b. b == 42) s

abbrev pub is_verbatim : Text → Bool
is_verbatim [] = false
is_verbatim (b ∷ s) = b == 64

-- A chunk that the pattern `*` includes: a key expression without a slash that has no wildcard and is
-- not verbatim.
abbrev pub IsChunk : Externals → Text → Type 0
IsChunk x s =
    (has_slash s ≡ false)
    × (x.is_key_expr s ≡ true)
    × (has_wildcard s ≡ false)
    × (is_verbatim s ≡ false)

-- zenoh documents that a format accepts the values that the patterns of its fields include, here `*`,
-- and that its parser gets them back.
pub record IsFormatter (x : Externals) (f : Formatter) : Type 0 where
  pub parse-format :
      (z k t : Text)
      → IsChunk x z
      → IsChunk x k
      → IsChunk x t
      → (ke : Text) × (f.format z k t ≡ inr ke) × (f.parse ke ≡ inr (z, k, t))

pub record IsFormats (x : Externals) (l : LivelinessFormats) : Type 0 where
  pub service_srv_lem : IsFormatter x l.service_srv
  pub service_cli_lem : IsFormatter x l.service_cli
  pub action_srv_lem : IsFormatter x l.action_srv
  pub action_cli_lem : IsFormatter x l.action_cli

-- A text without § and '*' that does not begin with '@', which zenoh accepts for a key expression as it
-- is and escaped.
abbrev pub IsField : Externals → Text → Type 0
IsField x s =
    (has_mark s ≡ false)
    × (x.is_key_expr s ≡ true)
    × (x.is_key_expr (replace_slashes s) ≡ true)
    × (has_wildcard s ≡ false)
    × (is_verbatim s ≡ false)

replace_slashes-wildcard :
    (s : Text) → has_wildcard s ≡ false → has_wildcard (replace_slashes s) ≡ false
unfolding replace_slashes any
replace_slashes-wildcard [] h = refl
replace_slashes-wildcard (a ∷ s) h = ground (arith, replace_slashes-wildcard s)

replace_slashes-verbatim :
    (s : Text) → is_verbatim s ≡ false → is_verbatim (replace_slashes s) ≡ false
unfolding replace_slashes
replace_slashes-verbatim [] h = refl
replace_slashes-verbatim (a ∷ s) h = ground arith

module _ ⦃x : Externals⦄ where
  escape_field : (s : Text) → IsField x s → escape_slashes s ≡ some (replace_slashes s)
  unfolding escape_slashes key_expr_of
  escape_field s (m, v, e, _, _) = rw e refl

  unescape_field : (s : Text) → IsField x s → unescape_slashes (replace_slashes s) ≡ some s
  unfolding unescape_slashes key_expr_of
  unescape_field s (m, v, e, _, _) = rw (replace_marks-replace_slashes s m, v) refl

  escaped-IsChunk : (s : Text) → IsField x s → IsChunk x (replace_slashes s)
  escaped-IsChunk s (m, v, e, w, at) =
      (replace_slashes-no_slash s, e, replace_slashes-wildcard s w, replace_slashes-verbatim s at)

  -- A token that is made and parsed gives back what it was made of.
  abbrev pub GetsBack :
      (Text → Text → Text → Option (Text ⊎ Text))
      → (Text → Option (Text ⊎ (Text × Text × Text)))
      → Text
      → Text
      → Text
      → Type 0
  GetsBack make parse z s t =
      (ke : Text) × (make z s t ≡ some (inr ke)) × (parse ke ≡ some (inr (z, s, t)))

  token-GetsBack :
      (f : Formatter) (z s t : Text)
      → IsFormatter x f
      → IsChunk x z
      → IsField x s
      → IsField x t
      → GetsBack (new_token f) (parse_token f) z s t
  token-GetsBack f z s t h c i j =
      let (ke, made, parsed) =
        h.parse-format z (replace_slashes s) (replace_slashes t) c (escaped-IsChunk s i)
          (escaped-IsChunk t j) in
      (
        ke,
        rw (escape_field s i, escape_field t j, made) refl,
        rw (parsed, unescape_field s i, unescape_field t j) refl,
      )

  -- For a chunk without wildcards as zenoh's id, and a key expression and a type without § and '*' that do
  -- not begin with '@' and that zenoh accepts as they are and escaped, each of the four constructors of
  -- tokens of service and action routes makes a token, from which its parser gets the id, the key
  -- expression and the type back, if zenoh's formatters and parsers are as documented.
  pub liveliness-roundtrip :
      ⦃l : LivelinessFormats⦄ (z s t : Text)
      → IsFormats x l
      → IsChunk x z
      → IsField x s
      → IsField x t
      → GetsBack new_ke_liveliness_service_srv parse_ke_liveliness_service_srv z s t
        × GetsBack new_ke_liveliness_service_cli parse_ke_liveliness_service_cli z s t
        × GetsBack new_ke_liveliness_action_srv parse_ke_liveliness_action_srv z s t
        × GetsBack new_ke_liveliness_action_cli parse_ke_liveliness_action_cli z s t
  unfolding new_ke_liveliness_service_srv parse_ke_liveliness_service_srv
      new_ke_liveliness_service_cli parse_ke_liveliness_service_cli new_ke_liveliness_action_srv
      parse_ke_liveliness_action_srv new_ke_liveliness_action_cli parse_ke_liveliness_action_cli
  liveliness-roundtrip ⦃l⦄ z s t h c i j = (
    token-GetsBack l.service_srv z s t h.service_srv_lem c i j,
    token-GetsBack l.service_cli z s t h.service_cli_lem c i j,
    token-GetsBack l.action_srv z s t h.action_srv_lem c i j,
    token-GetsBack l.action_cli z s t h.action_cli_lem c i j,
  )
