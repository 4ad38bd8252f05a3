-- ===== src/Ros2Utils/KeyExpressions.antt =====
-- Names of ROS 2 interfaces and key expressions of zenoh: `ros2_name_to_key_expr` and
-- `key_expr_to_ros2_name` of zenoh-plugin-ros2dds/src/ros2_utils.rs. `none` is the panic of a slice, or
-- of the operator `/` of zenoh.
use zenoh_plugin_ros2dds.Base.{
  ℕ, ◌≡◌, refl, ◌≢◌, ◌⊎◌, inl, inr, Text, codes, true, false, Option, none, some, [], ◌∷◌, ◌++◌,
  length, drop, drop-append_left, starts_with, str_eq, is_continuation, is_char_boundary,
  slice_from, if◌then◌else◌, arith,
}
use zenoh_plugin_ros2dds.Externals.{KeyExprs, is_plain, IsJoin}

-- `str::strip_prefix`
unfoldable pub strip_prefix : Text → Text → Option Text
unfolding starts_with
strip_prefix s t = if starts_with s t then some (drop (length t) s) else none

-- The field of the configuration that names are read with.
pub record Config : Type 0 where
  pub namespace : Text

module _ ⦃k : KeyExprs⦄ where
  unfoldable pub ros2_name_to_key_expr : Text → Config → Option Text
  unfolding str_eq slice_from
  ros2_name_to_key_expr ros2_name config =
      if str_eq config.namespace (codes "/")
      then slice_from ros2_name 1
      else elim (slice_from config.namespace 1) [
        | none ↦ none
        | some prefix ↦ elim (slice_from ros2_name 1) [
          | none ↦ none
          | some name ↦
              if k.is_key_expr (k.join prefix name) then some (k.join prefix name) else none
        ]
      ]

unfoldable pub key_expr_to_ros2_name : Text → Config → Option Text
unfolding str_eq slice_from strip_prefix
key_expr_to_ros2_name key_expr config =
    if str_eq config.namespace (codes "/")
    then some (codes "/" ++ key_expr)
    else elim (slice_from config.namespace 1) [
      | none ↦ none
      | some prefix ↦ elim (strip_prefix key_expr prefix) [
        | some s ↦ some s
        | none ↦ some (codes "/" ++ key_expr)
      ]
    ]

-- A text that begins with a character, if it is not empty.
abbrev pub IsWhole : Text → Type 0
IsWhole [] = Unit
IsWhole (b ∷ s) = is_continuation b ≡ false

slice_from-slash : (b : ℕ) (s : Text) → IsWhole s → slice_from (b ∷ s) 1 ≡ some s
unfolding slice_from is_char_boundary
slice_from-slash b [] h = refl
slice_from-slash b (c ∷ s) h = ground arith

starts_with-append : (p s : Text) → starts_with (p ++ s) p ≡ true
unfolding starts_with
starts_with-append [] s = refl
starts_with-append (b ∷ p) s = ground (arith, starts_with-append p s)

strip_prefix-append : (p s : Text) → strip_prefix (p ++ s) p ≡ some s
unfolding strip_prefix
strip_prefix-append p s = rw (starts_with-append p s, drop-append_left p s) refl

-- The namespace is a slash alone, or a slash and a plain key expression.
abbrev pub IsNamespace : Config → Type 0
IsNamespace config =
    (config.namespace ≡ codes "/")
    ⊎ ((b : ℕ) × (p : Text) × (config.namespace ≡ codes "/" ++ b ∷ p)
        × (is_continuation b ≡ false)
        × (is_plain (b ∷ p) ≡ true))

-- A name and a key expression that the two conversions take to each other; zenoh accepts the latter.
abbrev pub Corresponds : ⦃k : KeyExprs⦄ → Config → Text → Text → Type 0
Corresponds ⦃k⦄ config name ke =
    (ros2_name_to_key_expr name config ≡ some ke)
    × (key_expr_to_ros2_name ke config ≡ some name)
    × (k.is_key_expr ke ≡ true)

module _ ⦃k : KeyExprs⦄ where
  at_root :
      (config : Config) (s : Text)
      → config.namespace ≡ codes "/"
      → IsWhole s
      → k.is_key_expr s ≡ true
      → Corresponds config (codes "/" ++ s) s
  unfolding ros2_name_to_key_expr key_expr_to_ros2_name
  at_root config s e h v = (rw (e, slice_from-slash 47 s h) refl, rw e refl, v)

  in_namespace :
      ⦃j : IsJoin k⦄ (config : Config) (b : ℕ) (p s : Text)
      → config.namespace ≡ codes "/" ++ b ∷ p
      → is_continuation b ≡ false
      → is_plain (b ∷ p) ≡ true
      → IsWhole s
      → k.is_key_expr s ≡ true
      → Corresponds config (codes "/" ++ s) (b ∷ p ++ (codes "/" ++ s))
  unfolding ros2_name_to_key_expr key_expr_to_ros2_name
  in_namespace ⦃j⦄ config b p s e w plain h v =
      let accepted = j.is_key_expr-join (b ∷ p) s plain v in
      (
        rw
            (
              e,
              slice_from-slash 47 (b ∷ p) w,
              slice_from-slash 47 s h,
              accepted,
              j.join_lem (b ∷ p) s plain,
            )
            refl,
        rw (e, slice_from-slash 47 (b ∷ p) w, strip_prefix-append (b ∷ p) (codes "/" ++ s)) refl,
        rw (j.join_lem (b ∷ p) s plain) at accepted,
      )

  -- With a namespace that is a slash, or a slash and a key expression without wildcards, each name that
  -- is a slash and a key expression has a key expression that zenoh accepts, from which
  -- `key_expr_to_ros2_name` gets the name back; for `/` of zenoh as documented.
  pub ros2_name-roundtrip :
      ⦃j : IsJoin k⦄ (config : Config) (s : Text)
      → IsNamespace config
      → IsWhole s
      → k.is_key_expr s ≡ true
      → (ke : Text) × Corresponds config (codes "/" ++ s) ke
  ros2_name-roundtrip config s (inl e) h v = (s, at_root config s e h v)
  ros2_name-roundtrip config s (inr (b, p, e, w, plain)) h v =
      (b ∷ p ++ (codes "/" ++ s), in_namespace config b p s e w plain h v)

  -- Under a namespace '/' and `b ∷ p`, a key expression that only begins with the characters of the
  -- namespace and goes on with another character than '/' is taken for one in the namespace: it is
  -- cut there, and the name that `key_expr_to_ros2_name` returns does not start with '/'.
  pub key_expr_to_ros2_name-cut :
      (config : Config) (b : ℕ) (p : Text) (d : ℕ) (s : Text)
      → config.namespace ≡ codes "/" ++ b ∷ p
      → is_continuation b ≡ false
      → d ≢ 47
      → (name : Text) × (key_expr_to_ros2_name (b ∷ p ++ d ∷ s) config ≡ some name)
        × (starts_with name (codes "/") ≡ false)
  unfolding key_expr_to_ros2_name starts_with
  key_expr_to_ros2_name-cut config b p d s e w n = (
    d ∷ s,
    rw (e, slice_from-slash 47 (b ∷ p) w, strip_prefix-append (b ∷ p) (d ∷ s)) refl,
    ground arith,
  )
