-- ===== src/Externals.antt =====
-- What the program takes from other crates, as parameters of the definitions that use it.
use zenoh_plugin_ros2dds.Base.{
  Bool, true, false, not, ◌&&◌, ◌||◌, ◌==◌, if◌then◌else◌, Text, codes, [], ◌∷◌, ◌≡◌, ◌++◌,
}

pub record Externals : Type 0 where
  -- `hex::encode`
  pub hex_encode : Text → Text
  -- whether `zenoh::key_expr::KeyExpr::try_from` accepts a text
  pub is_key_expr : Text → Bool

-- The key expressions of zenoh: which texts are one, and the operator `/`, which panics unless its
-- result `join` is one.
pub record KeyExprs : Type 0 where
  pub is_key_expr : Text → Bool
  pub join : Text → Text → Text

-- Whether a text is made of chunks, none of them empty, without a special character ('*', '$', '?', '#').
-- The first argument is whether a chunk was begun.
abbrev pub plain_from : Bool → Text → Bool
plain_from begun [] = begun
plain_from begun (b ∷ s) =
    let rest = plain_from (not (b == 47)) s in
    (if b == 47 then begun else not (b == 42 || b == 36 || b == 63 || b == 35)) && rest

-- A key expression without wildcards.
abbrev pub is_plain : Text → Bool
is_plain s = plain_from false s

-- zenoh documents `/` after a plain key expression as the two with a slash between them, and that is
-- a key expression if the second is one. Where it panics, the value of `join` is not used.
pub record IsJoin (k : KeyExprs) : Type 0 where
  pub join_lem : (a b : Text) → is_plain a ≡ true → k.join a b ≡ a ++ (codes "/" ++ b)
  pub is_key_expr-join :
      (a b : Text) → is_plain a ≡ true → k.is_key_expr b ≡ true → k.is_key_expr (k.join a b) ≡ true
