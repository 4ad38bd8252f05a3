-- ===== src/Base/Maps.antt =====
-- `HashMap` with a text or a byte array for its key, as a list of entries. The order of the list is
-- the unspecified order in which the map is iterated.
pub mod Entries
use mathlib.Core.Path.{◌≡◌, refl}
use mathlib.Core.List.{List, [], ◌∷◌}
use mathlib.Core.Option.{Option, none, some}
use native.Mathlib.Omega.{arith}
use zenoh_plugin_ros2dds.Base.Tests.{if◌then◌else◌}
use zenoh_plugin_ros2dds.Base.Texts.{Text, str_eq, str_eq_refl, eq_of_str_eq}

abbrev pub Map {ℓ} : Type ℓ → Type ℓ
Map V = List (Text × V)

module _ {ℓ} {V : Type ℓ} where
  unfoldable pub lookup : Text → Map V → Option V
  lookup k [] = none
  lookup k ((j, v) ∷ m) = if str_eq j k then some v else lookup k m

  -- The entry of an old key keeps its place.
  unfoldable pub insert : Text → V → Map V → Map V
  insert k v [] = (k, v) ∷ []
  insert k v ((j, w) ∷ m) = if str_eq j k then (k, v) ∷ m else (j, w) ∷ insert k v m

  unfoldable pub remove : Text → Map V → Map V
  remove k [] = []
  remove k ((j, w) ∷ m) = let rest = remove k m in if str_eq j k then rest else (j, w) ∷ rest

  abbrev pub values : Map V → List V
  values [] = []
  values ((k, v) ∷ m) = v ∷ values m

  pub lookup-insert :
      (k j : Text) (v : V) (m : Map V)
      → lookup j (insert k v m) ≡ (if str_eq k j then some v else lookup j m)
  unfolding lookup insert
  lookup-insert k j v [] = refl
  lookup-insert k j v ((i, w) ∷ m) = ground (
    arith,
    eq_of_str_eq k j,
    eq_of_str_eq i k,
    eq_of_str_eq i j,
    str_eq_refl j,
    str_eq_refl k,
    lookup-insert k j v m,
  )

  pub lookup-remove :
      (k j : Text) (m : Map V) → lookup j (remove k m) ≡ (if str_eq k j then none else lookup j m)
  unfolding lookup remove
  lookup-remove k j [] = ground arith
  lookup-remove k j ((i, w) ∷ m) = ground (
    arith,
    eq_of_str_eq k j,
    eq_of_str_eq i k,
    eq_of_str_eq i j,
    str_eq_refl j,
    str_eq_refl k,
    lookup-remove k j m,
  )
