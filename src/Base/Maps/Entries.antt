-- ===== src/Base/Maps/Entries.antt =====
-- Predicates on the entries of a map, and writing a value that is there already.
use mathlib.Core.Path.{◌≡◌, refl, subst}
use mathlib.Core.Logic.{◌⊎◌, inl, inr}
use mathlib.Core.List.{[], ◌∷◌}
use mathlib.Core.Option.{none, some}
use native.Mathlib.Omega.{arith}
use zenoh_plugin_ros2dds.Base.Tests.{Bool-cases}
use zenoh_plugin_ros2dds.Base.Texts.{Text, str_eq, str_eq_refl, eq_of_str_eq}
use zenoh_plugin_ros2dds.Base.Maps.{Map, lookup, insert, remove, lookup-insert, lookup-remove}

-- Every entry satisfies `P`.
abbrev pub Entries {ℓ κ} : {V : Type ℓ} → (Text → V → Type κ) → Map V → Type κ
Entries P [] = Unit
Entries P ((k, v) ∷ m) = P k v × Entries P m

module _ {ℓ} {V : Type ℓ} where
  pub lookup-insert_self : (k : Text) (v : V) (m : Map V) → lookup k (insert k v m) ≡ some v
  lookup-insert_self k v m = rw (lookup-insert k k v m, str_eq_refl k)

  pub insert_of_lookup : (k : Text) (v : V) (m : Map V) → lookup k m ≡ some v → insert k v m ≡ m
  unfolding lookup insert
  insert_of_lookup k v [] h = cc
  insert_of_lookup k v ((j, w) ∷ m) h = ground (arith, eq_of_str_eq j k, insert_of_lookup k v m)

  pub insert-insert_self :
      (k : Text) (v w : V) (m : Map V) → insert k v (insert k w m) ≡ insert k v m
  unfolding insert
  insert-insert_self k v w [] = rw (str_eq_refl k)
  insert-insert_self k v w ((j, u) ∷ m) = ground (arith, str_eq_refl k, insert-insert_self k v w m)

  pub Entries-lookup {κ} :
      (P : Text → V → Type κ) (k : Text) (v : V) (m : Map V)
      → Entries P m
      → lookup k m ≡ some v
      → P k v
  unfolding lookup
  Entries-lookup P k v [] h e = cc
  Entries-lookup P k v ((j, w) ∷ m) h e = elim (Bool-cases (str_eq j k)) [
    | inl same ↦
        let here : some w ≡ some v = rw same at e in
        let held : w ≡ v = cc in
        subst (λ (u : V). P k u) held (subst (λ (i : Text). P i w) (eq_of_str_eq j k same) h.0)
    | inr other ↦ Entries-lookup P k v m h.1 (rw other at e)
  ]

  pub Entries-insert {κ} :
      (P : Text → V → Type κ) (k : Text) (v : V) (m : Map V)
      → P k v
      → Entries P m
      → Entries P (insert k v m)
  unfolding insert
  Entries-insert P k v [] p h = (p, tt)
  Entries-insert P k v ((j, w) ∷ m) p h = elim (Bool-cases (str_eq j k)) [
    | inl same ↦ rw same (p, h.1)
    | inr other ↦ rw other (h.0, Entries-insert P k v m p h.1)
  ]

  pub Entries-remove {κ} :
      (P : Text → V → Type κ) (k : Text) (m : Map V) → Entries P m → Entries P (remove k m)
  unfolding remove
  Entries-remove P k [] h = tt
  Entries-remove P k ((j, w) ∷ m) h = elim (Bool-cases (str_eq j k)) [
    | inl same ↦ rw same (Entries-remove P k m h.1)
    | inr other ↦ rw other (h.0, Entries-remove P k m h.1)
  ]

-- The keys of a `HashMap` are distinct.
abbrev pub Distinct {ℓ} : {V : Type ℓ} → Map V → Type ℓ
Distinct [] = Unit
Distinct ((k, v) ∷ m) = (lookup k m ≡ none) × Distinct m

-- A map with distinct keys, whose entries satisfy `P`.
abbrev pub Table {ℓ} : {V : Type ℓ} → (Text → V → Type 0) → Map V → Type ℓ
Table P m = Distinct m × Entries P m

module _ {ℓ} {V : Type ℓ} where
  pub insert-Distinct : (k : Text) (v : V) (m : Map V) → Distinct m → Distinct (insert k v m)
  unfolding insert lookup
  insert-Distinct k v [] h = (refl, tt)
  insert-Distinct k v ((j, w) ∷ m) h = ground (
    arith,
    eq_of_str_eq j k,
    str_eq_refl j,
    insert-Distinct k v m,
    lookup-insert k j v m,
    eq_of_str_eq k j,
  )

  pub remove-Distinct : (k : Text) (m : Map V) → Distinct m → Distinct (remove k m)
  unfolding remove lookup
  remove-Distinct k [] h = tt
  remove-Distinct k ((j, w) ∷ m) h =
      ground (arith, eq_of_str_eq k j, remove-Distinct k m, lookup-remove k j m)

  pub Table-insert :
      (P : Text → V → Type 0) (k : Text) (v : V) (m : Map V)
      → P k v
      → Table P m
      → Table P (insert k v m)
  Table-insert P k v m p h = (insert-Distinct k v m h.0, Entries-insert P k v m p h.1)

  pub Table-remove :
      (P : Text → V → Type 0) (k : Text) (m : Map V) → Table P m → Table P (remove k m)
  Table-remove P k m h = (remove-Distinct k m h.0, Entries-remove P k m h.1)

  pub Entries-imp {κ μ} :
      (P : Text → V → Type κ) (Q : Text → V → Type μ) (m : Map V)
      → ((k : Text) (v : V) → P k v → Q k v)
      → Entries P m
      → Entries Q m
  Entries-imp P Q [] f h = tt
  Entries-imp P Q ((k, v) ∷ m) f h = (f k v h.0, Entries-imp P Q m f h.1)

  pub lookup-remove_self : (k : Text) (m : Map V) → lookup k (remove k m) ≡ none
  lookup-remove_self k m = rw (lookup-remove k k m, str_eq_refl k)

  -- The entries of the key that goes need not satisfy the predicate.
  pub Entries-remove_one {κ} :
      (P : Text → V → Type κ) (k : Text) (m : Map V)
      → Entries (λ j u. (j ≡ k) ⊎ P j u) m
      → Entries P (remove k m)
  unfolding remove
  Entries-remove_one P k [] h = tt
  Entries-remove_one P k ((j, w) ∷ m) (inl same, h) =
      rw (same, str_eq_refl k) (Entries-remove_one P k m h)
  Entries-remove_one P k ((j, w) ∷ m) (inr p, h) = elim (Bool-cases (str_eq j k)) [
    | inl same ↦ rw same (Entries-remove_one P k m h)
    | inr other ↦ rw other (p, Entries-remove_one P k m h)
  ]
