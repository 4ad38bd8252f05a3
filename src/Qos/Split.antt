-- ===== src/Qos/Split.antt =====
-- The groups of writers that `split_mixed_durability` makes.
use zenoh_plugin_ros2dds.Base.{
  ◌≡◌, refl, ap, subst, ◌⊎◌, inl, inr, ◌≢◌, Bool, true, false, Bool-cases, Option, none, some, List,
  [], ◌∷◌, filter, All, is_empty,
}
use zenoh_plugin_ros2dds.Qos.{Qos, is_transient_local, partition}
use zenoh_plugin_ros2dds.Qos.Routes.{eq_bool, split_mixed_durability}

module _ {A : Type 0} (p : A → Bool) where
  pub partition-filter :
      (xs : List A)
      → partition p xs ≡ (filter (λ x. eq_bool (p x) true) xs, filter (λ x. eq_bool (p x) false) xs)
  unfolding filter
  partition-filter [] = refl
  partition-filter (x ∷ xs) = elim (Bool-cases (p x)) [
    | inl passes ↦ rw (passes, partition-filter xs) refl
    | inr other ↦ rw (other, partition-filter xs) refl
  ]

  pub partition-All :
      (xs : List A)
      → All (λ x. p x ≡ true) (partition p xs).0 × All (λ x. p x ≡ false) (partition p xs).1
  partition-All [] = (tt, tt)
  partition-All (x ∷ xs) = elim (Bool-cases (p x)) [
    | inl passes ↦ rw passes ((passes, (partition-All xs).0), (partition-All xs).1)
    | inr other ↦ rw other ((partition-All xs).0, (other, (partition-All xs).1))
  ]

  -- What holds of both groups holds of the list.
  pub All-of_partition :
      (Q : A → Type 0) (xs : List A)
      → All Q (partition p xs).0
      → All Q (partition p xs).1
      → All Q xs
  All-of_partition Q [] h k = tt
  All-of_partition Q (x ∷ xs) h k = elim (Bool-cases (p x)) [
    | inl passes ↦
        let h' : All Q (x ∷ (partition p xs).0) = (rw passes at h) in
        (h'.0, All-of_partition Q xs h'.1 (rw passes at k))
    | inr other ↦
        let k' : All Q (x ∷ (partition p xs).1) = (rw other at k) in
        (k'.0, All-of_partition Q xs (rw other at h) k'.1)
  ]

  pub partition_none : (xs : List A) → is_empty (partition p xs).0 ≡ true → (partition p xs).1 ≡ xs
  partition_none [] h = refl
  partition_none (x ∷ xs) h = elim (Bool-cases (p x)) [
    | inl passes ↦ let k : false ≡ true = (rw passes at h) in cc
    | inr other ↦ rw (other, partition_none xs (rw other at h)) refl
  ]

  pub partition_all : (xs : List A) → is_empty (partition p xs).1 ≡ true → (partition p xs).0 ≡ xs
  partition_all [] h = refl
  partition_all (x ∷ xs) h = elim (Bool-cases (p x)) [
    | inl passes ↦ rw (passes, partition_all xs (rw passes at h)) refl
    | inr other ↦ let k : false ≡ true = (rw other at h) in cc
  ]

-- The writers of one durability, or two groups.
abbrev pub IsSplit : {P : Type 0} → List (Qos P) → Option (List (Qos P) × List (Qos P)) → Type 0
IsSplit ws none =
    All (λ w. is_transient_local w ≡ true) ws ⊎ All (λ w. is_transient_local w ≡ false) ws
IsSplit ws (some (tl, others)) =
    (tl ≢ [])
    × (others ≢ [])
    × All (λ w. is_transient_local w ≡ true) tl
    × All (λ w. is_transient_local w ≡ false) others
    × (tl ≡ filter (λ w. eq_bool (is_transient_local w) true) ws)
    × (others ≡ filter (λ w. eq_bool (is_transient_local w) false) ws)

not_empty : {A : Type 0} (xs : List A) → is_empty xs ≡ false → xs ≢ []
not_empty [] h = cc
not_empty (x ∷ xs) h = λ e. cc

-- `split_mixed_durability` makes no split when all writers offer transient local durability or none does;
-- else it returns two groups, neither empty, the transient local and the other writers, in their order.
pub split_mixed_durability-IsSplit :
    {P : Type 0} (writers : List (Qos P)) → IsSplit writers (split_mixed_durability writers)
unfolding split_mixed_durability
split_mixed_durability-IsSplit {P} ws =
    let p = is_transient_local in
    let groups = partition-All p ws in
    let same = partition-filter p ws in
    elim (Bool-cases (is_empty (partition p ws).0)) [
      | inl no_tl ↦ rw no_tl (
          inr (
            subst (λ (xs : List (Qos P)). All (λ w. p w ≡ false) xs) (partition_none p ws no_tl)
              groups.1))
      | inr tl ↦ elim (Bool-cases (is_empty (partition p ws).1)) [
        | inl only_tl ↦
            rw (tl, only_tl)
              (inl (
                subst (λ (xs : List (Qos P)). All (λ w. p w ≡ true) xs) (partition_all p ws only_tl)
                  groups.0))
        | inr both ↦
            rw (tl, both)
              (
                not_empty (partition p ws).0 tl,
                not_empty (partition p ws).1 both,
                groups.0,
                groups.1,
                ap (λ (g : List (Qos P) × List (Qos P)). g.0) same,
                ap (λ (g : List (Qos P) × List (Qos P)). g.1) same,
              )
      ]
    ]
