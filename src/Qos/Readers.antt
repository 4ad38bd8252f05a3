-- ===== src/Qos/Readers.antt =====
-- The readers of the routes from DDS to zenoh, against the local writers that they are to match.
use zenoh_plugin_ros2dds.Base.{
  ◌≡◌, refl, sym, subst, ◌∙◌, ◌⊎◌, inl, inr, ℕ, ◌≤◌, ◌==◌, length, Bool, true, false, not, ◌&&◌,
  ◌||◌, Bool-cases, Option, none, some, List, [], ◌∷◌, filter, all, All, All-imp, all-iff-All,
  is_empty, arith,
}
use zenoh_plugin_ros2dds.Qos.{Qos, Cyclors, DefaultQos, is_reliable, is_transient_local, partition}
use zenoh_plugin_ros2dds.Qos.Routes.{
  eq_bool, split_mixed_durability, local_writers_disagree, reader_qos_for_local_writers,
  readers_qos_for_local_writers,
}
use zenoh_plugin_ros2dds.Qos.Split.{
  partition-filter, partition-All, All-of_partition, partition_none, partition_all,
}

module _ {A : Type 0} (p : A → Bool) where
  length-filter : (xs : List A) → length (filter p xs) ≤ length xs
  unfolding filter
  length-filter [] = omega arith
  length-filter (x ∷ xs) = ground (arith, length-filter xs)

  all_of_length :
      (xs : List A)
      → length (filter p xs) ≡ length xs
      → (all p xs ≡ true) × All (λ x. p x ≡ true) xs
  unfolding filter all
  all_of_length [] h = (refl, tt)
  all_of_length (x ∷ xs) h = elim (Bool-cases (p x)) [
    | inl passes ↦
        let (each, every) = all_of_length xs (ground arith) in (ground arith, (passes, every))
    | inr other ↦ let le = length-filter xs in ground arith
  ]

  none_of_length : (xs : List A) → length (filter p xs) ≡ 0 → All (λ x. p x ≡ false) xs
  unfolding filter
  none_of_length [] h = tt
  none_of_length (x ∷ xs) h = elim (Bool-cases (p x)) [
    | inl passes ↦ ground arith
    | inr other ↦ (other, none_of_length xs (rw other at h))
  ]

  all-false : (xs : List A) → All (λ x. p x ≡ false) xs → (not (is_empty xs) && all p xs) ≡ false
  unfolding all
  all-false [] h = refl
  all-false (x ∷ xs) h = let head = h.0 in ground arith

  -- The test is passed by all members or by none.
  uniform_lem :
      (xs : List A)
      → (not (length (filter p xs) == 0) && not (length (filter p xs) == length xs)) ≡ false
      → All (λ x. p x ≡ (not (is_empty xs) && all p xs)) xs
  uniform_lem [] h = tt
  uniform_lem (x ∷ xs) h = elim (Bool-cases (length (filter p (x ∷ xs)) == 0)) [
    | inl nobody ↦
        let each = none_of_length (x ∷ xs) (ground arith) in
        All-imp (x ∷ xs) (λ y e. e ∙ sym (all-false (x ∷ xs) each)) each
    | inr somebody ↦
        let (every, each) = all_of_length (x ∷ xs) (ground arith) in
        All-imp (x ∷ xs) (λ y e. e ∙ sym every) each
  ]

  uniform_of_same :
      (b : Bool) (xs : List A)
      → All (λ x. p x ≡ b) xs
      → All (λ x. p x ≡ (not (is_empty xs) && all p xs)) xs
  uniform_of_same b [] h = tt
  uniform_of_same false (x ∷ xs) h = All-imp (x ∷ xs) (λ y e. e ∙ sym (all-false (x ∷ xs) h)) h
  uniform_of_same true (x ∷ xs) h =
      All-imp (x ∷ xs) (λ y e. e ∙ sym ((all-iff-All p (x ∷ xs)).1 h)) h

pub All-both :
    {A : Type 0} (P Q : A → Type 0) (xs : List A) → All P xs → All Q xs → All (λ x. P x × Q x) xs
All-both P Q [] h k = tt
All-both P Q (x ∷ xs) h k = ((h.0, k.0), All-both P Q xs h.1 k.1)

-- DDS matches a reader and a writer only if the writer offers the reliability and the durability that
-- the reader requests.
abbrev pub accepts : {P : Type 0} → Qos P → Qos P → Bool
accepts r w =
    (not (is_reliable r) || is_reliable w) && (not (is_transient_local r) || is_transient_local w)

-- The reader requests what the writer offers, no less.
abbrev pub serves : {P : Type 0} → Qos P → Qos P → Bool
serves r w =
    eq_bool (is_reliable r) (is_reliable w) && eq_bool (is_transient_local r) (is_transient_local w)

-- No other policy that DDS compares can turn a writer away.
abbrev pub IsPermissive : {P : Type 0} ⦃c : Cyclors⦄ → Qos P → Type 0
IsPermissive ⦃c⦄ r =
    (r.deadline ≡ none)
    × (r.liveliness ≡ none)
    × (r.latency_budget ≡ some c.dds_infinite_time)
    × (r.data_representation ≡ none)
    × (r.destination_order ≡ none)
    × (r.presentation ≡ none)

module _ {P : Type 0} ⦃c : Cyclors⦄ ⦃d : DefaultQos P⦄ (fallback : Qos P) (m : ℕ) where
  abbrev reader : List (Qos P) → Qos P
  reader ws = reader_qos_for_local_writers ws fallback m

  reader-reliable :
      (ws : List (Qos P)) → is_reliable (reader ws) ≡ (not (is_empty ws) && all is_reliable ws)
  unfolding reader_qos_for_local_writers
  reader-reliable ws = elim (Bool-cases (not (is_empty ws) && all is_reliable ws)) [
    | inl each ↦ rw each refl
    | inr other ↦ rw other refl
  ]

  reader-transient_local :
      (ws : List (Qos P))
      → is_transient_local (reader ws) ≡ (not (is_empty ws) && all is_transient_local ws)
  unfolding reader_qos_for_local_writers
  reader-transient_local ws = elim (Bool-cases (not (is_empty ws) && all is_transient_local ws)) [
    | inl each ↦ rw each refl
    | inr other ↦ rw other refl
  ]

  -- Writers of one durability and one reliability are served.
  group-serves :
      (b : Bool) (ws : List (Qos P))
      → All (λ w. is_transient_local w ≡ b) ws
      → (not (length (filter is_reliable ws) == 0)
          && not (length (filter is_reliable ws) == length ws))
        ≡ false
      → All (λ w. serves (reader ws) w ≡ true) ws
  group-serves b ws same agree =
      All-imp ws
        (λ w
            (h : (is_reliable w ≡ (not (is_empty ws) && all is_reliable ws))
              × (is_transient_local w ≡ (not (is_empty ws) && all is_transient_local ws))).
          serves_lem w (h.0 ∙ sym (reader-reliable ws)) (h.1 ∙ sym (reader-transient_local ws)))
        (All-both _ _ ws (uniform_lem is_reliable ws agree)
          (uniform_of_same is_transient_local b ws same))
    where
      serves_lem :
          (w : Qos P)
          → is_reliable w ≡ is_reliable (reader ws)
          → is_transient_local w ≡ is_transient_local (reader ws)
          → serves (reader ws) w ≡ true
      serves_lem w e f =
          rw (e, f) (both_refl (is_reliable (reader ws)) (is_transient_local (reader ws)))
        where
          both_refl : (a b : Bool) → (eq_bool a a && eq_bool b b) ≡ true
          both_refl true true = refl
          both_refl true false = refl
          both_refl false true = refl
          both_refl false false = refl

  implied :
      (p : Qos P → Bool) (ws : List (Qos P))
      → All (λ w. (not (not (is_empty ws) && all p ws) || p w) ≡ true) ws
  implied p [] = tt
  implied p (w ∷ ws) = elim (Bool-cases (all p (w ∷ ws))) [
    | inl every ↦
        All-imp (w ∷ ws) (λ x (e : p x ≡ true). rw (e, every) refl)
          ((all-iff-All p (w ∷ ws)).0 every)
    | inr other ↦ All-imp (w ∷ ws) (λ x e. rw other refl) (uniform_of_any (w ∷ ws))
  ]
    where
      uniform_of_any : (xs : List (Qos P)) → All (λ x. Unit {0}) xs
      uniform_of_any [] = tt
      uniform_of_any (x ∷ xs) = (tt, uniform_of_any xs)

  reader-accepts : (ws : List (Qos P)) → All (λ w. accepts (reader ws) w ≡ true) ws
  reader-accepts ws =
      All-imp ws
        (λ w
            (h : ((not (not (is_empty ws) && all is_reliable ws) || is_reliable w) ≡ true)
              × ((not (not (is_empty ws) && all is_transient_local ws) || is_transient_local w)
                  ≡ true)).
          rw (reader-reliable ws, reader-transient_local ws, h.0, h.1) refl)
        (All-both _ _ ws (implied is_reliable ws) (implied is_transient_local ws))

-- `reader_qos_for_local_writers` requests no reliability and no durability that one of the local writers
-- does not offer, and leaves six other policies at their most permissive values: deadline, liveliness,
-- data representation, destination order and presentation unset, and an infinite latency budget.
pub reader_qos_for_local_writers-accepts :
    {P : Type 0} ⦃c : Cyclors⦄ ⦃d : DefaultQos P⦄ (local_writers : List (Qos P)) (fallback : Qos P)
    (tl_cache_multiplier : ℕ)
    → let r = reader_qos_for_local_writers local_writers fallback tl_cache_multiplier in
      All (λ w. accepts r w ≡ true) local_writers × IsPermissive r
unfolding reader_qos_for_local_writers
reader_qos_for_local_writers-accepts ws fallback m =
    (reader-accepts fallback m ws, (refl, refl, refl, refl, refl, refl))

-- A writer has a reader of its own reliability and durability.
abbrev pub IsServed : {P : Type 0} → Qos P × Option (Qos P) → Qos P → Type 0
IsServed (r, none) w = serves r w ≡ true
IsServed (r, some r2) w = (serves r w ≡ true) ⊎ (serves r2 w ≡ true)

-- If `local_writers_disagree` is false, then each local writer has a reader of just its own reliability
-- and durability among the one or two readers of `readers_qos_for_local_writers`.
pub readers_qos_for_local_writers-IsServed :
    {P : Type 0} ⦃c : Cyclors⦄ ⦃d : DefaultQos P⦄ (local_writers : List (Qos P)) (fallback : Qos P)
    (tl_cache_multiplier : ℕ)
    → local_writers_disagree local_writers ≡ false
    → All
        (IsServed (readers_qos_for_local_writers local_writers fallback tl_cache_multiplier))
        local_writers
unfolding readers_qos_for_local_writers local_writers_disagree split_mixed_durability
readers_qos_for_local_writers-IsServed {P} ws fallback m agree =
    let p : Qos P → Bool = is_transient_local in
    let tl = (partition p ws).0 in
    let others = (partition p ws).1 in
    let same = partition-filter p ws in
    let agree_tl : (not (length (filter is_reliable tl) == 0)
          && not (length (filter is_reliable tl) == length tl))
        ≡ false =
      subst
        (λ (g : List (Qos P) × List (Qos P)).
          (not (length (filter is_reliable g.0) == 0)
            && not (length (filter is_reliable g.0) == length g.0))
          ≡ false)
        (sym same) (ground arith) in
    let agree_others : (not (length (filter is_reliable others) == 0)
          && not (length (filter is_reliable others) == length others))
        ≡ false =
      subst
        (λ (g : List (Qos P) × List (Qos P)).
          (not (length (filter is_reliable g.1) == 0)
            && not (length (filter is_reliable g.1) == length g.1))
          ≡ false)
        (sym same) (ground arith) in
    let served_tl = group-serves fallback m true tl (partition-All p ws).0 agree_tl in
    let served_others = group-serves fallback m false others (partition-All p ws).1 agree_others in
    elim (Bool-cases (is_empty tl)) [
      | inl no_tl ↦ rw no_tl (
          subst
            (λ (g : List (Qos P)).
              All (λ w. serves (reader_qos_for_local_writers g fallback m) w ≡ true) g)
            (partition_none p ws no_tl) served_others)
      | inr some_tl ↦ elim (Bool-cases (is_empty others)) [
        | inl only_tl ↦
            rw (some_tl, only_tl)
              (subst
                (λ (g : List (Qos P)).
                  All (λ w. serves (reader_qos_for_local_writers g fallback m) w ≡ true) g)
                (partition_all p ws only_tl) served_tl)
        | inr both ↦
            rw (some_tl, both)
              (All-of_partition p _ ws (All-imp tl (λ w h. inl h) served_tl)
                (All-imp others (λ w h. inr h) served_others))
      ]
    ]
