-- ===== src/Qos/Bridges.antt =====
-- The writers of a route for the announcements of several bridges.
use zenoh_plugin_ros2dds.Base.{
  ◌≡◌, refl, sym, ◌∙◌, not, ◌||◌, Text, filter, str_eq_refl, inl, inr, Bool, true, false, ◌&&◌,
  Bool-cases, Option, none, some, List, [], ◌∷◌, map, any, All, All-imp, is_empty, str_eq,
  if◌then◌else◌, arith,
}
use zenoh_plugin_ros2dds.Qos.{Qos, Cyclors, DefaultQos, is_transient_local, partition}
use zenoh_plugin_ros2dds.Qos.Routes.{
  Announcement, mixed, is_moved, writer_qos_for_remote_writers, writers_qos_for_remote_writers,
}
use zenoh_plugin_ros2dds.Qos.Split.{partition-All, All-of_partition}
use zenoh_plugin_ros2dds.Qos.Readers.{All-both}
use zenoh_plugin_ros2dds.Qos.Writers.{
  offers, writer-transient_local, writer_qos_for_remote_writers-offers,
}

abbrev qos_of : {P : Type 0} → Announcement P → Qos P
qos_of a = a.1

None_of_empty :
    {A : Type 0} (p : A → Bool) (xs : List A)
    → is_empty (partition p xs).0 ≡ true
    → All (λ x. p x ≡ false) xs
None_of_empty p [] h = tt
None_of_empty p (x ∷ xs) h = elim (Bool-cases (p x)) [
  | inl passes ↦ let k : false ≡ true = (rw passes at h) in cc
  | inr other ↦ (other, None_of_empty p xs (rw other at h))
]

All-of_empty : {A : Type 0} (Q : A → Type 0) (xs : List A) → is_empty xs ≡ true → All Q xs
All-of_empty Q [] h = tt
All-of_empty Q (x ∷ xs) h = cc

module _ {P : Type 0} where
  -- The announcements that stay with the first writer keep the transient local ones.
  any_kept :
      (p : Announcement P → Bool) (xs : List (Announcement P))
      → ((x : Announcement P) → p x ≡ true → is_transient_local x.1 ≡ false)
      → any is_transient_local (map qos_of (partition p xs).1)
        ≡ any is_transient_local (map qos_of xs)
  unfolding any
  any_kept p [] h = refl
  any_kept p (x ∷ xs) h = elim (Bool-cases (p x)) [
    | inl passes ↦ rw (passes, any_kept p xs h, h x passes) refl
    | inr other ↦ rw (other, any_kept p xs h) refl
  ]

  any-false :
      (xs : List (Announcement P))
      → All (λ a. is_transient_local a.1 ≡ false) xs
      → any is_transient_local (map qos_of xs) ≡ false
  unfolding any
  any-false [] h = refl
  any-false (x ∷ xs) h = rw (h.0, any-false xs h.1) refl

  any_of_bridge :
      (f : Announcement P → Bool) (xs : List (Announcement P))
      → any (λ a. f a && is_transient_local a.1) xs ≡ true
      → any is_transient_local (map qos_of xs) ≡ true
  unfolding any
  any_of_bridge f [] h = cc
  any_of_bridge f (x ∷ xs) h = elim (Bool-cases (is_transient_local x.1)) [
    | inl tl ↦ rw tl refl
    | inr other ↦ rw other (any_of_bridge f xs (ground arith))
  ]

  moved_lem :
      (rs : List (Announcement P)) (a : Announcement P)
      → is_moved rs a ≡ true
      → is_transient_local a.1 ≡ false
  moved_lem rs a h = ground arith

  -- Where an announcement moves, one of its bridge stays.
  any_of_moved :
      (rs xs : List (Announcement P))
      → All (λ a. is_moved rs a ≡ true) xs
      → is_empty xs ≡ false
      → any is_transient_local (map qos_of rs) ≡ true
  unfolding mixed
  any_of_moved rs [] h e = cc
  any_of_moved rs (x ∷ xs) h e =
      let head = h.0 in any_of_bridge (λ a. str_eq a.0 x.0) rs (ground arith)

  All-of_map :
      (Q : Qos P → Type 0) (xs : List (Announcement P))
      → All Q (map qos_of xs)
      → All (λ a. Q a.1) xs
  All-of_map Q [] h = tt
  All-of_map Q (x ∷ xs) h = (h.0, All-of_map Q xs h.1)

-- Whether one of a bridge's announcements is transient local.
abbrev pub announces_tl : {P : Type 0} → List (Announcement P) → Text → Bool
announces_tl rs bridge = any is_transient_local (map qos_of (filter (λ a. str_eq a.0 bridge) rs))

-- Whether an announcement is VOLATILE and its bridge also makes a transient local one.
abbrev pub is_second : {P : Type 0} → List (Announcement P) → Announcement P → Bool
is_second rs a = not (is_transient_local a.1) && announces_tl rs a.0

module _ {P : Type 0} where
  any-filter :
      (f : Announcement P → Bool) (xs : List (Announcement P))
      → any is_transient_local (map qos_of (filter f xs))
        ≡ any (λ a. f a && is_transient_local a.1) xs
  unfolding any filter
  any-filter f [] = refl
  any-filter f (x ∷ xs) = elim (Bool-cases (f x)) [
    | inl passes ↦ rw (passes, any-filter f xs) refl
    | inr other ↦ rw (other, any-filter f xs) refl
  ]

  -- A VOLATILE announcement is one of its bridge.
  any_self :
      (xs : List (Announcement P))
      → All
          (λ a.
            (is_transient_local a.1 || any (λ b. str_eq b.0 a.0 && not (is_transient_local b.1)) xs)
            ≡ true)
          xs
  unfolding any
  any_self [] = tt
  any_self (x ∷ xs) =
      (ground (arith, str_eq_refl x.0), All-imp xs (λ a h. ground (arith, h)) (any_self xs))

  is_moved-is_second : (rs : List (Announcement P)) → All (λ a. is_moved rs a ≡ is_second rs a) rs
  unfolding mixed
  is_moved-is_second rs =
      All-imp rs (λ a h. rw (any-filter (λ b. str_eq b.0 a.0) rs) (ground (arith, h))) (any_self rs)

-- With one writer, none of the announcements is to have a second one, and the writer offers them all. With
-- two, the first is transient local, the second is not, and each announcement is offered by its own.
abbrev pub IsSeparated : {P : Type 0} → List (Announcement P) → Qos P × Option (Qos P) → Type 0
IsSeparated rs (w, none) = All (λ a. is_second rs a ≡ false) rs × All (λ a. offers w a.1 ≡ true) rs
IsSeparated rs (w, some v) =
    (is_transient_local w ≡ true)
    × (is_transient_local v ≡ false)
    × All (λ a. (if is_second rs a then offers v a.1 else offers w a.1) ≡ true) rs

-- `writers_qos_for_remote_writers` makes a second writer only where a bridge announces both durabilities.
-- Then the first writer is transient local and the second is not, and the second offers the reliability
-- and the durability of each VOLATILE announcement of such a bridge, the first those of each other one;
-- else one writer offers those of them all.
pub writers_qos_for_remote_writers-IsSeparated :
    {P : Type 0} ⦃c : Cyclors⦄ ⦃d : DefaultQos P⦄ (remote_writers : List (Announcement P))
    → IsSeparated remote_writers (writers_qos_for_remote_writers remote_writers)
unfolding writers_qos_for_remote_writers
writers_qos_for_remote_writers-IsSeparated {P} rs =
    let p : Announcement P → Bool = is_moved rs in
    let moved = (partition p rs).0 in
    let kept = (partition p rs).1 in
    let w = writer_qos_for_remote_writers (map qos_of kept) in
    let v = writer_qos_for_remote_writers (map qos_of moved) in
    let groups = partition-All p rs in
    let by_w =
      All-of_map (λ q. offers w q ≡ true) kept
        (writer_qos_for_remote_writers-offers (map qos_of kept)).0 in
    let by_v =
      All-of_map (λ q. offers v q ≡ true) moved
        (writer_qos_for_remote_writers-offers (map qos_of moved)).0 in
    elim (Bool-cases (is_empty moved)) [
      | inl nothing ↦ rw nothing (
        All-imp rs (λ a (h : (p a ≡ false) × (p a ≡ is_second rs a)). sym h.1 ∙ h.0)
            (All-both _ _ rs (None_of_empty p rs nothing) (is_moved-is_second rs)),
        All-of_partition p (λ a. offers w a.1 ≡ true) rs
            (All-of_empty (λ (a : Announcement P). offers w a.1 ≡ true) moved nothing) by_w,
      )
      | inr something ↦ rw something (
        writer-transient_local (map qos_of kept)
            ∙ any_kept p rs (moved_lem rs)
            ∙ any_of_moved rs moved groups.0 something,
        writer-transient_local (map qos_of moved)
            ∙ any-false moved (All-imp moved (moved_lem rs) groups.0),
        All-imp rs
            (λ a
                (h : ((if p a then offers v a.1 else offers w a.1) ≡ true)
                  × (p a ≡ is_second rs a)).
              rw (← h.1) h.0)
            (All-both _ _ rs
              (All-of_partition p _ rs
                (All-imp moved (λ a (h : (p a ≡ true) × (offers v a.1 ≡ true)). rw h.0 h.1)
                  (All-both _ _ moved groups.0 by_v))
                (All-imp kept (λ a (h : (p a ≡ false) × (offers w a.1 ≡ true)). rw h.0 h.1)
                  (All-both _ _ kept groups.1 by_w)))
              (is_moved-is_second rs)),
      )
    ]
