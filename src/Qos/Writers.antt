-- ===== src/Qos/Writers.antt =====
-- The writers of the routes from zenoh to DDS, against the announcements that they stand for.
use zenoh_plugin_ros2dds.Base.{
  ◌≡◌, refl, sym, subst, inl, inr, Bool, true, not, ◌&&◌, ◌||◌, Bool-cases, none, some, List, [],
  ◌∷◌, any, All, if◌then◌else◌, arith,
}
use zenoh_plugin_ros2dds.Qos.{
  Qos, Cyclors, DefaultQos, History, is_reliable, is_transient_local, tl_durability_service,
}
use zenoh_plugin_ros2dds.Qos.Routes.{route_history, writer_qos_for_remote_writers}

-- The writer offers the reliability and the durability that the announcement offers.
abbrev pub offers : {P : Type 0} → Qos P → Qos P → Bool
offers w q =
    (not (is_reliable q) || is_reliable w) && (not (is_transient_local q) || is_transient_local w)

-- The history that Cyclone serves to late readers.
abbrev pub ServesHistory : {P : Type 0} ⦃c : Cyclors⦄ → Qos P → History → Type 0
ServesHistory w h =
    (w.history ≡ some h)
    × (w.durability_service
        ≡ (if is_transient_local w then some (tl_durability_service h) else none))

module _ {P : Type 0} ⦃c : Cyclors⦄ ⦃d : DefaultQos P⦄ where
  pub writer-transient_local :
      (ws : List (Qos P))
      → is_transient_local (writer_qos_for_remote_writers ws) ≡ any is_transient_local ws
  unfolding writer_qos_for_remote_writers
  writer-transient_local ws = elim (Bool-cases (any is_transient_local ws)) [
    | inl some_tl ↦ rw some_tl refl
    | inr none_tl ↦ rw none_tl refl
  ]

  any-All : (p : Qos P → Bool) (ws : List (Qos P)) → All (λ w. (not (p w) || any p ws) ≡ true) ws
  unfolding any
  any-All p [] = tt
  any-All p (w ∷ ws) = (ground arith, weaken ws (any-All p ws))
    where
      weaken :
          (xs : List (Qos P))
          → All (λ x. (not (p x) || any p ws) ≡ true) xs
          → All (λ x. (not (p x) || (p w || any p ws)) ≡ true) xs
      weaken [] h = tt
      weaken (x ∷ xs) h = (let head = h.0 in ground arith, weaken xs h.1)

  All-offers :
      (r : Qos P) (ws : List (Qos P))
      → is_reliable r ≡ true
      → All (λ w. (not (is_transient_local w) || is_transient_local r) ≡ true) ws
      → All (λ w. offers r w ≡ true) ws
  All-offers r [] e h = tt
  All-offers r (w ∷ ws) e h = (let head = h.0 in ground arith, All-offers r ws e h.1)

  writer-reliable : (ws : List (Qos P)) → is_reliable (writer_qos_for_remote_writers ws) ≡ true
  unfolding writer_qos_for_remote_writers
  writer-reliable ws = refl

  writer-ServesHistory :
      (ws : List (Qos P)) → ServesHistory (writer_qos_for_remote_writers ws) (route_history ws 1)
  unfolding writer_qos_for_remote_writers
  writer-ServesHistory ws = elim (Bool-cases (any is_transient_local ws)) [
    | inl some_tl ↦ (refl, rw some_tl refl)
    | inr none_tl ↦ (refl, rw none_tl refl)
  ]

-- The writer of `writer_qos_for_remote_writers` offers at least the reliability and the
-- durability of each announcement, is RELIABLE, and serves the route's history to late readers just when it is transient local.
pub writer_qos_for_remote_writers-offers :
    {P : Type 0} ⦃c : Cyclors⦄ ⦃d : DefaultQos P⦄ (remote_writers : List (Qos P))
    → let w = writer_qos_for_remote_writers remote_writers in
      All (λ q. offers w q ≡ true) remote_writers
      × (is_reliable w ≡ true)
      × ServesHistory w (route_history remote_writers 1)
writer_qos_for_remote_writers-offers {P} ws =
    let w = writer_qos_for_remote_writers ws in
    (
      All-offers w ws (writer-reliable ws) (
          subst (λ (b : Bool). All (λ q. (not (is_transient_local q) || b) ≡ true) ws)
            (sym (writer-transient_local ws)) (any-All is_transient_local ws)),
      writer-reliable ws,
      writer-ServesHistory ws,
    )
