-- ===== src/Qos/Routes.antt =====
-- The QoS of a route's endpoints, of its announcements, and their comparison.
use zenoh_plugin_ros2dds.Base.{
  ℕ, ◌==◌, max, length, Bool, true, false, not, ◌&&◌, ◌||◌, Option, none, some, List, [], ◌∷◌, map,
  any, all, filter, is_empty, ltb, Text, str_eq, if◌then◌else◌,
}
use zenoh_plugin_ros2dds.Base.Int.{ℤ, pos, eqb_ℤ, ◌+ℤ◌, ◌*ℤ◌, min_ℤ, as_i64, as_i32, saturate_i64}
use zenoh_plugin_ros2dds.Qos.{
  Qos, Cyclors, DefaultQos, History, DurabilityService, ReliabilityKind, best_effort, reliable,
  keep_last, keep_all, participant, strongest, sum, max_tl_depth, partition, eq_history_kind,
  eq_reliability, is_reliable, is_transient_local, durability_of, reliability_of,
  tl_durability_service, history_of, adapt_writer_qos_for_reader,
}

-- The `usize` is cast to i64.
abbrev pub multiplier : List ℤ → ℕ → ℤ
multiplier tl tl_cache_multiplier =
    if ltb 1 (length tl) then as_i64 (pos (max tl_cache_multiplier 1)) else pos 1

abbrev pub Announcement : Type 0 → Type 0
Announcement P = Text × Qos P

abbrev pub eq_bool : Bool → Bool → Bool
eq_bool true b = b
eq_bool false b = not b

abbrev pub eq_history : History → History → Bool
eq_history a b = eq_history_kind a.kind b.kind && eqb_ℤ a.depth b.depth

abbrev pub eq_service : Option DurabilityService → Option DurabilityService → Bool
eq_service none none = true
eq_service none (some b) = false
eq_service (some a) none = false
eq_service (some a) (some b) =
    eq_history_kind a.history_kind b.history_kind && eqb_ℤ a.history_depth b.history_depth

-- The end of `route_history`: of the strongest history and the transient local depths.
abbrev pub summed : History → List ℤ → ℕ → History
summed strongest_history tl tl_cache_multiplier =
    let depth = saturate_i64 (sum tl *ℤ multiplier tl tl_cache_multiplier) in
    if eq_history_kind strongest_history.kind keep_all || is_empty tl
    then strongest_history
    else record { kind = keep_last; depth = as_i32 (min_ℤ depth max_tl_depth) }

module _ {P : Type 0} where
  abbrev pub first_or : Qos P → List (Qos P) → Qos P
  first_or fallback [] = fallback
  first_or fallback (q ∷ qs) = q

  unfoldable pub split_mixed_durability : List (Qos P) → Option (List (Qos P) × List (Qos P))
  split_mixed_durability writers =
      let (tl, others) = partition is_transient_local writers in
      if not (is_empty tl) && not (is_empty others) then some (tl, others) else none

  -- One group of writers, or the two of a split.
  abbrev pub on_split :
      (List (Qos P) → Qos P)
      → List (Qos P)
      → Option (List (Qos P) × List (Qos P))
      → Qos P × Option (Qos P)
  on_split f writers none = (f writers, none)
  on_split f writers (some (tl, others)) = (f tl, some (f others))

  -- The bridge announces both durabilities.
  unfoldable pub mixed : List (Announcement P) → Text → Bool
  unfolding any
  mixed remote_writers bridge =
      any (λ a. str_eq a.0 bridge && is_transient_local a.1) remote_writers
      && any (λ a. str_eq a.0 bridge && not (is_transient_local a.1)) remote_writers

  abbrev pub is_moved : List (Announcement P) → Announcement P → Bool
  is_moved remote_writers a = not (is_transient_local a.1) && mixed remote_writers a.0

  -- What `same_route_qos` compares.
  abbrev pub route_reliability : Bool → Qos P → ReliabilityKind
  route_reliability reader q = elim q.reliability [
    | none ↦ if reader then best_effort else reliable
    | some r ↦ r.kind
  ]

  -- `group.fold((0, 0), ..)`
  abbrev pub count_reliable : List (Qos P) → ℕ × ℕ
  count_reliable qs = (length qs, length (filter is_reliable qs))

  unfoldable pub local_writers_disagree : List (Qos P) → Bool
  unfolding filter
  local_writers_disagree local_writers =
      let disagree = λ (tl : Bool).
        let (n, rel) =
          count_reliable (filter (λ q. eq_bool (is_transient_local q) tl) local_writers) in
        not (rel == 0) && not (rel == n) in
      disagree true || disagree false

module _ {P : Type 0} ⦃c : Cyclors⦄ where
  abbrev pub tl_depths : List (Qos P) → List ℤ
  tl_depths qs = map (λ q. (history_of q).depth) (filter is_transient_local qs)

module _ {P : Type 0} ⦃c : Cyclors⦄ ⦃d : DefaultQos P⦄ where
  unfoldable pub max_history : List (Qos P) → History
  max_history [] = history_of d.default_qos
  max_history (q ∷ qs) = strongest (history_of q) (map history_of qs)

  unfoldable pub route_history : List (Qos P) → ℕ → History
  unfolding max_history filter
  route_history qs tl_cache_multiplier = summed (max_history qs) (tl_depths qs) tl_cache_multiplier

  unfoldable pub reader_qos_for_local_writers : List (Qos P) → Qos P → ℕ → Qos P
  unfolding adapt_writer_qos_for_reader route_history all
  reader_qos_for_local_writers local_writers fallback tl_cache_multiplier =
      let all_reliable = not (is_empty local_writers) && all is_reliable local_writers in
      let all_tl = not (is_empty local_writers) && all is_transient_local local_writers in
      record (adapt_writer_qos_for_reader (first_or fallback local_writers)) {
        reliability = reliability_of (if all_reliable then reliable else best_effort);
        durability = durability_of all_tl;
        history = some (route_history local_writers tl_cache_multiplier);
        deadline = none;
        liveliness = none;
        latency_budget = some c.dds_infinite_time;
        data_representation = none;
        destination_order = none;
        presentation = none;
        resource_limits = none;
        time_based_filter = none;
        reader_data_lifecycle = none;
      }

  unfoldable pub readers_qos_for_local_writers : List (Qos P) → Qos P → ℕ → Qos P × Option (Qos P)
  readers_qos_for_local_writers local_writers fallback tl_cache_multiplier =
      on_split (λ w. reader_qos_for_local_writers w fallback tl_cache_multiplier) local_writers
        (split_mixed_durability local_writers)

  unfoldable pub announced_qos_for_local_writers : List (Qos P) → ℕ → Qos P
  unfolding route_history any
  announced_qos_for_local_writers local_writers tl_cache_multiplier =
      record (first_or d.default_qos local_writers) {
        reliability =
            reliability_of (if any is_reliable local_writers then reliable else best_effort);
        durability = durability_of (any is_transient_local local_writers);
        history = some (route_history local_writers tl_cache_multiplier);
      }

  unfoldable pub announced_qoses_for_local_writers : List (Qos P) → ℕ → Qos P × Option (Qos P)
  announced_qoses_for_local_writers local_writers tl_cache_multiplier =
      on_split (λ w. announced_qos_for_local_writers w tl_cache_multiplier) local_writers
        (split_mixed_durability local_writers)

  unfoldable pub writer_qos_for_remote_writers : List (Qos P) → Qos P
  unfolding route_history any tl_durability_service
  writer_qos_for_remote_writers remote_writers =
      let any_tl = any is_transient_local remote_writers in
      let history = route_history remote_writers 1 in
      record (first_or d.default_qos remote_writers) {
        reliability = some (record {
          kind = reliable;
          max_blocking_time = saturate_i64 (pos c.dds_100ms_duration +ℤ pos 1);
        });
        durability = durability_of any_tl;
        durability_service = if any_tl then some (tl_durability_service history) else none;
        history = some history;
        ignore_local = some participant;
      }

  unfoldable pub writers_qos_for_remote_writers : List (Announcement P) → Qos P × Option (Qos P)
  writers_qos_for_remote_writers remote_writers =
      let (moved, kept) = partition (is_moved remote_writers) remote_writers in
      (
        writer_qos_for_remote_writers (map (λ a. a.1) kept),
        if is_empty moved
            then none
            else some (writer_qos_for_remote_writers (map (λ a. a.1) moved)),
      )

  unfoldable pub same_route_qos : Qos P → Qos P → Bool → Bool
  same_route_qos a b reader =
      eq_reliability (route_reliability reader a) (route_reliability reader b)
      && eq_bool (is_transient_local a) (is_transient_local b)
      && eq_history (history_of a) (history_of b)
      && eq_service a.durability_service b.durability_service
