-- ===== src/Qos/Announced.antt =====
-- The history that a bridge announces for its local writers, and the history that the other bridge
-- derives from the announcement.
use zenoh_plugin_ros2dds.Base.{
  ◌≡◌, refl, sym, ap, ◌∙◌, ◌⊎◌, inl, inr, ℕ, zero, suc, ◌+◌, ◌*◌, ◌<◌, ◌≤◌, true, false, Bool-cases,
  List, [], ◌∷◌, map, any, filter, arith,
}
use zenoh_plugin_ros2dds.Base.Int.{ℤ, pos, negsuc, ltb_ℤ, i64_half}
use zenoh_plugin_ros2dds.Qos.{
  Qos, Cyclors, DefaultQos, History, HistoryKind, keep_last, keep_all, eq_history_kind, clamp_depth,
  stronger, strongest, is_transient_local, get_history_or_default, history_of,
}
use zenoh_plugin_ros2dds.Qos.Routes.{
  max_history, tl_depths, summed, route_history, announced_qos_for_local_writers,
}
use zenoh_plugin_ros2dds.Qos.Depths.{route_history-HoldsAll, capped_small}

abbrev last_of : ℤ → History
last_of d = record { kind = keep_last; depth = d }

eq_last :
    (k : HistoryKind) (d : ℤ) (n : ℕ)
    → k ≡ keep_last
    → d ≡ pos n
    → record { kind = k; depth = d } ≡ last_of (pos n)
eq_last k d n e f = cc

clamp_depth_last : (n : ℕ) → 1 ≤ n → clamp_depth (last_of (pos n)) ≡ last_of (pos n)
clamp_depth_last n h = ap last_of (ground arith)

-- A KEEP_LAST depth that is at least 1.
abbrev IsClamped : History → Type 0
IsClamped h = clamp_depth h ≡ h

clamped : (k : HistoryKind) (d : ℤ) → IsClamped (clamp_depth (record { kind = k; depth = d }))
clamped keep_all d = refl
clamped keep_last (pos zero) = refl
clamped keep_last (pos (suc n)) = ground arith
clamped keep_last (negsuc n) = refl

stronger-IsClamped : (a b : History) → IsClamped a → IsClamped b → IsClamped (stronger a b)
stronger-IsClamped a b h k = elim (Bool-cases (eq_history_kind a.kind keep_all)) [
  | inl all_a ↦ rw all_a h
  | inr last_a ↦ elim (Bool-cases (eq_history_kind b.kind keep_all)) [
    | inl all_b ↦ rw (last_a, all_b) k
    | inr last_b ↦ elim (Bool-cases (ltb_ℤ a.depth b.depth)) [
      | inl less ↦ rw (last_a, last_b, less) k
      | inr other ↦ rw (last_a, last_b, other) h
    ]
  ]
]

kind_of_bool : (h : History) → eq_history_kind h.kind keep_all ≡ true → h.kind ≡ keep_all
kind_of_bool h e = of_kind h.kind refl
  where
    of_kind : (k : HistoryKind) → h.kind ≡ k → h.kind ≡ keep_all
    of_kind keep_all f = f
    of_kind keep_last f = cc

kind_of_other : (h : History) → eq_history_kind h.kind keep_all ≡ false → h.kind ≡ keep_last
kind_of_other h e = of_kind h.kind refl
  where
    of_kind : (k : HistoryKind) → h.kind ≡ k → h.kind ≡ keep_last
    of_kind keep_all f = cc
    of_kind keep_last f = f

module _ {P : Type 0} ⦃c : Cyclors⦄ where
  history_of-IsClamped : (q : Qos P) → IsClamped (history_of q)
  history_of-IsClamped q = clamped (get_history_or_default q).kind (get_history_or_default q).depth

  strongest-IsClamped :
      (a : History) (qs : List (Qos P)) → IsClamped a → IsClamped (strongest a (map history_of qs))
  strongest-IsClamped a [] h = h
  strongest-IsClamped a (q ∷ qs) h =
      strongest-IsClamped (stronger a (history_of q)) qs
        (stronger-IsClamped a (history_of q) h (history_of-IsClamped q))

  tl_depths_none : (qs : List (Qos P)) → any is_transient_local qs ≡ false → tl_depths qs ≡ []
  unfolding any filter
  tl_depths_none [] h = refl
  tl_depths_none (q ∷ qs) h = elim (Bool-cases (is_transient_local q)) [
    | inl tl ↦ let k : true ≡ false = (rw tl at h) in cc
    | inr other ↦ rw other (tl_depths_none qs (rw other at h))
  ]

module _ {P : Type 0} ⦃c : Cyclors⦄ ⦃d : DefaultQos P⦄ where
  max_history-IsClamped : (qs : List (Qos P)) → IsClamped (max_history qs)
  unfolding max_history
  max_history-IsClamped [] = history_of-IsClamped d.default_qos
  max_history-IsClamped (q ∷ qs) = strongest-IsClamped (history_of q) qs (history_of-IsClamped q)

  -- A single QoS without transient local durability, or of KEEP_ALL.
  route_history-single :
      (q : Qos P)
      → (is_transient_local q ≡ false) ⊎ ((history_of q).kind ≡ keep_all)
      → route_history (q ∷ []) 1 ≡ history_of q
  unfolding route_history max_history filter
  route_history-single q (inl other) =
      elim (Bool-cases (eq_history_kind (history_of q).kind keep_all)) [
        | inl all_q ↦ rw all_q refl
        | inr last_q ↦ rw (last_q, other) refl
      ]
  route_history-single q (inr all_q) = rw all_q refl

  tl_depths-single :
      (q : Qos P) (n : ℕ)
      → is_transient_local q ≡ true
      → history_of q ≡ last_of (pos n)
      → tl_depths (q ∷ []) ≡ pos n ∷ []
  unfolding filter
  tl_depths-single q n tl h = rw tl (ap (λ (x : History). x.depth ∷ []) h)

  route_history-single_tl :
      (q : Qos P) (n : ℕ)
      → is_transient_local q ≡ true
      → history_of q ≡ last_of (pos n)
      → n ≤ 10000
      → route_history (q ∷ []) 1 ≡ last_of (pos n)
  unfolding route_history max_history
  route_history-single_tl q n tl h small =
      ap (λ (x : History). summed x (tl_depths (q ∷ [])) 1) h
      ∙ ap (λ (x : List ℤ). summed (last_of (pos n)) x 1) (tl_depths-single q n tl h)
      ∙ ap last_of (capped_small ((n + 0) * 1) (omega arith) ∙ ap pos (omega arith))

  route_history_weak :
      (qs : List (Qos P)) (m : ℕ)
      → (any is_transient_local qs ≡ false) ⊎ ((max_history qs).kind ≡ keep_all)
      → route_history qs m ≡ max_history qs
  unfolding route_history
  route_history_weak qs m (inl none_tl) =
      elim (Bool-cases (eq_history_kind (max_history qs).kind keep_all)) [
        | inl all_q ↦ rw all_q refl
        | inr last_q ↦ rw (last_q, tl_depths_none qs none_tl) refl
      ]
  route_history_weak qs m (inr all_q) = rw all_q refl

  announced-history :
      (ws : List (Qos P)) (m : ℕ)
      → history_of (announced_qos_for_local_writers ws m) ≡ clamp_depth (route_history ws m)
  unfolding announced_qos_for_local_writers
  announced-history ws m = refl

  announced-transient_local :
      (ws : List (Qos P)) (m : ℕ)
      → is_transient_local (announced_qos_for_local_writers ws m) ≡ any is_transient_local ws
  unfolding announced_qos_for_local_writers
  announced-transient_local ws m = elim (Bool-cases (any is_transient_local ws)) [
    | inl some_tl ↦ rw some_tl refl
    | inr none_tl ↦ rw none_tl refl
  ]

  weak_announced :
      (ws : List (Qos P)) (m : ℕ)
      → (any is_transient_local ws ≡ false) ⊎ ((max_history ws).kind ≡ keep_all)
      → route_history (announced_qos_for_local_writers ws m ∷ []) 1 ≡ route_history ws m
  weak_announced ws m weak =
      let a = announced_qos_for_local_writers ws m in
      let h =
        announced-history ws m
        ∙ ap clamp_depth (route_history_weak ws m weak)
        ∙ max_history-IsClamped ws in
      route_history-single a (of_weak weak h) ∙ h ∙ sym (route_history_weak ws m weak)
    where
      of_weak :
          (any is_transient_local ws ≡ false) ⊎ ((max_history ws).kind ≡ keep_all)
          → history_of (announced_qos_for_local_writers ws m) ≡ max_history ws
          → (is_transient_local (announced_qos_for_local_writers ws m) ≡ false)
            ⊎ ((history_of (announced_qos_for_local_writers ws m)).kind ≡ keep_all)
      of_weak (inl none_tl) h = inl (announced-transient_local ws m ∙ none_tl)
      of_weak (inr all_ws) h = inr (ap (λ (x : History). x.kind) h ∙ all_ws)

-- The history that a bridge announces for its local writers is the history that the other bridge derives
-- from that announcement alone, for every list of writers and every multiplier below 2^63.
pub route_history-announced_qos_for_local_writers :
    {P : Type 0} ⦃c : Cyclors⦄ ⦃d : DefaultQos P⦄ (local_writers : List (Qos P))
    (tl_cache_multiplier : ℕ)
    → tl_cache_multiplier < i64_half
    → route_history (announced_qos_for_local_writers local_writers tl_cache_multiplier ∷ []) 1
      ≡ route_history local_writers tl_cache_multiplier
route_history-announced_qos_for_local_writers ws m small =
    elim (Bool-cases (eq_history_kind (max_history ws).kind keep_all)) [
      | inl all_ws ↦ weak_announced ws m (inr (kind_of_bool (max_history ws) all_ws))
      | inr last_ws ↦ elim (Bool-cases (any is_transient_local ws)) [
        | inr none_tl ↦ weak_announced ws m (inl none_tl)
        | inl some_tl ↦
            let (kept, (s, n, s_is, n_is, low, high, holds)) =
              route_history-HoldsAll ws m small some_tl (kind_of_other (max_history ws) last_ws) in
            let h : route_history ws m ≡ last_of (pos n) =
              eq_last (route_history ws m).kind (route_history ws m).depth n kept n_is in
            route_history-single_tl (announced_qos_for_local_writers ws m) n
              (announced-transient_local ws m ∙ some_tl)
              (announced-history ws m ∙ ap clamp_depth h ∙ clamp_depth_last n low) high
            ∙ sym h
      ]
    ]
