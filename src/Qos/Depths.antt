-- ===== src/Qos/Depths.antt =====
-- The history of a route: the strongest of its publishers', or the sum of the transient local depths.
use mathlib.Core.List.{Mem, mem-cons_self, mem-cons_of_mem}
use zenoh_plugin_ros2dds.Base.{
  ◌≡◌, refl, ap, ◌∙◌, ◌⊎◌, inl, inr, ℕ, zero, suc, ◌+◌, ◌*◌, ◌<◌, ◌≤◌, ◌-◌, min, max, length, true,
  false, Bool-cases, List, [], ◌∷◌, map, filter, All, is_empty, ltb, leb, arith, any,
}
use zenoh_plugin_ros2dds.Base.Int.{
  ℤ, pos, negsuc, ltb_ℤ, ◌*ℤ◌, min_ℤ, as_i64, as_i32, saturate_i64, i64_half,
}
use zenoh_plugin_ros2dds.Qos.{
  Qos, Cyclors, History, HistoryKind, keep_last, keep_all, eq_history_kind, clamp_depth, stronger,
  strongest, sum, is_transient_local, DefaultQos, get_history_or_default, history_of, max_tl_depth,
}
use zenoh_plugin_ros2dds.Qos.Routes.{max_history, tl_depths, multiplier, route_history}

abbrev pub AtMost : History → History → Type 0
AtMost a b = (b.kind ≡ keep_all) ⊎ ((a.kind ≡ keep_last) × (ltb_ℤ b.depth a.depth ≡ false))

ltb_ℤ_refl : (a : ℤ) → ltb_ℤ a a ≡ false
ltb_ℤ_refl (pos a) = ground arith
ltb_ℤ_refl (negsuc a) = ground arith

ltb_ℤ_asymm : (a b : ℤ) → ltb_ℤ a b ≡ true → ltb_ℤ b a ≡ false
ltb_ℤ_asymm (pos a) (pos b) h = ground arith
ltb_ℤ_asymm (pos a) (negsuc b) h = cc
ltb_ℤ_asymm (negsuc a) (pos b) h = refl
ltb_ℤ_asymm (negsuc a) (negsuc b) h = ground arith

ltb_ℤ_trans : (a b c : ℤ) → ltb_ℤ b a ≡ false → ltb_ℤ c b ≡ false → ltb_ℤ c a ≡ false
ltb_ℤ_trans (pos a) (pos b) (pos c) h k = ground arith
ltb_ℤ_trans (pos a) (pos b) (negsuc c) h k = cc
ltb_ℤ_trans (pos a) (negsuc b) c h k = cc
ltb_ℤ_trans (negsuc a) b (pos c) h k = refl
ltb_ℤ_trans (negsuc a) (pos b) (negsuc c) h k = cc
ltb_ℤ_trans (negsuc a) (negsuc b) (negsuc c) h k = ground arith

AtMost-refl : (a : History) → AtMost a a
AtMost-refl a = of_kind a.kind refl
  where
    of_kind : (k : HistoryKind) → a.kind ≡ k → AtMost a a
    of_kind keep_all e = inl e
    of_kind keep_last e = inr (e, ltb_ℤ_refl a.depth)

AtMost-trans : (a b c : History) → AtMost a b → AtMost b c → AtMost a c
AtMost-trans a b c h (inl k) = inl k
AtMost-trans a b c (inl h) (inr k) = cc
AtMost-trans a b c (inr h) (inr k) = inr (h.0, ltb_ℤ_trans a.depth b.depth c.depth h.1 k.1)

stronger-AtMost :
    (k : HistoryKind) (d : ℤ) (j : HistoryKind) (e : ℤ)
    → let a : History = record { kind = k; depth = d } in
      let b : History = record { kind = j; depth = e } in
      AtMost a (stronger a b) × AtMost b (stronger a b)
stronger-AtMost keep_all d j e = (inl refl, inl refl)
stronger-AtMost keep_last d keep_all e = (inl refl, inl refl)
stronger-AtMost keep_last d keep_last e = elim (Bool-cases (ltb_ℤ d e)) [
  | inl less ↦ rw less (inr (refl, ltb_ℤ_asymm d e less), inr (refl, ltb_ℤ_refl e))
  | inr other ↦ rw other (inr (refl, ltb_ℤ_refl d), inr (refl, other))
]

first-AtMost : (a b : History) → AtMost a (stronger a b)
first-AtMost a b = (stronger-AtMost a.kind a.depth b.kind b.depth).0

second-AtMost : (a b : History) → AtMost b (stronger a b)
second-AtMost a b = (stronger-AtMost a.kind a.depth b.kind b.depth).1

strongest-AtMost : (x a : History) (hs : List History) → AtMost x a → AtMost x (strongest a hs)
strongest-AtMost x a [] h = h
strongest-AtMost x a (b ∷ hs) h =
    strongest-AtMost x (stronger a b) hs (AtMost-trans x a (stronger a b) h (first-AtMost a b))

strongest-All : (a : History) (hs : List History) → All (λ h. AtMost h (strongest a hs)) hs
strongest-All a [] = tt
strongest-All a (b ∷ hs) =
    (strongest-AtMost b (stronger a b) hs (second-AtMost a b), strongest-All (stronger a b) hs)

stronger-Mem : (a b : History) (hs : List History) → Mem (stronger a b) (a ∷ b ∷ hs)
stronger-Mem a b hs = elim (Bool-cases (eq_history_kind a.kind keep_all)) [
  | inl all_a ↦ rw all_a mem-cons_self
  | inr last_a ↦ elim (Bool-cases (eq_history_kind b.kind keep_all)) [
    | inl all_b ↦ rw (last_a, all_b) (mem-cons_of_mem a mem-cons_self)
    | inr last_b ↦ elim (Bool-cases (ltb_ℤ a.depth b.depth)) [
      | inl less ↦ rw (last_a, last_b, less) (mem-cons_of_mem a mem-cons_self)
      | inr other ↦ rw (last_a, last_b, other) mem-cons_self
    ]
  ]
]

module _ {P : Type 0} ⦃c : Cyclors⦄ where
  map-All :
      (h : History) (qs : List (Qos P))
      → All (λ a. AtMost a h) (map history_of qs)
      → All (λ q. AtMost (history_of q) h) qs
  map-All h [] p = tt
  map-All h (q ∷ qs) p = (p.0, map-All h qs p.1)

-- `max_history` is at least as strong as the history of each QoS of the list: KEEP_ALL, or KEEP_LAST of at
-- least the depth of each, which then is KEEP_LAST too.
pub max_history-AtMost :
    {P : Type 0} ⦃c : Cyclors⦄ ⦃d : DefaultQos P⦄ (qs : List (Qos P))
    → All (λ q. AtMost (history_of q) (max_history qs)) qs
unfolding max_history
max_history-AtMost [] = tt
max_history-AtMost (q ∷ qs) = (
  strongest-AtMost (history_of q) (history_of q) (map history_of qs) (AtMost-refl (history_of q)),
  map-All _ qs (strongest-All (history_of q) (map history_of qs)),
)

-- Depths that are at least 1.
abbrev pub IsPositive : ℤ → Type 0
IsPositive z = (n : ℕ) × (z ≡ pos (suc n))

sum-pos : (zs : List ℤ) → All IsPositive zs → (s : ℕ) × (sum zs ≡ pos s) × (length zs ≤ s)
sum-pos [] h = (0, refl, omega arith)
sum-pos (z ∷ zs) h =
    let (s, e, le) = sum-pos zs h.1 in let (n, f) = h.0 in (suc n + s, rw (f, e) refl, omega arith)

clamp_depth-IsPositive :
    (k : HistoryKind) (d : ℤ)
    → k ≡ keep_last
    → IsPositive (clamp_depth (record { kind = k; depth = d })).depth
clamp_depth-IsPositive keep_all d h = cc
clamp_depth-IsPositive keep_last (pos zero) h = (0, refl)
clamp_depth-IsPositive keep_last (pos (suc n)) h = (n, ground arith)
clamp_depth-IsPositive keep_last (negsuc n) h = (0, refl)

pub capped_small : (p : ℕ) → p ≤ 10000 → as_i32 (min_ℤ (saturate_i64 (pos p)) max_tl_depth) ≡ pos p
capped_small p h = ground arith

capped_large : (p : ℕ) → 10000 < p → as_i32 (min_ℤ (saturate_i64 (pos p)) max_tl_depth) ≡ pos 10000
capped_large p h = ground arith

le-mul : (s k : ℕ) → s ≤ s * suc k
le-mul s k = omega arith

-- The product of the sum and the multiplier, saturated and capped.
capped :
    (s k : ℕ)
    → 1 ≤ s
    → (d : ℕ) × (as_i32 (min_ℤ (saturate_i64 (pos s *ℤ pos (suc k))) max_tl_depth) ≡ pos d)
      × (1 ≤ d)
      × (d ≤ 10000)
      × (min s 10000 ≤ d)
capped s k hs = elim (Bool-cases (leb (s * suc k) 10000)) [
  | inl small ↦
      let le = le-mul s k in
      (s * suc k, capped_small (s * suc k) (ground arith), omega arith, ground arith, omega arith)
  | inr large ↦
      (10000, capped_large (s * suc k) (ground arith), omega arith, omega arith, omega arith)
]

as_i64-pos : (n : ℕ) → n < i64_half → as_i64 (pos n) ≡ pos n
as_i64-pos n h = ground arith

multiplier-pos : (tl : List ℤ) (m : ℕ) → m < i64_half → (k : ℕ) × (multiplier tl m ≡ pos (suc k))
multiplier-pos tl m h = elim (Bool-cases (ltb 1 (length tl))) [
  | inl several ↦
      (max m 1 - 1, rw several (as_i64-pos (max m 1) (omega arith) ∙ ap pos (omega arith)))
  | inr one ↦ (0, rw one refl)
]

module _ {P : Type 0} ⦃c : Cyclors⦄ where
  history_of-IsPositive :
      (q : Qos P) (h : History)
      → AtMost (history_of q) h
      → h.kind ≡ keep_last
      → IsPositive (history_of q).depth
  history_of-IsPositive q h (inl all_h) last_h = cc
  history_of-IsPositive q h (inr (last_q, _)) last_h =
      clamp_depth-IsPositive (get_history_or_default q).kind (get_history_or_default q).depth last_q

  tl_depths-IsPositive :
      (qs : List (Qos P)) (h : History)
      → All (λ q. AtMost (history_of q) h) qs
      → h.kind ≡ keep_last
      → All IsPositive (tl_depths qs)
  unfolding filter
  tl_depths-IsPositive [] h p e = tt
  tl_depths-IsPositive (q ∷ qs) h p e = elim (Bool-cases (is_transient_local q)) [
    | inl tl ↦ rw tl (history_of-IsPositive q h p.0 e, tl_depths-IsPositive qs h p.1 e)
    | inr volatile ↦ rw volatile (tl_depths-IsPositive qs h p.1 e)
  ]

  is_empty-tl_depths :
      (qs : List (Qos P))
      → any is_transient_local qs ≡ true
      → (is_empty (tl_depths qs) ≡ false) × (1 ≤ length (tl_depths qs))
  unfolding filter any
  is_empty-tl_depths [] h = cc
  is_empty-tl_depths (q ∷ qs) h = elim (Bool-cases (is_transient_local q)) [
    | inl tl ↦ rw tl (refl, omega arith)
    | inr volatile ↦ rw volatile (is_empty-tl_depths qs (rw volatile at h))
  ]

-- KEEP_LAST, with a depth from 1 to 10,000 that is at least the sum of the transient local depths, up to
-- the cap.
abbrev pub HoldsAll : {P : Type 0} ⦃c : Cyclors⦄ → List (Qos P) → History → Type 0
HoldsAll qs h =
    (h.kind ≡ keep_last)
    × ((s : ℕ) × (n : ℕ) × (sum (tl_depths qs) ≡ pos s)
        × (h.depth ≡ pos n)
        × (1 ≤ n)
        × (n ≤ 10000)
        × (min s 10000 ≤ n))

-- With a transient local publisher, none of KEEP_ALL, and a multiplier below 2^63, `route_history` is
-- KEEP_LAST with a depth from 1 to 10,000, and keeps as many samples as all the transient local
-- publishers together, up to the cap.
pub route_history-HoldsAll :
    {P : Type 0} ⦃c : Cyclors⦄ ⦃d : DefaultQos P⦄ (qs : List (Qos P)) (tl_cache_multiplier : ℕ)
    → tl_cache_multiplier < i64_half
    → any is_transient_local qs ≡ true
    → (max_history qs).kind ≡ keep_last
    → HoldsAll qs (route_history qs tl_cache_multiplier)
unfolding route_history
route_history-HoldsAll qs m small some_tl last =
    let (not_empty, several) = is_empty-tl_depths qs some_tl in
    let (s, s_is, le) =
      sum-pos (tl_depths qs)
        (tl_depths-IsPositive qs (max_history qs) (max_history-AtMost qs) last) in
    let (k, k_is) = multiplier-pos (tl_depths qs) m small in
    let (n, n_is, low, high, holds) = capped s k (omega arith) in
    rw (last, not_empty) (refl, (s, n, s_is, rw (s_is, k_is) n_is, low, high, holds))
