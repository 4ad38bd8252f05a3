-- ===== src/Qos/Comparison/Views.antt =====
-- `same_route_qos` as the equality of what it reads.
use zenoh_plugin_ros2dds.Base.{
  ◌≡◌, refl, sym, ap, ◌↔◌, Bool, true, false, ◌&&◌, Option, none, some, arith,
}
use zenoh_plugin_ros2dds.Base.Int.{ℤ, pos, negsuc, eqb_ℤ}
use zenoh_plugin_ros2dds.Qos.{
  Qos, Cyclors, DefaultQos, History, HistoryKind, DurabilityService, ReliabilityKind, best_effort,
  reliable, keep_last, keep_all, eq_reliability, eq_history_kind, is_transient_local, history_of,
}
use zenoh_plugin_ros2dds.Qos.Routes.{
  eq_bool, eq_history, eq_service, route_reliability, same_route_qos,
}

abbrev pub service_view : Option DurabilityService → Option (HistoryKind × ℤ)
service_view none = none
service_view (some s) = some (s.history_kind, s.history_depth)

-- The reliability, transient local or not, the history, and the history of the durability service.
abbrev pub RouteView : Type 0
RouteView = ReliabilityKind × Bool × (HistoryKind × ℤ) × Option (HistoryKind × ℤ)

abbrev pub route_view : {P : Type 0} ⦃c : Cyclors⦄ → Bool → Qos P → RouteView
route_view reader q = (
  route_reliability reader q,
  is_transient_local q,
  ((history_of q).kind, (history_of q).depth),
  service_view q.durability_service,
)

eqb_ℤ_eq : (a b : ℤ) → eqb_ℤ a b ≡ true → a ≡ b
eqb_ℤ_eq (pos a) (pos b) h = ap pos (ground arith)
eqb_ℤ_eq (pos a) (negsuc b) h = cc
eqb_ℤ_eq (negsuc a) (pos b) h = cc
eqb_ℤ_eq (negsuc a) (negsuc b) h = ap negsuc (ground arith)

eqb_ℤ_refl : (a : ℤ) → eqb_ℤ a a ≡ true
eqb_ℤ_refl (pos a) = ground arith
eqb_ℤ_refl (negsuc a) = ground arith

eq_reliability_eq : (a b : ReliabilityKind) → eq_reliability a b ≡ true → a ≡ b
eq_reliability_eq best_effort best_effort h = refl
eq_reliability_eq best_effort reliable h = cc
eq_reliability_eq reliable best_effort h = cc
eq_reliability_eq reliable reliable h = refl

eq_reliability_refl : (a : ReliabilityKind) → eq_reliability a a ≡ true
eq_reliability_refl best_effort = refl
eq_reliability_refl reliable = refl

eq_kind_eq : (a b : HistoryKind) → eq_history_kind a b ≡ true → a ≡ b
eq_kind_eq keep_last keep_last h = refl
eq_kind_eq keep_last keep_all h = cc
eq_kind_eq keep_all keep_last h = cc
eq_kind_eq keep_all keep_all h = refl

eq_kind_refl : (a : HistoryKind) → eq_history_kind a a ≡ true
eq_kind_refl keep_last = refl
eq_kind_refl keep_all = refl

eq_bool_eq : (a b : Bool) → eq_bool a b ≡ true → a ≡ b
eq_bool_eq true b h = sym h
eq_bool_eq false true h = cc
eq_bool_eq false false h = refl

eq_bool_refl : (a : Bool) → eq_bool a a ≡ true
eq_bool_refl true = refl
eq_bool_refl false = refl

and_left : (a b : Bool) → (a && b) ≡ true → (a ≡ true) × (b ≡ true)
and_left true b h = (refl, h)
and_left false b h = cc

pub pair_eq :
    (k j : HistoryKind) (d e : ℤ) → k ≡ j → d ≡ e → ◌≡◌ {A = HistoryKind × ℤ} (k, d) (j, e)
pair_eq k j d e f g = rw (f, g) refl

eq_service_eq :
    (a b : Option DurabilityService) → eq_service a b ≡ true → service_view a ≡ service_view b
eq_service_eq none none h = refl
eq_service_eq none (some b) h = cc
eq_service_eq (some a) none h = cc
eq_service_eq (some a) (some b) h =
    let (k, d) =
      and_left (eq_history_kind a.history_kind b.history_kind)
        (eqb_ℤ a.history_depth b.history_depth) h in
    ap some (
      pair_eq a.history_kind b.history_kind a.history_depth b.history_depth
        (eq_kind_eq a.history_kind b.history_kind k) (eqb_ℤ_eq a.history_depth b.history_depth d))

eq_service_of :
    (a b : Option DurabilityService) → service_view a ≡ service_view b → eq_service a b ≡ true
eq_service_of none none h = refl
eq_service_of none (some b) h = cc
eq_service_of (some a) none h = cc
eq_service_of (some a) (some b) h =
    let k : a.history_kind ≡ b.history_kind = cc in
    let d : a.history_depth ≡ b.history_depth = cc in
    rw (k, d, eq_kind_refl b.history_kind, eqb_ℤ_refl b.history_depth) refl

eq_history_eq :
    (a b : History)
    → eq_history a b ≡ true
    → ◌≡◌ {A = HistoryKind × ℤ} (a.kind, a.depth) (b.kind, b.depth)
eq_history_eq a b h =
    let (k, d) = and_left (eq_history_kind a.kind b.kind) (eqb_ℤ a.depth b.depth) h in
    pair_eq a.kind b.kind a.depth b.depth (eq_kind_eq a.kind b.kind k) (eqb_ℤ_eq a.depth b.depth d)

eq_history_of :
    (a b : History)
    → ◌≡◌ {A = HistoryKind × ℤ} (a.kind, a.depth) (b.kind, b.depth)
    → eq_history a b ≡ true
eq_history_of a b h =
    rw
      (
        ap (λ (v : HistoryKind × ℤ). v.0) h,
        ap (λ (v : HistoryKind × ℤ). v.1) h,
        eq_kind_refl b.kind,
        eqb_ℤ_refl b.depth,
      )
      refl

module _ (r r' : ReliabilityKind) (t t' : Bool) (h h' : History)
    (s s' : Option DurabilityService) where
  view_eq :
      (eq_reliability r r' && eq_bool t t' && eq_history h h' && eq_service s s') ≡ true
      → ◌≡◌ {A = RouteView}
          (r, t, (h.kind, h.depth), service_view s)
          (r', t', (h'.kind, h'.depth), service_view s')
  view_eq e =
      let same_r : eq_reliability r r' ≡ true = ground arith in
      let same_t : eq_bool t t' ≡ true = ground arith in
      let same_h : eq_history h h' ≡ true = ground arith in
      let same_s : eq_service s s' ≡ true = ground arith in
      rw (eq_reliability_eq r r' same_r, eq_bool_eq t t' same_t)
        (ap (λ (v : (HistoryKind × ℤ) × Option (HistoryKind × ℤ)). (r', t', v.0, v.1))
          (views (h.kind, h.depth) (h'.kind, h'.depth) (service_view s) (service_view s')
            (eq_history_eq h h' same_h) (eq_service_eq s s' same_s)))
    where
      views :
          (x y : HistoryKind × ℤ) (u v : Option (HistoryKind × ℤ))
          → x ≡ y
          → u ≡ v
          → ◌≡◌ {A = (HistoryKind × ℤ) × Option (HistoryKind × ℤ)} (x, u) (y, v)
      views x y u v f g = rw (f, g) refl

  eq_of_view :
      ◌≡◌ {A = RouteView}
        (r, t, (h.kind, h.depth), service_view s)
        (r', t', (h'.kind, h'.depth), service_view s')
      → (eq_reliability r r' && eq_bool t t' && eq_history h h' && eq_service s s') ≡ true
  eq_of_view e =
      let same_r : r ≡ r' = ap (λ (v : RouteView). v.0) e in
      let same_t : t ≡ t' = ap (λ (v : RouteView). v.1) e in
      let same_h : eq_history h h' ≡ true = eq_history_of h h' (ap (λ (v : RouteView). v.2) e) in
      let same_s : eq_service s s' ≡ true = eq_service_of s s' (ap (λ (v : RouteView). v.3) e) in
      rw (same_r, same_t, same_h, same_s, eq_reliability_refl r', eq_bool_refl t') refl

-- The comparisons together are the equality of the views.
pub same_route_qos-views :
    {P : Type 0} ⦃c : Cyclors⦄ ⦃d : DefaultQos P⦄ (a b : Qos P) (reader : Bool)
    → (same_route_qos a b reader ≡ true) ↔ (route_view reader a ≡ route_view reader b)
unfolding same_route_qos
same_route_qos-views a b reader =
    let r = route_reliability reader a in
    let r' = route_reliability reader b in
    (
      view_eq r r' (is_transient_local a) (is_transient_local b) (history_of a) (history_of b)
          a.durability_service b.durability_service,
      eq_of_view r r' (is_transient_local a) (is_transient_local b) (history_of a) (history_of b)
          a.durability_service b.durability_service,
    )
