-- ===== src/Qos/Comparison.antt =====
-- What `same_route_qos` compares.
pub mod Views
use zenoh_plugin_ros2dds.Base.{◌≡◌, refl, Bool, true, false, not, ◌&&◌, ◌||◌, Option, none, some}
use zenoh_plugin_ros2dds.Base.Int.{ℤ, pos}
use zenoh_plugin_ros2dds.Qos.{
  Qos, Cyclors, Reliability, HistoryKind, DurabilityKind, ReliabilityKind, reliable, eq_reliability,
  is_transient_local, history_of,
}
use zenoh_plugin_ros2dds.Qos.Comparison.Views.{service_view, RouteView}

-- What DDS documents: a reader that sets no reliability requests BEST_EFFORT, and a writer that sets none
-- offers RELIABLE.
abbrev pub requests_reliable : Option Reliability → Bool
requests_reliable none = false
requests_reliable (some r) = eq_reliability r.kind reliable

abbrev pub offers_reliable : Option Reliability → Bool
offers_reliable none = true
offers_reliable (some r) = eq_reliability r.kind reliable

-- Whether a reader's and a writer's reliability and durability (transient local or not) are compatible.
abbrev pub compatible : {P : Type 0} → Qos P → Qos P → Bool
compatible r w =
    (not (requests_reliable r.reliability) || offers_reliable w.reliability)
    && (not (is_transient_local r) || is_transient_local w)

-- The same for an endpoint of the route, a reader or a writer, and an endpoint of the other kind.
abbrev pub meets : {P : Type 0} → Bool → Qos P → Qos P → Bool
meets true q o = compatible q o
meets false q o = compatible o q

-- Two QoS meet the same endpoints, and have the same clamped history and service history.
abbrev pub IsAlike : {P : Type 0} ⦃c : Cyclors⦄ → Bool → Qos P → Qos P → Type 0
IsAlike {P} reader a b =
    ((o : Qos P) → meets reader a o ≡ meets reader b o)
    × ((history_of a).kind ≡ (history_of b).kind)
    × ((history_of a).depth ≡ (history_of b).depth)
    × (service_view a.durability_service ≡ service_view b.durability_service)

-- The reliability that DDS reads from an endpoint's QoS.
abbrev read_reliability : Bool → Option Reliability → Bool
read_reliability true o = requests_reliable o
read_reliability false o = offers_reliable o

-- An endpoint with a reliability and a durability.
abbrev endpoint : {P : Type 0} → ReliabilityKind → DurabilityKind → Qos P → Qos P
endpoint kind durability q = record q {
  reliability = some (record { kind = kind; max_blocking_time = pos 0 });
  durability = some durability;
}

views :
    (r r' : ReliabilityKind) (t t' : Bool) (x y : HistoryKind × ℤ) (u v : Option (HistoryKind × ℤ))
    → r ≡ r'
    → t ≡ t'
    → x ≡ y
    → u ≡ v
    → ◌≡◌ {A = RouteView} (r, t, x, u) (r', t', y, v)
views r r' t t' x y u v e f g h = rw (e, f, g, h) refl
