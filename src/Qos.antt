-- ===== src/Qos.antt =====
-- zenoh-plugin-ros2dds/src/qos_helpers.rs: the QoS of the DDS endpoints of routes. The struct `Qos`
-- and its parts belong to the crate cyclors: the fields that the source names are modelled, policies that it
-- only copies or drops have the parameter `P` for their type, and `rest` holds all others.
pub mod Routes
pub mod Depths
pub mod Readers
pub mod Writers
pub mod Announced
pub mod Bridges
pub mod Comparison
pub mod Examples
pub mod Split
use zenoh_plugin_ros2dds.Base.{
  ℕ, ◌==◌, ◌*◌, max, length, Bool, true, false, not, ◌&&◌, ◌||◌, Option, none, some, List, [], ◌∷◌,
  map, any, all, filter, is_empty, ltb, Text, str_eq, if◌then◌else◌,
}
use zenoh_plugin_ros2dds.Base.Int.{
  ℤ, pos, ltb_ℤ, eqb_ℤ, ◌+ℤ◌, ◌*ℤ◌, min_ℤ, max_ℤ, as_i64, as_i32, saturate_i64,
}

pub data ReliabilityKind : Type 0 where
  best_effort reliable : ReliabilityKind

pub data DurabilityKind : Type 0 where
  volatile transient_local transient persistent : DurabilityKind

pub data HistoryKind : Type 0 where
  keep_last keep_all : HistoryKind

pub record Reliability : Type 0 where
  pub kind : ReliabilityKind
  pub max_blocking_time : ℤ

pub record History : Type 0 where
  pub kind : HistoryKind
  pub depth : ℤ

pub record DurabilityService : Type 0 where
  pub service_cleanup_delay : ℤ
  pub history_kind : HistoryKind
  pub history_depth : ℤ
  pub max_samples : ℤ
  pub max_instances : ℤ
  pub max_samples_per_instance : ℤ

-- `IgnoreLocalKind`, of which the source uses one.
pub data IgnoreLocalKind : Type 0 where
  participant : IgnoreLocalKind
  other_kind : ℕ → IgnoreLocalKind

pub record Qos (P : Type 0) : Type 0 where
  pub durability : Option DurabilityKind
  pub durability_service : Option DurabilityService
  pub presentation : Option P
  pub deadline : Option P
  -- the duration
  pub latency_budget : Option ℤ
  pub ownership_strength : Option P
  pub liveliness : Option P
  pub time_based_filter : Option P
  pub reliability : Option Reliability
  pub transport_priority : Option P
  pub lifespan : Option P
  pub destination_order : Option P
  pub history : Option History
  pub resource_limits : Option P
  pub writer_data_lifecycle : Option P
  pub reader_data_lifecycle : Option P
  pub writer_batching : Option P
  pub properties : Option P
  pub ignore_local : Option IgnoreLocalKind
  pub data_representation : Option P
  pub entity_name : Option P
  pub rest : P

-- The constants of cyclors and its `Default` instances.
pub record Cyclors : Type 0 where
  pub dds_100ms_duration : ℕ
  pub dds_1s_duration : ℕ
  pub dds_infinite_time : ℤ
  pub dds_length_unlimited : ℤ
  pub default_history : History

pub record DefaultQos (P : Type 0) : Type 0 where
  pub default_qos : Qos P

abbrev pub eq_reliability : ReliabilityKind → ReliabilityKind → Bool
eq_reliability best_effort best_effort = true
eq_reliability best_effort reliable = false
eq_reliability reliable best_effort = false
eq_reliability reliable reliable = true

abbrev pub eq_history_kind : HistoryKind → HistoryKind → Bool
eq_history_kind keep_last keep_last = true
eq_history_kind keep_last keep_all = false
eq_history_kind keep_all keep_last = false
eq_history_kind keep_all keep_all = true

abbrev pub is_kind_reliable : Option Reliability → Bool
is_kind_reliable none = false
is_kind_reliable (some r) = eq_reliability r.kind reliable

abbrev pub is_not_volatile : Option DurabilityKind → Bool
is_not_volatile none = false
is_not_volatile (some volatile) = false
is_not_volatile (some _) = true

abbrev pub or_default {ℓ} : {A : Type ℓ} → A → Option A → A
or_default d none = d
or_default d (some a) = a

module _ {P : Type 0} where
  abbrev pub is_reliable : Qos P → Bool
  is_reliable q = is_kind_reliable q.reliability

  abbrev pub is_transient_local : Qos P → Bool
  is_transient_local q = is_not_volatile q.durability

abbrev pub durability_of : Bool → Option DurabilityKind
durability_of tl = some (if tl then transient_local else volatile)

-- The depth of KEEP_LAST is at least 1.
abbrev pub clamp_depth : History → History
clamp_depth h = record h {
  depth = if eq_history_kind h.kind keep_last then max_ℤ h.depth (pos 1) else h.depth;
}

-- One step of `reduce`.
abbrev pub stronger : History → History → History
stronger a b =
    if eq_history_kind a.kind keep_all
    then a
    else if eq_history_kind b.kind keep_all
    then b
    else if ltb_ℤ a.depth b.depth
    then b
    else a

abbrev pub strongest : History → List History → History
strongest a [] = a
strongest a (b ∷ hs) = strongest (stronger a b) hs

abbrev pub sum : List ℤ → ℤ
sum [] = pos 0
sum (z ∷ zs) = z +ℤ sum zs

abbrev pub max_tl_depth : ℤ
max_tl_depth = pos 10000

-- `partition`: the members that pass the test and those that do not.
abbrev pub partition {ℓ} : {A : Type ℓ} → (A → Bool) → List A → List A × List A
partition p [] = ([], [])
partition p (x ∷ xs) =
    let rest = partition p xs in if p x then (x ∷ rest.0, rest.1) else (rest.0, x ∷ rest.1)

-- `max_blocking_time.saturating_add(1)`
abbrev pub outwait : Reliability → Reliability
outwait r = record r { max_blocking_time = saturate_i64 (r.max_blocking_time +ℤ pos 1) }

module _ ⦃c : Cyclors⦄ where
  abbrev pub reliability_of : ReliabilityKind → Option Reliability
  reliability_of kind = some (record { kind = kind; max_blocking_time = pos c.dds_100ms_duration })

  unfoldable pub tl_durability_service : History → DurabilityService
  tl_durability_service h = record {
    service_cleanup_delay = pos (60 * c.dds_1s_duration);
    history_kind = h.kind;
    history_depth = h.depth;
    max_samples = c.dds_length_unlimited;
    max_instances = c.dds_length_unlimited;
    max_samples_per_instance = c.dds_length_unlimited;
  }

module _ {P : Type 0} ⦃c : Cyclors⦄ where
  abbrev pub get_history_or_default : Qos P → History
  get_history_or_default q = or_default c.default_history q.history

  abbrev pub history_of : Qos P → History
  history_of q = clamp_depth (get_history_or_default q)

  unfoldable pub adapt_writer_qos_for_reader : Qos P → Qos P
  adapt_writer_qos_for_reader q = record q {
    durability_service = none;
    ownership_strength = none;
    transport_priority = none;
    lifespan = none;
    writer_data_lifecycle = none;
    writer_batching = none;
    properties = none;
    entity_name = none;
    ignore_local = some participant;
    reliability = some (
        or_default (record { kind = best_effort; max_blocking_time = pos c.dds_100ms_duration })
          q.reliability);
  }

  unfoldable pub adapt_reader_qos_for_writer : Qos P → Qos P
  unfolding tl_durability_service
  adapt_reader_qos_for_writer q = record q {
    time_based_filter = none;
    reader_data_lifecycle = none;
    properties = none;
    entity_name = none;
    ignore_local = some participant;
    durability_service =
        if is_transient_local q
        then some (tl_durability_service (get_history_or_default q))
        else q.durability_service;
    reliability = some (
        outwait (
          or_default (record { kind = reliable; max_blocking_time = pos c.dds_100ms_duration })
            q.reliability));
  }
