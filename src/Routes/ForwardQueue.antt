-- ===== src/Routes/ForwardQueue.antt =====
-- The queue of a route from DDS to zenoh: `FwdQueue` of zenoh-plugin-ros2dds/src/route_publisher.rs.
-- The DDS Reader's callback pushes and the forwarder thread pops. usize and u64 have 64 bits; their
-- atomic operations wrap. `none` of `evict` stands for a loop that is not done when the fuel is.
pub mod Fifo
pub mod Eviction
pub mod Push
pub mod Runs
pub mod Examples
use zenoh_plugin_ros2dds.Base.{
  ℕ, zero, suc, ◌+◌, ◌-◌, ◌%◌, min, max, Text, Bool, not, ◌&&◌, ◌||◌, Option, none, some, length,
  ltb, leb, if◌then◌else◌,
}

pub data FwdCmd : Type 0 where
  -- the payload, and whether it comes from the VOLATILE Reader
  msg : Text → Bool → FwdCmd
  stop : FwdCmd

-- A bounded channel of flume, with its sender and its receiver in one. `none` is an error: of
-- `try_send` on a full channel, of `try_recv` on an empty one.
pub record Channel (C : Type 0) : Type 0 where
  pub bounded : ℕ → C
  pub len : C → ℕ
  pub is_empty : C → Bool
  pub try_send : FwdCmd → C → Option C
  pub try_recv : C → Option (FwdCmd × C)

pub record FwdQueue (C : Type 0) : Type 0 where
  pub channel : C
  pub limit : ℕ
  pub bytes : ℕ
  pub dropped : ℕ

abbrev pub fwd_queue_size : ℕ
fwd_queue_size = 256

abbrev pub fwd_queue_max : ℕ
fwd_queue_max = 4096

abbrev pub fwd_queue_bytes : ℕ
fwd_queue_bytes = 16777216

-- 2^64
abbrev pub word : ℕ
word = 18446744073709551616

-- `fetch_add` and `fetch_sub` of a number, of which 64 bits count.
abbrev pub wrapping_add : ℕ → ℕ → ℕ
wrapping_add a b = (a + b) % word

abbrev pub wrapping_sub : ℕ → ℕ → ℕ
wrapping_sub a b = (a + (word - b % word)) % word

-- `payload.len()`; a `Stop` counts nothing.
abbrev pub size : FwdCmd → ℕ
size (msg payload volatile) = length payload
size stop = 0

module _ {C : Type 0} ⦃c : Channel C⦄ where
  unfoldable pub new : ℕ → FwdQueue C
  new limit = record { channel = c.bounded fwd_queue_max; limit = limit; bytes = 0; dropped = 0 }

  unfoldable pub pop : FwdQueue C → Option (FwdCmd × FwdQueue C)
  pop q = elim (c.try_recv q.channel) [
    | none ↦ none
    | some r ↦ some (r.0, record q { channel = r.1; bytes = wrapping_sub q.bytes (size r.0) })
  ]

  -- The condition of the loop that evicts.
  abbrev pub is_over : ℕ → FwdQueue C → Bool
  is_over len q =
      leb q.limit (c.len q.channel)
      || (not (c.is_empty q.channel) && ltb fwd_queue_bytes (wrapping_add q.bytes len))

  -- The loop, with the number of samples that it evicts.
  unfoldable pub evict : ℕ → ℕ → FwdQueue C → Option (FwdQueue C × ℕ)
  evict zero len q = none
  evict (suc fuel) len q =
      if is_over len q
      then elim (pop q) [
        | none ↦ some (q, 0)
        | some r ↦ elim (evict fuel len r.1) [ none ↦ none | some s ↦ some (s.0, suc s.1) ]
      ]
      else some (q, 0)

  abbrev pub count_dropped : ℕ → FwdQueue C → FwdQueue C
  count_dropped evicted q =
      if ltb 0 evicted then record q { dropped = wrapping_add q.dropped evicted } else q

  -- After the loop: the bytes are counted before the sample is sent, and taken back if it is not.
  abbrev pub send : Text → Bool → FwdQueue C × ℕ → FwdQueue C × ℕ
  send payload volatile (q, evicted) =
      let counted = wrapping_add q.bytes (length payload) in
      elim (c.try_send (msg payload volatile) q.channel) [
        | none ↦ (
          count_dropped (suc evicted) (record q { bytes = wrapping_sub counted (length payload) }),
          suc evicted,
        )
        | some channel ↦
            (count_dropped evicted (record q { channel = channel; bytes = counted }), evicted)
      ]

  -- The fuel lets the loop pop each of the queued samples.
  unfoldable pub push : Text → Bool → FwdQueue C → Option (FwdQueue C × ℕ)
  unfolding evict
  push payload volatile q = elim (evict (suc (c.len q.channel)) (length payload) q) [
    | none ↦ none
    | some r ↦ some (send payload volatile r)
  ]

-- The number of samples that a route queues, from the size of its zenoh cache.
abbrev pub queue_limit_for : ℕ → ℕ
queue_limit_for cache_size = max fwd_queue_size (min cache_size fwd_queue_max)
