-- ===== src/Routes/ForwardQueue/Fifo.antt =====
-- What flume documents of a bounded channel: it holds its messages in the order in which they were
-- sent, and refuses one more when it is full.
use zenoh_plugin_ros2dds.Base.{
  ℕ, ◌+◌, ◌≤◌, ◌<◌, ◌≡◌, Option, none, some, List, [], ◌∷◌, ◌++◌, length, is_empty, arith,
}
use zenoh_plugin_ros2dds.Routes.ForwardQueue.{FwdCmd, Channel, FwdQueue, size, word}

module _ {C : Type 0} where
  abbrev pub IsReceived :
      (C → List FwdCmd) → (C → ℕ) → ℕ → List FwdCmd → Option (FwdCmd × C) → Type 0
  IsReceived contents capacity n [] r = r ≡ none
  IsReceived contents capacity n (x ∷ xs) r =
      (d : C) × (r ≡ some (x, d)) × (contents d ≡ xs) × (capacity d ≡ n)

pub record IsFifo (C : Type 0) ⦃c : Channel C⦄ : Type 0 where
  pub contents : C → List FwdCmd
  pub capacity : C → ℕ
  pub bounded_lem : (n : ℕ) → 0 < n → (contents (c.bounded n) ≡ []) × (capacity (c.bounded n) ≡ n)
  pub len_lem : (q : C) → c.len q ≡ length (contents q)
  pub is_empty_lem : (q : C) → c.is_empty q ≡ is_empty (contents q)
  pub try_recv_lem : (q : C) → IsReceived contents capacity (capacity q) (contents q) (c.try_recv q)
  pub try_send_lem :
      (q : C) (m : FwdCmd)
      → length (contents q) < capacity q
      → (d : C) × (c.try_send m q ≡ some d)
        × (contents d ≡ contents q ++ m ∷ [])
        × (capacity d ≡ capacity q)
  pub try_send_full :
      (q : C) (m : FwdCmd) → capacity q ≤ length (contents q) → c.try_send m q ≡ none

-- The payload bytes of a list of commands.
abbrev pub total : List FwdCmd → ℕ
total [] = 0
total (x ∷ xs) = size x + total xs

pub total-append : (xs ys : List FwdCmd) → total (xs ++ ys) ≡ total xs + total ys
total-append [] ys = omega arith
total-append (x ∷ xs) ys = omega (arith, total-append xs ys)

-- 2^63: no allocation of Rust is as large.
abbrev pub half_word : ℕ
half_word = 9223372036854775808

-- The byte counter counts what is queued, and both counters are words.
abbrev pub IsCounted : {C : Type 0} ⦃c : Channel C⦄ ⦃f : IsFifo C⦄ → FwdQueue C → Type 0
IsCounted ⦃f⦄ q =
    (q.bytes ≡ total (f.contents q.channel)) × (q.bytes < half_word) × (q.dropped < word)
