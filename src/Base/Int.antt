-- ===== src/Base/Int.antt =====
-- Signed integers (i32 and i64) over the native numbers.
use Prim.Native.Nat.{ℕ, zero, suc, ◌+◌, ◌-◌, ◌*◌, ◌%◌, min}
use mathlib.Core.Bool.{Bool, true, false}
use zenoh_plugin_ros2dds.Base.Tests.{ltb, leb, ◌==◌, if◌then◌else◌}

-- `negsuc n` is -(n + 1).
pub data ℤ : Type 0 where
  pos : ℕ → ℤ
  negsuc : ℕ → ℤ

abbrev pub pos_part : ℤ → ℕ
pos_part (pos n) = n
pos_part (negsuc n) = 0

abbrev pub neg_part : ℤ → ℕ
neg_part (pos n) = 0
neg_part (negsuc n) = suc n

abbrev pub ltb_ℤ : ℤ → ℤ → Bool
ltb_ℤ (pos a) (pos b) = ltb a b
ltb_ℤ (pos a) (negsuc b) = false
ltb_ℤ (negsuc a) (pos b) = true
ltb_ℤ (negsuc a) (negsuc b) = ltb b a

abbrev pub eqb_ℤ : ℤ → ℤ → Bool
eqb_ℤ (pos a) (pos b) = a == b
eqb_ℤ (pos a) (negsuc b) = false
eqb_ℤ (negsuc a) (pos b) = false
eqb_ℤ (negsuc a) (negsuc b) = a == b

-- a - b
abbrev diff : ℕ → ℕ → ℤ
diff a b = if leb b a then pos (a - b) else negsuc (b - a - 1)

-- -a
abbrev opposite : ℕ → ℤ
opposite zero = pos 0
opposite (suc n) = negsuc n

infixl 6 ◌+ℤ◌
abbrev pub ◌+ℤ◌ : ℤ → ℤ → ℤ
pos a +ℤ pos b = pos (a + b)
pos a +ℤ negsuc b = diff a (suc b)
negsuc a +ℤ pos b = diff b (suc a)
negsuc a +ℤ negsuc b = negsuc (suc (a + b))

infixl 7 ◌*ℤ◌
abbrev pub ◌*ℤ◌ : ℤ → ℤ → ℤ
pos a *ℤ pos b = pos (a * b)
pos a *ℤ negsuc b = opposite (a * suc b)
negsuc a *ℤ pos b = opposite (suc a * b)
negsuc a *ℤ negsuc b = pos (suc a * suc b)

abbrev pub min_ℤ : ℤ → ℤ → ℤ
min_ℤ a b = if ltb_ℤ b a then b else a

abbrev pub max_ℤ : ℤ → ℤ → ℤ
max_ℤ a b = if ltb_ℤ a b then b else a

-- The bits of `m` (less than 2^w) as a signed integer of w bits, of which 2^(w-1) is `half`.
abbrev signed : ℕ → ℕ → ℤ
signed half m = if ltb m half then pos m else negsuc (half + half - 1 - m)

-- `as` to a signed type of w bits.
abbrev wrap : ℕ → ℤ → ℤ
wrap half (pos n) = signed half (n % (half + half))
wrap half (negsuc n) = signed half (half + half - 1 - n % (half + half))

abbrev pub i64_half : ℕ
i64_half = 9223372036854775808

abbrev pub i32_half : ℕ
i32_half = 2147483648

abbrev pub as_i64 : ℤ → ℤ
as_i64 z = wrap i64_half z

abbrev pub as_i32 : ℤ → ℤ
as_i32 z = wrap i32_half z

-- The nearest i64, for `saturating_add` and `saturating_mul`.
abbrev pub saturate_i64 : ℤ → ℤ
saturate_i64 (pos n) = pos (min n (i64_half - 1))
saturate_i64 (negsuc n) = negsuc (min n (i64_half - 1))
