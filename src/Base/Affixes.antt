-- ===== src/Base/Affixes.antt =====
-- Suffixes and slices of a text that is put together from parts.
use Prim.Native.Nat.{ℕ, suc, ◌+◌, ◌-◌, ◌≤◌}
use mathlib.Core.Path.{◌≡◌, refl, sym, ap, ◌∙◌}
use mathlib.Core.Logic.{inl, inr}
use mathlib.Core.Bool.{true, false}
use mathlib.Core.List.{[], ◌∷◌, ◌++◌, append_assoc, append_cancel_right}
use mathlib.Core.Option.{some}
use native.Mathlib.Omega.{arith}
use zenoh_plugin_ros2dds.Base.Tests.{le→leb, Bool-cases}
use zenoh_plugin_ros2dds.Base.Lists.{
  length, take, drop, get_elem?, length-append, take-append_left, drop-append_left,
  take-append-drop,
}
use zenoh_plugin_ros2dds.Base.Texts.{
  Text, str_eq_refl, eq_of_str_eq, ends_with, is_continuation, is_char_boundary, slice_to,
  slice_from,
}

length_sub : (s t : Text) → length (s ++ t) - length t ≡ length s
length_sub s t = omega (arith, length-append s t)

pub ends_with-append : (s t : Text) → ends_with (s ++ t) t ≡ true
unfolding ends_with
ends_with-append s t = rw (
  length_sub s t,
  drop-append_left s t,
  str_eq_refl t,
  le→leb (length t) (length (s ++ t)) (omega (arith, length-append s t)),
)

-- A text that ends with another is a part followed by it.
pub ends_with_inv : (s t : Text) → ends_with s t ≡ true → s ≡ take (length s - length t) s ++ t
unfolding ends_with
ends_with_inv s t h =
    sym (take-append-drop (length s - length t) s)
    ∙ ap (λ (u : Text). take (length s - length t) s ++ u)
        (eq_of_str_eq (drop (length s - length t) s) t (ground arith))

drop-append_add : (s t : Text) (k : ℕ) → drop (length s + k) (s ++ t) ≡ drop k t
drop-append_add [] t k = ap (λ (j : ℕ). drop j t) (omega arith)
drop-append_add (x ∷ s) t k =
    ap (λ (j : ℕ). drop j (x ∷ (s ++ t))) {x = length (x ∷ s) + k} {y = suc (length s + k)}
      (omega arith)
    ∙ drop-append_add s t k

-- A suffix no longer than the last part is a suffix of that part.
pub ends_with-append_short :
    (s t u : Text) → length u ≤ length t → ends_with (s ++ t) u ≡ ends_with t u
unfolding ends_with
ends_with-append_short s t u h =
    let e : length (s ++ t) - length u ≡ length s + (length t - length u) =
      omega (arith, length-append s t) in
    rw (
      e,
      drop-append_add s t (length t - length u),
      le→leb (length u) (length (s ++ t)) (omega (arith, length-append s t)),
      le→leb (length u) (length t) h,
    )

-- A suffix of a suffix.
pub ends_with_trans : (s t u : Text) → ends_with s (t ++ u) ≡ true → ends_with s u ≡ true
ends_with_trans s t u h =
    let p = take (length s - length (t ++ u)) s in
    rw (ends_with_inv s (t ++ u) h ∙ sym (append_assoc p t u)) (ends_with-append (p ++ t) u)

get_elem?-append : (s t : Text) → get_elem? (s ++ t) (length s) ≡ get_elem? t 0
get_elem?-append [] t = refl
get_elem?-append (x ∷ s) t = get_elem?-append s t

-- The place before a byte that begins a character is a boundary, and the slice up to it is what
-- stands before.
pub slice_to-append :
    (s : Text) (b : ℕ) (t : Text)
    → is_continuation b ≡ false
    → slice_to (s ++ b ∷ t) (length s) ≡ some s
unfolding slice_to is_char_boundary
slice_to-append s b t h = ground (arith, get_elem?-append s (b ∷ t), take-append_left s (b ∷ t))

pub slice_to-append_sub :
    (s : Text) (b : ℕ) (t : Text) (n : ℕ)
    → is_continuation b ≡ false
    → length (b ∷ t) ≡ n
    → slice_to (s ++ b ∷ t) (length (s ++ b ∷ t) - n) ≡ some s
slice_to-append_sub s b t n h e = rw (← e, length_sub s (b ∷ t)) (slice_to-append s b t h)

-- A pattern that is no suffix of the last part is no suffix of the whole.
pub not_ends_with :
    (s t u : Text) → length u ≤ length t → ends_with t u ≡ false → ends_with (s ++ t) u ≡ false
not_ends_with s t u h e = rw (ends_with-append_short s t u h) e

-- The same for a longer pattern, by its end.
pub not_ends_with_long :
    (s t v u : Text)
    → length u ≤ length t
    → ends_with t u ≡ false
    → ends_with (s ++ t) (v ++ u) ≡ false
not_ends_with_long s t v u h e = elim (Bool-cases (ends_with (s ++ t) (v ++ u))) [
  | inl yes_it_does ↦ cc (ends_with_trans (s ++ t) v u yes_it_does, not_ends_with s t u h e)
  | inr it_does_not ↦ it_does_not
]

-- A common end may be taken off.
pub ends_with-append_both :
    (s v u : Text) → ends_with (s ++ u) (v ++ u) ≡ true → ends_with s v ≡ true
ends_with-append_both s v u h =
    let p = take (length (s ++ u) - length (v ++ u)) (s ++ u) in
    rw
      (append_cancel_right s (p ++ v) u
        (ends_with_inv (s ++ u) (v ++ u) h ∙ sym (append_assoc p v u)))
      (ends_with-append p v)

pub not_ends_with_both :
    (s v u : Text) → ends_with s v ≡ false → ends_with (s ++ u) (v ++ u) ≡ false
not_ends_with_both s v u e = elim (Bool-cases (ends_with (s ++ u) (v ++ u))) [
  | inl yes_it_does ↦ cc (ends_with-append_both s v u yes_it_does)
  | inr it_does_not ↦ it_does_not
]

-- The two slices of a topic's name: its first three bytes, and all but the first two.
pub slice_to_three :
    (a b d c : ℕ) (rest : Text)
    → is_continuation c ≡ false
    → slice_to (a ∷ b ∷ d ∷ c ∷ rest) 3 ≡ some (a ∷ b ∷ d ∷ [])
unfolding slice_to is_char_boundary
slice_to_three a b d c rest h = ground arith

pub slice_from_two :
    (a b c : ℕ) (rest : Text)
    → is_continuation c ≡ false
    → slice_from (a ∷ b ∷ c ∷ rest) 2 ≡ some (c ∷ rest)
unfolding slice_from is_char_boundary
slice_from_two a b c rest h = ground arith
