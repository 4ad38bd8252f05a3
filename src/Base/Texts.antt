-- ===== src/Base/Texts.antt =====
-- Texts as lists of bytes: the UTF-8 bytes of a Rust `str` or `String`. The program's own literals
-- are ASCII. Slicing follows Rust: an index beyond the end or inside a character panics (`none`).
use Prim.Native.Nat.{ℕ, ◌-◌}
use Prim.Native.Char.{code}
use Prim.Native.String.{String}
use mathlib.Core.Path.{◌≡◌, refl}
use mathlib.Core.Logic.{◌↔◌}
use mathlib.Core.Bool.{Bool, true, false, not, ◌&&◌, ◌||◌}
use mathlib.Core.List.{List, [], ◌∷◌}
use mathlib.Core.Option.{Option, none, some}
use native.Mathlib.Omega.{arith}
use zenoh_plugin_ros2dds.Base.Tests.{leb, ltb, ◌==◌, if◌then◌else◌}
use zenoh_plugin_ros2dds.Base.Lists.{length, take, drop, get_elem?}

abbrev pub Text : Type 0
Text = List ℕ

abbrev pub codes : String → Text
codes String.[] = []
codes (String.◌∷◌ c s) = code c ∷ codes s

-- `==` on texts and on byte arrays.
unfoldable pub str_eq : Text → Text → Bool
str_eq [] [] = true
str_eq [] (b ∷ t) = false
str_eq (a ∷ s) [] = false
str_eq (a ∷ s) (b ∷ t) = (a == b) && str_eq s t

pub str_eq_refl : (s : Text) → str_eq s s ≡ true
unfolding str_eq
str_eq_refl [] = refl
str_eq_refl (a ∷ s) = ground (arith, str_eq_refl s)

pub eq_of_str_eq : (s t : Text) → str_eq s t ≡ true → s ≡ t
unfolding str_eq
eq_of_str_eq [] [] h = refl
eq_of_str_eq [] (b ∷ t) h = cc
eq_of_str_eq (a ∷ s) [] h = cc
eq_of_str_eq (a ∷ s) (b ∷ t) h = ground (arith, eq_of_str_eq s t)

pub str_eq_iff : (s t : Text) → (str_eq s t ≡ true) ↔ (s ≡ t)
str_eq_iff s t = (eq_of_str_eq s t, λ e. rw (e) (str_eq_refl t))

-- `str::starts_with` and `str::ends_with`, with a text for the pattern.
unfoldable pub starts_with : Text → Text → Bool
starts_with s [] = true
starts_with [] (b ∷ t) = false
starts_with (a ∷ s) (b ∷ t) = (a == b) && starts_with s t

unfoldable pub ends_with : Text → Text → Bool
ends_with s t = leb (length t) (length s) && str_eq (drop (length s - length t) s) t

-- `str::strip_suffix`.
unfoldable pub strip_suffix : Text → Text → Option Text
unfolding ends_with
strip_suffix s t = if ends_with s t then some (take (length s - length t) s) else none

-- A byte that no character ends before: 0x80 to 0xBF.
abbrev pub is_continuation : ℕ → Bool
is_continuation b = leb 0x80 b && ltb b 0xC0

abbrev not_continuation_at : Option ℕ → Bool
not_continuation_at none = false
not_continuation_at (some b) = not (is_continuation b)

-- `str::is_char_boundary`.
unfoldable pub is_char_boundary : Text → ℕ → Bool
is_char_boundary s i = (i == 0) || (i == length s) || not_continuation_at (get_elem? s i)

-- `&s[..i]` and `&s[i..]`.
unfoldable pub slice_to : Text → ℕ → Option Text
slice_to s i = if is_char_boundary s i then some (take i s) else none

unfoldable pub slice_from : Text → ℕ → Option Text
slice_from s i = if is_char_boundary s i then some (drop i s) else none
