-- ===== src/Liveliness/Slashes.antt =====
-- The escape of slashes in a token, and the way back.
use zenoh_plugin_ros2dds.Base.{
  ℕ, ◌==◌, ◌&&◌, ◌||◌, ◌≡◌, refl, Text, Bool, false, [], ◌∷◌, Bool-cases, inl, inr, arith,
}
use zenoh_plugin_ros2dds.Liveliness.{replace_slashes, replace_marks}

-- Whether a text has the character § in it.
abbrev pub has_mark : Text → Bool
has_mark [] = false
has_mark (a ∷ []) = false
has_mark (a ∷ b ∷ s) = ((a == 194) && (b == 167)) || has_mark (b ∷ s)

abbrev pub has_slash : Text → Bool
has_slash [] = false
has_slash (a ∷ s) = (a == 47) || has_slash s

pub replace_slashes-no_slash : (s : Text) → has_slash (replace_slashes s) ≡ false
unfolding replace_slashes
replace_slashes-no_slash [] = refl
replace_slashes-no_slash (a ∷ s) = ground (arith, replace_slashes-no_slash s)

keep :
    (a b : ℕ) (s : Text)
    → ((a == 194) && (b == 167)) ≡ false
    → replace_marks (a ∷ b ∷ s) ≡ a ∷ replace_marks (b ∷ s)
unfolding replace_marks
keep a b s h = rw (replace_marks, h) refl

keep_next :
    (a : ℕ) (s : Text)
    → has_mark (a ∷ s) ≡ false
    → replace_marks (a ∷ replace_slashes s) ≡ a ∷ replace_marks (replace_slashes s)
unfolding replace_slashes replace_marks
keep_next a [] h = refl
keep_next a (b ∷ s) h = elim (Bool-cases (b == 47)) [
  | inl slash ↦ rw (replace_slashes, slash) (keep a 194 (167 ∷ replace_slashes s) (ground arith))
  | inr other ↦ rw (replace_slashes, other) (keep a b (replace_slashes s) (ground (arith, h)))
]

has_mark-tail : (a : ℕ) (s : Text) → has_mark (a ∷ s) ≡ false → has_mark s ≡ false
has_mark-tail a [] h = refl
has_mark-tail a (b ∷ s) h = ground (arith, h)

-- A text without § comes back from the two replacements.
pub replace_marks-replace_slashes :
    (s : Text) → has_mark s ≡ false → replace_marks (replace_slashes s) ≡ s
unfolding replace_slashes replace_marks
replace_marks-replace_slashes [] h = refl
replace_marks-replace_slashes (a ∷ s) h =
    let tail = replace_marks-replace_slashes s (has_mark-tail a s h) in
    elim (Bool-cases (a == 47)) [
      | inl slash ↦
          let is_slash : a ≡ 47 = ground (arith, slash) in
          rw (replace_slashes, slash) (rw (tail, is_slash) refl)
      | inr other ↦ rw (replace_slashes, other) (rw (keep_next a s h, tail) refl)
    ]
