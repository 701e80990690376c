-- ===== src/Go/Text/Trimmed.antt =====
-- Trimming a text a second time changes nothing.
use Prim.Native.Char.{code}
use Prim.Native.String.{String, [], ◌∷◌}
use bonipam.Common.{◌≡◌, refl, false, ap, ◌∙◌, Bool-cases, inl, inr, ◌==◌, ◌&&◌}
use bonipam.Go.Text.{is_space, trim_left, trim_right, trim_space}

abbrev Starts : String → Type 0
Starts [] = Unit
Starts (c ∷ s) = is_space (code c) ≡ false

trim_left-Starts : (s : String) → Starts (trim_left s)
unfolding trim_left
trim_left-Starts [] = tt
trim_left-Starts (c ∷ s) = elim (Bool-cases (is_space (code c))) [
  | inl space ↦ rw (space, trim_left) (trim_left-Starts s)
  | inr other ↦ rw (other, trim_left) other
]

trim_left_of_Starts : (s : String) → Starts s → trim_left s ≡ s
unfolding trim_left
trim_left_of_Starts [] h = refl
trim_left_of_Starts (c ∷ s) h = rw (h, trim_left)

trim_right-Starts : (s : String) → Starts s → Starts (trim_right s)
unfolding trim_right
trim_right-Starts [] h = tt
trim_right-Starts (c ∷ s) h = rw (h, trim_right) h

trim_right_twice : (s : String) → trim_right (trim_right s) ≡ trim_right s
unfolding trim_right
trim_right_twice [] = refl
trim_right_twice (c ∷ s) = elim (Bool-cases (is_space (code c) && trim_right s == "")) [
  | inl blank ↦ rw blank
  | inr kept ↦ rw kept (rw (trim_right_twice s) (rw kept))
]

pub trim_space_twice : (s : String) → trim_space (trim_space s) ≡ trim_space s
unfolding trim_space
trim_space_twice s =
    ap trim_right (trim_left_of_Starts _ (trim_right-Starts _ (trim_left-Starts s)))
    ∙ trim_right_twice (trim_left s)
