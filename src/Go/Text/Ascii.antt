-- ===== src/Go/Text/Ascii.antt =====
-- On ASCII texts, strings.EqualFold is equality under strings.ToLower.
use Prim.Native.Char.{code}
use Prim.Native.String.{String, [], ◌∷◌}
use bonipam.Common.{◌≡◌, refl, Bool, true, ◌==◌, ◌&&◌, leb, Bool-cases, inl, inr, arith}
use bonipam.Go.Text.{
  is_space, trim_left, trim_right, trim_space, to_lower, fold, fold_case, equal_fold,
}

unfoldable pub is_ascii : String → Bool
is_ascii [] = true
is_ascii (c ∷ s) = leb (code c) 127 && is_ascii s

trim_left-is_ascii : (s : String) → is_ascii s ≡ true → is_ascii (trim_left s) ≡ true
unfolding is_ascii trim_left
trim_left-is_ascii [] h = refl
trim_left-is_ascii (c ∷ s) h = ground (arith, trim_left-is_ascii s)

trim_right-is_ascii : (s : String) → is_ascii s ≡ true → is_ascii (trim_right s) ≡ true
unfolding is_ascii trim_right
trim_right-is_ascii [] h = refl
trim_right-is_ascii (c ∷ s) h = elim (Bool-cases (is_space (code c) && trim_right s == "")) [
  | inl blank ↦ rw (blank, trim_right) refl
  | inr kept ↦ rw (kept, trim_right) (ground (arith, trim_right-is_ascii s))
]

pub trim_space-is_ascii : (s : String) → is_ascii s ≡ true → is_ascii (trim_space s) ≡ true
unfolding trim_space
trim_space-is_ascii s h = trim_right-is_ascii (trim_left s) (trim_left-is_ascii s h)

fold_case-is_ascii : (s : String) → is_ascii s ≡ true → fold_case s ≡ to_lower s
unfolding is_ascii fold_case fold to_lower
fold_case-is_ascii [] h = refl
fold_case-is_ascii (c ∷ s) h = ground (arith, fold_case-is_ascii s)

pub equal_fold-is_ascii :
    (s t : String)
    → is_ascii s ≡ true
    → is_ascii t ≡ true
    → equal_fold s t ≡ (to_lower s == to_lower t)
unfolding equal_fold
equal_fold-is_ascii s t left right = rw (fold_case-is_ascii s left, fold_case-is_ascii t right) refl
