-- ===== src/Go/Text/Lowered.antt =====
-- Lower case and trimming do not disturb each other, and each is done once and for all.
use Prim.Native.Char.{Char, code}
use Prim.Native.String.{String, [], ◌∷◌, char_at}
use bonipam.Common.{
  ℕ, zero, suc, ◌-◌, ◌<◌, ◌≡◌, refl, true, false, Bool, Bool-cases, inl, inr, ◌==◌, ◌&&◌, leb,
  nat_eq, ap, sym, ◌∙◌, arith, eq_iff, ◌⊎◌,
}
use bonipam.Go.Text.{
  is_space, trim_left, trim_right, trim_space, letters, lower, to_lower, fold_case, equal_fold,
}

abbrev all_below : (ℕ → Bool) → ℕ → Bool
all_below p zero = true
all_below p (suc n) = p n && all_below p n

holds_below : (p : ℕ → Bool) (n k : ℕ) → all_below p n ≡ true → k < n → p k ≡ true
holds_below p zero k all below = elim below [ ]
holds_below p (suc n) k all below = elim (Bool-cases (nat_eq k n)) [
  | inl last ↦ let same : k ≡ n = ground (arith, last) in ground (arith, same, ap p same)
  | inr earlier ↦ ground (arith, holds_below p n k)
]

abbrev is_small_letter : Char → Bool
is_small_letter c = leb b'a' (code c) && leb (code c) b'z'

small_letter : (k : ℕ) → k < 26 → is_small_letter (char_at letters k) ≡ true
small_letter k below = holds_below (λ i. is_small_letter (char_at letters i)) 26 k refl below

-- A lowered character is a small letter, or the character itself.
lower-cases : (c : Char) → (is_small_letter (lower c) ≡ true) ⊎ (lower c ≡ c)
unfolding lower
lower-cases c = elim (Bool-cases (leb b'A' (code c) && leb (code c) b'Z')) [
  | inl capital ↦ inl (rw (capital, lower) (small_letter (code c - b'A') (ground (arith, capital))))
  | inr other ↦ elim (Bool-cases (nat_eq (code c) 0x130)) [
    | inl dotted ↦ inl (rw (other, dotted, lower) refl)
    | inr plain ↦ elim (Bool-cases (nat_eq (code c) 0x212a)) [
      | inl kelvin ↦ inl (rw (other, plain, kelvin, lower) refl)
      | inr unlike ↦ inr (rw (other, plain, unlike, lower) refl)
    ]
  ]
]

lower_of_small : (c : Char) → is_small_letter c ≡ true → lower c ≡ c
unfolding lower
lower_of_small c small = ground (arith, small)

lower_twice : (c : Char) → lower (lower c) ≡ lower c
lower_twice c = elim (lower-cases c) [
  | inl small ↦ lower_of_small (lower c) small
  | inr same ↦ ap lower same
]

small_is_no_space : (c : Char) → is_small_letter c ≡ true → is_space (code c) ≡ false
unfolding is_space
small_is_no_space c small = ground (arith, small)

is_space-lower : (c : Char) → is_space (code (lower c)) ≡ is_space (code c)
unfolding lower is_space
is_space-lower c = elim (Bool-cases (leb b'A' (code c) && leb (code c) b'Z')) [
  | inr other ↦ elim (Bool-cases (nat_eq (code c) 0x130)) [
    | inl dotted ↦ let e : code c ≡ 0x130 = ground (arith, dotted) in rw e refl
    | inr plain ↦ elim (Bool-cases (nat_eq (code c) 0x212a)) [
      | inl kelvin ↦ let e : code c ≡ 0x212a = ground (arith, kelvin) in rw e refl
      | inr unlike ↦ rw (other, plain, unlike) refl
    ]
  ]
  | inl capital ↦ ground (arith, small_letter (code c - b'A'))
]

pub to_lower_twice : (s : String) → to_lower (to_lower s) ≡ to_lower s
unfolding to_lower
to_lower_twice [] = refl
to_lower_twice (c ∷ s) = rw (lower_twice c, to_lower_twice s) refl

trim_left-to_lower : (s : String) → trim_left (to_lower s) ≡ to_lower (trim_left s)
unfolding to_lower trim_left
trim_left-to_lower [] = refl
trim_left-to_lower (c ∷ s) = elim (Bool-cases (is_space (code c))) [
  | inl space ↦ rw (is_space-lower c, space) (trim_left-to_lower s)
  | inr other ↦ rw (is_space-lower c, other) refl
]

cons_nonempty : (c : Char) (s : String) → (c ∷ s == "") ≡ false
cons_nonempty c s = elim (Bool-cases (c ∷ s == "")) [
  | inl empty ↦ absurd (cc ((eq_iff (c ∷ s) "").0 empty))
  | inr filled ↦ filled
]

pub to_lower-empty : (s : String) → (to_lower s == "") ≡ (s == "")
unfolding to_lower
to_lower-empty [] = refl
to_lower-empty (c ∷ s) = cons_nonempty (lower c) (to_lower s) ∙ sym (cons_nonempty c s)

trim_right-to_lower : (s : String) → trim_right (to_lower s) ≡ to_lower (trim_right s)
unfolding to_lower trim_right
trim_right-to_lower [] = refl
trim_right-to_lower (c ∷ s) = elim (Bool-cases (is_space (code c) && trim_right s == "")) [
  | inl blank ↦
      rw (is_space-lower c, trim_right-to_lower s, to_lower-empty (trim_right s), blank) refl
  | inr kept ↦
      rw (is_space-lower c, trim_right-to_lower s, to_lower-empty (trim_right s), kept) refl
]

pub trim_space-to_lower : (s : String) → trim_space (to_lower s) ≡ to_lower (trim_space s)
unfolding trim_space
trim_space-to_lower s = ap trim_right (trim_left-to_lower s) ∙ trim_right-to_lower (trim_left s)

pub equal_fold_comm : (s t : String) → equal_fold s t ≡ equal_fold t s
unfolding equal_fold
equal_fold_comm s t =
    ground (arith, eq_iff (fold_case s) (fold_case t), eq_iff (fold_case t) (fold_case s))
