-- ===== src/Go/Sort.antt =====
-- sort.Slice: a permutation of the slice in which no element comes before one that is less.
-- (Go's order of elements that tie is not specified; this one keeps it.)
use mathlib.Core.List.{Perm}
use mathlib.Core.List.Perm
use bonipam.Common.Lists.{All}
use bonipam.Common.{
  ◌≡◌, arith, true, false, Bool, Bool-cases, inl, inr, List, [], ◌∷◌, if◌then◌else◌,
}

module _ {ℓ} {A : Type ℓ} (less : A → A → Bool) where
  unfoldable pub insert : A → List A → List A
  insert x [] = x ∷ []
  insert x (y ∷ ys) = let rest = insert x ys in if less y x then y ∷ rest else x ∷ y ∷ ys

  unfoldable pub sort_slice : List A → List A
  unfolding insert
  sort_slice [] = []
  sort_slice (x ∷ xs) = insert x (sort_slice xs)

  insert-perm : (x : A) (xs : List A) → Perm (insert x xs) (x ∷ xs)
  unfolding insert
  insert-perm x [] = Perm.refl (x ∷ [])
  insert-perm x (y ∷ ys) = elim (Bool-cases (less y x)) [
    | inl before ↦ rw before (Perm.trans (Perm.cons y (insert-perm x ys)) (Perm.swap x y ys))
    | inr not_before ↦ rw not_before (Perm.refl (x ∷ y ∷ ys))
  ]

  pub sort_slice-perm : (xs : List A) → Perm (sort_slice xs) xs
  unfolding sort_slice
  sort_slice-perm [] = Perm.refl []
  sort_slice-perm (x ∷ xs) =
      Perm.trans (insert-perm x (sort_slice xs)) (Perm.cons x (sort_slice-perm xs))

-- No element comes before one that is less.
abbrev pub InOrder {ℓ} : {A : Type ℓ} → (A → A → Bool) → List A → Type 0
InOrder less [] = Unit
InOrder less (x ∷ xs) = All (λ y. less y x ≡ false) xs × InOrder less xs

-- What sort.Slice asks of `less`: a strict weak order.
pub record IsWeakOrder {ℓ} {A : Type ℓ} (less : A → A → Bool) : Type ℓ where
  pub asym : (x y : A) → less x y ≡ true → less y x ≡ false
  pub trans : (x y z : A) → less y x ≡ false → less z y ≡ false → less z x ≡ false

module _ {ℓ} {A : Type ℓ} {less : A → A → Bool} (w : IsWeakOrder less) where
  All-not_less :
      (x y : A) (ys : List A)
      → less y x ≡ false
      → All (λ z. less z y ≡ false) ys
      → All (λ z. less z x ≡ false) ys
  All-not_less x y [] h hs = tt
  All-not_less x y (z ∷ zs) h (hz, hs) = (w.trans x y z h hz, All-not_less x y zs h hs)

  All-insert :
      (y x : A) (xs : List A)
      → less x y ≡ false
      → All (λ z. less z y ≡ false) xs
      → All (λ z. less z y ≡ false) (insert less x xs)
  unfolding insert
  All-insert y x [] h hs = (h, tt)
  All-insert y x (z ∷ zs) h (hz, hs) = ground (arith, All-insert y x zs h hs)

  insert-InOrder : (x : A) (xs : List A) → InOrder less xs → InOrder less (insert less x xs)
  unfolding insert
  insert-InOrder x [] h = (tt, tt)
  insert-InOrder x (y ∷ ys) (hy, h) = elim (Bool-cases (less y x)) [
    | inl before ↦ rw before (All-insert y x ys (w.asym y x before) hy, insert-InOrder x ys h)
    | inr not_before ↦ rw not_before ((not_before, All-not_less x y ys not_before hy), (hy, h))
  ]

  pub sort_slice-InOrder : (xs : List A) → InOrder less (sort_slice less xs)
  unfolding sort_slice
  sort_slice-InOrder [] = tt
  sort_slice-InOrder (x ∷ xs) = insert-InOrder x (sort_slice less xs) (sort_slice-InOrder xs)
