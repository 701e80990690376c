-- ===== src/Policy/Patterns.antt =====
-- What a pattern of a rule matches.
use Prim.Native.Char.{Char, code}
use Prim.Native.String.{[], ◌∷◌, ◌++◌}
use text.Mathlib.TextEquality.{Char-path}
use text.Mathlib.TextLemmas.{nil-append, cons-append}
use bonipam.Common.{
  String, ◌≡◌, ◌↔◌, ◌⊎◌, inl, inr, refl, sym, ap, true, false, arith, eq_iff, Bool-cases,
}
use bonipam.Go.Text.{has_prefix, ends_in_star, trim_star}
use bonipam.Policy.Conditions.{matches_pattern}

prefix_of_has_prefix : (s p : String) → has_prefix s p ≡ true → (r : String) × (s ≡ p ++ r)
unfolding has_prefix
prefix_of_has_prefix s [] h = (s, sym (nil-append s))
prefix_of_has_prefix [] (d ∷ p) h = absurd (cc)
prefix_of_has_prefix (c ∷ s) (d ∷ p) h =
    let (r, e) = prefix_of_has_prefix s p (ground arith) in
    let same : code c ≡ code d = ground arith in (r, rw (cons-append, Char-path c d same, e))

has_prefix-append : (p r : String) → has_prefix (p ++ r) p ≡ true
unfolding has_prefix
has_prefix-append [] r = refl
has_prefix-append (d ∷ p) r = rw cons-append (ground (arith, has_prefix-append p r))

trim_star-append : (p : String) → ends_in_star p ≡ true → p ≡ trim_star p ++ "*"
unfolding ends_in_star trim_star
trim_star-append [] h = absurd (cc)
trim_star-append (c ∷ []) h =
    let star : Char = "*" in
    let same : code c ≡ code star = ground arith in rw (Char-path c star same)
trim_star-append (c ∷ d ∷ s) h = rw cons-append (ap (◌∷◌ c) (trim_star-append (d ∷ s) h))

-- What a pattern asks of a value: to begin with what stands before the pattern's last "*", or to be the
-- pattern where that does not end in "*".
abbrev pub Matches : String → String → Type 0
Matches pattern value =
    ((front : String) × (r : String) × (pattern ≡ front ++ "*") × (value ≡ front ++ r))
    ⊎ ((ends_in_star pattern ≡ false) × (pattern ≡ value))

ends_in_star-append : (front : String) → ends_in_star (front ++ "*") ≡ true
unfolding ends_in_star
ends_in_star-append [] = refl
ends_in_star-append (c ∷ []) = rw cons-append
ends_in_star-append (c ∷ d ∷ s) =
    let rest : ends_in_star ((d ∷ s) ++ "*") ≡ true = ends_in_star-append (d ∷ s) in
    rw (cons-append, cons-append) (rw cons-append at rest)

trim_star-of_append : (front : String) → trim_star (front ++ "*") ≡ front
unfolding trim_star
trim_star-of_append [] = refl
trim_star-of_append (c ∷ []) = rw cons-append
trim_star-of_append (c ∷ d ∷ s) =
    let rest : trim_star ((d ∷ s) ++ "*") ≡ d ∷ s = trim_star-of_append (d ∷ s) in
    rw (cons-append, cons-append) (ap (◌∷◌ c) (rw cons-append at rest))

-- The pattern "*" alone is the empty front.
star_prefix : (pattern value : String) → pattern ≡ "*" → has_prefix value (trim_star pattern) ≡ true
unfolding has_prefix trim_star
star_prefix pattern value e = rw e

star_ends : (pattern : String) → pattern ≡ "*" → ends_in_star pattern ≡ true
unfolding ends_in_star
star_ends pattern e = rw e

matches_pattern_sound :
    (pattern value : String) → matches_pattern pattern value ≡ true → Matches pattern value
unfolding matches_pattern
matches_pattern_sound pattern value h = elim (Bool-cases (ends_in_star pattern)) [
  | inr plain ↦
      inr (plain, ground (arith, eq_iff pattern "*", eq_iff pattern value, star_ends pattern))
  | inl star ↦
      let begins : has_prefix value (trim_star pattern) ≡ true =
        ground (arith, eq_iff pattern "*", star_prefix pattern value) in
      let (r, e) = prefix_of_has_prefix value (trim_star pattern) begins in
      inl (trim_star pattern, r, trim_star-append pattern star, e)
]

matches_pattern_complete :
    (pattern value : String) → Matches pattern value → matches_pattern pattern value ≡ true
unfolding matches_pattern
matches_pattern_complete pattern value (inl (front, r, e, e')) =
    rw (e, e')
      (ground
        (arith, ends_in_star-append front, trim_star-of_append front, has_prefix-append front r))
matches_pattern_complete pattern value (inr (plain, e)) =
    rw (← e) (ground (arith, eq_iff pattern pattern))

-- A pattern that ends in "*" matches exactly the values that begin with what stands before the star,
-- and any other pattern matches exactly itself.
pub matches_pattern_iff :
    (pattern value : String) → (matches_pattern pattern value ≡ true) ↔ Matches pattern value
matches_pattern_iff pattern value =
    (matches_pattern_sound pattern value, matches_pattern_complete pattern value)
