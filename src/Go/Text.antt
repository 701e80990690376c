-- ===== src/Go/Text.antt =====
-- The `strings` functions that the services call. A text is its list of characters. `to_lower` and
-- `equal_fold` change and compare the case of the ASCII letters and of the three characters outside
-- ASCII that Go relates to one of them: the capital I with a dot (U+0130), which only ToLower takes to
-- "i"; the long s (U+017F), which only EqualFold takes for "s"; and the Kelvin sign (U+212A), which
-- both take to "k". Other letters have no case here.
pub mod Trimmed
pub mod Lowered
pub mod Ascii
use Prim.Native.Char.{Char, code}
use Prim.Native.String.{String, [], ◌∷◌, char_at, compare}
use Prim.Native.Nat.{Ordering}
use bonipam.Common.{
  ℕ, ◌-◌, ◌≡◌, refl, Bool, true, false, ◌&&◌, ◌||◌, ◌==◌, leb, nat_eq, if◌then◌else◌,
}

-- unicode.IsSpace
is_space : ℕ → Bool
is_space c =
    (leb 9 c && leb c 13)
    || nat_eq c 32
    || nat_eq c 0x85
    || nat_eq c 0xa0
    || nat_eq c 0x1680
    || (leb 0x2000 c && leb c 0x200a)
    || nat_eq c 0x2028
    || nat_eq c 0x2029
    || nat_eq c 0x202f
    || nat_eq c 0x205f
    || nat_eq c 0x3000

trim_left : String → String
unfolding is_space
trim_left [] = []
trim_left (c ∷ s) = let rest = trim_left s in if is_space (code c) then rest else c ∷ s

trim_right : String → String
unfolding is_space
trim_right [] = []
trim_right (c ∷ s) =
    let rest = trim_right s in if is_space (code c) && rest == "" then "" else c ∷ rest

-- strings.TrimSpace
unfoldable pub trim_space : String → String
unfolding trim_left trim_right
trim_space s = trim_right (trim_left s)

abbrev letters : String
letters = "abcdefghijklmnopqrstuvwxyz"

-- unicode.ToLower
lower : Char → Char
lower c =
    if leb b'A' (code c) && leb (code c) b'Z'
    then char_at letters (code c - b'A')
    else if nat_eq (code c) 0x130
    then char_at letters 8
    else if nat_eq (code c) 0x212a
    then char_at letters 10
    else c

-- One character for all that EqualFold takes for the same.
fold : Char → Char
unfolding lower
fold c =
    if nat_eq (code c) 0x17f
    then char_at letters 18
    else if nat_eq (code c) 0x130
    then c
    else lower c

-- strings.ToLower
unfoldable pub to_lower : String → String
unfolding lower
to_lower [] = []
to_lower (c ∷ s) = lower c ∷ to_lower s

fold_case : String → String
unfolding fold
fold_case [] = []
fold_case (c ∷ s) = fold c ∷ fold_case s

-- strings.EqualFold
unfoldable pub equal_fold : String → String → Bool
unfolding fold_case
equal_fold s t = fold_case s == fold_case t

-- strings.HasPrefix
unfoldable pub has_prefix : String → String → Bool
has_prefix s [] = true
has_prefix [] (d ∷ p) = false
has_prefix (c ∷ s) (d ∷ p) = nat_eq (code c) (code d) && has_prefix s p

-- strings.Contains
unfoldable pub contains_text : String → String → Bool
unfolding has_prefix
contains_text [] p = has_prefix [] p
contains_text (c ∷ s) p = has_prefix (c ∷ s) p || contains_text s p

-- strings.HasSuffix at the suffix "*".
unfoldable pub ends_in_star : String → Bool
ends_in_star [] = false
ends_in_star (c ∷ []) = nat_eq (code c) b'*'
ends_in_star (c ∷ d ∷ s) = ends_in_star (d ∷ s)

-- strings.TrimSuffix at the suffix "*".
unfoldable pub trim_star : String → String
trim_star [] = []
trim_star (c ∷ []) = if nat_eq (code c) b'*' then "" else c ∷ []
trim_star (c ∷ d ∷ s) = c ∷ trim_star (d ∷ s)

-- a < b on texts: the order of their bytes.
unfoldable pub text_less : String → String → Bool
text_less a b = elim (compare a b) [ Ordering.lt ↦ true | _ ↦ false ]

trims : trim_space "  ssh connect \t" ≡ "ssh connect"
unfolding trim_space
trims = refl

folds : equal_fold "SSH-Prod" "ssh-pROD" ≡ true
unfolding equal_fold
folds = refl

-- EqualFold and equality under ToLower are two relations: "ſ" folds with "s", "İ" is lowered to "i".
long_s_folds : (equal_fold "ſ" "s" ≡ true) × ((to_lower "ſ" == to_lower "s") ≡ false)
unfolding equal_fold to_lower
long_s_folds = (refl, refl)

dotted_i_lowers : (equal_fold "İ" "i" ≡ false) × ((to_lower "İ" == to_lower "i") ≡ true)
unfolding equal_fold to_lower
dotted_i_lowers = (refl, refl)
