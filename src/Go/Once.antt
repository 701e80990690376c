-- ===== src/Go/Once.antt =====
-- The loops that append a text to a slice unless it is empty or was appended before. The map `seen`
-- of such a loop holds what the slice holds, so the slice itself is searched.
use bonipam.Common.{
  String, ◌≡◌, refl, Bool, false, ◌&&◌, ◌||◌, not, List, [], ◌∷◌, ◌++◌, ◌==◌, arith, eq_iff,
  if◌then◌else◌,
}
use bonipam.Common.Lists.{any}

unfoldable pub has : List String → String → Bool
has xs v = any (λ x. x == v) xs

unfoldable pub push_new : List String → String → List String
unfolding has
push_new out v = if v == "" || has out v then out else out ++ v ∷ []

unfoldable pub push_all : List String → List String → List String
push_all out [] = out
push_all out (v ∷ vs) = push_all (push_new out v) vs

-- No text stands twice, and none is empty.
abbrev pub Distinct : List String → Type 0
Distinct [] = Unit
Distinct (x ∷ xs) = (has xs x ≡ false) × ((x == "") ≡ false) × Distinct xs

has-append : (xs ys : List String) (v : String) → has (xs ++ ys) v ≡ (has xs v || has ys v)
unfolding has
has-append [] ys v = refl
has-append (x ∷ xs) ys v = ground (arith, has-append xs ys v)

has-push_new :
    (out : List String) (v w : String)
    → has (push_new out v) w ≡ (has out w || (not (w == "") && v == w))
unfolding push_new has
has-push_new out v w =
    ground (arith, has-append out (v ∷ []) w, eq_iff v w, eq_iff v "", eq_iff w "")

-- What the loop has collected: what was there, and the texts that are not empty.
pub has-push_all :
    (out vs : List String) (w : String)
    → has (push_all out vs) w ≡ (has out w || (not (w == "") && has vs w))
unfolding push_all has
has-push_all out [] w = ground arith
has-push_all out (v ∷ vs) w =
    ground (arith, has-push_all (push_new out v) vs w, has-push_new out v w)

Distinct-concat :
    (xs : List String) (v : String)
    → Distinct xs
    → has xs v ≡ false
    → (v == "") ≡ false
    → Distinct (xs ++ v ∷ [])
unfolding has
Distinct-concat [] v h absent nonempty = (refl, nonempty, tt)
Distinct-concat (x ∷ xs) v (h, n, hs) absent nonempty = (
  ground (arith, has-append xs (v ∷ []) x, eq_iff x v, eq_iff v x),
  n,
  Distinct-concat xs v hs (ground arith) nonempty,
)

push_new-Distinct : (out : List String) (v : String) → Distinct out → Distinct (push_new out v)
unfolding push_new
push_new-Distinct out v h = ground (arith, Distinct-concat out v h)

pub push_all-Distinct : (out vs : List String) → Distinct out → Distinct (push_all out vs)
unfolding push_all
push_all-Distinct out [] h = h
push_all-Distinct out (v ∷ vs) h = push_all-Distinct (push_new out v) vs (push_new-Distinct out v h)
