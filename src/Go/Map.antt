-- ===== src/Go/Map.antt =====
-- Go maps with string keys (a uuid.UUID is its canonical text). A `range` visits the entries in the
-- order of the list; a Go map's order is not specified, and no theorem rests on it.
use mathlib.Core.Option
use bonipam.Common.{
  ℕ, suc, ◌≡◌, refl, is_some, String, Bool, false, ◌||◌, Option, none, some, List, [], ◌∷◌, arith,
  ◌==◌, eq_iff, if◌then◌else◌,
}

-- `some v'` is a write of v', `none` leaves `v`.
abbrev pub or_else {ℓ} : {V : Type ℓ} → Option V → V → V
or_else none v = v
or_else (some v') v = v'

abbrev pub Map {ℓ} : Type ℓ → Type ℓ
Map V = List (String × V)

module _ {ℓ} {V : Type ℓ} where
  -- m[k], with its `ok`
  unfoldable pub get : Map V → String → Option V
  get [] k = none
  get ((j, v) ∷ m) k = if j == k then some v else get m k

  -- m[k] = v
  unfoldable pub put : Map V → String → V → Map V
  put [] k v = (k, v) ∷ []
  put ((j, w) ∷ m) k v = let rest = put m k v in if j == k then (k, v) ∷ m else (j, w) ∷ rest

  -- delete(m, k)
  unfoldable pub delete : Map V → String → Map V
  delete [] k = []
  delete ((j, w) ∷ m) k = let rest = delete m k in if j == k then rest else (j, w) ∷ rest

  -- A `range` that stops at an entry with `p`.
  unfoldable pub any_entry : (String → V → Bool) → Map V → Bool
  any_entry p [] = false
  any_entry p ((j, v) ∷ m) = p j v || any_entry p m

  -- The values, in the order of a `range`.
  unfoldable pub values : Map V → List V
  values [] = []
  values ((j, v) ∷ m) = v ∷ values m

  unfoldable pub keys : Map V → List String
  keys [] = []
  keys ((j, v) ∷ m) = j ∷ keys m

  -- A `range` that writes a value back where `f` gives one.
  unfoldable pub update_entries : (String → V → Option V) → Map V → Map V
  update_entries f [] = []
  update_entries f ((j, v) ∷ m) = (j, or_else (f j v) v) ∷ update_entries f m

  -- How often that `range` writes.
  unfoldable pub count_updates : (String → V → Option V) → Map V → ℕ
  count_updates f [] = 0
  count_updates f ((j, v) ∷ m) =
      let rest = count_updates f m in if is_some (f j v) then suc rest else rest

  pub get-put :
      (m : Map V) (k j : String) (v : V) → get (put m k v) j ≡ (if k == j then some v else get m j)
  unfolding get put
  get-put [] k j v = refl
  get-put ((i, w) ∷ m) k j v = ground (arith, eq_iff k j, eq_iff i k, eq_iff i j, get-put m k j v)

  pub get-delete :
      (m : Map V) (k j : String) → get (delete m k) j ≡ (if k == j then none else get m j)
  unfolding get delete
  get-delete [] k j = ground arith
  get-delete ((i, w) ∷ m) k j = ground (arith, eq_iff k j, eq_iff i k, eq_iff i j, get-delete m k j)

  -- An entry that a search has missed does not pass its test.
  pub any_entry_miss :
      (p : String → V → Bool) (m : Map V) (k : String) (v : V)
      → any_entry p m ≡ false
      → get m k ≡ some v
      → p k v ≡ false
  unfolding any_entry get
  any_entry_miss p [] k v h e = cc
  any_entry_miss p ((j, w) ∷ m) k v h e = ground (arith, eq_iff j k, any_entry_miss p m k v)

  pub get-update_entries :
      (f : String → V → Option V) (m : Map V) (k : String)
      → get (update_entries f m) k ≡ Option.map (λ v. or_else (f k v) v) (get m k)
  unfolding get update_entries
  get-update_entries f [] k = refl
  get-update_entries f ((j, v) ∷ m) k = ground (arith, eq_iff j k, get-update_entries f m k)

  -- Once nothing is left to write, another round writes nothing.
  pub count_updates_again :
      (f f' : String → V → Option V) (m : Map V)
      → ((k : String) (v : V) → f' k (or_else (f k v) v) ≡ none)
      → count_updates f' (update_entries f m) ≡ 0
  unfolding count_updates update_entries
  count_updates_again f f' [] settled = refl
  count_updates_again f f' ((j, v) ∷ m) settled =
      rw (settled j v, count_updates) (count_updates_again f f' m settled)
