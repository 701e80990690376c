-- ===== src/Go/Keeps.antt =====
-- A map that keeps its entries: what stands under a key stays there, or something that follows it.
use bonipam.Common.{String, ◌≡◌, none, some, arith, eq_iff, ◌==◌, Bool-cases, inl, inr}
use bonipam.Go.Map.{Map, get, put, get-put}

module _ {V : Type 0} (Follows : V → V → Type 0) where
  abbrev pub Keeps : Map V → Map V → Type 0
  Keeps m m' =
      (k : String) (v : V) → get m k ≡ some v → (v' : V) × (get m' k ≡ some v') × Follows v v'

  pub Keeps-same : (m m' : Map V) → ((v : V) → Follows v v) → m' ≡ m → Keeps m m'
  Keeps-same m m' self e k v at = (v, rw e at, self v)

  pub Keeps-trans :
      (m m' m'' : Map V)
      → ((u v w : V) → Follows u v → Follows v w → Follows u w)
      → Keeps m m'
      → Keeps m' m''
      → Keeps m m''
  Keeps-trans m m' m'' trans first second k v at =
      let (v', at', follows) = first k v at in
      let (v'', at'', follows') = second k v' at' in (v'', at'', trans v v' v'' follows follows')

  pub Keeps-put_new :
      (m : Map V) (j : String) (new : V)
      → ((v : V) → Follows v v)
      → get m j ≡ none
      → Keeps m (put m j new)
  Keeps-put_new m j new self unused k v at =
      (v, ground (arith, get-put m j k new, eq_iff j k), self v)

  pub Keeps-put :
      (m : Map V) (j : String) (old new : V)
      → ((v : V) → Follows v v)
      → get m j ≡ some old
      → Follows old new
      → Keeps m (put m j new)
  Keeps-put m j old new self found follows k v at = elim (Bool-cases (j == k)) [
    | inl same ↦
        let this : v ≡ old = ground (arith, eq_iff j k) in
        (new, ground (arith, get-put m j k new), rw this follows)
    | inr other ↦ (v, ground (arith, get-put m j k new), self v)
  ]
