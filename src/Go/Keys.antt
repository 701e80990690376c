-- ===== src/Go/Keys.antt =====
-- A Go map holds each key once: the lists that stand for maps do so too.
use bonipam.Common.{
  String, Bool, ◌||◌, eq_refl, ◌≡◌, refl, sym, none, some, [], ◌∷◌, arith, eq_iff, ◌==◌, Bool-cases,
  inl, inr,
}
use bonipam.Go.Map.{Map, get, put, any_entry, get-put}

module _ {ℓ} {V : Type ℓ} where
  abbrev pub HasDistinctKeys : Map V → Type ℓ
  HasDistinctKeys [] = Unit
  HasDistinctKeys ((k, v) ∷ m) = (get m k ≡ none) × HasDistinctKeys m

  pub put-HasDistinctKeys :
      (m : Map V) (k : String) (v : V) → HasDistinctKeys m → HasDistinctKeys (put m k v)
  unfolding put get
  put-HasDistinctKeys [] k v h = (refl, tt)
  put-HasDistinctKeys ((j, w) ∷ m) k v (unused, h) = elim (Bool-cases (j == k)) [
    | inl same ↦ rw same (rw (sym ((eq_iff j k).0 same)) unused, h)
    | inr other ↦
        rw other
          (ground (arith, get-put m k j v, eq_iff k j, eq_iff j k), put-HasDistinctKeys m k v h)
  ]

  -- A search over two tests that agree on every entry.
  pub any_entry-agree :
      (p q : String → V → Bool) (m : Map V)
      → HasDistinctKeys m
      → ((k : String) (v : V) → get m k ≡ some v → p k v ≡ q k v)
      → any_entry p m ≡ any_entry q m
  unfolding any_entry get
  any_entry-agree p q [] d agree = refl
  any_entry-agree p q ((j, w) ∷ m) (unused, d) agree =
      let first = agree j w (ground (arith, eq_refl j)) in
      let rest = any_entry-agree p q m d (λ k v at. agree k v (ground (arith, eq_iff j k))) in
      ground (arith, first, rest)

  -- A search once an entry under an unused key is added.
  pub any_entry-put_new :
      (p : String → V → Bool) (m : Map V) (k : String) (v : V)
      → get m k ≡ none
      → any_entry p (put m k v) ≡ (any_entry p m || p k v)
  unfolding any_entry get put
  any_entry-put_new p [] k v unused = ground arith
  any_entry-put_new p ((j, w) ∷ m) k v unused = ground (arith, any_entry-put_new p m k v)
