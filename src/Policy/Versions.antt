-- ===== src/Policy/Versions.antt =====
-- The history of a policy: what the version tables hold in every state that a run reaches.
use bonipam.Common.{
  ℕ, ◌+◌, String, ◌≡◌, refl, ◌&&◌, some, [], ◌∷◌, ◌==◌, arith, eq_iff, if◌then◌else◌, nat_eq, leb,
  ltb, is_some, Bool-cases, inl, inr,
}
use bonipam.Go.Map.{Map, get, put, get-put}
use bonipam.Policy.Types.{PolicyDefinition, Policy}
use bonipam.Policy.Store.{
  Versions, get_version, put_version, PolicyService, versions_of, insert_policy,
}
use bonipam.Policy.Change.{store_version}

pub get_version-put_version :
    (vs : Versions) (n m : ℕ) (d : PolicyDefinition)
    → get_version (put_version vs n d) m ≡ (if nat_eq n m then some d else get_version vs m)
unfolding get_version put_version
get_version-put_version [] n m d = refl
get_version-put_version ((k, e) ∷ vs) n m d = ground (arith, get_version-put_version vs n m d)

-- The table of a policy holds the versions from 1 to the policy's own, and the policy's definition
-- under the last.
pub record IsCurrent (table : Versions) (p : Policy) : Type 0 where
  pub current : get_version table p.version ≡ some p.definition
  pub dense : (v : ℕ) → is_some (get_version table v) ≡ (ltb 0 v && leb v p.version)

pub record IsVersioned (s : PolicyService) : Type 0 where
  pub at : (k : String) (p : Policy) → get s.policies k ≡ some p → IsCurrent (versions_of s k) p
  pub id_of : (k : String) (p : Policy) → get s.policies k ≡ some p → p.id ≡ k

-- A table that gets the version after the policy's own.
IsCurrent-put_version :
    (table : Versions) (p p' : Policy)
    → p'.version ≡ p.version + 1
    → IsCurrent table p
    → IsCurrent (put_version table p'.version p'.definition) p'
IsCurrent-put_version table p p' e h = record {
  current = ground (arith, get_version-put_version table p'.version p'.version p'.definition);
  dense = λ v. ground (arith, get_version-put_version table p'.version v p'.definition, h.dense v);
}

pub versions_of-store_version :
    (s : PolicyService) (k j : String) (p : Policy)
    → versions_of (store_version s k p) j
      ≡ (if k == j then put_version (versions_of s k) p.version p.definition else versions_of s j)
unfolding store_version
versions_of-store_version s k j p =
    ground (arith, get-put s.versions k j (put_version (versions_of s k) p.version p.definition))

pub policies-store_version :
    (s : PolicyService) (k j : String) (p : Policy)
    → get (store_version s k p).policies j ≡ (if k == j then some p else get s.policies j)
unfolding store_version
policies-store_version s k j p = get-put s.policies k j p

pub store_version-IsVersioned :
    (s : PolicyService) (k : String) (p p' : Policy)
    → get s.policies k ≡ some p
    → p'.version ≡ p.version + 1
    → p'.id ≡ p.id
    → IsVersioned s
    → IsVersioned (store_version s k p')
store_version-IsVersioned s k p p' found e same_id v = record {
  at = λ j q h. elim (Bool-cases (k == j)) [
    | inl hit ↦
        let same : p' ≡ q = ground (arith, policies-store_version s k j p') in
        rw (versions_of-store_version, hit)
          (rw (← same) (IsCurrent-put_version (versions_of s k) p p' e (v.at k p found)))
    | inr miss ↦
        rw (versions_of-store_version, miss)
          (v.at j q (ground (arith, policies-store_version s k j p')))
  ];
  id_of = λ j q h.
      ground (arith, policies-store_version s k j p', eq_iff k j, v.id_of k p found, v.id_of j q);
}

-- A write that changes neither the version, the definition nor the id.
pub put-IsVersioned :
    (s : PolicyService) (k : String) (p p' : Policy) (published : Map ℕ)
    → get s.policies k ≡ some p
    → p'.version ≡ p.version
    → p'.definition ≡ p.definition
    → p'.id ≡ p.id
    → IsVersioned s
    → IsVersioned (record s { policies = put s.policies k p'; published_versions = published })
put-IsVersioned s k p p' published found same_version same_definition same_id v = record {
  at = λ j q h. elim (Bool-cases (k == j)) [
    | inl hit ↦
        let c = v.at k p found in
        let same : p' ≡ q = ground (arith, get-put s.policies k j p') in
        let key : k ≡ j = (eq_iff k j).0 hit in
        rw (← same, ← key)
          (record {
            current = rw (same_version, same_definition) c.current;
            dense = λ n. rw same_version (c.dense n);
          })
    | inr miss ↦ v.at j q (ground (arith, get-put s.policies k j p'))
  ];
  id_of = λ j q h.
      ground (arith, get-put s.policies k j p', eq_iff k j, v.id_of k p found, v.id_of j q);
}

pub versions_of-insert_policy :
    (s : PolicyService) (p : Policy) (j : String)
    → versions_of (insert_policy s p) j
      ≡ (if p.id == j then (1, p.definition) ∷ [] else versions_of s j)
unfolding insert_policy
versions_of-insert_policy s p j = ground (arith, get-put s.versions p.id j ((1, p.definition) ∷ []))

IsCurrent-first : (p : Policy) → p.version ≡ 1 → IsCurrent ((1, p.definition) ∷ []) p
unfolding get_version
IsCurrent-first p one = record { current = ground arith; dense = λ v. ground arith }

pub insert_policy-IsVersioned :
    (s : PolicyService) (p : Policy)
    → p.version ≡ 1
    → IsVersioned s
    → IsVersioned (insert_policy s p)
insert_policy-IsVersioned s p one v = record {
  at = λ j q h. elim (Bool-cases (p.id == j)) [
    | inl hit ↦
        let same : p ≡ q = unfold insert_policy in ground (arith, get-put s.policies p.id j p) in
        rw (versions_of-insert_policy, hit) (rw (← same) (IsCurrent-first p one))
    | inr miss ↦
        rw (versions_of-insert_policy, miss)
          (v.at j q (unfold insert_policy in ground (arith, get-put s.policies p.id j p)))
  ];
  id_of = λ j q h.
      unfold insert_policy in
      ground (arith, get-put s.policies p.id j p, eq_iff p.id j, v.id_of j q);
}

-- The published versions do not matter.
pub publish-IsVersioned :
    (s : PolicyService) (published : Map ℕ)
    → IsVersioned s
    → IsVersioned (record s { published_versions = published })
publish-IsVersioned s published v = record { at = v.at; id_of = v.id_of }
