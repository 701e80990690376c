-- ===== src/Policy/History.antt =====
-- The history of a policy is never rewritten.
use bonipam.Common.{ℕ, ◌≤◌, String, ◌≡◌, some, ◌==◌, arith, eq_iff, if◌then◌else◌}
use bonipam.Go.Map.{get, get-put}
use bonipam.Policy.Types.{PolicyDefinition, Policy, Outside}
use bonipam.Policy.Store.{get_version, PolicyService, versions_of, insert_policy}
use bonipam.Policy.Versions.{
  get_version-put_version, IsVersioned, versions_of-store_version, versions_of-insert_policy,
  policies-store_version,
}
use bonipam.Policy.Effects.{Effect, same, inserted, written, versioned}
use bonipam.Policy.Runs.{Reach, here, next, Step-Effect, Reach-IsVersioned}

-- A policy stays, at the same version or a later one, and so do the versions of it that were there.
pub record Continues (s t : PolicyService) (k : String) (p : Policy) : Type 0 where
  pub after : Policy
  pub stored : get t.policies k ≡ some after
  pub grows : p.version ≤ after.version
  pub history :
      (v : ℕ) (d : PolicyDefinition)
      → get_version (versions_of s k) v ≡ some d
      → get_version (versions_of t k) v ≡ some d

Effect-Continues :
    {s t : PolicyService} (k : String) (p : Policy)
    → IsVersioned s
    → get s.policies k ≡ some p
    → Effect s t
    → Continues s t k p
Effect-Continues k p valid h (same e) =
    rw e (record { after = p; stored = h; grows = omega arith; history = λ v d a. a })
Effect-Continues {s} k p valid h (inserted q one unused e) = rw e (record {
  after = p;
  stored = unfold insert_policy in ground (arith, get-put s.policies q.id k q, eq_iff q.id k);
  grows = omega arith;
  history = λ v d a. rw versions_of-insert_policy (ground (arith, eq_iff q.id k));
})
Effect-Continues {s} k p valid h (written j q q' marks at version definition id e) = rw e (record {
  after = if j == k then q' else p;
  stored = ground (arith, get-put s.policies j k q');
  grows = ground (arith, eq_iff j k);
  history = λ v d a. a;
})
Effect-Continues {s} k p valid h (versioned j q q' marks at version id e) = rw e (record {
  after = if j == k then q' else p;
  stored = ground (arith, policies-store_version s j k q');
  grows = ground (arith, eq_iff j k);
  history = λ v d a. ground (
    arith,
    versions_of-store_version s j k q',
    eq_iff j k,
    (valid.at k p h).dense v,
    get_version-put_version (versions_of s j) q'.version v q'.definition,
  );
})

-- Over any run from a valid state a policy stays under its id, its version never falls, and each
-- version that its table had keeps its definition.
pub Reach-Continues :
    (out : Outside) {s t : PolicyService} (k : String) (p : Policy)
    → Reach out s t
    → IsVersioned s
    → get s.policies k ≡ some p
    → Continues s t k p
Reach-Continues out k p here valid h = record {
  after = p;
  stored = h;
  grows = omega arith;
  history = λ v d a. a;
}
Reach-Continues out k p (next r st) valid h =
    let c = Reach-Continues out k p r valid h in
    let c' =
      Effect-Continues k c.after (Reach-IsVersioned out r valid) c.stored (Step-Effect out st) in
    record {
      after = c'.after;
      stored = c'.stored;
      grows = omega (arith, c.grows, c'.grows);
      history = λ v d a. c'.history v d (c.history v d a);
    }
