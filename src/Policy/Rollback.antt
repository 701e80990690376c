-- ===== src/Policy/Rollback.antt =====
-- What a rollback restores, and which version it takes where the request names none.
use bonipam.Common.{
  ℕ, ◌+◌, ◌-◌, ◌≤◌, ◌<◌, String, ◌≡◌, refl, true, false, ◌&&◌, some, [], ◌∷◌, arith, eq_iff,
  if◌then◌else◌, nat_eq, ltb, is_some, Option-cases, inl, inr, ok, err, ◌⊎◌,
}
use bonipam.Common.Int.{ℤ, pos, negsuc, ltb_ℤ}
use bonipam.Common.Lists.{length}
use bonipam.Go.Map.{get, get-put}
use bonipam.Go.Text.{trim_space}
use bonipam.Go.Time.{Time}
use bonipam.Policy.Types.{PolicyDefinition, Policy, Outside, published, no_previous_version}
use bonipam.Policy.Store.{
  Versions, get_version, put_version, PolicyService, versions_of, best_below, previous_version,
}
use bonipam.Policy.Change.{
  next_version, store_version, rollback_target, roll_back_to, rollback_found, rollback_policy,
}
use bonipam.Policy.Versions.{IsVersioned, IsCurrent, get_version-put_version}

best_below-lt :
    (current best : ℕ) (vs : Versions) → best < current → best_below current best vs < current
unfolding best_below
best_below-lt current best [] h = h
best_below-lt current best ((v, d) ∷ vs) h =
    best_below-lt current (if ltb v current && ltb best v then v else best) vs (ground arith)

best-le-best_below : (current best : ℕ) (vs : Versions) → best ≤ best_below current best vs
unfolding best_below
best-le-best_below current best [] = omega arith
best-le-best_below current best ((v, d) ∷ vs) =
    ground (arith, best-le-best_below current (if ltb v current && ltb best v then v else best) vs)

version-le-best_below :
    (current best : ℕ) (vs : Versions) (n : ℕ)
    → n < current
    → is_some (get_version vs n) ≡ true
    → n ≤ best_below current best vs
unfolding best_below get_version
version-le-best_below current best [] n h found = absurd (cc)
version-le-best_below current best ((v, d) ∷ vs) n h found =
    let best' = if ltb v current && ltb best v then v else best in
    ground (arith, version-le-best_below current best' vs n h, best-le-best_below current best' vs)

-- Without a target the version before the current one is taken; 0 stands for none.
previous_version-exact :
    (s : PolicyService) (k : String) (p : Policy)
    → IsCurrent (versions_of s k) p
    → previous_version s k p.version ≡ p.version - 1
unfolding previous_version
previous_version-exact s k p c = ground (
  arith,
  c.dense 0,
  c.dense (p.version - 1),
  c.dense p.version,
  c.current,
  best_below-lt p.version 0 (versions_of s k),
  version-le-best_below p.version 0 (versions_of s k) (p.version - 1),
)

nonempty_of_version :
    (vs : Versions) (n : ℕ) → is_some (get_version vs n) ≡ true → nat_eq (length vs) 0 ≡ false
unfolding get_version
nonempty_of_version [] n h = absurd (cc)
nonempty_of_version ((v, d) ∷ vs) n h = ground arith

-- A rollback to a version that the table holds.
rollback_found-done :
    (s : PolicyService) (k : String) (p : Policy) (target : ℤ) (now : Time) (d : PolicyDefinition)
    → nat_eq (rollback_target s p target) 0 ≡ false
    → get_version (versions_of s k) (rollback_target s p target) ≡ some d
    → rollback_found s k p target now ≡ roll_back_to s k p d now
unfolding rollback_found
rollback_found-done s k p target now d chosen found =
    let nonempty =
      nonempty_of_version (versions_of s k) (rollback_target s p target) (ground arith) in
    rw (nonempty, chosen, found, rollback_found)

-- A rollback to no version at all.
rollback_found-nothing :
    (s : PolicyService) (k : String) (p : Policy) (target : ℤ) (now : Time)
    → IsCurrent (versions_of s k) p
    → rollback_target s p target ≡ 0
    → (rollback_found s k p target now).0 ≡ err no_previous_version
unfolding rollback_found
rollback_found-nothing s k p target now c nothing =
    let nonempty = nonempty_of_version (versions_of s k) p.version (ground (arith, c.current)) in
    rw (nonempty, nothing, rollback_found)

abbrev pub IsNotPositive : ℤ → Type 0
IsNotPositive target = ltb_ℤ (pos 0) target ≡ false

rollback_target-default :
    (s : PolicyService) (k : String) (p : Policy) (target : ℤ)
    → IsCurrent (versions_of s k) p
    → p.id ≡ k
    → IsNotPositive target
    → rollback_target s p target ≡ p.version - 1
unfolding rollback_target
rollback_target-default s k p (pos n) c id low = ground (arith, previous_version-exact s k p c)
rollback_target-default s k p (negsuc n) c id low = ground (arith, previous_version-exact s k p c)

module _ (out : Outside) (s : PolicyService) (policy_id k : String) (p : Policy) (target : ℤ)
    (now : Time) (valid : IsVersioned s) (parsed : out.parse_uuid (trim_space policy_id) ≡ some k)
    (at : get s.policies k ≡ some p) where
  -- In a valid state, a rollback of a stored policy that names no positive version restores the
  -- definition of the version before the current one, if there is one: the policy becomes the next
  -- version with that definition, published, and is stored so. At version 1 it fails.
  pub rollback_policy-default :
      IsNotPositive target
      → (p.version ≡ 1) × ((rollback_policy out s policy_id target now).0 ≡ err no_previous_version)
        ⊎ (1 < p.version)
          × ((d : PolicyDefinition) × (get_version (versions_of s k) (p.version - 1) ≡ some d)
              × ((rollback_policy out s policy_id target now).0
                  ≡ ok (next_version p d published (some now))))
  unfolding rollback_policy
  rollback_policy-default low =
      let c = valid.at k p at in
      let chosen = rollback_target-default s k p target c (valid.id_of k p at) low in
      elim (Option-cases (get_version (versions_of s k) (p.version - 1))) [
        | inl missing ↦
            let first : p.version ≡ 1 =
              ground (arith, c.dense (p.version - 1), c.dense p.version, c.current) in
            inl (
              first,
              rw (parsed, at, rollback_policy)
                  (rollback_found-nothing s k p target now c (omega (arith, chosen))),
            )
        | inr (d, found) ↦
            let later : 1 < p.version = ground (arith, c.dense (p.version - 1)) in
            let done = rollback_found-done s k p target now d (ground arith) (rw chosen found) in
            inr (
              later,
              (d, found, rw (parsed, at, rollback_policy) (rw done (unfold roll_back_to in refl))),
            )
      ]

rollback_found-inversion :
    (s : PolicyService) (k : String) (p : Policy) (target : ℤ) (now : Time) (r : Policy)
    → (rollback_found s k p target now).0 ≡ ok r
    → (d : PolicyDefinition) × (get_version (versions_of s k) (rollback_target s p target) ≡ some d)
      × (rollback_found s k p target now ≡ roll_back_to s k p d now)
unfolding rollback_found
rollback_found-inversion s k p target now r done =
    elim (Option-cases (get_version (versions_of s k) (rollback_target s p target))) [
      | inl missing ↦ absurd (ground arith)
      | inr (d, found) ↦ (d, found, ground arith)
    ]

-- What the last part of a rollback returns and stores.
roll_back_to-exact :
    (s : PolicyService) (k : String) (p : Policy) (d : PolicyDefinition) (now : Time) (r : Policy)
    → (roll_back_to s k p d now).0 ≡ ok r
    → (r ≡ next_version p d published (some now))
      × (get (roll_back_to s k p d now).1.policies k ≡ some r)
      × (get_version (versions_of (roll_back_to s k p d now).1 k) r.version ≡ some d)
      × (get (roll_back_to s k p d now).1.published_versions k ≡ some r.version)
unfolding roll_back_to store_version next_version
roll_back_to-exact s k p d now r done =
    let p' = next_version p d published (some now) in
    let table = put_version (versions_of s k) p'.version d in
    (
      ground arith,
      ground (arith, get-put s.policies k k p', eq_iff k k),
      ground (
        arith,
        get-put s.versions k k table,
        eq_iff k k,
        get_version-put_version (versions_of s k) p'.version p'.version d,
      ),
      ground (arith, get-put s.published_versions k k p'.version, eq_iff k k),
    )

-- The version that a request for a rollback means.
abbrev pub wanted_version : Policy → ℤ → ℕ
wanted_version p (pos n) = if nat_eq n 0 then p.version - 1 else n
wanted_version p (negsuc n) = p.version - 1

rollback_target-exact :
    (s : PolicyService) (k : String) (p : Policy) (target : ℤ)
    → IsCurrent (versions_of s k) p
    → p.id ≡ k
    → rollback_target s p target ≡ wanted_version p target
unfolding rollback_target
rollback_target-exact s k p (pos n) c id = ground (arith, previous_version-exact s k p c)
rollback_target-exact s k p (negsuc n) c id = ground (arith, previous_version-exact s k p c)

-- A rollback that succeeds, in a service whose versions are in order, returns the policy with the version
-- counted up by one, the definition that its table held under the version that the request names or, where
-- it names none above 0, under the one before the current version, the status `published` and the time of
-- the call as its publication, and all else as it was; it stores that policy, enters the definition under
-- the new version, and marks that version as the published one.
pub rollback_policy-restores :
    (out : Outside) (s : PolicyService) (policy_id k : String) (p : Policy) (target : ℤ)
    (now : Time) (r : Policy)
    → IsVersioned s
    → out.parse_uuid (trim_space policy_id) ≡ some k
    → get s.policies k ≡ some p
    → (rollback_policy out s policy_id target now).0 ≡ ok r
    → (d : PolicyDefinition) × (get_version (versions_of s k) (wanted_version p target) ≡ some d)
      × (r ≡ record p {
        version = p.version + 1;
        status = published;
        definition = d;
        published_at = some now;
      })
      × (get (rollback_policy out s policy_id target now).1.policies k ≡ some r)
      × (get_version (versions_of (rollback_policy out s policy_id target now).1 k) r.version
          ≡ some d)
      × (get (rollback_policy out s policy_id target now).1.published_versions k ≡ some r.version)
unfolding rollback_policy next_version
rollback_policy-restores out s policy_id k p target now r valid parsed at done =
    let whole : rollback_policy out s policy_id target now ≡ rollback_found s k p target now =
      rw (parsed, at, rollback_policy) in
    let (d, found, is) = rollback_found-inversion s k p target now r (rw whole at done) in
    let (next, stored, entered, marked) =
      roll_back_to-exact s k p d now r (rw (whole, is) at done) in
    let wanted = rollback_target-exact s k p target (valid.at k p at) (valid.id_of k p at) in
    (
      d,
      rw⁻¹ wanted found,
      next,
      rw (whole, is) stored,
      rw (whole, is) entered,
      rw (whole, is) marked,
    )
