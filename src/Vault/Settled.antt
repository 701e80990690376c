-- ===== src/Vault/Settled.antt =====
-- After RunDueRotations nothing is due (vault_service.go).
use bonipam.Common.{
  String, ◌≡◌, refl, ◌∙◌, false, none, some, List, [], ◌∷◌, arith, eq_iff, eq_refl, Option-cases,
  Result-cases, inl, inr,
}
use bonipam.Common.Int.{ℤ, pos, negsuc, ◌≤ℤ◌, seconds}
use bonipam.Go.Map.{Map, get, get-put}
use bonipam.Go.Keys.{HasDistinctKeys}
use bonipam.Go.Time.{Time, after, add}
use bonipam.Vault.Types.{RotationPolicy, VaultService}
use bonipam.Vault.Leases.{IssueDraws}
use bonipam.Vault.Rotation.{
  rotated_policy, find_enabled, trigger_rotation, is_due, due_ids, rotate_all, run_due_rotations,
}
use bonipam.Vault.Policies.{find_enabled-found, trigger-HasValidPolicies, HasValidPolicies}
use bonipam.Vault.Overflow.{seconds_overdue}
use bonipam.Vault.Due.{IsRolling, trigger_found, run_due_rotations-exact}

-- No interval is so long that its product with a second wraps around.
abbrev pub HasBoundedIntervals : VaultService → Type 0
HasBoundedIntervals s =
    (k : String) (p : RotationPolicy)
    → get s.rotation_policies k ≡ some p
    → p.interval_seconds ≤ℤ pos 9223372036

due_ids-none :
    (clock : String → Time) (m : Map RotationPolicy)
    → HasDistinctKeys m
    → ((k : String) (p : RotationPolicy) → get m k ≡ some p → is_due clock k p ≡ false)
    → due_ids clock m ≡ []
unfolding due_ids get
due_ids-none clock [] d none_due = refl
due_ids-none clock ((j, q) ∷ m) (unused, d) none_due =
    let first = none_due j q (ground (arith, eq_refl j)) in
    let rest = due_ids-none clock m d (λ k p at. none_due k p (ground (arith, eq_iff j k))) in
    rw (first, due_ids) rest

not_overdue :
    (i : ℤ) (now : Time)
    → pos 60 ≤ℤ i
    → i ≤ℤ pos 9223372036
    → after now (add now (seconds i)) ≡ false
not_overdue (pos n) now low high = seconds_overdue n now (ground arith) ∙ ground arith
not_overdue (negsuc n) now low high = absurd (ground arith)

module _ (draws : String → IssueDraws) (rotated : String → Time)
    (rolling : (id : String) → IsRolling (draws id).password_rolls) where
  trigger-absent :
      (s : VaultService) (id k : String)
      → HasValidPolicies s
      → get s.rotation_policies k ≡ none
      → get (trigger_rotation s id (draws id) (rotated id)).1.rotation_policies k ≡ none
  unfolding trigger_rotation
  trigger-absent s id k v absent = elim (Result-cases (find_enabled s id)) [
    | inr (e, refused) ↦ rw (refused, trigger_rotation) absent
    | inl (q, found) ↦
        let (at_id, enabled) = find_enabled-found s id q found in
        rw (trigger_found draws rotated rolling s id q (v.valid id q at_id) found) (
          ground (
            arith,
            absent,
            at_id,
            eq_iff id k,
            get-put s.rotation_policies id k (rotated_policy q (rotated id)),
          ))
  ]

  rotate_all-absent :
      (ids : List String) (s : VaultService) (k : String)
      → HasValidPolicies s
      → get s.rotation_policies k ≡ none
      → get (rotate_all s ids draws rotated).1.rotation_policies k ≡ none
  unfolding rotate_all
  rotate_all-absent [] s k v absent = absent
  rotate_all-absent (id ∷ ids) s k v absent =
      rotate_all-absent ids (trigger_rotation s id (draws id) (rotated id)).1 k
        (trigger-HasValidPolicies s id (draws id) (rotated id) v) (trigger-absent s id k v absent)

  rotate_all-HasValidPolicies :
      (ids : List String) (s : VaultService)
      → HasValidPolicies s
      → HasValidPolicies (rotate_all s ids draws rotated).1
  unfolding rotate_all
  rotate_all-HasValidPolicies [] s v = v
  rotate_all-HasValidPolicies (id ∷ ids) s v =
      rotate_all-HasValidPolicies ids (trigger_rotation s id (draws id) (rotated id)).1
        (trigger-HasValidPolicies s id (draws id) (rotated id) v)

module _ (s : VaultService) (draws draws' : String → IssueDraws) (now : Time) where
  abbrev moment : String → Time
  moment id = now

  abbrev settled : VaultService
  settled = (run_due_rotations s moment draws moment).1

  settled-not_due :
      (k : String) (p : RotationPolicy)
      → HasValidPolicies s
      → HasBoundedIntervals s
      → ((id : String) → IsRolling (draws id).password_rolls)
      → get (settled).rotation_policies k ≡ some p
      → is_due moment k p ≡ false
  unfolding run_due_rotations is_due rotated_policy
  settled-not_due k p v bounded rolling at = elim (Option-cases (get s.rotation_policies k)) [
    | inl absent ↦
        let still =
          rotate_all-absent draws moment rolling (due_ids moment s.rotation_policies) s k v
            absent in
        absurd (ground (arith, still))
    | inr (q, stored) ↦
        let exact = run_due_rotations-exact s moment draws moment k q v rolling stored in
        let later =
          not_overdue q.interval_seconds now (v.valid k q stored).interval_low
            (bounded k q stored) in
        ground (arith, exact, at, later)
  ]

  -- RunDueRotations at one instant, on valid policies whose intervals are at most 9223372036 seconds and
  -- when the random generator does not fail: a second run at that instant finds no policy to rotate.
  pub run_due_rotations-settles :
      HasValidPolicies s
      → HasBoundedIntervals s
      → ((id : String) → IsRolling (draws id).password_rolls)
      → run_due_rotations settled moment draws' moment ≡ ([], settled)
  unfolding run_due_rotations rotate_all
  run_due_rotations-settles v bounded rolling =
      let valid =
        rotate_all-HasValidPolicies draws moment rolling (due_ids moment s.rotation_policies) s v in
      let none_due =
        due_ids-none moment (settled).rotation_policies valid.keys
          (λ k p at. settled-not_due k p v bounded rolling at) in
      rw (none_due, rotate_all) refl
