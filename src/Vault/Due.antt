-- ===== src/Vault/Due.antt =====
-- The rotations that are due are carried out (vault_service.go, TriggerRotation and RunDueRotations).
use bonipam.Common.{
  ℕ, zero, suc, String, Bool, ◌≡◌, refl, ap, true, false, ◌&&◌, ◌||◌, is_some, none, some, List, [],
  ◌∷◌, arith, eq_iff, ◌==◌, if◌then◌else◌, ok, err, Option-cases, Bool-cases, Result-cases, inl,
  inr,
}
use bonipam.Common.Int.{pos, eq_ℤ, seconds}
use bonipam.Go.Map.{Map, get, put, get-put}
use bonipam.Go.Keys.{HasDistinctKeys}
use bonipam.Go.Once.{has}
use bonipam.Go.Text.{trim_space, to_lower}
use bonipam.Go.Time.{Time, after, add}
use bonipam.Vault.Types.{RotationPolicy, VaultError, VaultService}
use bonipam.Vault.Random.{Rolls, random_chars, random_string, random_password, password_charset}
use bonipam.Vault.Leases.{
  IssueDraws, is_supported_target_type, issue_credential, insert_lease, new_lease, out_of_range,
}
use bonipam.Vault.Rotation.{
  rotated_policy, finish_rotation, rotate, find_enabled, trigger_rotation, rotation_request, is_due,
  due_ids, rotate_all, run_due_rotations,
}
use bonipam.Vault.Kept.{issue_credential-policies}
use bonipam.Vault.Policies.{
  find_enabled-found, trigger-HasValidPolicies, IsValidPolicy, HasValidPolicies,
}

-- The random generator does not fail.
abbrev pub IsRolling : Rolls → Type 0
IsRolling rolls = (i : ℕ) → is_some (rolls i) ≡ true

random_chars_total :
    (charset : String) (rolls : Rolls) (i n : ℕ)
    → IsRolling rolls
    → is_some (random_chars charset rolls i n) ≡ true
unfolding random_chars
random_chars_total charset rolls i zero rolling = refl
random_chars_total charset rolls i (suc n) rolling =
    ground (arith, rolling i, random_chars_total charset rolls (suc i) n rolling)

random_password_total :
    (rolls : Rolls) → IsRolling rolls → is_some (random_password 24 rolls) ≡ true
unfolding random_password random_string
random_password_total rolls rolling = random_chars_total password_charset rolls 0 24 rolling

-- The type of a valid policy's target is in lower case and has no space around it.
supported_type_plain :
    (t : String) → is_supported_target_type t ≡ true → to_lower (trim_space t) ≡ t
unfolding is_supported_target_type to_lower trim_space
supported_type_plain t h = elim (Bool-cases (t == "database")) [
  | inl database ↦ rw ((eq_iff t "database").0 database) refl
  | inr other ↦ elim (Bool-cases (t == "ssh")) [
    | inl ssh ↦ rw ((eq_iff t "ssh").0 ssh) refl
    | inr other' ↦
        let api : (t == "api") ≡ true = ground (arith, h) in rw ((eq_iff t "api").0 api) refl
  ]
]

supported_nonempty : (t : String) → is_supported_target_type t ≡ true → (t == "") ≡ false
unfolding is_supported_target_type
supported_nonempty t h = elim (Bool-cases (t == "")) [
  | inr filled ↦ filled
  | inl empty ↦ absurd (cc (rw ((eq_iff t "").0 empty) at h))
]

-- A valid policy's credential is issued.
rotation_issues :
    (s : VaultService) (p : RotationPolicy) (draws : IssueDraws)
    → IsValidPolicy p
    → IsRolling draws.password_rolls
    → (password : String) × (issue_credential s (rotation_request p) draws
        ≡ insert_lease s (
            new_lease p.target_type
              (trim_space p.target_id)
              (trim_space p.role)
              p.ttl_seconds
              p.metadata
              password
              draws))
unfolding issue_credential rotation_request
rotation_issues s p draws v rolling =
    elim (Option-cases (random_password 24 draws.password_rolls)) [
      | inl failed ↦ absurd (ground (arith, random_password_total draws.password_rolls rolling))
      | inr (password, drawn) ↦
          let plain = supported_type_plain p.target_type v.supported in
          let typed : (p.target_type == "") ≡ false =
            supported_nonempty p.target_type v.supported in
          let given : (p.target_type == ""
                || trim_space p.target_id == ""
                || trim_space p.role == "")
              ≡ false =
            ground (
              arith,
              typed,
              eq_iff (trim_space p.target_id) "",
              eq_iff (trim_space p.role) "",
              v.has_target,
              v.has_role,
            ) in
          let nonzero : eq_ℤ p.ttl_seconds (pos 0) ≡ false = ground (arith, v.ttl_low) in
          let in_range : out_of_range p.ttl_seconds ≡ false =
            ground (arith, v.ttl_low, v.ttl_high) in
          (
            password,
            rw (plain, given, v.supported, nonzero, in_range, drawn, issue_credential)
                (rw (plain, nonzero) refl),
          )
    ]

-- What one rotation does to the policy that stands at `k`.
abbrev pub after_rotation : Bool → RotationPolicy → Time → RotationPolicy
after_rotation hit p now = if hit && p.enabled then rotated_policy p now else p

disabled :
    (s : VaultService) (id k : String) (p : RotationPolicy) (e : VaultError)
    → get s.rotation_policies k ≡ some p
    → (id == k) ≡ true
    → find_enabled s id ≡ err e
    → p.enabled ≡ false
unfolding find_enabled
disabled s id k p e at same refused =
    ground (arith, ap (λ j. get s.rotation_policies j) ((eq_iff id k).0 same))

module _ (draws : String → IssueDraws) (rotated : String → Time)
    (rolling : (id : String) → IsRolling (draws id).password_rolls) where
  -- A rotation of a policy that is found writes just that policy.
  pub trigger_found :
      (s : VaultService) (id : String) (q : RotationPolicy)
      → IsValidPolicy q
      → find_enabled s id ≡ ok q
      → (trigger_rotation s id (draws id) (rotated id)).1.rotation_policies
        ≡ put s.rotation_policies id (rotated_policy q (rotated id))
  unfolding trigger_rotation rotate finish_rotation insert_lease
  trigger_found s id q v found =
      let (password, issued) = rotation_issues s q (draws id) v (rolling id) in
      rw (found, issued, trigger_rotation, rotate)
        (ap (λ m. put m id (rotated_policy q (rotated id)))
          (issue_credential-policies s (rotation_request q) (draws id)))

  trigger-policy :
      (s : VaultService) (id k : String) (p : RotationPolicy)
      → HasValidPolicies s
      → get s.rotation_policies k ≡ some p
      → get (trigger_rotation s id (draws id) (rotated id)).1.rotation_policies k
        ≡ some (after_rotation (id == k) p (rotated k))
  unfolding trigger_rotation find_enabled
  trigger-policy s id k p v at = elim (Result-cases (find_enabled s id)) [
    | inr (e, refused) ↦
        rw (refused, trigger_rotation)
          (elim (Bool-cases (id == k)) [
            | inr other ↦ rw other at
            | inl same ↦
                let off : p.enabled ≡ false = disabled s id k p e at same refused in
                ground (arith, at)
          ])
    | inl (q, found) ↦
        let (at_id, enabled) = find_enabled-found s id q found in
        rw (trigger_found s id q (v.valid id q at_id) found) (
          ground (
            arith,
            at,
            at_id,
            enabled,
            eq_iff id k,
            get-put s.rotation_policies id k (rotated_policy q (rotated id)),
          ))
  ]

  -- Rotating the listed policies in turn rotates each listed policy that is enabled, and only those.
  rotate_all-policy :
      (ids : List String) (s : VaultService) (k : String) (p : RotationPolicy)
      → HasValidPolicies s
      → get s.rotation_policies k ≡ some p
      → get (rotate_all s ids draws rotated).1.rotation_policies k
        ≡ some (after_rotation (has ids k) p (rotated k))
  unfolding rotate_all has rotated_policy
  rotate_all-policy [] s k p v at = at
  rotate_all-policy (id ∷ ids) s k p v at =
      let next = (trigger_rotation s id (draws id) (rotated id)).1 in
      let first = trigger-policy s id k p v at in
      let rest =
        rotate_all-policy ids next k (after_rotation (id == k) p (rotated k))
          (trigger-HasValidPolicies s id (draws id) (rotated id) v) first in
      ground (arith, rest)

-- The policies whose ids RunDueRotations collects are those that are due.
due_ids_miss :
    (clock : String → Time) (m : Map RotationPolicy) (k : String)
    → get m k ≡ none
    → has (due_ids clock m) k ≡ false
unfolding due_ids has get
due_ids_miss clock [] k h = refl
due_ids_miss clock ((j, q) ∷ m) k h = ground (arith, due_ids_miss clock m k)

pub due_ids-exact :
    (clock : String → Time) (m : Map RotationPolicy) (k : String) (p : RotationPolicy)
    → HasDistinctKeys m
    → get m k ≡ some p
    → has (due_ids clock m) k ≡ is_due clock k p
unfolding due_ids has get
due_ids-exact clock [] k p distinct at = absurd (ground arith)
due_ids-exact clock ((j, q) ∷ m) k p (unused, distinct) at = elim (Bool-cases (j == k)) [
  | inl same ↦ let e = (eq_iff j k).0 same in ground (arith, e, due_ids_miss clock m j)
  | inr other ↦ ground (arith, due_ids-exact clock m k p distinct)
]

-- RunDueRotations on valid policies, when the random generator does not fail: a policy that is enabled
-- and whose next rotation is before the clock's reading for it is stored with its last rotation and its
-- last change at the time of its rotation, its next rotation one interval of seconds later, as time.Duration
-- holds it, and all else as it was; every other policy is stored as it was.
pub run_due_rotations-exact :
    (s : VaultService) (clock : String → Time) (draws : String → IssueDraws)
    (rotated : String → Time) (k : String) (p : RotationPolicy)
    → HasValidPolicies s
    → ((id : String) → IsRolling (draws id).password_rolls)
    → get s.rotation_policies k ≡ some p
    → get (run_due_rotations s clock draws rotated).1.rotation_policies k
      ≡ some (
          if p.enabled && after (clock k) p.next_rotation_at
          then record p {
            last_rotated_at = some (rotated k);
            next_rotation_at = add (rotated k) (seconds p.interval_seconds);
            updated_at = rotated k;
          }
          else p)
unfolding run_due_rotations is_due rotated_policy
run_due_rotations-exact s clock draws rotated k p v rolling at =
    let ids = due_ids clock s.rotation_policies in
    let after_all = rotate_all-policy draws rotated rolling ids s k p v at in
    let collected = due_ids-exact clock s.rotation_policies k p v.keys at in
    ground (arith, after_all, collected)
