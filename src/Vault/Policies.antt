-- ===== src/Vault/Policies.antt =====
-- What the operations keep of the rotation policies (vault_service.go).
use bonipam.Common.{
  String, ◌≡◌, ◌≢◌, ap, true, false, ◌||◌, some, arith, eq_iff, ◌==◌, if◌then◌else◌, ok,
  Option-cases, Bool-cases, Result-cases, inl, inr,
}
use bonipam.Common.Int.{ℤ, pos, ◌≤ℤ◌, eq_ℤ, ltb_ℤ}
use bonipam.Go.Map.{get, put, get-put, any_entry, any_entry_miss}
use bonipam.Go.Keys.{HasDistinctKeys, put-HasDistinctKeys}
use bonipam.Go.Text.Lowered.{equal_fold_comm}
use bonipam.Go.Text.Trimmed.{trim_space_twice}
use bonipam.Go.Text.{trim_space, to_lower}
use bonipam.Go.Time.{Time}
use bonipam.Vault.Types.{RotationPolicy, CreateRotationPolicyRequest, VaultService}
use bonipam.Vault.Leases.{IssueDraws, out_of_range, is_supported_target_type, issue_credential}
use bonipam.Vault.Rotation.{
  new_rotation_policy, same_target, insert_rotation_policy, create_rotation_policy, rotated_policy,
  finish_rotation, rotate, find_enabled, trigger_rotation, rotation_request,
}
use bonipam.Vault.Kept.{issue_credential-policies}

pub record IsValidPolicy (p : RotationPolicy) : Type 0 where
  pub supported : is_supported_target_type p.target_type ≡ true
  pub has_target : trim_space p.target_id ≢ ""
  pub has_role : trim_space p.role ≢ ""
  pub interval_low : pos 60 ≤ℤ p.interval_seconds
  pub ttl_low : pos 60 ≤ℤ p.ttl_seconds
  pub ttl_high : p.ttl_seconds ≤ℤ pos 86400

-- The policies are valid, and no two are for one target and role.
pub record HasValidPolicies (s : VaultService) : Type 0 where
  pub keys : HasDistinctKeys s.rotation_policies
  pub valid :
      (k : String) (p : RotationPolicy) → get s.rotation_policies k ≡ some p → IsValidPolicy p
  pub unique :
      (j k : String) (p q : RotationPolicy)
      → get s.rotation_policies j ≡ some p
      → get s.rotation_policies k ≡ some q
      → same_target p q ≡ true
      → j ≡ k

same_target_comm : (p q : RotationPolicy) → same_target p q ≡ same_target q p
unfolding same_target
same_target_comm p q = ground (
  arith,
  equal_fold_comm p.target_id q.target_id,
  equal_fold_comm p.target_type q.target_type,
  equal_fold_comm p.role q.role,
)

insert-HasValidPolicies :
    (s : VaultService) (p : RotationPolicy)
    → IsValidPolicy p
    → HasValidPolicies s
    → HasValidPolicies (insert_rotation_policy s p).1
unfolding insert_rotation_policy
insert-HasValidPolicies s p valid v =
    elim (Bool-cases (any_entry (λ _ existing. same_target existing p) s.rotation_policies)) [
      | inl taken ↦ rw (taken, insert_rotation_policy) v
      | inr free ↦
          let miss = any_entry_miss (λ _ existing. same_target existing p) s.rotation_policies in
          rw (free, insert_rotation_policy)
            (record {
              keys = put-HasDistinctKeys s.rotation_policies p.policy_id p v.keys;
              valid = λ k q at.
                  ground (arith, get-put s.rotation_policies p.policy_id k p, v.valid k q, valid);
              unique = λ j k q r at_j at_k same. ground (
                arith,
                get-put s.rotation_policies p.policy_id j p,
                get-put s.rotation_policies p.policy_id k p,
                eq_iff p.policy_id j,
                eq_iff p.policy_id k,
                v.unique j k q r,
                miss j q free,
                miss k r free,
                same_target_comm p r,
              );
            })
    ]

pub rotated_policy-IsValidPolicy :
    (p : RotationPolicy) (now : Time) → IsValidPolicy p → IsValidPolicy (rotated_policy p now)
unfolding rotated_policy
rotated_policy-IsValidPolicy p now v = record {
  supported = v.supported;
  has_target = v.has_target;
  has_role = v.has_role;
  interval_low = v.interval_low;
  ttl_low = v.ttl_low;
  ttl_high = v.ttl_high;
}

write-HasValidPolicies :
    (s : VaultService) (k : String) (p : RotationPolicy) (now : Time)
    → get s.rotation_policies k ≡ some p
    → HasValidPolicies s
    → HasValidPolicies
        (record s { rotation_policies = put s.rotation_policies k (rotated_policy p now) })
unfolding rotated_policy same_target
write-HasValidPolicies s k p now found v = record {
  keys = put-HasDistinctKeys s.rotation_policies k (rotated_policy p now) v.keys;
  valid = λ j q at. ground (
    arith,
    get-put s.rotation_policies k j (rotated_policy p now),
    v.valid j q,
    rotated_policy-IsValidPolicy p now (v.valid k p found),
  );
  unique = λ i j q r at_i at_j same. ground (
    arith,
    get-put s.rotation_policies k i (rotated_policy p now),
    get-put s.rotation_policies k j (rotated_policy p now),
    eq_iff k i,
    eq_iff k j,
    v.unique i j q r,
    v.unique i j p r,
    v.unique i j q p,
    found,
  );
}

new_rotation_policy-IsValidPolicy :
    (req : CreateRotationPolicyRequest) (ttl : ℤ) (id : String) (now : Time)
    → is_supported_target_type (to_lower (trim_space req.target_type)) ≡ true
    → (trim_space req.target_id == "") ≡ false
    → (trim_space req.role == "") ≡ false
    → pos 60 ≤ℤ req.interval_seconds
    → pos 60 ≤ℤ ttl
    → ttl ≤ℤ pos 86400
    → IsValidPolicy (new_rotation_policy req ttl id now)
unfolding new_rotation_policy
new_rotation_policy-IsValidPolicy req ttl id now supported target role interval low high = record {
  supported = supported;
  has_target =
      ground (arith, target, trim_space_twice req.target_id, eq_iff (trim_space req.target_id) "");
  has_role = ground (arith, role, trim_space_twice req.role, eq_iff (trim_space req.role) "");
  interval_low = interval;
  ttl_low = low;
  ttl_high = high;
}

pub create-HasValidPolicies :
    (s : VaultService) (req : CreateRotationPolicyRequest) (id : String) (now : Time)
    → HasValidPolicies s
    → HasValidPolicies (create_rotation_policy s req id now).1
unfolding create_rotation_policy
create-HasValidPolicies s req id now v =
    let target_type = to_lower (trim_space req.target_type) in
    let ttl = if eq_ℤ req.ttl_seconds (pos 0) then req.interval_seconds else req.ttl_seconds in
    elim (Bool-cases
      (target_type == "" || trim_space req.target_id == "" || trim_space req.role == "")) [
        | inl missing ↦ rw (missing, create_rotation_policy) v
        | inr given ↦ elim (Bool-cases (is_supported_target_type target_type)) [
          | inr unsupported ↦ rw (given, unsupported, create_rotation_policy) v
          | inl supported ↦ elim (Bool-cases (ltb_ℤ req.interval_seconds (pos 60))) [
            | inl short ↦ rw (given, supported, short, create_rotation_policy) v
            | inr long ↦ elim (Bool-cases (out_of_range ttl)) [
              | inl out ↦ rw (given, supported, long, out, create_rotation_policy) v
              | inr in_range ↦
                  rw (given, supported, long, in_range, create_rotation_policy)
                    (insert-HasValidPolicies s (new_rotation_policy req ttl id now)
                      (new_rotation_policy-IsValidPolicy req ttl id now supported
                        (ground (arith, given)) (ground (arith, given)) (ground (arith, long))
                        (ground (arith, in_range)) (ground (arith, in_range)))
                      v)
            ]
          ]
        ]
      ]

pub keeps-HasValidPolicies :
    (s t : VaultService)
    → t.rotation_policies ≡ s.rotation_policies
    → HasValidPolicies s
    → HasValidPolicies t
keeps-HasValidPolicies s t same v = record {
  keys = rw same v.keys;
  valid = λ k p at. v.valid k p (rw same at at);
  unique = λ j k p q at_j at_k. v.unique j k p q (rw same at at_j) (rw same at at_k);
}

pub find_enabled-found :
    (s : VaultService) (policy_id : String) (p : RotationPolicy)
    → find_enabled s policy_id ≡ ok p
    → (get s.rotation_policies policy_id ≡ some p) × (p.enabled ≡ true)
unfolding find_enabled
find_enabled-found s policy_id p h = elim (Option-cases (get s.rotation_policies policy_id)) [
  | inl missing ↦ absurd (ground arith)
  | inr (q, at) ↦ (ground arith, ground arith)
]

pub trigger-HasValidPolicies :
    (s : VaultService) (policy_id : String) (draws : IssueDraws) (now : Time)
    → HasValidPolicies s
    → HasValidPolicies (trigger_rotation s policy_id draws now).1
unfolding trigger_rotation rotate finish_rotation
trigger-HasValidPolicies s policy_id draws now v = elim (Result-cases (find_enabled s policy_id)) [
  | inr (e, refused) ↦ rw (refused, trigger_rotation) v
  | inl (p, found) ↦
      let left = (issue_credential s (rotation_request p) draws).1 in
      let same = issue_credential-policies s (rotation_request p) draws in
      elim (Result-cases (issue_credential s (rotation_request p) draws).0) [
        | inr (e, failed) ↦
            rw (found, failed, trigger_rotation, rotate) (keeps-HasValidPolicies s left same v)
        | inl (issued, done) ↦
            rw (found, done, trigger_rotation, rotate)
              (keeps-HasValidPolicies
                (record s {
                  rotation_policies = put s.rotation_policies policy_id (rotated_policy p now);
                })
                (record left {
                  rotation_policies = put left.rotation_policies policy_id (rotated_policy p now);
                })
                (ap (λ m. put m policy_id (rotated_policy p now)) same)
                (write-HasValidPolicies s policy_id p now (find_enabled-found s policy_id p found).0
                  v))
      ]
]
