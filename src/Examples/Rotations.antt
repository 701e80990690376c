-- ===== src/Examples/Rotations.antt =====
-- A vault with a rotation policy (backend/internal/service/vault_service.go), and what the theorems say of it.
use bonipam.Go.Time.{after, add}
use bonipam.Common.Int.{seconds, pos}
use bonipam.Common.{
  ◌&&◌, String, ◌≡◌, refl, true, none, some, [], ◌∷◌, ltb, if◌then◌else◌, arith, eq_iff,
}
use bonipam.Go.Map.{get, put}
use bonipam.Go.Text.{trim_space, to_lower, equal_fold}
use bonipam.Examples.{differ}
use bonipam.Examples.Ciphers.{ciphers, ciphers-IsSound, digest, provider, kms}
use bonipam.Vault.Types.{
  RotationPolicy, CreateRotationPolicyRequest, RotationPolicyResponse, VaultService,
}
use bonipam.Vault.Leases.{IssueDraws, is_supported_target_type}
use bonipam.Vault.Rotation.{
  create_rotation_policy, new_rotation_policy, to_rotation_policy_response, is_due, rotated_policy,
  run_due_rotations, same_target,
}
use bonipam.Vault.Runs.{Step, Reach}
use bonipam.Vault.Policies.{IsValidPolicy, HasValidPolicies}
use bonipam.Vault.Settled.{HasBoundedIntervals, run_due_rotations-settles}
use bonipam.Vault.Valid.{Reach-HasValidPolicies}
use bonipam.Vault.Secrets.{new_vault_service}
use bonipam.Vault.Due.{run_due_rotations-exact}
use bonipam.Vault.Overflow.{create_rotation_policy-overdue}

abbrev hourly : RotationPolicy
hourly = record {
  policy_id = "rp-1";
  target_type = "database";
  target_id = "Orders";
  role = "reader";
  interval_seconds = pos 3600;
  ttl_seconds = pos 600;
  metadata = [];
  enabled = true;
  created_at = pos 0;
  updated_at = pos 0;
  last_rotated_at = none;
  next_rotation_at = pos 100;
}

abbrev pub rotating : VaultService
rotating = record {
  secrets = [];
  leases = [];
  rotation_policies = ("rp-1", hourly) ∷ [];
  kek_version = "v1";
}

hourly-IsValidPolicy : IsValidPolicy hourly
unfolding is_supported_target_type trim_space
hourly-IsValidPolicy = record {
  supported = refl;
  has_target = differ (trim_space "Orders") "" refl;
  has_role = differ (trim_space "reader") "" refl;
  interval_low = ground arith;
  ttl_low = ground arith;
  ttl_high = ground arith;
}

rotating-HasValidPolicies : HasValidPolicies rotating
unfolding get
rotating-HasValidPolicies = record {
  keys = (refl, tt);
  valid = λ k p at. ground (arith, hourly-IsValidPolicy);
  unique = λ j k p q at_j at_k same. ground (arith, eq_iff "rp-1" j, eq_iff "rp-1" k);
}

abbrev pub rolling_draws : String → IssueDraws
rolling_draws id = record {
  token_rolls = λ i. some 1;
  token_uuid = "u";
  password_rolls = λ i. some 3;
  now = pos 200;
  lease_uuid = id;
}

run_due_rotations-exact_example :
    get
      (run_due_rotations rotating (λ id. pos 150) rolling_draws (λ id. pos 210)).1.rotation_policies
      "rp-1"
    ≡ some (
        if hourly.enabled && after (pos 150) hourly.next_rotation_at
        then record hourly {
          last_rotated_at = some (pos 210);
          next_rotation_at = add (pos 210) (seconds hourly.interval_seconds);
          updated_at = pos 210;
        }
        else hourly)
unfolding get
run_due_rotations-exact_example =
    run_due_rotations-exact rotating (λ id. pos 150) rolling_draws (λ id. pos 210) "rp-1" hourly
      rotating-HasValidPolicies (λ id i. refl) refl

abbrev century_request : CreateRotationPolicyRequest
century_request = record {
  target_type = "ssh";
  target_id = "bastion";
  role = "admin";
  interval_seconds = pos 9223372037;
  ttl_seconds = pos 600;
  metadata = [];
}

abbrev century_policy : RotationPolicyResponse
unfolding to_rotation_policy_response new_rotation_policy
century_policy =
    to_rotation_policy_response (new_rotation_policy century_request (pos 600) "9" (pos 0))

create_rotation_policy-overdue_example :
    after (pos 0) (century_policy).next_rotation_at ≡ ltb 9223372036 9223372037
unfolding create_rotation_policy to_lower trim_space is_supported_target_type
    bonipam.Vault.Rotation.insert_rotation_policy bonipam.Go.Map.any_entry same_target equal_fold
    new_rotation_policy century_policy to_rotation_policy_response
create_rotation_policy-overdue_example =
    create_rotation_policy-overdue rotating century_request "9" (pos 0) century_policy 9223372037
      refl refl (ground arith)

hourly-HasBoundedIntervals : HasBoundedIntervals rotating
unfolding get
hourly-HasBoundedIntervals k p at = ground arith

run_due_rotations-settles_example :
    run_due_rotations
      (run_due_rotations rotating (λ id. pos 150) rolling_draws (λ id. pos 150)).1
      (λ id. pos 150)
      rolling_draws
      (λ id. pos 150)
    ≡ ([], (run_due_rotations rotating (λ id. pos 150) rolling_draws (λ id. pos 150)).1)
run_due_rotations-settles_example =
    run_due_rotations-settles rotating rolling_draws rolling_draws (pos 150)
      rotating-HasValidPolicies hourly-HasBoundedIntervals (λ id i. refl)

abbrev empty_vault : VaultService
empty_vault = record { secrets = []; leases = []; rotation_policies = []; kek_version = "v1" }

Reach-HasValidPolicies_example :
    HasValidPolicies (create_rotation_policy empty_vault century_request "9" (pos 0)).1
unfolding new_vault_service trim_space bonipam.Examples.Ciphers.codes_of
    bonipam.Vault.Kms.new_local_kms_provider
Reach-HasValidPolicies_example =
    Reach-HasValidPolicies ciphers kms digest "a master key of the vault" provider empty_vault
      (create_rotation_policy empty_vault century_request "9" (pos 0)).1 refl
      (Reach.next Reach.here (Step.create century_request "9" (pos 0)))
