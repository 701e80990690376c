-- ===== src/Vault/Valid.antt =====
-- The rotation policies over the runs of the vault (vault_service.go).
use bonipam.Common.{String, ◌≡◌, [], arith, ok}
use bonipam.Go.Map.{get}
use bonipam.Go.Time.{Time}
use bonipam.Vault.Types.{CreateSecretRequest, VaultService}
use bonipam.Vault.Kms.{KmsProvider, Digest, LocalKmsProvider}
use bonipam.Vault.Secrets.{Ciphers, SecretDraws, new_vault_service, store_secret, insert_secret}
use bonipam.Vault.Leases.{revoke_lease, revoke_leases_by_target, issue_credential}
use bonipam.Vault.Kept.{issue_credential-policies}
use bonipam.Vault.Policies.{
  HasValidPolicies, keeps-HasValidPolicies, create-HasValidPolicies, trigger-HasValidPolicies,
}
use bonipam.Vault.Runs.{
  Step, store, issue, revoke, revoke_target, create, trigger, Reach, here, next,
}

module _ (c : Ciphers) (kms : KmsProvider) where
  store_secret-policies :
      (s : VaultService) (req : CreateSecretRequest) (draws : SecretDraws)
      → (store_secret c kms s req draws).1.rotation_policies ≡ s.rotation_policies
  unfolding store_secret insert_secret
  store_secret-policies s req draws = ground arith

  revoke_lease-policies :
      (s : VaultService) (lease_id reason : String) (now : Time)
      → (revoke_lease s lease_id reason now).1.rotation_policies ≡ s.rotation_policies
  unfolding revoke_lease
  revoke_lease-policies s lease_id reason now = ground arith

  revoke_leases_by_target-policies :
      (s : VaultService) (target_id reason : String) (now : Time)
      → (revoke_leases_by_target s target_id reason now).1.rotation_policies ≡ s.rotation_policies
  unfolding revoke_leases_by_target
  revoke_leases_by_target-policies s target_id reason now = ground arith

  Step-HasValidPolicies :
      {s t : VaultService} → Step c kms s t → HasValidPolicies s → HasValidPolicies t
  Step-HasValidPolicies {s} (store req draws) v =
      keeps-HasValidPolicies s (store_secret c kms s req draws).1
        (store_secret-policies s req draws) v
  Step-HasValidPolicies {s} (issue req draws unused) v =
      keeps-HasValidPolicies s (issue_credential s req draws).1
        (issue_credential-policies s req draws) v
  Step-HasValidPolicies {s} (revoke lease_id reason now) v =
      keeps-HasValidPolicies s (revoke_lease s lease_id reason now).1
        (revoke_lease-policies s lease_id reason now) v
  Step-HasValidPolicies {s} (revoke_target target_id reason now) v =
      keeps-HasValidPolicies s (revoke_leases_by_target s target_id reason now).1
        (revoke_leases_by_target-policies s target_id reason now) v
  Step-HasValidPolicies {s} (create req id now) v = create-HasValidPolicies s req id now v
  Step-HasValidPolicies {s} (trigger policy_id draws now unused) v =
      trigger-HasValidPolicies s policy_id draws now v

  Reach-keeps_policies :
      {s t : VaultService} → Reach c kms s t → HasValidPolicies s → HasValidPolicies t
  Reach-keeps_policies here v = v
  Reach-keeps_policies (next r st) v = Step-HasValidPolicies st (Reach-keeps_policies r v)

  new_vault_service-policies :
      (digest : Digest) (key : String) (p : LocalKmsProvider) (s : VaultService)
      → new_vault_service digest key ≡ ok (p, s)
      → s.rotation_policies ≡ []
  unfolding new_vault_service
  new_vault_service-policies digest key p s made = ground arith

  -- In every vault that is reached from one that NewVaultService makes, each rotation policy is for a
  -- supported type of target, names a target and a role, and has an interval of at least 60 seconds and
  -- a lifetime from 60 to 86400, and no two policies are for one target and role, whatever their case.
  pub Reach-HasValidPolicies :
      (digest : Digest) (key : String) (p : LocalKmsProvider) (s t : VaultService)
      → new_vault_service digest key ≡ ok (p, s)
      → Reach c kms s t
      → HasValidPolicies t
  unfolding get
  Reach-HasValidPolicies digest key p s t made r =
      let empty = new_vault_service-policies digest key p s made in
      Reach-keeps_policies r (record {
        keys = rw empty tt;
        valid = λ k q at. absurd (ground (arith, empty, at));
        unique = λ j k q q' at at' same. absurd (ground (arith, empty, at));
      })
