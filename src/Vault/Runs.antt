-- ===== src/Vault/Runs.antt =====
-- The runs of the vault: its operations as steps, and what becomes of a lease.
use Prim.Native.String.{◌++◌ as append}
use bonipam.Common.{String, ◌≡◌, ◌≢◌, none, some, arith, inl, inr}
use bonipam.Common.Int.{◌≤ℤ◌}
use bonipam.Go.Map.{get}
use bonipam.Go.Time.{Time}
use bonipam.Vault.Types.{
  CreateSecretRequest, IssueCredentialRequest, CredentialLeaseRecord, CreateRotationPolicyRequest,
  active, VaultService,
}
use bonipam.Vault.Kms.{KmsProvider}
use bonipam.Vault.Secrets.{Ciphers, SecretDraws, store_secret, insert_secret}
use bonipam.Vault.Leases.{
  IssueDraws, issue_credential, revoke_lease, revoke_leases_by_target, lease_status,
}
use bonipam.Vault.Rotation.{create_rotation_policy, insert_rotation_policy, trigger_rotation}
use bonipam.Vault.Kept.{
  LeaseFollows, LeaseFollows-refl, LeaseFollows-trans, KeepsLeases, KeepsLeases-same,
  issue_credential-KeepsLeases, revoke_lease-KeepsLeases, revoke_leases_by_target-KeepsLeases,
  trigger_rotation-KeepsLeases,
}

-- One call of an operation that changes the vault. The uuid of a new lease is not in use.
-- RunDueRotations is a sequence of calls of TriggerRotation.
pub data Step (c : Ciphers) (kms : KmsProvider) (s : VaultService) : VaultService → Type 0 where
  store :
      (req : CreateSecretRequest) (draws : SecretDraws)
      → Step c kms s (store_secret c kms s req draws).1
  issue :
      (req : IssueCredentialRequest) (draws : IssueDraws)
      → get s.leases (append "lease-" draws.lease_uuid) ≡ none
      → Step c kms s (issue_credential s req draws).1
  revoke :
      (lease_id reason : String) (now : Time) → Step c kms s (revoke_lease s lease_id reason now).1
  revoke_target :
      (target_id reason : String) (now : Time)
      → Step c kms s (revoke_leases_by_target s target_id reason now).1
  create :
      (req : CreateRotationPolicyRequest) (id : String) (now : Time)
      → Step c kms s (create_rotation_policy s req id now).1
  trigger :
      (policy_id : String) (draws : IssueDraws) (now : Time)
      → get s.leases (append "lease-" draws.lease_uuid) ≡ none
      → Step c kms s (trigger_rotation s policy_id draws now).1

pub data Reach (c : Ciphers) (kms : KmsProvider) (s : VaultService) : VaultService → Type 0 where
  here : Reach c kms s s
  next : {t u : VaultService} → Reach c kms s t → Step c kms t u → Reach c kms s u

status_later :
    (l l' : CredentialLeaseRecord) (now later : Time)
    → LeaseFollows l l'
    → now ≤ℤ later
    → lease_status l now ≢ active
    → lease_status l' later ≢ active
unfolding lease_status
status_later l l' now later follows passed inactive = elim follows.final [
  | inl same ↦ λ live. inactive (ground (arith, same, live, passed))
  | inr open_lease ↦ λ live. inactive (ground (arith, open_lease, follows.expires_at, live, passed))
]

module _ (c : Ciphers) (kms : KmsProvider) where
  leases-store_secret :
      (s : VaultService) (req : CreateSecretRequest) (draws : SecretDraws)
      → (store_secret c kms s req draws).1.leases ≡ s.leases
  unfolding store_secret insert_secret
  leases-store_secret s req draws = ground arith

  leases-create_rotation_policy :
      (s : VaultService) (req : CreateRotationPolicyRequest) (id : String) (now : Time)
      → (create_rotation_policy s req id now).1.leases ≡ s.leases
  unfolding create_rotation_policy insert_rotation_policy
  leases-create_rotation_policy s req id now = ground arith

  Step-KeepsLeases : {s t : VaultService} → Step c kms s t → KeepsLeases s.leases t.leases
  Step-KeepsLeases {s} (store req draws) =
      KeepsLeases-same s.leases (store_secret c kms s req draws).1.leases
        (leases-store_secret s req draws)
  Step-KeepsLeases {s} (issue req draws unused) = issue_credential-KeepsLeases s req draws unused
  Step-KeepsLeases {s} (revoke lease_id reason now) = revoke_lease-KeepsLeases s lease_id reason now
  Step-KeepsLeases {s} (revoke_target target_id reason now) =
      revoke_leases_by_target-KeepsLeases s target_id reason now
  Step-KeepsLeases {s} (create req id now) =
      KeepsLeases-same s.leases (create_rotation_policy s req id now).1.leases
        (leases-create_rotation_policy s req id now)
  Step-KeepsLeases {s} (trigger policy_id draws now unused) =
      trigger_rotation-KeepsLeases s policy_id draws now unused

  Reach-LeaseFollows :
      {s t : VaultService}
      → Reach c kms s t
      → (k : String) (l : CredentialLeaseRecord) → get s.leases k ≡ some l
      → (l' : CredentialLeaseRecord) × (get t.leases k ≡ some l') × LeaseFollows l l'
  Reach-LeaseFollows here k l at = (l, at, LeaseFollows-refl l)
  Reach-LeaseFollows (next r st) k l at =
      let (l', at', follows) = Reach-LeaseFollows r k l at in
      let (l'', at'', follows') = Step-KeepsLeases st k l' at' in
      (l'', at'', LeaseFollows-trans follows follows')

  -- Over any run of the vault a lease stays under its id, for the same user and target and with the
  -- same end, and it does not change once it is revoked; if its status is not active at one time, then
  -- it is not active at that time or later in any vault that the run reaches.
  pub Reach-stays_inactive :
      {s t : VaultService} (k : String) (l : CredentialLeaseRecord) (now later : Time)
      → Reach c kms s t
      → get s.leases k ≡ some l
      → now ≤ℤ later
      → lease_status l now ≢ active
      → (l' : CredentialLeaseRecord) × (get t.leases k ≡ some l')
        × LeaseFollows l l'
        × (lease_status l' later ≢ active)
  Reach-stays_inactive k l now later r at passed inactive =
      let (l', at', follows) = Reach-LeaseFollows r k l at in
      (l', at', follows, status_later l l' now later follows passed inactive)
