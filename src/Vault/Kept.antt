-- ===== src/Vault/Kept.antt =====
-- What the operations of the vault leave of a lease (vault_service.go).
use Prim.Native.String.{◌++◌ as append}
use bonipam.Common.{
  String, ◌≡◌, refl, false, ◌&&◌, not, none, arith, eq_iff, ◌==◌, if◌then◌else◌, Option-cases,
  Bool-cases, Result-cases, inl, inr, ◌⊎◌,
}
use bonipam.Common.Int.{pos, eq_ℤ}
use bonipam.Go.Map.{Map, get, get-put, get-update_entries, or_else}
use bonipam.Go.Keeps.{Keeps, Keeps-same, Keeps-put}
use bonipam.Go.Text.{to_lower, trim_space, equal_fold}
use bonipam.Go.Time.{Time}
use bonipam.Vault.Types.{IssueCredentialRequest, CredentialLeaseRecord, VaultService}
use bonipam.Vault.Random.{random_password}
use bonipam.Vault.Leases.{
  IssueDraws, issue_credential, insert_lease, new_lease, revoke_lease, revoked_lease,
  revoke_for_target, revoke_leases_by_target,
}
use bonipam.Vault.Rotation.{
  trigger_rotation, rotate, finish_rotation, find_enabled, rotation_request,
}

-- `l` became `l'`: it is for the same credential and ends at the same time, and nothing is different
-- once it is revoked.
pub record LeaseFollows (l l' : CredentialLeaseRecord) : Type 0 where
  pub target_type : l'.target_type ≡ l.target_type
  pub target_id : l'.target_id ≡ l.target_id
  pub username : l'.username ≡ l.username
  pub password : l'.password ≡ l.password
  pub role : l'.role ≡ l.role
  pub expires_at : l'.expires_at ≡ l.expires_at
  pub final : (l' ≡ l) ⊎ (l.revoked ≡ false)

pub LeaseFollows-refl : (l : CredentialLeaseRecord) → LeaseFollows l l
LeaseFollows-refl l = record {
  target_type = refl;
  target_id = refl;
  username = refl;
  password = refl;
  role = refl;
  expires_at = refl;
  final = inl refl;
}

LeaseFollows-revoked_lease :
    (l : CredentialLeaseRecord) (reason : String) (now : Time)
    → l.revoked ≡ false
    → LeaseFollows l (revoked_lease l reason now)
unfolding revoked_lease
LeaseFollows-revoked_lease l reason now live = record {
  target_type = refl;
  target_id = refl;
  username = refl;
  password = refl;
  role = refl;
  expires_at = refl;
  final = inr live;
}

LeaseFollows-revoke_for_target :
    (target reason : String) (now : Time) (k : String) (l : CredentialLeaseRecord)
    → LeaseFollows l (or_else (revoke_for_target target reason now k l) l)
unfolding revoke_for_target
LeaseFollows-revoke_for_target target reason now k l =
    elim (Bool-cases (equal_fold l.target_id target && not l.revoked)) [
      | inl hit ↦ rw hit (LeaseFollows-revoked_lease l reason now (ground arith))
      | inr miss ↦ rw miss (LeaseFollows-refl l)
    ]

pub LeaseFollows-trans :
    {a b c : CredentialLeaseRecord} → LeaseFollows a b → LeaseFollows b c → LeaseFollows a c
LeaseFollows-trans p q = ground (arith, p, q)

-- Where a lease stands in the first map, its follower stands in the second.
abbrev pub KeepsLeases : Map CredentialLeaseRecord → Map CredentialLeaseRecord → Type 0
KeepsLeases m m' = Keeps LeaseFollows m m'

pub KeepsLeases-same : (m m' : Map CredentialLeaseRecord) → m' ≡ m → KeepsLeases m m'
KeepsLeases-same m m' e = Keeps-same LeaseFollows m m' LeaseFollows-refl e

module _ (s : VaultService) where
  pub issue_credential-KeepsLeases :
      (req : IssueCredentialRequest) (draws : IssueDraws)
      → get s.leases (append "lease-" draws.lease_uuid) ≡ none
      → KeepsLeases s.leases (issue_credential s req draws).1.leases
  unfolding issue_credential insert_lease new_lease
  issue_credential-KeepsLeases req draws unused k l at =
      let lease_id = append "lease-" draws.lease_uuid in
      (
        l,
        elim (Option-cases (random_password 24 draws.password_rolls)) [
          | inl failed ↦ ground arith
          | inr (password, drawn) ↦ ground (
            arith,
            eq_iff lease_id k,
            get-put s.leases lease_id k (
                new_lease (to_lower (trim_space req.target_type)) (trim_space req.target_id)
                  (trim_space req.role)
                  (if eq_ℤ req.ttl_seconds (pos 0) then pos 900 else req.ttl_seconds) req.metadata
                  password draws),
          )
        ],
        LeaseFollows-refl l,
      )

  pub revoke_lease-KeepsLeases :
      (lease_id reason : String) (now : Time)
      → KeepsLeases s.leases (revoke_lease s lease_id reason now).1.leases
  unfolding revoke_lease revoked_lease
  revoke_lease-KeepsLeases lease_id reason now = elim (Option-cases (get s.leases lease_id)) [
    | inl missing ↦ rw (missing, revoke_lease) (KeepsLeases-same s.leases s.leases refl)
    | inr (found, at) ↦ elim (Bool-cases found.revoked) [
      | inl revoked ↦ rw (at, revoked, revoke_lease) (KeepsLeases-same s.leases s.leases refl)
      | inr live ↦
          let l' = revoked_lease found (trim_space reason) now in
          rw (at, live, revoke_lease)
            (Keeps-put LeaseFollows s.leases lease_id found l' LeaseFollows-refl at
              (LeaseFollows-revoked_lease found (trim_space reason) now live))
    ]
  ]

  pub revoke_leases_by_target-KeepsLeases :
      (target_id reason : String) (now : Time)
      → KeepsLeases s.leases (revoke_leases_by_target s target_id reason now).1.leases
  unfolding revoke_leases_by_target revoke_for_target
  revoke_leases_by_target-KeepsLeases target_id reason now k l at =
      let target = trim_space target_id in
      let visit = revoke_for_target target (trim_space reason) now in
      elim (Bool-cases (target == "")) [
        | inl blank ↦ (l, ground arith, LeaseFollows-refl l)
        | inr given ↦ (
          or_else (visit k l) l,
          ground (arith, get-update_entries visit s.leases k),
          LeaseFollows-revoke_for_target target (trim_space reason) now k l,
        )
      ]

  pub issue_credential-policies :
      (req : IssueCredentialRequest) (draws : IssueDraws)
      → (issue_credential s req draws).1.rotation_policies ≡ s.rotation_policies
  unfolding issue_credential insert_lease
  issue_credential-policies req draws = ground arith

  pub trigger_rotation-KeepsLeases :
      (policy_id : String) (draws : IssueDraws) (now : Time)
      → get s.leases (append "lease-" draws.lease_uuid) ≡ none
      → KeepsLeases s.leases (trigger_rotation s policy_id draws now).1.leases
  unfolding trigger_rotation rotate finish_rotation
  trigger_rotation-KeepsLeases policy_id draws now unused =
      elim (Result-cases (find_enabled s policy_id)) [
        | inr (e, refused) ↦
            rw (refused, trigger_rotation) (KeepsLeases-same s.leases s.leases refl)
        | inl (policy, found) ↦
            let req = rotation_request policy in
            let kept = issue_credential-KeepsLeases req draws unused in
            elim (Result-cases (issue_credential s req draws).0) [
              | inr (e, failed) ↦ rw (found, failed, trigger_rotation, rotate) kept
              | inl (issued, done) ↦ rw (found, done, trigger_rotation, rotate) kept
            ]
      ]
