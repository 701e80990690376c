-- ===== src/Http/Missing.antt =====
-- Where the vault's handlers reply that something is not there
-- (backend/internal/transport/http/vault_handler.go).
use Prim.Native.Char.{code}
use Prim.Native.String.{[], ◌∷◌}
use bonipam.Common.{
  ap, eq_iff, String, Bool, ◌≡◌, refl, true, false, not, Option, some, ◌==◌, arith, nat_eq, is_some,
  ok, Option-cases, Result-cases, Bool-cases, inl, inr,
}
use bonipam.Go.Map.{get}
use bonipam.Go.Time.{Time}
use bonipam.Vault.Types.{VaultService, RotationPolicy}
use bonipam.Vault.Kms.{KmsProvider}
use bonipam.Vault.Secrets.{Ciphers}
use bonipam.Vault.Leases.{IssueDraws, issue_credential, revoke_lease}
use bonipam.Vault.Rotation.{
  rotation_request, find_enabled, finish_rotation, rotate, trigger_rotation,
}
use bonipam.Http.Response.{respond_ok, respond_error}
use bonipam.Http.Gateway.{followed_by}
use bonipam.Http.Vault.{vault_message, reply_unless, handle_revoke_lease, handle_trigger_rotation}

-- A failure to issue is told from a policy that is missing by the first letter of its message.
begins_with_f : String → Bool
begins_with_f [] = false
begins_with_f (c ∷ s) = nat_eq (code c) b'f'

rotate_text :
    (t : String)
    → (followed_by "failed to rotate credential: " t == "rotation policy not found") ≡ false
unfolding followed_by begins_with_f
rotate_text t =
    let text = followed_by "failed to rotate credential: " t in
    elim (Bool-cases (text == "rotation policy not found")) [
      | inr differs ↦ differs
      | inl same ↦
          let clash : true ≡ false =
            ap begins_with_f ((eq_iff text "rotation policy not found").0 same) in
          absurd (ground (arith, clash))
    ]

module _ (c : Ciphers) (kms : KmsProvider) (s : VaultService) (cause request_id : String) where
  enabled_found :
      (id : String) (policy : RotationPolicy)
      → get s.rotation_policies id ≡ some policy
      → policy.enabled ≡ true
      → find_enabled s id ≡ ok policy
  unfolding find_enabled
  enabled_found id policy at enabled = ground arith

  trigger-missing :
      (id : String) (draws : IssueDraws) (now : Time)
      → nat_eq (handle_trigger_rotation c kms s cause request_id id draws now).0.status 404
        ≡ not (is_some (get s.rotation_policies id))
  unfolding handle_trigger_rotation reply_unless respond_ok respond_error vault_message
      trigger_rotation rotate finish_rotation find_enabled
  trigger-missing id draws now = elim (Option-cases (get s.rotation_policies id)) [
    | inl missing ↦ rw (missing, handle_trigger_rotation, trigger_rotation, find_enabled) refl
    | inr (policy, at) ↦ elim (Bool-cases policy.enabled) [
      | inr disabled ↦
          rw (at, disabled, handle_trigger_rotation, trigger_rotation, find_enabled) refl
      | inl enabled ↦
          let found = enabled_found id policy at enabled in
          elim (Result-cases (issue_credential s (rotation_request policy) draws).0) [
            | inl (issued, done) ↦
                rw (found, at, done, handle_trigger_rotation, trigger_rotation, rotate) refl
            | inr (e, failed) ↦
                rw (found, at, failed, handle_trigger_rotation, trigger_rotation, rotate)
                  (rw (rotate_text (vault_message cause e)) refl)
          ]
    ]
  ]

  -- The handlers of RevokeLease and of TriggerRotation reply with status 404 exactly where there is no
  -- lease and no rotation policy of the given id.
  pub handlers-missing :
      (id : String) (body : Option String) (draws : IssueDraws) (now : Time)
      → (nat_eq (handle_revoke_lease c kms s cause request_id id body now).0.status 404
          ≡ not (is_some (get s.leases id)))
        × (nat_eq (handle_trigger_rotation c kms s cause request_id id draws now).0.status 404
            ≡ not (is_some (get s.rotation_policies id)))
  unfolding handle_revoke_lease handle_trigger_rotation reply_unless respond_ok respond_error
      vault_message revoke_lease
  handlers-missing id body draws now = (
    elim (Option-cases (get s.leases id)) [
      | inl missing ↦ rw (missing, handle_revoke_lease, revoke_lease) refl
      | inr (lease, at) ↦ elim (Bool-cases lease.revoked) [
        | inl ended ↦ rw (at, ended, handle_revoke_lease, revoke_lease) refl
        | inr live ↦ rw (at, live, handle_revoke_lease, revoke_lease) refl
      ]
    ],
    trigger-missing id draws now,
  )
