-- ===== src/Vault/Revoked.antt =====
-- Revoking every lease of a target (vault_service.go, RevokeLeasesByTarget).
use bonipam.Common.{
  String, ◌≡◌, ◌≢◌, true, false, ◌&&◌, not, none, some, arith, eq_iff, ◌==◌, if◌then◌else◌, ok,
}
use bonipam.Go.Map.{get, get-update_entries, or_else, count_updates_again}
use bonipam.Go.Text.{trim_space, equal_fold}
use bonipam.Go.Time.{Time}
use bonipam.Vault.Types.{CredentialLeaseRecord, VaultService}
use bonipam.Vault.Leases.{revoked_lease, revoke_for_target, revoke_leases_by_target}

nothing_left :
    (target reason reason' : String) (now later : Time) (k : String) (l : CredentialLeaseRecord)
    → revoke_for_target target reason' later k (or_else (revoke_for_target target reason now k l) l)
      ≡ none
unfolding revoke_for_target revoked_lease
nothing_left target reason reason' now later k l = ground arith

-- After the leases of a target that is not blank are revoked, each lease whose target is that one up
-- to case, and that was not revoked before, is revoked with the trimmed reason and the time of the
-- call; each other lease is as it was; and a second call for that target, with any reason and at any
-- time, revokes none.
pub revoke_leases_by_target-exact :
    (s : VaultService) (target_id reason reason' : String) (now later : Time) (k : String)
    (l : CredentialLeaseRecord)
    → trim_space target_id ≢ ""
    → get s.leases k ≡ some l
    → (get (revoke_leases_by_target s target_id reason now).1.leases k
        ≡ some (
            if equal_fold l.target_id (trim_space target_id) && not l.revoked
            then record l {
              revoked = true;
              revoked_at = some now;
              revoke_reason = trim_space reason;
            }
            else l))
      × ((revoke_leases_by_target
            (revoke_leases_by_target s target_id reason now).1
            target_id
            reason'
            later).0
          ≡ ok (record { revoked = 0; target_id = trim_space target_id }))
unfolding revoke_leases_by_target
revoke_leases_by_target-exact s target_id reason reason' now later k l given at =
    let target = trim_space target_id in
    let visit = revoke_for_target target (trim_space reason) now in
    let again = revoke_for_target target (trim_space reason') later in
    let filled : (target == "") ≡ false = ground (arith, eq_iff target "", given) in
    (
      unfold revoke_for_target revoked_lease in
          ground (arith, filled, get-update_entries visit s.leases k),
      ground (
        arith,
        filled,
        count_updates_again visit again s.leases
            (nothing_left target (trim_space reason) (trim_space reason') now later),
      ),
    )
