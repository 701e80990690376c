-- ===== src/Vault/Overflow.antt =====
-- The interval of a rotation policy as a time.Duration (vault_service.go, CreateRotationPolicy).
use bonipam.Common.{ℕ, String, ◌≡◌, ◌≤◌, ltb, ok, arith, if◌then◌else◌}
use bonipam.Common.Int.{pos, negsuc, eq_ℤ, seconds, ◌+ℤ◌}
use bonipam.Go.Time.{Time, after, add}
use bonipam.Vault.Types.{
  RotationPolicy, CreateRotationPolicyRequest, RotationPolicyResponse, VaultService,
}
use bonipam.Vault.Rotation.{
  create_rotation_policy, insert_rotation_policy, new_rotation_policy, to_rotation_policy_response,
}

-- Up to 18446744073 seconds the product with a second is negative from 9223372037 on.
pub seconds_overdue :
    (n : ℕ) (now : Time)
    → n ≤ 18446744073
    → after now (add now (seconds (pos n))) ≡ ltb 9223372036 n
unfolding seconds ◌+ℤ◌
seconds_overdue n (pos t) h = ground arith
seconds_overdue n (negsuc t) h = ground arith

insert_rotation_policy-next :
    (s : VaultService) (policy : RotationPolicy) (r : RotationPolicyResponse)
    → (insert_rotation_policy s policy).0 ≡ ok r
    → r.next_rotation_at ≡ policy.next_rotation_at
unfolding insert_rotation_policy to_rotation_policy_response
insert_rotation_policy-next s policy r created = ground arith

create_rotation_policy-next :
    (s : VaultService) (req : CreateRotationPolicyRequest) (id : String) (now : Time)
    (r : RotationPolicyResponse)
    → (create_rotation_policy s req id now).0 ≡ ok r
    → r.next_rotation_at ≡ add now (seconds req.interval_seconds)
unfolding create_rotation_policy new_rotation_policy
create_rotation_policy-next s req id now r created =
    let ttl = if eq_ℤ req.ttl_seconds (pos 0) then req.interval_seconds else req.ttl_seconds in
    ground (arith, insert_rotation_policy-next s (new_rotation_policy req ttl id now) r)

-- CreateRotationPolicy when it succeeds with an interval of at most 18446744073 seconds: the policy it
-- returns is past its next rotation at the very time of its creation exactly when the interval is above
-- 9223372036 seconds, from where the product with time.Second wraps around.
pub create_rotation_policy-overdue :
    (s : VaultService) (req : CreateRotationPolicyRequest) (id : String) (now : Time)
    (r : RotationPolicyResponse) (n : ℕ)
    → (create_rotation_policy s req id now).0 ≡ ok r
    → req.interval_seconds ≡ pos n
    → n ≤ 18446744073
    → after now r.next_rotation_at ≡ ltb 9223372036 n
create_rotation_policy-overdue s req id now r n created interval bound =
    let next = create_rotation_policy-next s req id now r created in
    rw (next, interval) (seconds_overdue n now bound)
