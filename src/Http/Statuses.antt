-- ===== src/Http/Statuses.antt =====
-- The statuses and codes of the handlers (backend/internal/transport/http/gateway_handler.go).
use mathlib.Core.Option
use bonipam.Common.{
  ℕ, String, Bool, ◌≡◌, refl, true, false, Option, none, some, arith, if◌then◌else◌, err, is_ok,
  Result-cases, Option-cases, Bool-cases, inl, inr,
}
use bonipam.Go.Map.{get}
use bonipam.Go.Text.{trim_space, to_lower}
use bonipam.Go.Time.{Time}
use bonipam.Gateway.Types.{
  InitiateSessionRequest, GatewaySessionResponse, GatewayError, session_fields_required,
  grant_fields_required, unsupported_protocol, jit_grant_not_found, grant_has_expired,
  jit_grant_has_expired, grant_not_approved, user_mismatch, asset_mismatch, protocol_mismatch,
  session_not_found, session_already_terminated, ttl_out_of_range, approver_required,
  grant_not_pending, GatewayService, is_terminated,
}
use bonipam.Gateway.Grants.{check_grant, validate_jit_grant}
use bonipam.Gateway.Sessions.{grant_error, initiate_session, terminate_session}
use bonipam.Http.Response.{Reply, respond_ok, respond_error}
use bonipam.Http.Gateway.{
  session_message, byte_prefix, followed_by, initiate_failure, handle_initiate_session,
  handle_terminate_session,
}

-- The errors that InitiateSession returns.
abbrev is_initiate_error : GatewayError → Bool
is_initiate_error session_fields_required = true
is_initiate_error (unsupported_protocol protocol) = true
is_initiate_error jit_grant_not_found = true
is_initiate_error jit_grant_has_expired = true
is_initiate_error (grant_not_approved status) = true
is_initiate_error user_mismatch = true
is_initiate_error asset_mismatch = true
is_initiate_error protocol_mismatch = true
is_initiate_error _ = false

grant_error-initiates :
    (s : GatewayService) (grant_id user_id asset_id protocol : String) (checked : Time)
    (e : GatewayError)
    → grant_error s grant_id user_id asset_id protocol checked ≡ some e
    → is_initiate_error e ≡ true
unfolding grant_error validate_jit_grant check_grant
grant_error-initiates s grant_id user_id asset_id protocol checked e h = ground arith

initiate_session-initiates :
    (s : GatewayService) (req : InitiateSessionRequest) (id : String) (checked now : Time)
    (e : GatewayError)
    → (initiate_session s req id checked now).0 ≡ err e
    → is_initiate_error e ≡ true
unfolding initiate_session
initiate_session-initiates s req id checked now e h = ground (
  arith,
  grant_error-initiates s (trim_space req.jit_grant_id) (trim_space req.user_id)
      (trim_space req.target_asset_id) (to_lower (trim_space req.protocol)) checked e,
)

-- Their messages have the 19 bytes that the handler cuts off, which are not the text it looks for.
initiate_failure-code :
    (request_id : String) (e : GatewayError)
    → is_initiate_error e ≡ true
    → initiate_failure request_id e
      ≡ some (respond_error request_id 400 "SESSION_INITIATE_FAILED" (session_message e))
unfolding initiate_failure session_message byte_prefix followed_by
initiate_failure-code request_id session_fields_required h = refl
initiate_failure-code request_id grant_fields_required h = absurd (ground arith)
initiate_failure-code request_id (unsupported_protocol protocol) h = refl
initiate_failure-code request_id jit_grant_not_found h = refl
initiate_failure-code request_id grant_has_expired h = absurd (ground arith)
initiate_failure-code request_id jit_grant_has_expired h = refl
initiate_failure-code request_id (grant_not_approved status) h = refl
initiate_failure-code request_id user_mismatch h = refl
initiate_failure-code request_id asset_mismatch h = refl
initiate_failure-code request_id protocol_mismatch h = refl
initiate_failure-code request_id session_not_found h = absurd (ground arith)
initiate_failure-code request_id session_already_terminated h = absurd (ground arith)
initiate_failure-code request_id ttl_out_of_range h = absurd (ground arith)
initiate_failure-code request_id approver_required h = absurd (ground arith)
initiate_failure-code request_id grant_not_pending h = absurd (ground arith)

-- The code of a reply that reports an error.
abbrev pub code_of : {A : Type 0} → Reply A → Option String
code_of reply = Option.map (λ e. e.code) reply.envelope.error

-- The handler of InitiateSession at a body that parses: it does not panic, it leaves what InitiateSession
-- leaves, and it replies with status 201 where that succeeds and otherwise with status 400 and the code
-- SESSION_INITIATE_FAILED, also for an unsupported protocol.
pub handle_initiate_session-answers :
    (s : GatewayService) (request_id : String) (req : InitiateSessionRequest) (id : String)
    (checked now : Time)
    → (reply : Reply GatewaySessionResponse) × (handle_initiate_session s request_id
          (some req)
          id
          checked
          now
        ≡ (some reply, (initiate_session s req id checked now).1))
      × (reply.status ≡ (if is_ok (initiate_session s req id checked now).0 then 201 else 400))
      × (code_of reply ≡ (
          if is_ok (initiate_session s req id checked now).0
          then none
          else some "SESSION_INITIATE_FAILED"))
unfolding handle_initiate_session respond_ok respond_error
handle_initiate_session-answers s request_id req id checked now =
    elim (Result-cases (initiate_session s req id checked now).0) [
      | inl (session, created) ↦ (
        respond_ok request_id 201 session,
        rw (created, handle_initiate_session) refl,
        rw created refl,
        rw created refl,
      )
      | inr (e, failed) ↦ (
        respond_error request_id 400 "SESSION_INITIATE_FAILED" (session_message e),
        rw
            (
              failed,
              handle_initiate_session,
              initiate_failure-code request_id e
                  (initiate_session-initiates s req id checked now e failed),
            )
            refl,
        rw failed refl,
        rw failed refl,
      )
    ]

-- The handler of TerminateSession replies with status 404 where there is no session of that id, 400 where
-- it is terminated already, and 200 otherwise.
handle_terminate_session-status :
    (s : GatewayService) (request_id session_id : String) (body : Option String) (now : Time)
    → (handle_terminate_session s request_id session_id body now).0.status
      ≡ elim (get s.sessions session_id) as (λ o. ℕ) [
        | none ↦ 404
        | some session ↦ if is_terminated session.status then 400 else 200
      ]
unfolding handle_terminate_session terminate_session respond_ok respond_error session_message
handle_terminate_session-status s request_id session_id body now =
    elim (Option-cases (get s.sessions session_id)) [
      | inl missing ↦ rw (missing, handle_terminate_session, terminate_session) refl
      | inr (session, at) ↦ elim (Bool-cases (is_terminated session.status)) [
        | inl ended ↦ rw (at, ended, handle_terminate_session, terminate_session) refl
        | inr live ↦ rw (at, live, handle_terminate_session, terminate_session) refl
      ]
    ]
