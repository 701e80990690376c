-- ===== src/Http/Gateway.antt =====
-- The handlers of gateway sessions (backend/internal/transport/http/gateway_handler.go). What
-- ShouldBindJSON makes of the body is an argument, `none` where it returns an error.
use Prim.Native.Char.{Char, code}
use Prim.Native.String.{[], ◌∷◌}
use bonipam.Common.{ℕ, ◌-◌, String, Option, none, some, ◌==◌, ltb, nat_eq, if◌then◌else◌, ok, err}
use bonipam.Go.Time.{Time}
use bonipam.Gateway.Types.{
  GrantStatus, InitiateSessionRequest, GatewaySessionResponse, GatewayError,
  session_fields_required, grant_fields_required, unsupported_protocol, jit_grant_not_found,
  grant_has_expired, jit_grant_has_expired, grant_not_approved, user_mismatch, asset_mismatch,
  protocol_mismatch, session_not_found, session_already_terminated, ttl_out_of_range,
  approver_required, grant_not_pending, GatewayService,
}
use bonipam.Gateway.Types.GrantStatus.{pending, approved, denied}
use bonipam.Gateway.Sessions.{initiate_session, get_session, terminate_session}
use bonipam.Http.Response.{Reply, respond_ok, respond_error}

-- The text `s` with `t` behind it.
unfoldable pub followed_by : String → String → String
followed_by [] t = t
followed_by (c ∷ s) t = c ∷ followed_by s t

unfoldable pub status_text : GrantStatus → String
status_text pending = "pending"
status_text approved = "approved"
status_text denied = "denied"

-- err.Error() of an error that the session operations return.
unfoldable pub session_message : GatewayError → String
session_message session_fields_required = "user_id, target_asset_id, and protocol are required"
session_message grant_fields_required = "user_id, asset_id, protocol, and reason are required"
session_message (unsupported_protocol protocol) = followed_by "unsupported protocol: " protocol
session_message jit_grant_not_found = "jit grant not found"
session_message jit_grant_has_expired = "jit grant has expired"
session_message grant_has_expired = "grant has expired"
session_message (grant_not_approved status) =
    followed_by "jit grant is not approved (status: " (followed_by (status_text status) ")")
session_message user_mismatch = "jit grant user mismatch"
session_message asset_mismatch = "jit grant asset mismatch"
session_message protocol_mismatch = "jit grant protocol mismatch"
session_message session_not_found = "session not found"
session_message session_already_terminated = "session already terminated"
session_message ttl_out_of_range = "ttl_seconds must be between 60 and 86400"
session_message approver_required = "approver_id is required"
session_message grant_not_pending = "grant is not in pending state"

utf8_bytes : Char → ℕ
utf8_bytes c =
    if ltb (code c) 0x80
    then 1
    else if ltb (code c) 0x800
    then 2
    else if ltb (code c) 0x10000
    then 3
    else 4

prepend : Char → Option String → Option String
prepend c none = none
prepend c (some s) = some (c ∷ s)

-- s[:n], n a number of bytes; `none` where Go panics, or where the cut is inside a character.
unfoldable pub byte_prefix : String → ℕ → Option String
unfolding utf8_bytes prepend
byte_prefix [] n = if nat_eq n 0 then some "" else none
byte_prefix (c ∷ s) n =
    let rest = byte_prefix s (n - utf8_bytes c) in
    if nat_eq n 0 then some "" else if ltb n (utf8_bytes c) then none else prepend c rest

-- A handler returns a reply, or `none` if it panics, and the service it leaves.
abbrev pub Handled : Type 0 → Type 0
Handled A = Option (Reply A) × GatewayService

unfoldable pub initiate_failure : String → GatewayError → Option (Reply GatewaySessionResponse)
initiate_failure request_id e = elim (byte_prefix (session_message e) 19) [
  | none ↦ none
  | some start ↦
      let code : String =
        if start == "unsupported protocol"
        then "UNSUPPORTED_PROTOCOL"
        else "SESSION_INITIATE_FAILED" in
      some (respond_error request_id 400 code (session_message e))
]

unfoldable pub handle_initiate_session :
    GatewayService
    → String
    → Option InitiateSessionRequest
    → String
    → Time
    → Time
    → Handled GatewaySessionResponse
handle_initiate_session s request_id none id checked now =
    (some (respond_error request_id 400 "BAD_REQUEST" "invalid session initiate payload"), s)
handle_initiate_session s request_id (some req) id checked now =
    let (result, s') = initiate_session s req id checked now in
    elim result [
      | err e ↦ (initiate_failure request_id e, s')
      | ok session ↦ (some (respond_ok request_id 201 session), s')
    ]

unfoldable pub handle_get_session : GatewayService → String → String → Reply GatewaySessionResponse
handle_get_session s request_id session_id = elim (get_session s session_id) [
  | err e ↦ respond_error request_id 404 "SESSION_NOT_FOUND" (session_message e)
  | ok result ↦ respond_ok request_id 200 result
]

-- The payload {"terminated": true} is the unit value. A body that does not parse leaves no reason.
unfoldable pub handle_terminate_session :
    GatewayService → String → String → Option String → Time → Reply Unit × GatewayService
handle_terminate_session s request_id session_id body now =
    let reason : String = elim body [ none ↦ "" | some reason ↦ reason ] in
    let (result, s') = terminate_session s session_id reason now in
    elim result [
      | err e ↦
          let missing = session_message e == "session not found" in
          (
            respond_error request_id (if missing then 404 else 400)
                (if missing then "SESSION_NOT_FOUND" else "SESSION_TERMINATE_FAILED")
                (session_message e),
            s',
          )
      | ok done ↦ (respond_ok request_id 200 tt, s')
    ]
