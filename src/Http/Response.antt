-- ===== src/Http/Response.antt =====
-- The replies of the handlers (backend/internal/transport/http/response.go).
use bonipam.Common.{ℕ, String, Bool, true, false, Option, none, some}

pub record ErrorBody : Type 0 where
  pub code : String
  pub message : String

pub record Envelope (A : Type 0) : Type 0 where
  pub success : Bool
  pub payload : Option A
  pub error : Option ErrorBody
  pub request_id : String

-- What c.JSON is given.
pub record Reply (A : Type 0) : Type 0 where
  pub status : ℕ
  pub envelope : Envelope A

unfoldable pub respond_ok : {A : Type 0} → String → ℕ → A → Reply A
respond_ok request_id status payload = record {
  status = status;
  envelope = record {
    success = true;
    payload = some payload;
    error = none;
    request_id = request_id;
  };
}

unfoldable pub respond_error : {A : Type 0} → String → ℕ → String → String → Reply A
respond_error request_id status code message = record {
  status = status;
  envelope = record {
    success = false;
    payload = none;
    error = some (record { code = code; message = message });
    request_id = request_id;
  };
}
