-- ===== src/Errors.antt =====
-- connector/errors.py, and the exceptions that reach the handlers of connector/app.py.
use Prim.Native.String.{String}
use sgraph_omega_connector.Base.{ℕ, List, Option}
use sgraph_omega_connector.Text.{Text}
use sgraph_omega_connector.Json.{Json}

-- The body of an error reply. Codes and messages are never taken apart, so they are literals.
pub record ErrorBody : Type 0 where
  pub request_id : Option Text
  pub code : String
  pub message : String
  pub details : List (Text × Json)

pub data Detail : Type 0 where
  envelope : ErrorBody → Detail
  plain : String → Detail

pub data Exception : Type 0 where
  -- `fastapi.HTTPException`
  http : ℕ → Detail → Exception
  -- `RequestValidationError`, with its `errors()`
  request_validation : Json → Exception
  -- any other exception of Python or of a library
  unexpected : String → Exception

abbrev pub http_error : ℕ → String → String → Option Text → List (Text × Json) → Exception
http_error status_code code message request_id details = http status_code (
    envelope
      (record { request_id = request_id; code = code; message = message; details = details }))
