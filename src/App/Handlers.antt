-- ===== src/App/Handlers.antt =====
-- The exception handlers of the application, and the reply that a client receives.
use Prim.Native.String.{String}
use sgraph_omega_connector.Base.{ℕ, [], ◌∷◌, none, Result, ok, raise}
use sgraph_omega_connector.Text.{codes}
use sgraph_omega_connector.Json.{Json}
use sgraph_omega_connector.Errors.{
  Exception, http, request_validation, unexpected, Detail, envelope, plain, ErrorBody,
}
use sgraph_omega_connector.Models.{ScanAttachmentResponse}

pub data Reply : Type 0 where
  scanned : ScanAttachmentResponse → Reply
  error : ℕ → ErrorBody → Reply

abbrev pub status_code : Reply → ℕ
status_code (scanned r) = 200
status_code (error n body) = n

unfoldable pub validation_exception_handler : Json → Reply
validation_exception_handler errors = error 400 (record {
  request_id = none;
  code = "bad_request";
  message = "request validation failed";
  details = (codes "errors", errors) ∷ [];
})

unfoldable pub http_exception_handler : ℕ → Detail → Reply
http_exception_handler status (envelope body) = error status body
http_exception_handler status (plain message) =
    error status
      (record { request_id = none; code = "http_error"; message = message; details = [] })

unfoldable pub fallback_exception_handler : Exception → Reply
fallback_exception_handler (http status (envelope body)) = error status body
fallback_exception_handler _ = error 500 (record {
  request_id = none;
  code = "internal_error";
  message = "internal server error";
  details = [];
})

-- The handler for the most specific class of the exception.
unfoldable pub reply_of : Result Exception ScanAttachmentResponse → Reply
reply_of (ok r) = scanned r
reply_of (raise (http status detail)) = http_exception_handler status detail
reply_of (raise (request_validation errors)) = validation_exception_handler errors
reply_of (raise (unexpected e)) = fallback_exception_handler (unexpected e)

-- `healthz`
abbrev pub healthz : String × String
healthz = ("status", "ok")
