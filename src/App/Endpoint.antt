-- ===== src/App/Endpoint.antt =====
-- The two scan endpoints.
use sgraph_omega_connector.Base.{
  ℕ, Bool, true, false, not, List, [], ◌∷◌, ◌++◌, Option, some, none, Result, ok, raise,
  if◌then◌else◌,
}
use sgraph_omega_connector.Text.{Text, codes}
use sgraph_omega_connector.Codec.{Crypto}
use sgraph_omega_connector.Security.{NonceReplayCache}
use sgraph_omega_connector.Json.{Json}
use sgraph_omega_connector.Errors.{Exception, http_error}
use sgraph_omega_connector.Models.{
  ScanAttachmentRequest, ScanAttachmentResponse, Pydantic, model_validate, given,
}
use sgraph_omega_connector.Auth.{AuthConfig, Request, validate_api_key, validate_hmac}
use sgraph_omega_connector.OmegaClient.{
  OmegaClient, OmegaError, client_error, circuit_open, timeout_error, unavailable, rejected,
  CircuitState, Upstream, scan_attachment, scan_path,
}
use sgraph_omega_connector.Audit.{AuditRecord, audit_log}
use sgraph_omega_connector.App.Normalize.{Runtime, normalize_response, fallback_response}

-- The settings that an endpoint reads, and the objects that `ConnectorRuntime` builds from them.
pub record ConnectorRuntime : Type 0 where
  pub fail_mode : Text
  pub debug_document_scan : Bool
  pub audit_redaction : Bool
  pub auth : AuthConfig
  pub omega : OmegaClient

-- What lives on between two requests.
pub record State : Type 0 where
  pub replay_cache : NonceReplayCache
  pub circuit : CircuitState
  pub audit : List AuditRecord

-- What one request meets: the parser of its body, pydantic, the runtime, a fresh request id, the
-- clock at the check of the timestamp and at that of the nonce, and Omega.
pub record Environment : Type 0 where
  pub loads_body : List ℕ → Option Json
  pub pydantic : Pydantic
  pub runtime : Runtime
  pub request_uuid : Text
  pub now : ℕ
  pub marked_at : ℕ
  pub upstream : Upstream

-- `if not payload.request_id: payload.request_id = str(uuid.uuid4())`
unfoldable pub fill_request_id : Text → ScanAttachmentRequest → ScanAttachmentRequest
fill_request_id uuid payload =
    if given payload.request_id then payload else record payload { request_id = some uuid }

-- The body, parsed and validated, with an id.
unfoldable pub read_payload : Environment → List ℕ → Result Exception ScanAttachmentRequest
read_payload env body = elim (env.loads_body body) [
  | none ↦ raise (http_error 400 "bad_request" "invalid JSON payload" none [])
  | some j ↦ elim (model_validate env.pydantic j) [
    | none ↦ raise (
        http_error 400 "bad_request" "request validation failed" none
          ((codes "errors", env.pydantic.errors j) ∷ []))
    | some payload ↦ ok (fill_request_id env.request_uuid payload)
  ]
]

-- The `except` clauses around the scan: the reason, the detail code and the status of the fallback.
-- `client_error` is what the last clause catches, `except Exception`.
unfoldable pub on_error :
    Runtime → ScanAttachmentRequest → Text → OmegaError → Result Exception ScanAttachmentResponse
on_error rt payload fail_mode circuit_open =
    fallback_response rt payload (codes "omega_unavailable") fail_mode none none
on_error rt payload fail_mode timeout_error =
    fallback_response rt payload (codes "omega_timeout") fail_mode none none
on_error rt payload fail_mode (rejected status code body) =
    fallback_response rt payload (codes "omega_rejected_4xx") fail_mode (some code) (some status)
on_error rt payload fail_mode unavailable =
    fallback_response rt payload (codes "omega_unavailable") fail_mode none none
on_error rt payload fail_mode client_error =
    fallback_response rt payload (codes "invalid_response") fail_mode none none

-- The `try` statement: the response to Omega's reply, or the fallback.
unfoldable pub respond :
    Runtime
    → ScanAttachmentRequest
    → Text
    → Result OmegaError Json
    → Result Exception ScanAttachmentResponse
respond rt payload fail_mode (raise e) = on_error rt payload fail_mode e
respond rt payload fail_mode (ok raw) = elim (normalize_response rt raw payload) [
  | ok r ↦ ok r
  | raise _ ↦ fallback_response rt payload (codes "invalid_response") fail_mode none none
]

-- The audit record that a response gets.
abbrev pub record_of :
    Crypto → ConnectorRuntime → Text → ScanAttachmentResponse → Result Exception AuditRecord
record_of k rt endpoint r =
    audit_log k r.request_id r.tenant_id r.verdict r.risk_score r.reasons rt.audit_redaction
      endpoint

-- The response is returned once its audit record is written; an exception writes none.
unfoldable pub write_audit :
    Crypto
    → ConnectorRuntime
    → Text
    → Result Exception ScanAttachmentResponse
    → List AuditRecord
    → Result Exception ScanAttachmentResponse × List AuditRecord
write_audit k rt endpoint (raise e) log = (raise e, log)
write_audit k rt endpoint (ok r) log = elim (record_of k rt endpoint r) [
  | raise e ↦ (raise e, log)
  | ok a ↦ (ok r, log ++ a ∷ [])
]

abbrev pub debug_disabled : Exception
debug_disabled = http_error 403 "forbidden" "debug document scan is disabled" none []

module _ (k : Crypto) (rt : ConnectorRuntime) (env : Environment) where
  -- The endpoint behind the authentication.
  unfoldable pub scan_and_respond :
      Bool → ScanAttachmentRequest → State → Result Exception ScanAttachmentResponse × State
  scan_and_respond debug payload s =
      let (raw, circuit') =
        scan_attachment k env.runtime.unicode rt.omega env.upstream payload debug s.circuit in
      let (answer, log) =
        write_audit k rt (scan_path debug) (respond env.runtime payload rt.fail_mode raw) s.audit in
      (answer, record s { circuit = circuit'; audit = log })

  -- Authentication, then the scan.
  unfoldable pub authenticate_and_scan :
      Bool
      → Request
      → ScanAttachmentRequest
      → State
      → Result Exception ScanAttachmentResponse × State
  authenticate_and_scan debug request payload s =
      elim (validate_api_key k env.runtime.unicode rt.auth request.x_api_key payload.request_id) [
        | raise e ↦ (raise e, s)
        | ok api_key ↦
            let (checked, cache) =
              validate_hmac k env.runtime.unicode rt.auth env.now env.marked_at request payload
                api_key s.replay_cache in
            let s' = record s { replay_cache = cache } in
            elim checked [ raise e ↦ (raise e, s') | ok _ ↦ scan_and_respond debug payload s' ]
      ]

  -- `scan_attachment`, and with `debug` `scan_attachment_document_scan_report` behind its gate
  unfoldable pub serve_scan :
      Bool → Request → State → Result Exception ScanAttachmentResponse × State
  serve_scan debug request s = elim (read_payload env request.body) [
    | raise e ↦ (raise e, s)
    | ok payload ↦ authenticate_and_scan debug request payload s
  ]

  unfoldable pub scan_endpoint : Request → State → Result Exception ScanAttachmentResponse × State
  scan_endpoint = serve_scan false

  unfoldable pub document_scan_endpoint :
      Request → State → Result Exception ScanAttachmentResponse × State
  document_scan_endpoint request s =
      if not rt.debug_document_scan then (raise debug_disabled, s) else serve_scan true request s
