-- ===== src/Tests/AppRuns.antt =====
-- Runs of the endpoints, and of the settings they start with.
use sgraph_omega_connector.Base.{
  ℕ, ◌+◌, true, false, List, [], ◌∷◌, some, none, ok, raise, ◌≡◌, ◌≢◌, ◌⊎◌, refl, ap, ◌∙◌, arith,
}
use sgraph_omega_connector.Base.Int.{pos, ◌+ℤ◌}
use sgraph_omega_connector.Text.{
  Text, codes, text_eq, strip, lower, lstrip_by, rstrip_by, is_space, ascii_lower, starts_with,
}
use sgraph_omega_connector.Dict.{lookup}
use sgraph_omega_connector.Json.{
  Fields, field, end, text, is_truthy, object, fields, str_json, int_json,
}
use sgraph_omega_connector.Errors.{http_error}
use sgraph_omega_connector.Models.{
  ScanAttachmentRequest, ScanAttachmentResponse, model_validate, validate_fields, required_str,
  optional_str, dict_field, validate_input_payload, new_response,
}
use sgraph_omega_connector.Security.{expiry}
use sgraph_omega_connector.Audit.{encode_error, hash_text, audit_log}
use sgraph_omega_connector.Codec.Utf8.{is_scalar}
use sgraph_omega_connector.Security.Survival.{serve}
use sgraph_omega_connector.Auth.{Request, validate_api_key, match_key, key_matches, compare_digest}
use sgraph_omega_connector.Auth.ApiKey.{is_digest}
use sgraph_omega_connector.OmegaClient.{
  replied, scan_attachment, run_attempts, attempt, can_attempt, settle,
}
use sgraph_omega_connector.App.{
  State, Environment, allow, quarantine, is_verdict, known_verdict, verdict_of, reasons_of, risk_of,
  write_audit, clamp, text_or, normalize_fields, normalize_response, fill_request_id, read_payload,
  respond, serve_scan, scan_and_respond, scan_endpoint, document_scan_endpoint, error, status_code,
  reply_of,
}
use sgraph_omega_connector.App.Verdicts.{IsContract}
use sgraph_omega_connector.App.Admission.{IsAdmitted, serve_scan_admitted, serve_scan_refused}
use sgraph_omega_connector.App.Statuses.{is_documented, endpoints-is_documented}
use sgraph_omega_connector.App.Guarantees.{
  serve_scan-IsContract, serve_scan-allow, serve_scan_replayed, serve_scan_wide_key,
}
use sgraph_omega_connector.Tests.Data.{
  upstream, unicode, toy, toy-IsCrypto, payload, unsigned, later, runtime, connector, state,
  environment,
}
use sgraph_omega_connector.Tests.AuthRuns.{request, accepted, signed_by-IsSigned}

read_body : (bytes : List ℕ) → read_payload environment bytes ≡ ok payload
unfolding read_payload model_validate validate_fields required_str optional_str dict_field
    validate_input_payload fill_request_id lookup text_eq
read_body bytes = refl

pub read_later :
    read_payload (record environment { request_uuid = codes "w" }) request.body ≡ ok payload
unfolding read_payload model_validate validate_fields required_str optional_str dict_field
    validate_input_payload fill_request_id lookup text_eq
read_later = refl

-- A body that is no JSON.
abbrev deaf : Environment
deaf = record environment { loads_body = λ bytes. none }

key_accepted :
    validate_api_key toy unicode connector.auth (some (codes "k1")) (some (codes "r"))
    ≡ ok (codes "k1")
unfolding validate_api_key match_key key_matches compare_digest strip lstrip_by rstrip_by is_space
    starts_with text_eq
key_accepted = refl

pub admitted : IsAdmitted toy connector environment request state payload (codes "k1")
admitted = record { read = read_body _; key = key_accepted; signed = accepted }

abbrev response : ScanAttachmentResponse
response = record {
  request_id = codes "r";
  tenant_id = codes "t";
  risk_score = pos 3;
  verdict = codes "allow";
  reasons = [];
  evidence_id = codes "e";
  policy_trace = [];
  attestation = none;
}

scanned_ok : (scan_and_respond toy connector environment false payload state).0 ≡ ok response
unfolding scan_and_respond scan_attachment run_attempts attempt can_attempt settle respond
    normalize_response normalize_fields risk_of lookup text_eq int_json reasons_of new_response
    clamp text_or verdict_of is_verdict lower strip rstrip_by lstrip_by str_json is_space
    ascii_lower write_audit audit_log hash_text is_scalar
scanned_ok = refl

-- Omega replies with a tenant that is a lone surrogate.
abbrev lone : Environment
lone = record environment {
  upstream = upstream (λ n. replied (record {
    status_code = 200;
    json = some (
        object (
          field (codes "verdict") (text (codes "allow"))
            (field (codes "tenant_id") (text (0xd800 ∷ [])) end)));
    body_text = [];
  }));
}

scanned_lone : (scan_and_respond toy connector lone false payload state).0 ≡ raise encode_error
unfolding scan_and_respond scan_attachment run_attempts attempt can_attempt settle respond
    normalize_response normalize_fields risk_of lookup text_eq int_json reasons_of new_response
    clamp text_or verdict_of is_verdict lower strip rstrip_by lstrip_by str_json is_space
    ascii_lower is_truthy write_audit audit_log hash_text is_scalar
scanned_lone = refl

served_ok : (serve_scan toy connector environment false request state).0 ≡ ok response
unfolding scan_and_respond
served_ok =
    ap (λ x. x.0)
      (serve_scan_admitted toy connector environment request state false payload (codes "k1")
        admitted)
    ∙ scanned_ok

serve_scan-IsContract_example : IsContract response
serve_scan-IsContract_example =
    serve_scan-IsContract toy connector environment request state false response served_ok

serve_scan-allow_example :
    (p : ScanAttachmentRequest) × (api_key : Text) × IsAdmitted toy connector environment request
      state p api_key
    × ((known_verdict quarantine ≡ allow)
        ⊎ ((fs : Fields) × ((scan_attachment toy unicode connector.omega environment.upstream p
                false state.circuit).0
              ≡ ok (object fs))
            × (verdict_of runtime (lookup (codes "verdict") (fields fs)) ≡ allow)))
serve_scan-allow_example =
    serve_scan-allow toy connector environment request state false response served_ok refl

-- Another nonce has been looked up since.
abbrev state_later : State
state_later = record state {
  replay_cache =
      serve ((later, codes "m") ∷ [])
        (serve_scan toy connector environment false request state).1.replay_cache;
}

serve_scan_replayed_example :
    reply_of
      (serve_scan toy connector
        (record environment { request_uuid = codes "w"; now = later; marked_at = later + 1 })
        true
        request
        state_later).0
    ≡ error 409 (record {
      request_id = some (codes "r");
      code = "replay_detected";
      message = "nonce already used";
      details = [];
    })
unfolding expiry ◌+ℤ◌
serve_scan_replayed_example =
    serve_scan_replayed toy connector environment request state state_later false true payload
      (codes "k1") ((later, codes "m") ∷ []) (codes "w") later (later + 1) toy-IsCrypto refl tt
      (omega arith) admitted refl (omega arith, tt) (omega arith) refl read_later
      (signed_by-IsSigned toy toy-IsCrypto later payload payload refl refl)

serve_scan_refused_example :
    (((serve_scan toy connector deaf false request state).1.circuit ≡ state.circuit)
      ⊎ (http_error 400 "bad_request" "invalid JSON payload" none [] ≡ encode_error))
    × ((serve_scan toy connector deaf false request state).1.audit ≡ state.audit)
unfolding serve_scan read_payload
serve_scan_refused_example =
    serve_scan_refused toy connector deaf request state false
      (http_error 400 "bad_request" "invalid JSON payload" none []) refl

endpoints-is_documented_example :
    (is_documented
        (status_code (reply_of (scan_endpoint toy connector environment request state).0))
      ≡ true)
    × (is_documented (
          status_code (reply_of (document_scan_endpoint toy connector environment request state).0))
        ≡ true)
endpoints-is_documented_example = endpoints-is_documented toy connector environment request state

-- The key has a letter that is not ASCII.
abbrev accented : Request
accented = record unsigned { x_api_key = some (233 ∷ []) }

k1-plain : (strip (codes "k1") ≢ []) × (is_digest (codes "k1") ≡ false)
unfolding strip lstrip_by rstrip_by is_space starts_with
k1-plain = (λ h. cc, refl)

serve_scan_wide_key_example :
    reply_of (serve_scan toy connector environment false accented state).0
    ≡ error 500 (record {
      request_id = none;
      code = "internal_error";
      message = "internal server error";
      details = [];
    })
unfolding strip lstrip_by rstrip_by is_space
serve_scan_wide_key_example =
    serve_scan_wide_key toy connector environment accented state false payload (codes "k1") []
      (read_body _) refl k1-plain.0 k1-plain.1 refl
