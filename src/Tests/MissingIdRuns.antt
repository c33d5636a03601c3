-- ===== src/Tests/MissingIdRuns.antt =====
-- A request without an id that is served, since all its signatures are the same.
use sgraph_omega_connector.Base.{
  ℕ, false, List, [], some, none, ok, ◌≡◌, ◌≢◌, refl, ap, ◌∙◌, All, arith,
}
use sgraph_omega_connector.Base.Int.{pos}
use sgraph_omega_connector.Text.{
  codes, text_eq, strip, strip-NoSpace, lower, upper, ascii_upper, lstrip_by, rstrip_by, is_space,
  ascii_lower, starts_with,
}
use sgraph_omega_connector.Codec.Base64.{b64url_encode-plain}
use sgraph_omega_connector.Codec.Hex.{hex, hex_digit}
use sgraph_omega_connector.Codec.Utf8.{is_scalar}
use sgraph_omega_connector.Dict.{lookup}
use sgraph_omega_connector.Json.{field, end, text, object, str_json, int_json}
use sgraph_omega_connector.Security.{
  check_and_mark, cleanup, shed, expire, expired_keys, pop_keys, sign_canonical, canonical_parts,
  sha256_hex,
}
use sgraph_omega_connector.Security.Canonical.{Free}
use sgraph_omega_connector.Models.{
  ScanAttachmentRequest, ScanAttachmentResponse, model_validate, validate_fields, required_str,
  optional_str, dict_field, validate_input_payload, new_response,
}
use sgraph_omega_connector.Audit.{hash_text, audit_log}
use sgraph_omega_connector.Auth.{
  Request, validate_api_key, match_key, key_matches, compare_digest, validate_hmac,
}
use sgraph_omega_connector.Auth.Replays.{validate_hmac_iff}
use sgraph_omega_connector.Auth.RequestId.{signed_fields}
use sgraph_omega_connector.OmegaClient.{scan_attachment, run_attempts, attempt, can_attempt, settle}
use sgraph_omega_connector.App.{
  Environment, is_verdict, verdict_of, reasons_of, risk_of, write_audit, clamp, text_or,
  normalize_fields, normalize_response, fill_request_id, read_payload, respond, serve_scan,
  scan_and_respond,
}
use sgraph_omega_connector.App.Admission.{IsAdmitted, serve_scan_admitted}
use sgraph_omega_connector.App.MissingId.{
  documented_string, verified_string, serve_scan-documented_string,
}
use sgraph_omega_connector.Tests.Data.{
  unicode, flat, flat-IsCrypto, server, payload, signed_by, cache, now, connector, state,
  environment,
}
use sgraph_omega_connector.Tests.AuthRuns.{signed_by-IsSigned}

abbrev anonymous : ScanAttachmentRequest
anonymous = record payload { request_id = none }

-- With the id of the environment.
abbrev filled : ScanAttachmentRequest
filled = record payload { request_id = some (codes "q") }

abbrev request : Request
request = signed_by flat anonymous

abbrev env : Environment
env = record environment {
  loads_body = λ bytes. some (
      object (
        field (codes "tenant_id") (text (codes "t"))
          (field (codes "extracted_text") (text (codes "x")) end)));
}

anonymous-Free :
    All (Free b'\n') (canonical_parts unicode (signed_fields flat unicode request anonymous []))
    × All
        (Free b'\n')
        (canonical_parts unicode (signed_fields flat unicode request anonymous (codes "q")))
unfolding canonical_parts strip lstrip_by rstrip_by is_space upper ascii_upper sha256_hex hex
    hex_digit
anonymous-Free = (ground arith, ground arith)

validated :
    model_validate env.pydantic (
      object (
        field
          (codes "tenant_id")
          (text (codes "t"))
          (field (codes "extracted_text") (text (codes "x")) end)))
    ≡ some anonymous
unfolding model_validate validate_fields required_str optional_str dict_field validate_input_payload
    lookup text_eq
validated = refl

read_filled : (bytes : List ℕ) → read_payload env bytes ≡ ok filled
unfolding read_payload model_validate validate_fields required_str optional_str dict_field
    validate_input_payload fill_request_id lookup text_eq
read_filled bytes = refl

key_accepted :
    validate_api_key flat unicode connector.auth (some (codes "k1")) (some (codes "q"))
    ≡ ok (codes "k1")
unfolding validate_api_key match_key key_matches compare_digest strip lstrip_by rstrip_by is_space
    starts_with text_eq
key_accepted = refl

accepted : (validate_hmac flat unicode server now now request filled (codes "k1") cache).0 ≡ ok tt
unfolding check_and_mark cleanup shed expire expired_keys pop_keys lookup sign_canonical
accepted =
    (validate_hmac_iff flat unicode flat-IsCrypto server refl now now request filled (codes "k1")
        cache).1
      (signed_by-IsSigned flat flat-IsCrypto now anonymous filled refl refl, refl)

admitted : IsAdmitted flat connector env request state filled (codes "k1")
admitted = record { read = read_filled _; key = key_accepted; signed = accepted }

abbrev response : ScanAttachmentResponse
response = record {
  request_id = codes "q";
  tenant_id = codes "t";
  risk_score = pos 3;
  verdict = codes "allow";
  reasons = [];
  evidence_id = codes "e";
  policy_trace = [];
  attestation = none;
}

scanned_ok : (scan_and_respond flat connector env false filled state).0 ≡ ok response
unfolding scan_and_respond scan_attachment run_attempts attempt can_attempt settle respond
    normalize_response normalize_fields risk_of lookup text_eq int_json reasons_of new_response
    clamp text_or verdict_of is_verdict lower strip rstrip_by lstrip_by str_json is_space
    ascii_lower write_audit audit_log hash_text is_scalar
scanned_ok = refl

served_ok : (serve_scan flat connector env false request state).0 ≡ ok response
unfolding scan_and_respond
served_ok =
    ap (λ x. x.0)
      (serve_scan_admitted flat connector env request state false filled (codes "k1") admitted)
    ∙ scanned_ok

serve_scan-documented_string_example :
    (documented_string flat connector env request state false anonymous
      ≢ verified_string flat connector env request state false anonymous)
    × (sign_canonical flat
          (documented_string flat connector env request state false anonymous)
          (codes "s")
        ≡ sign_canonical flat
            (verified_string flat connector env request state false anonymous)
            (codes "s"))
unfolding strip lstrip_by rstrip_by is_space sign_canonical
serve_scan-documented_string_example =
    serve_scan-documented_string flat connector env request state false _ anonymous response
      flat-IsCrypto refl refl validated refl (λ h. cc) anonymous-Free.0 anonymous-Free.1
      (strip-NoSpace _ (b64url_encode-plain _ (flat-IsCrypto.hmac_bytes [] [])).1) served_ok
