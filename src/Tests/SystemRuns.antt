-- ===== src/Tests/SystemRuns.antt =====
-- Runs of a paired hook and connector.
use sgraph_omega_connector.Base.{
  ℕ, Bool, false, List, [], ◌∷◌, some, none, ok, ◌≡◌, ◌⊎◌, refl, ap, ◌∙◌, inl, inr, arith,
}
use sgraph_omega_connector.Base.Int.{pos}
use sgraph_omega_connector.Text.{
  Text, codes, text_eq, str_ℕ, strip, lower, lstrip_by, rstrip_by, is_space, ascii_lower,
  starts_with,
}
use sgraph_omega_connector.Dict.{lookup}
use sgraph_omega_connector.Json.{Json, Fields, object, fields, str_json, int_json}
use sgraph_omega_connector.Models.{ScanAttachmentRequest, ScanAttachmentResponse, new_response}
use sgraph_omega_connector.Auth.{Request}
use sgraph_omega_connector.Audit.{hash_text, audit_log}
use sgraph_omega_connector.Codec.Utf8.{is_scalar}
use sgraph_omega_connector.OmegaClient.{scan_attachment, run_attempts, attempt, can_attempt, settle}
use sgraph_omega_connector.SGraph.{answered, run_hook, scan_result, enforce_connector_verdict}
use sgraph_omega_connector.App.{
  Environment, allow, quarantine, is_verdict, known_verdict, verdict_of, reasons_of, risk_of, clamp,
  write_audit, text_or, normalize_fields, normalize_response, respond, serve_scan, scan_and_respond,
  response_fields,
}
use sgraph_omega_connector.App.Admission.{IsAdmitted, serve_scan_admitted}
use sgraph_omega_connector.System.{Channel, in_time, post, signed_request, hook_round}
use sgraph_omega_connector.System.Allows.{hook_round-allow}
use sgraph_omega_connector.System.Pairing.{IsComplete, IsPaired, HookCall, payload_of, read_of}
use sgraph_omega_connector.System.Serves.{IsTimely, hook_request-IsAdmitted, answer-hook_request}
use sgraph_omega_connector.Tests.Data.{
  unicode, toy, toy-IsCrypto, runtime, connector, server, state, environment, now,
}
use sgraph_omega_connector.Tests.SGraphRuns.{config, n-NoSpace}
use sgraph_omega_connector.Tests.ScriptRuns.{pydantic-IsPydantic}

abbrev pub channel : Channel Json
channel = record {
  render = λ j. j;
  loads = some;
  show = λ j. [];
  not_found = [];
  network = λ timeout_sec. in_time;
}

abbrev pub call : HookCall
call = record {
  tenant_id = codes "t";
  request_id = codes "r";
  filename = codes "f";
  mime = codes "m";
  decrypted_bytes = 7 ∷ [];
  metadata = none;
}

abbrev pub env : Environment
env = record environment { loads_body = λ bytes. some (object (payload_of call)) }

abbrev pub dump : Fields → List ℕ
dump fs = 1 ∷ []

paired : IsPaired toy unicode config server
unfolding strip lstrip_by rstrip_by is_space starts_with
paired = record {
  path = refl;
  required = refl;
  secret = refl;
  set = λ h. cc;
  some_key = λ h. cc;
  ascii = refl;
  comparable = (inr refl, tt);
  known = inl (inl (refl, refl));
}

pub complete : IsComplete call
complete = (λ h. cc, (λ h. cc, λ h. cc))

timely :
    IsTimely channel
      (λ j. refl)
      toy
      connector
      env
      state
      toy-IsCrypto
      pydantic-IsPydantic
      config
      paired
      now
      (codes "n")
      dump
      call
      complete
      refl
unfolding str_ℕ lookup
timely = record {
  plain = n-NoSpace;
  some_nonce = λ h. cc;
  short = ground arith;
  near = ground arith;
  distinct = tt;
  fresh = refl;
}

abbrev response : ScanAttachmentResponse
response = record {
  request_id = codes "r";
  tenant_id = codes "t";
  risk_score = pos 3;
  verdict = codes "allow";
  reasons = [];
  evidence_id = codes "e";
  policy_trace = [];
  attestation = none;
}

scanned_ok : (scan_and_respond toy connector env false (read_of call) state).0 ≡ ok response
unfolding scan_and_respond scan_attachment run_attempts attempt can_attempt settle respond
    normalize_response normalize_fields risk_of lookup text_eq int_json reasons_of new_response
    clamp text_or verdict_of is_verdict lower strip rstrip_by lstrip_by str_json is_space
    ascii_lower write_audit audit_log hash_text is_scalar
scanned_ok = refl

abbrev sent : Request
sent = signed_request toy runtime config now (codes "n") dump (payload_of call)

served_ok : (serve_scan toy connector env false sent state).0 ≡ ok response
unfolding scan_and_respond
served_ok =
    ap (λ x. x.0)
      (serve_scan_admitted toy connector env sent state false (read_of call) (strip (codes "k1")) (
        hook_request-IsAdmitted channel (λ j. refl) toy connector env state toy-IsCrypto
          pydantic-IsPydantic config paired now (codes "n") dump call complete refl timely))
    ∙ scanned_ok

allowed : run_hook unicode runtime.repr (answered (object (response_fields response))) ≡ ok allow
unfolding run_hook scan_result enforce_connector_verdict lookup text_eq str_json lower strip
    lstrip_by rstrip_by is_space ascii_lower response_fields
allowed = refl

passes :
    (hook_round channel toy connector env config
      (pos 9)
      now
      (codes "n")
      dump
      (payload_of call)
      state).0
    ≡ ok allow
unfolding hook_round post
passes =
    ap (λ x. run_hook unicode runtime.repr x.0)
      (answer-hook_request channel (λ j. refl) toy connector env state toy-IsCrypto
        pydantic-IsPydantic config paired now (codes "n") dump call complete refl timely response
        served_ok)
    ∙ allowed

hook_round-allow_example :
    (debug : Bool) × (payload : ScanAttachmentRequest) × (api_key : Text) × IsAdmitted toy connector
      env sent state payload api_key
    × ((known_verdict quarantine ≡ allow)
        ⊎ ((fs : Fields) × ((scan_attachment toy unicode connector.omega env.upstream payload debug
                state.circuit).0
              ≡ ok (object fs))
            × (verdict_of runtime (lookup (codes "verdict") (fields fs)) ≡ allow)))
hook_round-allow_example =
    hook_round-allow channel (λ j. refl) toy connector env state config (pos 9) now (codes "n") dump
      (payload_of call) passes
