-- ===== src/App/Verdicts.antt =====
-- What a response can say, whatever Omega answers.
use mathlib.Core.Path.{subst}
use sgraph_omega_connector.Base.{
  ℕ, true, List, [], ◌∷◌, Option, some, none, Result, ok, raise, ◌≡◌, refl, sym, ◌∙◌, ◌⊎◌, inl, inr,
  Bool-cases, Result-cases, arith,
}
use sgraph_omega_connector.Base.Int.{ℤ, pos, ◌≤ℤ◌}
use sgraph_omega_connector.Text.{Text, codes, text_eq}
use sgraph_omega_connector.Json.{Json, object, Fields, fields}
use sgraph_omega_connector.Dict.{lookup}
use sgraph_omega_connector.Errors.{Exception}
use sgraph_omega_connector.Models.{ScanAttachmentRequest, ScanAttachmentResponse, new_response}
use sgraph_omega_connector.OmegaClient.{
  OmegaError, client_error, circuit_open, timeout_error, unavailable, rejected,
}
use sgraph_omega_connector.App.Normalize.{
  quarantine, is_verdict, known_verdict, Runtime, clamp, risk_of, reasons_of, verdict_of,
  normalize_fields, normalize_response, fallback_trace, own_id, text_or, or_no_fields, dict_of,
  fallback_risk, fallback_response,
}
use sgraph_omega_connector.App.Endpoint.{on_error, respond}

-- The contract of a response: one of the three verdicts, and a risk of 0 to 100.
pub record IsContract (r : ScanAttachmentResponse) : Type 0 where
  pub verdict : is_verdict r.verdict ≡ true
  pub low : pos 0 ≤ℤ r.risk_score
  pub high : r.risk_score ≤ℤ pos 100

quarantine-is_verdict : is_verdict quarantine ≡ true
unfolding is_verdict text_eq
quarantine-is_verdict = refl

pub known_verdict-is_verdict : (v : Text) → is_verdict (known_verdict v) ≡ true
known_verdict-is_verdict v = elim (Bool-cases (is_verdict v)) [
  | inl known ↦ rw known known
  | inr other ↦ rw other quarantine-is_verdict
]

clamp_bounds : (z : ℤ) → (pos 0 ≤ℤ clamp z) × (clamp z ≤ℤ pos 100)
unfolding clamp
clamp_bounds z = ground arith

verdict_of-is_verdict : (rt : Runtime) (j : Option Json) → is_verdict (verdict_of rt j) ≡ true
unfolding verdict_of
verdict_of-is_verdict rt none = known_verdict-is_verdict _
verdict_of-is_verdict rt (some j) = known_verdict-is_verdict _

new_response-eq-ok :
    (r : ScanAttachmentResponse)
    → pos 0 ≤ℤ r.risk_score
    → r.risk_score ≤ℤ pos 100
    → new_response r ≡ ok r
unfolding new_response
new_response-eq-ok r low high = ground arith

fallback_risk_bounds : (v : Text) → (pos 0 ≤ℤ fallback_risk v) × (fallback_risk v ≤ℤ pos 100)
unfolding fallback_risk
fallback_risk_bounds v = ground arith

-- A response that the connector makes up itself.
abbrev pub IsFallback : ScanAttachmentRequest → Text → ScanAttachmentResponse → Type 0
IsFallback payload fail_mode r =
    (r.verdict ≡ known_verdict fail_mode)
    × (r.risk_score ≡ fallback_risk (known_verdict fail_mode))
    × (r.tenant_id ≡ payload.tenant_id)

-- A response whose verdict is the one in Omega's reply.
abbrev pub IsOmegas : Runtime → Result OmegaError Json → ScanAttachmentResponse → Type 0
IsOmegas rt raw r =
    (fs : Fields) × (raw ≡ ok (object fs))
    × (r.verdict ≡ verdict_of rt (lookup (codes "verdict") (fields fs)))

-- The contract, with the reason for the verdict.
abbrev pub Explains :
    Runtime
    → ScanAttachmentRequest
    → Text
    → Result OmegaError Json
    → ScanAttachmentResponse
    → Type 0
Explains rt payload fail_mode raw r =
    IsContract r × (IsOmegas rt raw r ⊎ IsFallback payload fail_mode r)

fallback_response_lem :
    (rt : Runtime) (payload : ScanAttachmentRequest) (reason fail_mode : Text) (code : Option Text)
    (status : Option ℕ)
    → (r : ScanAttachmentResponse) × (fallback_response rt payload reason fail_mode code status
        ≡ ok r)
      × IsContract r
      × IsFallback payload fail_mode r
unfolding fallback_response
fallback_response_lem rt payload reason fail_mode code status =
    let v = known_verdict fail_mode in
    let (low, high) = fallback_risk_bounds v in
    let r : ScanAttachmentResponse = record {
      request_id = own_id payload rt.id_uuid;
      tenant_id = payload.tenant_id;
      risk_score = fallback_risk v;
      verdict = v;
      reasons = reason ∷ [];
      evidence_id = rt.evidence_uuid;
      policy_trace = fallback_trace reason v code status;
      attestation = none;
    } in
    (
      r,
      new_response-eq-ok r low high,
      record { verdict = known_verdict-is_verdict fail_mode; low = low; high = high },
      (refl, refl, refl),
    )

normalize_fields_lem :
    (rt : Runtime) (raw : List (Text × Json)) (payload : ScanAttachmentRequest)
    (r : ScanAttachmentResponse)
    → normalize_fields rt raw payload ≡ ok r
    → IsContract r × (r.verdict ≡ verdict_of rt (lookup (codes "verdict") raw))
unfolding normalize_fields
normalize_fields_lem rt raw payload r h =
    elim (Result-cases (risk_of rt.unicode (lookup (codes "risk_score") raw))) [
      | inl (e, bad) ↦ absurd (ground arith)
      | inr (z, risk) ↦ elim (Result-cases (reasons_of rt.repr (lookup (codes "reasons") raw))) [
        | inl (e, bad) ↦ absurd (ground arith)
        | inr (reasons, given_reasons) ↦
            let (low, high) = clamp_bounds z in
            let v = lookup (codes "verdict") raw in
            let built : ScanAttachmentResponse = record {
              request_id =
                  text_or rt.repr (lookup (codes "request_id") raw) (own_id payload rt.id_uuid);
              tenant_id = text_or rt.repr (lookup (codes "tenant_id") raw) payload.tenant_id;
              risk_score = clamp z;
              verdict = verdict_of rt v;
              reasons = reasons;
              evidence_id = text_or rt.repr (lookup (codes "evidence_id") raw) rt.evidence_uuid;
              policy_trace = or_no_fields (dict_of (lookup (codes "policy_trace") raw));
              attestation = dict_of (lookup (codes "attestation") raw);
            } in
            let made : new_response built ≡ ok r = rw (risk, given_reasons) at h in
            let same : built ≡ r = ok_injective (sym (new_response-eq-ok built low high) ∙ made) in
            subst (λ x. IsContract x × (x.verdict ≡ verdict_of rt v)) same
              (record { verdict = verdict_of-is_verdict rt v; low = low; high = high }, refl)
      ]
    ]
  where
    ok_injective :
        {a b : ScanAttachmentResponse}
        → ◌≡◌ {A = Result Exception ScanAttachmentResponse} (ok a) (ok b)
        → a ≡ b
    ok_injective e = cc

module _ (rt : Runtime) (payload : ScanAttachmentRequest) (fail_mode : Text) where
  abbrev pub Answers : Result OmegaError Json → Result Exception ScanAttachmentResponse → Type 0
  Answers raw x = (r : ScanAttachmentResponse) × (x ≡ ok r) × Explains rt payload fail_mode raw r

  fallback-Answers :
      (raw : Result OmegaError Json) (reason : Text) (code : Option Text) (status : Option ℕ)
      → Answers raw (fallback_response rt payload reason fail_mode code status)
  fallback-Answers raw reason code status =
      let (r, made, contract, fallback) =
        fallback_response_lem rt payload reason fail_mode code status in
      (r, made, (contract, inr fallback))

  on_error-Answers : (e : OmegaError) → Answers (raise e) (on_error rt payload fail_mode e)
  unfolding on_error
  on_error-Answers circuit_open = fallback-Answers _ _ _ _
  on_error-Answers timeout_error = fallback-Answers _ _ _ _
  on_error-Answers (rejected status code body) = fallback-Answers _ _ _ _
  on_error-Answers unavailable = fallback-Answers _ _ _ _
  on_error-Answers client_error = fallback-Answers _ _ _ _

  object-Answers :
      (fs : Fields) → Answers (ok (object fs)) (respond rt payload fail_mode (ok (object fs)))
  unfolding respond normalize_response
  object-Answers fs = elim (Result-cases (normalize_fields rt (fields fs) payload)) [
    | inl (e, bad) ↦
        rw (bad, respond) (fallback-Answers (ok (object fs)) (codes "invalid_response") none none)
    | inr (r, good) ↦
        let (contract, verdict) = normalize_fields_lem rt (fields fs) payload r good in
        (r, ground arith, (contract, inl (fs, refl, verdict)))
  ]

  -- Whatever Omega replies, and however it fails, there is a response. It keeps the contract, and its
  -- verdict is the one that Omega gave or that of the fail mode.
  pub respond-Answers :
      (raw : Result OmegaError Json) → Answers raw (respond rt payload fail_mode raw)
  unfolding respond normalize_response
  respond-Answers (raise e) = on_error-Answers e
  respond-Answers (ok (object fs)) = object-Answers fs
  respond-Answers (ok _) = fallback-Answers _ _ _ _
