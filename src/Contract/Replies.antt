-- ===== src/Contract/Replies.antt =====
-- The documents that the connector answers with, against the schemas.
use sgraph_omega_connector.Base.{
  ℕ, Bool, true, not, leb, length, Option-cases, some_injective, List, [], ◌∷◌, some, Result, ok,
  raise, all, ◌≡◌, refl, sym, ap, ◌∙◌, inl, inr, arith,
}
use sgraph_omega_connector.Text.{Text, codes, text_eq}
use sgraph_omega_connector.Codec.{Crypto}
use sgraph_omega_connector.Dict.{lookup, is_none}
use sgraph_omega_connector.Json.{Json, object, items}
use sgraph_omega_connector.Errors.{
  Exception, http, envelope, plain, request_validation, unexpected, ErrorBody,
}
use sgraph_omega_connector.Models.{ScanAttachmentResponse}
use sgraph_omega_connector.Auth.{Request}
use sgraph_omega_connector.App.{
  ConnectorRuntime, State, Environment, Reply, scanned, error, reply_of, http_exception_handler,
  validation_exception_handler, fallback_exception_handler, dispatch, debug_disabled, is_verdict,
  serve_scan, as_items, response_fields, error_fields,
}
use sgraph_omega_connector.App.Verdicts.{IsContract}
use sgraph_omega_connector.App.Guarantees.{serve_scan-IsContract}
use sgraph_omega_connector.System.Allows.{dispatch_cases}
use sgraph_omega_connector.Contract.{Schema, a_string, conforms, error_schema, response_schema}

-- The schema of a reply, and its document.
abbrev pub reply_schema : Reply → Schema
reply_schema (scanned r) = response_schema
reply_schema (error status body) = error_schema

abbrev pub reply_json : Reply → Json
reply_json (scanned r) = object (response_fields r)
reply_json (error status body) = object (error_fields body)

-- The reply is not a response without an attestation.
abbrev pub is_attested : Reply → Bool
is_attested (scanned r) = not (is_none r.attestation)
is_attested (error status body) = true

pub leb-zero : (n : ℕ) → leb 0 n ≡ true
leb-zero n = ground arith

as_items-conforms : (ss : List Text) → all (conforms (a_string 0)) (items (as_items ss)) ≡ true
unfolding conforms
as_items-conforms [] = refl
as_items-conforms (s ∷ ss) = rw (leb-zero (length s)) (as_items-conforms ss)

error_fields-conforms : (b : ErrorBody) → conforms error_schema (object (error_fields b)) ≡ true
unfolding conforms error_fields lookup text_eq
error_fields-conforms b = elim (Option-cases b.request_id) [
  | inl no_id ↦
      rw (no_id, leb-zero (length (codes b.code)), leb-zero (length (codes b.message))) refl
  | inr (id, given_id) ↦
      rw (given_id, leb-zero (length (codes b.code)), leb-zero (length (codes b.message))) refl
]

response_fields-conforms :
    (r : ScanAttachmentResponse)
    → IsContract r
    → conforms response_schema (object (response_fields r)) ≡ not (is_none r.attestation)
unfolding conforms response_fields lookup text_eq is_verdict
response_fields-conforms r c = elim (Option-cases r.attestation) [
  | inl missing ↦ ground (
    arith,
    leb-zero (length r.request_id),
    leb-zero (length r.tenant_id),
    leb-zero (length r.evidence_id),
    as_items-conforms r.reasons,
    c.verdict,
    c.low,
    c.high,
  )
  | inr (m, there) ↦ ground (
    arith,
    leb-zero (length r.request_id),
    leb-zero (length r.tenant_id),
    leb-zero (length r.evidence_id),
    as_items-conforms r.reasons,
    c.verdict,
    c.low,
    c.high,
  )
]

reply_of-conforms :
    (x : Result Exception ScanAttachmentResponse)
    → ((r : ScanAttachmentResponse) → x ≡ ok r → IsContract r)
    → conforms (reply_schema (reply_of x)) (reply_json (reply_of x)) ≡ is_attested (reply_of x)
unfolding reply_of http_exception_handler validation_exception_handler fallback_exception_handler
reply_of-conforms (ok r) c = response_fields-conforms r (c r refl)
reply_of-conforms (raise (http status (envelope body))) c = error_fields-conforms body
reply_of-conforms (raise (http status (plain message))) c = error_fields-conforms _
reply_of-conforms (raise (request_validation errors)) c = error_fields-conforms _
reply_of-conforms (raise (unexpected e)) c = error_fields-conforms _

-- Whatever is sent to the two endpoints, an error that they answer with is a document of the contract's
-- schema for errors, and a response is one of the schema for responses exactly when it has an
-- attestation: a response without one states it as null, which the schema does not allow.
pub dispatch-conforms :
    (k : Crypto) (rt : ConnectorRuntime) (env : Environment) (request : Request) (s : State)
    (result : Result Exception ScanAttachmentResponse × State)
    → dispatch k rt env request s ≡ some result
    → conforms (reply_schema (reply_of result.0)) (reply_json (reply_of result.0))
      ≡ is_attested (reply_of result.0)
dispatch-conforms k rt env request s result to = elim (dispatch_cases k rt env request s) [
  | inl (debug, served) ↦
      let same = some_injective (serve_scan k rt env debug request s) result (sym served ∙ to) in
      reply_of-conforms result.0
        (λ r h. serve_scan-IsContract k rt env request s debug r (ap (λ x. x.0) same ∙ h))
  | inr (inl no_route) ↦ absurd (ground (arith, to))
  | inr (inr disabled) ↦
      let same = some_injective (raise debug_disabled, s) result (sym disabled ∙ to) in
      reply_of-conforms result.0 (λ r h. absurd (ground (arith, ap (λ x. x.0) same ∙ h)))
]
