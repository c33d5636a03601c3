-- ===== src/App/Records.antt =====
-- The audit record that an endpoint writes of a response.
use sgraph_omega_connector.Base.{
  true, false, ◌⊎◌, all, List, [], ◌∷◌, ◌++◌, Result-cases, ok, raise, ◌≡◌, inl, inr, arith,
}
use sgraph_omega_connector.Text.{Text, codes}
use sgraph_omega_connector.Codec.{Crypto}
use sgraph_omega_connector.Security.{sha256_hex}
use sgraph_omega_connector.Errors.{Exception}
use sgraph_omega_connector.Models.{ScanAttachmentResponse}
use sgraph_omega_connector.Audit.{AuditRecord, encode_error, audit_log, hash_text}
use sgraph_omega_connector.Codec.Utf8.{encode, is_scalar}
use sgraph_omega_connector.App.Endpoint.{ConnectorRuntime, record_of, write_audit}

record_of-eq-raise :
    (k : Crypto) (rt : ConnectorRuntime) (endpoint : Text) (r : ScanAttachmentResponse)
    (e : Exception)
    → record_of k rt endpoint r ≡ raise e
    → (rt.audit_redaction ≡ true) × (all is_scalar r.tenant_id ≡ false) × (e ≡ encode_error)
unfolding audit_log hash_text
record_of-eq-raise k rt endpoint r e h = ground arith

-- The audit record of the response `r`: its id, verdict, score and reasons, the endpoint, and its tenant,
-- with redaction the digest of it.
pub record IsRecordOf (k : Crypto) (rt : ConnectorRuntime) (path : Text)
    (r : ScanAttachmentResponse) (a : AuditRecord) : Type 0 where
  pub event : a.event ≡ codes "connector_scan_audit"
  pub request_id : a.request_id ≡ r.request_id
  pub verdict : a.verdict ≡ r.verdict
  pub risk_score : a.risk_score ≡ r.risk_score
  pub reasons : a.reasons ≡ r.reasons
  pub endpoint : a.endpoint ≡ path
  pub plain : rt.audit_redaction ≡ false → a.tenant_id ≡ r.tenant_id
  pub redacted : rt.audit_redaction ≡ true → a.tenant_id ≡ sha256_hex k (encode r.tenant_id)

pub record_of-IsRecordOf :
    (k : Crypto) (rt : ConnectorRuntime) (path : Text) (r : ScanAttachmentResponse)
    (a : AuditRecord)
    → record_of k rt path r ≡ ok a
    → IsRecordOf k rt path r a
unfolding audit_log hash_text
record_of-IsRecordOf k rt path r a h = record {
  event = ground arith;
  request_id = ground arith;
  verdict = ground arith;
  risk_score = ground arith;
  reasons = ground arith;
  endpoint = ground arith;
  plain = λ off. ground arith;
  redacted = λ on. ground arith;
}

-- What becomes of a response: it is recorded, unless its tenant cannot be encoded.
pub write_audit_cases :
    (k : Crypto) (rt : ConnectorRuntime) (endpoint : Text) (r : ScanAttachmentResponse)
    (log : List AuditRecord)
    → ((a : AuditRecord) × (record_of k rt endpoint r ≡ ok a)
        × (write_audit k rt endpoint (ok r) log ≡ (ok r, log ++ a ∷ [])))
      ⊎ ((rt.audit_redaction ≡ true)
          × (all is_scalar r.tenant_id ≡ false)
          × (write_audit k rt endpoint (ok r) log ≡ (raise encode_error, log)))
unfolding write_audit
write_audit_cases k rt endpoint r log = elim (Result-cases (record_of k rt endpoint r)) [
  | inr (a, audited) ↦ inl (a, audited, ground (arith, audited))
  | inl (e, failed) ↦
      let (on, lone, same) = record_of-eq-raise k rt endpoint r e failed in
      inr (on, lone, ground (arith, failed, same))
]
