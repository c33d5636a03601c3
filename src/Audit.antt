-- ===== src/Audit.antt =====
-- connector/logging_utils.py: the audit record of a scan. The log is the list of records.
use sgraph_omega_connector.Base.{Bool, List, Result, ok, raise, ◌>>=◌, all, if◌then◌else◌}
use sgraph_omega_connector.Base.Int.{ℤ}
use sgraph_omega_connector.Text.{Text, codes}
use sgraph_omega_connector.Codec.{Crypto}
use sgraph_omega_connector.Codec.Utf8.{encode, is_scalar}
use sgraph_omega_connector.Errors.{Exception, unexpected}
use sgraph_omega_connector.Security.{sha256_hex}

-- The payload that is written as JSON.
pub record AuditRecord : Type 0 where
  pub event : Text
  pub request_id : Text
  pub tenant_id : Text
  pub verdict : Text
  pub risk_score : ℤ
  pub reasons : List Text
  -- the key "endpoint" of `extra`
  pub endpoint : Text

-- What `str.encode` raises.
abbrev pub encode_error : Exception
encode_error = unexpected "UnicodeEncodeError"

-- `value.encode("utf-8")` raises where the text has a lone surrogate.
unfoldable pub hash_text : Crypto → Text → Result Exception Text
hash_text k value =
    if all is_scalar value then ok (sha256_hex k (encode value)) else raise encode_error

unfoldable pub audit_log :
    Crypto → Text → Text → Text → ℤ → List Text → Bool → Text → Result Exception AuditRecord
audit_log k request_id tenant_id verdict risk_score reasons redact endpoint =
    (if redact then hash_text k tenant_id else ok tenant_id) >>= λ tenant. ok (record {
      event = codes "connector_scan_audit";
      request_id = request_id;
      tenant_id = tenant;
      verdict = verdict;
      risk_score = risk_score;
      reasons = reasons;
      endpoint = endpoint;
    })
