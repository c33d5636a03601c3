-- ===== src/App/Wire.antt =====
-- connector/app.py and connector/models.py: the routes of `create_app`, and the JSON documents that go
-- out over them.
use sgraph_omega_connector.Base.{
  true, false, List, [], ◌∷◌, Option, some, none, Result, if◌then◌else◌,
}
use sgraph_omega_connector.Text.{Text, codes, text_eq}
use sgraph_omega_connector.Codec.{Crypto}
use sgraph_omega_connector.Json.{
  Json, null, integer, text, array, object, Items, nil, cons, Fields, field, end,
}
use sgraph_omega_connector.Errors.{Exception, ErrorBody}
use sgraph_omega_connector.Models.{ScanAttachmentResponse}
use sgraph_omega_connector.Auth.{Request}
use sgraph_omega_connector.OmegaClient.{scan_path}
use sgraph_omega_connector.App.Endpoint.{
  ConnectorRuntime, State, Environment, scan_endpoint, document_scan_endpoint,
}

abbrev pub as_items : List Text → Items
as_items [] = nil
as_items (s ∷ ss) = cons (text s) (as_items ss)

abbrev pub as_fields : List (Text × Json) → Fields
as_fields [] = end
as_fields ((k, j) ∷ m) = field k j (as_fields m)

abbrev optional_text : Option Text → Json
optional_text none = null
optional_text (some s) = text s

abbrev optional_dict : Option (List (Text × Json)) → Json
optional_dict none = null
optional_dict (some m) = object (as_fields m)

-- `ScanAttachmentResponse`, field by field
unfoldable pub response_fields : ScanAttachmentResponse → Fields
response_fields r = field (codes "request_id") (text r.request_id) (
    field (codes "tenant_id") (text r.tenant_id) (
      field (codes "risk_score") (integer r.risk_score) (
        field (codes "verdict") (text r.verdict) (
          field (codes "reasons") (array (as_items r.reasons)) (
            field (codes "evidence_id") (text r.evidence_id) (
              field (codes "policy_trace") (object (as_fields r.policy_trace))
                (field (codes "attestation") (optional_dict r.attestation) end)))))))

-- `ErrorResponse`
unfoldable pub error_fields : ErrorBody → Fields
error_fields b = field (codes "request_id") (optional_text b.request_id) (
    field (codes "error")
      (object (
        field (codes "code") (text (codes b.code)) (
          field (codes "message") (text (codes b.message))
            (field (codes "details") (object (as_fields b.details)) end))))
      end)

-- The endpoint behind the path of a POST request; `none` where the application has none.
unfoldable pub dispatch :
    Crypto
    → ConnectorRuntime
    → Environment
    → Request
    → State
    → Option (Result Exception ScanAttachmentResponse × State)
dispatch k rt env request s =
    if text_eq request.path (scan_path false)
    then some (scan_endpoint k rt env request s)
    else if text_eq request.path (scan_path true)
    then some (document_scan_endpoint k rt env request s)
    else none
