-- ===== src/App/Normalize.antt =====
-- `_normalize_response` and `_fallback_response`.
use sgraph_omega_connector.Base.{
  ℕ, Bool, ◌||◌, List, [], ◌∷◌, ◌++◌, map, Option, some, none, Result, ok, raise, ◌>>=◌,
  if◌then◌else◌,
}
use sgraph_omega_connector.Base.Int.{ℤ, pos, leb_ℤ}
use sgraph_omega_connector.Text.{Text, Unicode, codes, text_eq, strip, lower}
use sgraph_omega_connector.Dict.{lookup}
use sgraph_omega_connector.Json.{
  Json, integer, text, array, object, items, fields, is_truthy, str_json, int_json,
}
use sgraph_omega_connector.Errors.{Exception, unexpected}
use sgraph_omega_connector.Models.{
  ScanAttachmentRequest, ScanAttachmentResponse, new_response, given, or_empty,
}

abbrev pub allow : Text
allow = codes "allow"

abbrev pub quarantine : Text
quarantine = codes "quarantine"

abbrev pub block : Text
block = codes "block"

-- `verdict in {"allow", "quarantine", "block"}`
unfoldable pub is_verdict : Text → Bool
is_verdict v = text_eq v allow || text_eq v quarantine || text_eq v block

-- What the functions draw from Python's runtime: its Unicode tables, the texts of containers, and
-- fresh UUIDs.
pub record Runtime : Type 0 where
  pub unicode : Unicode
  pub repr : Json → Text
  pub id_uuid : Text
  pub evidence_uuid : Text

-- `str(raw.get(key) or default)`
unfoldable pub text_or : (Json → Text) → Option Json → Text → Text
text_or repr none default = default
text_or repr (some j) default = if is_truthy j then str_json repr j else default

-- `payload.request_id or str(uuid.uuid4())`
abbrev pub own_id : ScanAttachmentRequest → Text → Text
own_id payload uuid = if given payload.request_id then or_empty payload.request_id else uuid

-- `max(0, min(100, z))`
unfoldable pub clamp : ℤ → ℤ
clamp z =
    let low = if leb_ℤ z (pos 100) then z else pos 100 in if leb_ℤ low (pos 0) then pos 0 else low

unfoldable pub risk_of : Unicode → Option Json → Result Exception ℤ
risk_of u none = ok (pos 0)
risk_of u (some j) = elim (int_json u j) [ none ↦ raise (unexpected "int()") | some z ↦ ok z ]

-- A word that is no verdict is read as "quarantine".
abbrev pub known_verdict : Text → Text
known_verdict v = if is_verdict v then v else quarantine

-- `str(raw.get("verdict", "quarantine")).strip().lower()`, checked
unfoldable pub verdict_of : Runtime → Option Json → Text
verdict_of rt none = known_verdict (lower rt.unicode (strip quarantine))
verdict_of rt (some j) = known_verdict (lower rt.unicode (strip (str_json rt.repr j)))

-- `[str(item) for item in (raw.get("reasons") or [])]`: a list gives its items, a text its
-- characters, an object its keys, and a number cannot be iterated.
unfoldable pub reasons_of : (Json → Text) → Option Json → Result Exception (List Text)
reasons_of repr none = ok []
reasons_of repr (some (array js)) = ok (map (str_json repr) (items js))
reasons_of repr (some (object fs)) = ok (map (λ e. e.0) (fields fs))
reasons_of repr (some (text s)) = ok (map (λ c. c ∷ []) s)
reasons_of repr (some j) = if is_truthy j then raise (unexpected "TypeError") else ok []

abbrev pub dict_of : Option Json → Option (List (Text × Json))
dict_of (some (object fs)) = some (fields fs)
dict_of _ = none

abbrev pub or_no_fields : Option (List (Text × Json)) → List (Text × Json)
or_no_fields none = []
or_no_fields (some m) = m

unfoldable pub normalize_fields :
    Runtime → List (Text × Json) → ScanAttachmentRequest → Result Exception ScanAttachmentResponse
normalize_fields rt raw payload = do
  risk ← risk_of rt.unicode (lookup (codes "risk_score") raw)
  reasons ← reasons_of rt.repr (lookup (codes "reasons") raw)
  new_response (record {
    request_id = text_or rt.repr (lookup (codes "request_id") raw) (own_id payload rt.id_uuid);
    tenant_id = text_or rt.repr (lookup (codes "tenant_id") raw) payload.tenant_id;
    risk_score = clamp risk;
    verdict = verdict_of rt (lookup (codes "verdict") raw);
    reasons = reasons;
    evidence_id = text_or rt.repr (lookup (codes "evidence_id") raw) rt.evidence_uuid;
    policy_trace = or_no_fields (dict_of (lookup (codes "policy_trace") raw));
    attestation = dict_of (lookup (codes "attestation") raw);
  })

-- A reply that is no object has no `get`.
unfoldable pub normalize_response :
    Runtime → Json → ScanAttachmentRequest → Result Exception ScanAttachmentResponse
normalize_response rt (object fs) payload = normalize_fields rt (fields fs) payload
normalize_response rt _ payload = raise (unexpected "AttributeError")

unfoldable pub fallback_risk : Text → ℤ
fallback_risk verdict =
    if text_eq verdict allow
    then pos 0
    else if text_eq verdict quarantine
    then pos 55
    else if text_eq verdict block
    then pos 95
    else pos 55

abbrev pub status_entry : Option ℕ → List (Text × Json)
status_entry none = []
status_entry (some n) = (codes "upstream_status", integer (pos n)) ∷ []

unfoldable pub fallback_trace : Text → Text → Option Text → Option ℕ → List (Text × Json)
fallback_trace reason verdict detail_code upstream_status =
    (codes "source", text (codes "connector_fallback"))
      ∷ (codes "reason", text reason)
      ∷ (codes "fail_mode", text verdict)
      ∷ (if given detail_code
          then (codes "upstream_detail_code", text (or_empty detail_code)) ∷ []
          else [])
    ++ status_entry upstream_status

-- `_fallback_response`
unfoldable pub fallback_response :
    Runtime
    → ScanAttachmentRequest
    → Text
    → Text
    → Option Text
    → Option ℕ
    → Result Exception ScanAttachmentResponse
fallback_response rt payload reason fail_mode detail_code upstream_status =
    let verdict = known_verdict fail_mode in
    new_response (record {
      request_id = own_id payload rt.id_uuid;
      tenant_id = payload.tenant_id;
      risk_score = fallback_risk verdict;
      verdict = verdict;
      reasons = reason ∷ [];
      evidence_id = rt.evidence_uuid;
      policy_trace = fallback_trace reason verdict detail_code upstream_status;
      attestation = none;
    })
