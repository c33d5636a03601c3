-- ===== src/Scripts/Transfer/Requests.antt =====
-- scripts/e2e_sgraph_real_path.py and scripts/e2e_sgraph_upstream_connector_path.py: the HTTP requests
-- behind the calls, and the document that a run writes.
use Prim.Native.String.{String}
use sgraph_omega_connector.Base.{
  ℕ, ◌==◌, Bool, true, List, [], ◌∷◌, ◌++◌, any, Option, some, none, ◌≡◌, refl, arith,
}
use sgraph_omega_connector.Base.Int.{pos}
use sgraph_omega_connector.Text.{Text, codes, text_eq, starts_with, rstrip_by}
use sgraph_omega_connector.Json.{
  Json, null, boolean, integer, text, array, object, Items, nil, cons, Fields, field, end,
}
use sgraph_omega_connector.SGraph.{SignedHeaders}
use sgraph_omega_connector.Scripts.Flow.{Wire}
use sgraph_omega_connector.Scripts.Transfer.{Call, create, upload, complete, download, scan, Walked}

-- The arguments of the command lines that say where to send what.
pub record Hosts : Type 0 where
  pub base_url : Text
  pub connector_path : Text
  pub sgraph_scan_path : Text
  pub sgraph_access_token : Text

pub data HttpBody : Type 0 where
  json_body : List (Text × Json) → HttpBody
  raw_body : List ℕ → HttpBody
  no_body : HttpBody

-- What `_http_json` and `_http_bytes` hand to `urlopen`.
pub record HttpRequest : Type 0 where
  pub method : Text
  pub url : Text
  pub headers : List (Text × Text)
  pub body : HttpBody
  pub unverified : Bool

abbrev pub base_address : Hosts → Text
base_address h = rstrip_by (λ c. c == b'/') h.base_url

abbrev pub sgraph_base : Hosts → Text
sgraph_base h = base_address h ++ codes "/sgraph"

abbrev pub access_token : Hosts → Text × Text
access_token h = (codes "x-sgraph-access-token", h.sgraph_access_token)

abbrev pub content_type : String → Text × Text
content_type name = (codes "Content-Type", codes name)

-- The dictionary of `build_headers`
abbrev pub signed_headers : SignedHeaders → List (Text × Text)
signed_headers s =
    (codes "X-API-Key", s.x_api_key)
    ∷ (codes "X-Timestamp", s.x_timestamp)
    ∷ (codes "X-Nonce", s.x_nonce)
    ∷ (codes "X-Signature", s.x_signature)
    ∷ content_type "application/json"
    ∷ []

abbrev http_request : String → Text → List (Text × Text) → HttpBody → HttpRequest
http_request method url headers body = record {
  method = codes method;
  url = url;
  headers = headers;
  body = body;
  unverified = starts_with (codes "https://") url;
}

-- The request of a call.
unfoldable pub request_of : Hosts → Call → HttpRequest
request_of h (create size mime) =
    http_request "POST" (sgraph_base h ++ codes "/api/transfers/create")
      (content_type "application/json" ∷ access_token h ∷ [])
      (json_body (
        (codes "file_size_bytes", integer (pos size))
        ∷ (codes "content_type_hint", text mime)
        ∷ []))
request_of h (upload id encrypted) =
    http_request "POST" (sgraph_base h ++ (codes "/api/transfers/upload/" ++ id))
      (content_type "application/octet-stream" ∷ access_token h ∷ []) (raw_body encrypted)
request_of h (complete id) =
    http_request "POST" (sgraph_base h ++ (codes "/api/transfers/complete/" ++ id))
      (content_type "application/json" ∷ access_token h ∷ []) (json_body [])
request_of h (download id) =
    http_request "GET" (sgraph_base h ++ (codes "/api/transfers/download/" ++ id))
      (access_token h ∷ []) no_body
request_of h (scan (some headers) payload) =
    http_request "POST" (base_address h ++ h.connector_path) (signed_headers headers)
      (json_body payload)
request_of h (scan none payload) =
    http_request "POST" (sgraph_base h ++ h.sgraph_scan_path)
      (content_type "application/json" ∷ access_token h ∷ []) (json_body payload)

-- A call, over `urlopen`.
unfoldable pub send_over : {S : Type 0} → (HttpRequest → S → S × Wire) → Hosts → Call → S → S × Wire
send_over urlopen h c = urlopen (request_of h c)

abbrev or_null : Option Json → Json
or_null none = null
or_null (some j) = j

-- An entry of `results`; the scripts differ in the name of its last field.
unfoldable pub walked_fields : String → Walked → Fields
walked_fields response_name w = field (codes "scenario") (text w.scenario) (
    field (codes "sgraph")
      (object (
        field (codes "transfer_id") (text w.transfer_id) (
          field (codes "uploaded_encrypted_sha256") (text w.uploaded_encrypted_sha256) (
            field (codes "downloaded_encrypted_sha256") (text w.downloaded_encrypted_sha256) (
              field (codes "encrypted_roundtrip_match") (boolean w.encrypted_roundtrip_match)
                end)))))
      (field (codes "decrypt")
        (object (
          field (codes "sgmeta_metadata") (or_null w.sgmeta_metadata) (
            field (codes "decrypted_content_sha256") (text w.decrypted_content_sha256) (
              field (codes "decrypted_content_size") (integer (pos w.decrypted_content_size))
                end))))
        (field (codes response_name) w.response end)))

abbrev walked_items : String → List Walked → Items
walked_items response_name [] = nil
walked_items response_name (w ∷ ws) =
    cons (object (walked_fields response_name w)) (walked_items response_name ws)

-- What `run` of e2e_sgraph_real_path.py returns.
unfoldable pub real_path_result : Hosts → Text → List Walked → Json
real_path_result h tenant_id results = object (
    field (codes "base_url") (text (base_address h)) (
      field (codes "tenant_id") (text tenant_id) (
        field (codes "connector_path") (text h.connector_path) (
          field (codes "sgraph_prefix") (text (codes "/sgraph"))
            (field (codes "scenarios") (array (walked_items "connector_response" results)) end)))))

-- That of e2e_sgraph_upstream_connector_path.py
unfoldable pub upstream_path_result : Hosts → Text → List Walked → Json
upstream_path_result h tenant_id results = object (
    field (codes "base_url") (text (base_address h)) (
      field (codes "tenant_id") (text tenant_id) (
        field (codes "sgraph_scan_path") (text h.sgraph_scan_path) (
          field (codes "sgraph_prefix") (text (codes "/sgraph")) (
            field (codes "scenarios") (array (walked_items "sgraph_connector_response" results))
              end)))))

abbrev pub has_header : String → HttpRequest → Bool
has_header name r = any (λ e. text_eq e.0 (codes name)) r.headers

-- The credentials stay apart: a request with the access token of SGraph goes to an address of SGraph,
-- and one with an API key or a signature to the connector's endpoint.
pub request_of-credentials :
    (h : Hosts) (c : Call)
    → (has_header "x-sgraph-access-token" (request_of h c) ≡ true
        → (path : Text) × ((request_of h c).url ≡ sgraph_base h ++ path))
      × ((has_header "X-API-Key" (request_of h c) ≡ true
            → (request_of h c).url ≡ base_address h ++ h.connector_path)
          × (has_header "X-Signature" (request_of h c) ≡ true
              → (request_of h c).url ≡ base_address h ++ h.connector_path))
unfolding request_of text_eq
request_of-credentials h (create size mime) = (
  (λ t. (codes "/api/transfers/create", refl)),
  ((λ t. absurd (ground arith)), (λ t. absurd (ground arith))),
)
request_of-credentials h (upload id encrypted) = (
  (λ t. (codes "/api/transfers/upload/" ++ id, refl)),
  ((λ t. absurd (ground arith)), (λ t. absurd (ground arith))),
)
request_of-credentials h (complete id) = (
  (λ t. (codes "/api/transfers/complete/" ++ id, refl)),
  ((λ t. absurd (ground arith)), (λ t. absurd (ground arith))),
)
request_of-credentials h (download id) = (
  (λ t. (codes "/api/transfers/download/" ++ id, refl)),
  ((λ t. absurd (ground arith)), (λ t. absurd (ground arith))),
)
request_of-credentials h (scan (some headers) payload) =
    ((λ t. absurd (ground arith)), ((λ t. refl), (λ t. refl)))
request_of-credentials h (scan none payload) = (
  (λ t. (h.sgraph_scan_path, refl)),
  ((λ t. absurd (ground arith)), (λ t. absurd (ground arith))),
)
