-- ===== src/SGraph.antt =====
-- upstream_patches/sgraph: the SGraph side, with its signing client and the hook that enforces the
-- connector's verdict.
pub mod Signed
pub mod Enforce
pub mod Payload
pub mod Settings
use sgraph_omega_connector.Base.{
  map, ◌==◌, if◌then◌else◌, ℕ, ◌/◌, Bool, true, false, ◌&&◌, List, [], ◌∷◌, ◌++◌, Option, some,
  none, Result, ok, raise, ◌>>=◌, ltb, leb,
}
use sgraph_omega_connector.Text.{
  Text, Unicode, codes, strip, lower, upper, join, text_eq, str_ℕ, rstrip_by,
}
use sgraph_omega_connector.Codec.{Crypto}
use sgraph_omega_connector.Codec.Utf8.{encode}
use sgraph_omega_connector.Codec.Base64.{b64url_encode, urlsafe_b64encode}
use sgraph_omega_connector.Codec.Hex.{hex}
use sgraph_omega_connector.Dict.{lookup}
use sgraph_omega_connector.Json.{Json, Fields, field, end, text, object, fields, str_json}
use sgraph_omega_connector.Security.{ticks_per_sec}
use sgraph_omega_connector.App.{allow, quarantine, block, text_or}

-- The client's own `_canonical`, which strips everything but the digest.
unfoldable pub canonical :
    Crypto → Unicode → Text → Text → List ℕ → Text → Text → Text → Text → Text
canonical k u method path body_bytes tenant_id request_id timestamp nonce = join b'\n' (
    strip (upper u method)
    ∷ strip path
    ∷ hex (k.sha256 body_bytes)
    ∷ strip tenant_id
    ∷ strip request_id
    ∷ strip timestamp
    ∷ strip nonce
    ∷ [])

pub record ConnectorClientConfig : Type 0 where
  pub base_url : Text
  pub api_key : Text
  pub hmac_secret : Text
  pub path_scan_attachment : Text

pub record SignedHeaders : Type 0 where
  pub x_api_key : Text
  pub x_timestamp : Text
  pub x_nonce : Text
  pub x_signature : Text

-- `str(payload.get(key) or "")`
abbrev pub text_of : (Json → Text) → List (Text × Json) → Text → Text
text_of repr payload key = text_or repr (lookup key payload) []

-- `_sign_headers`, for a clock that reads `now` and a fresh UUID `nonce`. The content type is always
-- the same.
unfoldable pub sign_headers :
    Crypto
    → Unicode
    → (Json → Text)
    → ConnectorClientConfig
    → ℕ
    → Text
    → List (Text × Json)
    → List ℕ
    → SignedHeaders
sign_headers k u repr config now nonce payload body_bytes =
    let request_id = text_of repr payload (codes "request_id") in
    let tenant_id = text_of repr payload (codes "tenant_id") in
    let ts = str_ℕ (now / ticks_per_sec) in
    let message =
      canonical k u (codes "POST") config.path_scan_attachment body_bytes tenant_id request_id ts
        nonce in
    record {
      x_api_key = config.api_key;
      x_timestamp = ts;
      x_nonce = nonce;
      x_signature = b64url_encode (k.hmac_sha256 (encode config.hmac_secret) (encode message));
    }

-- What `urlopen` and `json.loads` make of the exchange: a JSON document, an HTTP error with its
-- status and its text, or any other exception.
pub data Exchange : Type 0 where
  answered : Json → Exchange
  http_failed : ℕ → Text → Exchange
  broken : Text → Exchange

-- The messages of `ConnectorClientError`.
pub data ClientError : Type 0 where
  connector_http_error : ℕ → Text → ClientError
  connector_request_failed : Text → ClientError

-- `scan_attachment`, on what the exchange has given. The error for a document that is not an object
-- is raised within the `try`, whose last clause wraps it.
unfoldable pub scan_result : Exchange → Result ClientError (List (Text × Json))
scan_result (answered (object fs)) = ok (fields fs)
scan_result (answered _) =
    raise (connector_request_failed (codes "connector response is not an object"))
scan_result (http_failed status raw) = raise (connector_http_error status raw)
scan_result (broken exc) = raise (connector_request_failed exc)

-- The address that the client posts to.
unfoldable pub scan_url : ConnectorClientConfig → Text
scan_url config = rstrip_by (λ c. c == b'/') config.base_url ++ config.path_scan_attachment

-- `base64.b64encode(data).decode("ascii")`, which differs from the URL-safe form in two characters
unfoldable pub standard_char : ℕ → ℕ
standard_char c = if c == b'-' then b'+' else if c == b'_' then b'/' else c

unfoldable pub b64encode : List ℕ → Text
b64encode bs = map standard_char (urlsafe_b64encode bs)

-- `metadata or {"source": ...}`
abbrev pub metadata_or : Option Fields → Text → Fields
metadata_or (some (field k j fs)) source = field k j fs
metadata_or _ source = field (codes "source") (text source) end

-- The payload that `run_connector_scan` sends.
unfoldable pub scan_payload : Text → Text → Text → Text → List ℕ → Option Fields → Fields
scan_payload tenant_id request_id filename mime decrypted_bytes metadata =
    field (codes "tenant_id") (text tenant_id) (
      field (codes "request_id") (text request_id) (
        field (codes "filename") (text filename) (
          field (codes "mime") (text mime) (
            field (codes "file_base64") (text (b64encode decrypted_bytes)) (
              field (codes "metadata")
                (object (metadata_or metadata (codes "sgraph_trusted_decrypt_flow"))) end)))))

-- That of `scan_decrypted_file_for_agent` in example_hook.py
unfoldable pub example_payload : Text → Text → Text → Text → List ℕ → Fields
example_payload tenant_id request_id filename mime decrypted_bytes =
    field (codes "tenant_id") (text tenant_id) (
      field (codes "request_id") (text request_id) (
        field (codes "filename") (text filename) (
          field (codes "mime") (text mime) (
            field (codes "file_base64") (text (b64encode decrypted_bytes)) (
              field (codes "metadata")
                (object (field (codes "source") (text (codes "sgraph_trusted_flow")) end)) end)))))

-- How the hook stops: an error of the client, or `RuntimeError` for a blocked file.
pub data HookError : Type 0 where
  client_error : ClientError → HookError
  blocked : HookError

-- `str(scan_result.get("verdict", "quarantine")).strip().lower()`
abbrev pub stated_verdict : Unicode → (Json → Text) → Option Json → Text
stated_verdict u repr none = lower u (strip quarantine)
stated_verdict u repr (some j) = lower u (strip (str_json repr j))

unfoldable pub enforce_connector_verdict :
    Unicode → (Json → Text) → List (Text × Json) → Result HookError Text
enforce_connector_verdict u repr result =
    let verdict = stated_verdict u repr (lookup (codes "verdict") result) in
    if text_eq verdict allow
    then ok allow
    else if text_eq verdict block
    then raise blocked
    else ok quarantine

-- `enforce_verdict` of example_hook.py, which stops with another message
unfoldable pub enforce_verdict :
    Unicode → (Json → Text) → List (Text × Json) → Result HookError Text
enforce_verdict u repr scan_result =
    let verdict = stated_verdict u repr (lookup (codes "verdict") scan_result) in
    if text_eq verdict allow
    then ok allow
    else if text_eq verdict block
    then raise blocked
    else ok quarantine

abbrev pub lift_error :
    Result ClientError (List (Text × Json)) → Result HookError (List (Text × Json))
lift_error (ok fs) = ok fs
lift_error (raise e) = raise (client_error e)

-- The hook on one file: the scan, then the verdict.
unfoldable pub run_hook : Unicode → (Json → Text) → Exchange → Result HookError Text
unfolding scan_result
run_hook u repr exchange =
    lift_error (scan_result exchange) >>= λ result. enforce_connector_verdict u repr result
