-- ===== src/Scripts.antt =====
-- scripts/signature_helper.py: the script that signs requests for tests and reports.
pub mod Signed
pub mod Qualification
pub mod Performance
pub mod SgMeta
pub mod Answers
pub mod Flow
pub mod Transfer
pub mod Probe
pub mod Preflight
pub mod Smoke
pub mod Pdf
pub mod Probing
pub mod Scenarios
pub mod Healthcheck
use sgraph_omega_connector.Base.{ℕ, ◌/◌, List, [], ◌∷◌}
use sgraph_omega_connector.Text.{Text, Unicode, codes, upper, join, str_ℕ}
use sgraph_omega_connector.Codec.{Crypto}
use sgraph_omega_connector.Codec.Utf8.{encode}
use sgraph_omega_connector.Codec.Base64.{b64url_encode}
use sgraph_omega_connector.Codec.Hex.{hex}
use sgraph_omega_connector.Json.{Json}
use sgraph_omega_connector.Security.{ticks_per_sec}
use sgraph_omega_connector.SGraph.{SignedHeaders, text_of}

-- Nothing is stripped here.
unfoldable pub build_canonical :
    Crypto → Unicode → Text → Text → List ℕ → Text → Text → Text → Text → Text
build_canonical k u method path body_bytes tenant_id request_id ts nonce =
    join b'\n'
      (upper u method ∷ path ∷ hex (k.sha256 body_bytes) ∷ tenant_id ∷ request_id ∷ ts ∷ nonce ∷ [])

unfoldable pub sign : Crypto → Text → Text → Text
sign k secret canonical = b64url_encode (k.hmac_sha256 (encode secret) (encode canonical))

-- `build_headers`, for the JSON encoding `dump`, a clock that reads `now` and a fresh UUID.
unfoldable pub build_headers :
    Crypto
    → Unicode
    → (Json → Text)
    → (List (Text × Json) → List ℕ)
    → ℕ
    → Text
    → Text
    → Text
    → Text
    → List (Text × Json)
    → SignedHeaders
build_headers k u repr dump now nonce secret api_key path payload =
    let ts = str_ℕ (now / ticks_per_sec) in
    record {
      x_api_key = api_key;
      x_timestamp = ts;
      x_nonce = nonce;
      x_signature = sign k secret (
          build_canonical k u (codes "POST") path (dump payload)
            (text_of repr payload (codes "tenant_id")) (text_of repr payload (codes "request_id"))
            ts nonce);
    }
