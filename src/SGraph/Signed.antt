-- ===== src/SGraph/Signed.antt =====
-- The SGraph client's headers, checked by the connector.
use sgraph_omega_connector.Base.{ℕ, ◌/◌, ◌≤◌, List, [], some, ok, length, ◌≡◌, ◌≢◌, refl, ap, ◌∙◌}
use sgraph_omega_connector.Base.Int.{pos, dist_ℤ, ◌≤ℤ◌}
use sgraph_omega_connector.Text.{
  Text, Unicode, codes, strip-NoSpace, NoSpace, str_ℕ, max_str_digits, int_of-str_ℕ, str_ℕ-ne-nil,
  str_ℕ-NoSpace,
}
use sgraph_omega_connector.Codec.{Crypto, IsCrypto}
use sgraph_omega_connector.Codec.Utf8.{encode}
use sgraph_omega_connector.Codec.Hex.{hex, hex-IsHexDigit, IsHexDigit-NoSpace}
use sgraph_omega_connector.Codec.Base64.{b64url_encode, b64url_encode-plain}
use sgraph_omega_connector.Json.{Json}
use sgraph_omega_connector.Models.{ScanAttachmentRequest, or_empty}
use sgraph_omega_connector.Security.{
  sha256_hex, canonical_parts, build_canonical_string, sign_canonical, ticks_per_sec,
}
use sgraph_omega_connector.Auth.{AuthConfig, Request, request_canonical, verify_signature}
use sgraph_omega_connector.Auth.Signature.{IsSigned, verify_signature_complete}
use sgraph_omega_connector.SGraph.{
  ConnectorClientConfig, SignedHeaders, text_of, canonical, sign_headers,
}

-- The request that the connector reads of the headers, the path and the body.
abbrev pub delivered : ConnectorClientConfig → SignedHeaders → List ℕ → Request
delivered config h body_bytes = record {
  method = codes "POST";
  path = config.path_scan_attachment;
  x_api_key = some h.x_api_key;
  x_signature = some h.x_signature;
  x_timestamp = some h.x_timestamp;
  x_nonce = some h.x_nonce;
  body = body_bytes;
}

module _ (k : Crypto) (u : Unicode) (repr : Json → Text) (c : IsCrypto k) where
  -- The client and the connector build the same string.
  canonical-eq-build_canonical_string :
      (method path : Text) (body_bytes : List ℕ) (tenant_id request_id timestamp nonce : Text)
      → canonical k u method path body_bytes tenant_id request_id timestamp nonce
        ≡ build_canonical_string u (record {
          method = method;
          path = path;
          body_sha256_hex = sha256_hex k body_bytes;
          tenant_id = tenant_id;
          request_id = request_id;
          timestamp = timestamp;
          nonce = nonce;
        })
  unfolding canonical build_canonical_string canonical_parts sha256_hex
  canonical-eq-build_canonical_string method path body_bytes tenant_id request_id timestamp nonce =
      let digest = hex-IsHexDigit (k.sha256 body_bytes) (c.sha256_bytes body_bytes) in
      rw (strip-NoSpace (hex (k.sha256 body_bytes)) (IsHexDigit-NoSpace _ digest)) refl

  module _ (config : ConnectorClientConfig) (server : AuthConfig) (sent now : ℕ) (nonce : Text)
      (body : List (Text × Json)) (body_bytes : List ℕ) (payload : ScanAttachmentRequest) where
    pub sign_headers-IsSigned :
        config.hmac_secret ≡ server.hmac_secret
        → server.hmac_secret ≢ []
        → NoSpace nonce
        → nonce ≢ []
        → payload.tenant_id ≡ text_of repr body (codes "tenant_id")
        → or_empty payload.request_id ≡ text_of repr body (codes "request_id")
        → length (str_ℕ (sent / ticks_per_sec)) ≤ max_str_digits
        → pos (dist_ℤ (now / ticks_per_sec) (pos (sent / ticks_per_sec)))
          ≤ℤ server.max_clock_skew_sec
        → IsSigned k u server now
            (delivered config (sign_headers k u repr config sent nonce body body_bytes) body_bytes)
            payload
    unfolding sign_headers request_canonical sign_canonical
    sign_headers-IsSigned secret set plain some_nonce tenant id short near =
        let ts = str_ℕ (sent / ticks_per_sec) in
        let ts_same = strip-NoSpace ts (str_ℕ-NoSpace (sent / ticks_per_sec)) in
        let nonce_same = strip-NoSpace nonce plain in
        let digest = k.hmac_sha256 (encode config.hmac_secret) (
          encode (
            canonical k u (codes "POST") config.path_scan_attachment body_bytes
              (text_of repr body (codes "tenant_id")) (text_of repr body (codes "request_id")) ts
              nonce)) in
        let plain_signature = (b64url_encode-plain digest (c.hmac_bytes _ _)).1 in
        record {
          signature =
              rw
                (
                  strip-NoSpace (b64url_encode digest) plain_signature,
                  secret,
                  ts_same,
                  nonce_same,
                  tenant,
                  id,
                )
                (rw
                  (canonical-eq-build_canonical_string (codes "POST") config.path_scan_attachment
                    body_bytes (text_of repr body (codes "tenant_id"))
                    (text_of repr body (codes "request_id")) ts nonce)
                  refl);
          timestamp = pos (sent / ticks_per_sec);
          parsed = rw ts_same (int_of-str_ℕ u (sent / ticks_per_sec) short);
          near = near;
          dated = rw ts_same (str_ℕ-ne-nil (sent / ticks_per_sec));
          nonce = rw nonce_same some_nonce;
          secret = set;
        }

    -- Headers that the SGraph client signs pass the connector's check, which then reads the client's
    -- nonce. The two sides share the secret, the body states the tenant and the request id that the
    -- connector has parsed, the nonce is a text without white space, the clocks are at most the
    -- allowed skew apart, and the client's clock has no more digits than `int` reads.
    pub sign_headers-verify_signature :
        config.hmac_secret ≡ server.hmac_secret
        → server.hmac_secret ≢ []
        → NoSpace nonce
        → nonce ≢ []
        → payload.tenant_id ≡ text_of repr body (codes "tenant_id")
        → or_empty payload.request_id ≡ text_of repr body (codes "request_id")
        → length (str_ℕ (sent / ticks_per_sec)) ≤ max_str_digits
        → pos (dist_ℤ (now / ticks_per_sec) (pos (sent / ticks_per_sec)))
          ≤ℤ server.max_clock_skew_sec
        → verify_signature k u server now
            (delivered config (sign_headers k u repr config sent nonce body body_bytes) body_bytes)
            payload
          ≡ ok nonce
    unfolding sign_headers
    sign_headers-verify_signature secret set plain some_nonce tenant id short near =
        let signed = sign_headers-IsSigned secret set plain some_nonce tenant id short near in
        verify_signature_complete k u server now _ payload c signed
        ∙ ap ok (strip-NoSpace nonce plain)
