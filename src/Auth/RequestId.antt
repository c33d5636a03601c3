-- ===== src/Auth/RequestId.antt =====
-- A request whose body has no id: the server signs its own UUID, the documented client an empty id.
use sgraph_omega_connector.Base.{ℕ, [], some, ◌≡◌, ◌≢◌, sym, ap, ◌∙◌, All, arith}
use sgraph_omega_connector.Text.{Text, Unicode, strip, strip-nil, split}
use sgraph_omega_connector.Codec.{Crypto}
use sgraph_omega_connector.Security.{
  CanonicalFields, canonical_parts, build_canonical_string, sign_canonical, sha256_hex,
}
use sgraph_omega_connector.Security.Canonical.{Free, split-canonical_parts}
use sgraph_omega_connector.Models.{ScanAttachmentRequest, or_empty}
use sgraph_omega_connector.Auth.{AuthConfig, Request, request_canonical}
use sgraph_omega_connector.Auth.Signature.{IsSigned}

module _ (k : Crypto) (u : Unicode) (request : Request) where
  -- The fields that are signed for the request, with the id that is given.
  abbrev pub signed_fields : ScanAttachmentRequest → Text → CanonicalFields
  signed_fields payload id = record {
    method = request.method;
    path = request.path;
    body_sha256_hex = sha256_hex k request.body;
    tenant_id = payload.tenant_id;
    request_id = id;
    timestamp = strip (or_empty request.x_timestamp);
    nonce = strip (or_empty request.x_nonce);
  }

  parts-differ :
      (payload : ScanAttachmentRequest) (uuid : Text)
      → strip uuid ≢ []
      → canonical_parts u (signed_fields payload [])
        ≢ canonical_parts u (signed_fields payload uuid)
  unfolding canonical_parts
  parts-differ payload uuid n e = n (ground (arith, strip-nil))

  strings-differ :
      (payload : ScanAttachmentRequest) (uuid : Text)
      → strip uuid ≢ []
      → All (Free b'\n') (canonical_parts u (signed_fields payload []))
      → All (Free b'\n') (canonical_parts u (signed_fields payload uuid))
      → build_canonical_string u (signed_fields payload [])
        ≢ build_canonical_string u (signed_fields payload uuid)
  strings-differ payload uuid n h h' e = parts-differ payload uuid n (
      sym (split-canonical_parts u (signed_fields payload []) h)
      ∙ ap (split b'\n') e
      ∙ split-canonical_parts u (signed_fields payload uuid) h')

  -- When the body has no id, the documented signature is over an empty id, and the server's is over
  -- the UUID that it has just made. The request is taken for signed only if these two strings, which
  -- differ, have the same signature. (No field holds a newline, and the UUID is not blank.)
  pub missing_id-collision :
      (config : AuthConfig) (now : ℕ) (payload : ScanAttachmentRequest) (uuid : Text)
      → strip uuid ≢ []
      → All (Free b'\n') (canonical_parts u (signed_fields payload []))
      → All (Free b'\n') (canonical_parts u (signed_fields payload uuid))
      → strip (or_empty request.x_signature)
        ≡ sign_canonical k (build_canonical_string u (signed_fields payload [])) config.hmac_secret
      → IsSigned k u config now request (record payload { request_id = some uuid })
      → (build_canonical_string u (signed_fields payload [])
          ≢ build_canonical_string u (signed_fields payload uuid))
        × (sign_canonical k (build_canonical_string u (signed_fields payload [])) config.hmac_secret
            ≡ sign_canonical k
                (build_canonical_string u (signed_fields payload uuid))
                config.hmac_secret)
  unfolding request_canonical
  missing_id-collision config now payload uuid n h h' documented signed =
      (strings-differ payload uuid n h h', sym documented ∙ signed.signature)
