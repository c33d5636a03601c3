-- ===== src/App/MissingId.antt =====
-- A request whose body has no id: `payload.request_id = str(uuid.uuid4())` comes before the check of
-- the signature.
use mathlib.Core.Path.{subst}
use sgraph_omega_connector.Base.{
  Bool, true, false, [], some, ok, ok_injective, ◌≡◌, ◌≢◌, sym, ◌∙◌, All, arith,
}
use sgraph_omega_connector.Text.{Text, strip}
use sgraph_omega_connector.Codec.{Crypto, IsCrypto}
use sgraph_omega_connector.Json.{Json}
use sgraph_omega_connector.Security.{canonical_parts, build_canonical_string, sign_canonical}
use sgraph_omega_connector.Security.Canonical.{Free}
use sgraph_omega_connector.Models.{
  ScanAttachmentRequest, ScanAttachmentResponse, model_validate, given, or_empty,
}
use sgraph_omega_connector.Auth.{Request}
use sgraph_omega_connector.Auth.Signature.{IsSigned}
use sgraph_omega_connector.Auth.Replays.{validate_hmac_iff}
use sgraph_omega_connector.Auth.RequestId.{signed_fields, missing_id-collision}
use sgraph_omega_connector.App.Endpoint.{
  ConnectorRuntime, State, Environment, fill_request_id, read_payload, serve_scan,
}
use sgraph_omega_connector.App.Admission.{serve_scan_ok}

read_payload_filled :
    (env : Environment) (request : Request) (j : Json) (payload : ScanAttachmentRequest)
    → env.loads_body request.body ≡ some j
    → model_validate env.pydantic j ≡ some payload
    → given payload.request_id ≡ false
    → read_payload env request.body ≡ ok (record payload { request_id = some env.request_uuid })
unfolding read_payload fill_request_id
read_payload_filled env request j payload decoded valid missing = ground arith

module _ (k : Crypto) (rt : ConnectorRuntime) (env : Environment) (request : Request) (s : State)
    (debug : Bool) where
  -- The strings that are signed with the empty id, as it is documented, and with the server's UUID.
  abbrev pub documented_string : ScanAttachmentRequest → Text
  documented_string payload =
      build_canonical_string env.runtime.unicode
        (signed_fields k env.runtime.unicode request payload [])

  abbrev pub verified_string : ScanAttachmentRequest → Text
  verified_string payload =
      build_canonical_string env.runtime.unicode
        (signed_fields k env.runtime.unicode request payload env.request_uuid)

  -- A request whose body is valid and has no id, or an empty one, and whose signature is the documented
  -- one over the empty id, is answered with a response, where HMAC is required, only if two different
  -- strings have the same signature: the documented one and the one with the UUID that the endpoint has
  -- put in place of the id. (No field holds a newline, and the UUID is not blank.)
  pub serve_scan-documented_string :
      (j : Json) (payload : ScanAttachmentRequest) (r : ScanAttachmentResponse)
      → IsCrypto k
      → rt.auth.require_hmac ≡ true
      → env.loads_body request.body ≡ some j
      → model_validate env.pydantic j ≡ some payload
      → given payload.request_id ≡ false
      → strip env.request_uuid ≢ []
      → All (Free b'\n') (
          canonical_parts env.runtime.unicode
            (signed_fields k env.runtime.unicode request payload []))
      → All (Free b'\n') (
          canonical_parts env.runtime.unicode
            (signed_fields k env.runtime.unicode request payload env.request_uuid))
      → strip (or_empty request.x_signature)
        ≡ sign_canonical k (documented_string payload) rt.auth.hmac_secret
      → (serve_scan k rt env debug request s).0 ≡ ok r
      → (documented_string payload ≢ verified_string payload)
        × (sign_canonical k (documented_string payload) rt.auth.hmac_secret
            ≡ sign_canonical k (verified_string payload) rt.auth.hmac_secret)
  serve_scan-documented_string j payload r ck on decoded valid missing some_uuid free free'
        documented h =
      let u = env.runtime.unicode in
      let (found, api_key, a) = serve_scan_ok k rt env request s debug r h in
      let filled : ScanAttachmentRequest = record payload { request_id = some env.request_uuid } in
      let same : found ≡ filled =
        ok_injective found filled
          (sym a.read ∙ read_payload_filled env request j payload decoded valid missing) in
      let (signed, fresh) =
        (validate_hmac_iff k u ck rt.auth on env.now env.marked_at request found api_key
            s.replay_cache).0
          a.signed in
      missing_id-collision k u request rt.auth env.now payload env.request_uuid some_uuid free free'
        documented (subst (IsSigned k u rt.auth env.now request) same signed)
