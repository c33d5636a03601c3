-- ===== src/Auth.antt =====
-- connector/auth.py: the API key, and the signature with its timestamp and nonce.
pub mod ApiKey
pub mod Signature
pub mod Replays
pub mod RequestId
pub mod Separation
use Prim.Native.String.{String}
use sgraph_omega_connector.Base.{
  ℕ, ◌/◌, Bool, true, false, ◌&&◌, ◌||◌, not, List, [], ◌∷◌, ◌++◌, Option, some, none, Result, ok,
  raise, ◌>>=◌, ◌>>◌, raise_if, all, if◌then◌else◌,
}
use sgraph_omega_connector.Base.Int.{ℤ, pos, dist_ℤ, ltb_ℤ}
use sgraph_omega_connector.Text.{
  Text, Unicode, codes, strip, lower, truthy, text_eq, starts_with, after_first, is_ascii, int_of,
}
use sgraph_omega_connector.Codec.{Crypto}
use sgraph_omega_connector.Codec.Utf8.{encode}
use sgraph_omega_connector.Security.{
  sha256_hex, build_canonical_string, sign_canonical, NonceReplayCache, check_and_mark,
  ticks_per_sec,
}
use sgraph_omega_connector.Errors.{Exception, unexpected, http_error}
use sgraph_omega_connector.Models.{ScanAttachmentRequest, or_empty}

pub record AuthConfig : Type 0 where
  pub api_keys : List Text
  pub require_hmac : Bool
  pub hmac_secret : Text
  pub max_clock_skew_sec : ℤ

-- What the validator reads of the HTTP request.
pub record Request : Type 0 where
  pub method : Text
  pub path : Text
  pub x_api_key : Option Text
  pub x_signature : Option Text
  pub x_timestamp : Option Text
  pub x_nonce : Option Text
  pub body : List ℕ

-- `hmac.compare_digest` of two `str` objects, which must be ASCII.
unfoldable pub compare_digest : Text → Text → Result Exception Bool
compare_digest a b =
    if all is_ascii a && all is_ascii b then ok (text_eq a b) else raise (unexpected "TypeError")

abbrev pub unauthorized : String → Option Text → Exception
unauthorized message request_id = http_error 401 "unauthorized" message request_id []

unfoldable pub mark_nonce :
    Option Text → NonceReplayCache × Bool → Result Exception (Unit {0}) × NonceReplayCache
mark_nonce request_id (cache, fresh) = (
  raise_if (not fresh) (http_error 409 "replay_detected" "nonce already used" request_id []),
  cache,
)

abbrev pub invalid_signature : String → Option Text → Exception
invalid_signature message request_id = http_error 401 "invalid_signature" message request_id []

-- `int(ts_raw)`, and the error for what is no number
unfoldable pub parse_timestamp : Option Text → Option ℤ → Result Exception ℤ
parse_timestamp request_id none = raise (invalid_signature "invalid timestamp" request_id)
parse_timestamp request_id (some z) = ok z

-- The key under which the nonce is remembered.
unfoldable pub replay_key : Crypto → Text → Text → Text → Text
replay_key k tenant_id provided_api_key nonce =
    sha256_hex k
      (encode (tenant_id ++ b'|' ∷ sha256_hex k (encode provided_api_key) ++ b'|' ∷ nonce))

module _ (k : Crypto) (u : Unicode) where
  -- One round of the loop over the configured keys: whether it returns.
  unfoldable pub key_matches : Text → Text → Result Exception Bool
  unfolding compare_digest
  key_matches key configured =
      let item = strip configured in
      if not (truthy item)
      then ok false
      else if starts_with (codes "sha256:") item
      then ok (text_eq (sha256_hex k (encode key)) (lower u (strip (after_first b':' item))))
      else compare_digest item key

  -- The loop, and the error behind it.
  unfoldable pub match_key : Text → Option Text → List Text → Result Exception Text
  match_key key request_id [] = raise (unauthorized "invalid API key" request_id)
  match_key key request_id (configured ∷ rest) =
      let later = match_key key request_id rest in
      key_matches key configured >>= λ found. if found then ok key else later

  unfoldable pub validate_api_key : AuthConfig → Option Text → Option Text → Result Exception Text
  validate_api_key config provided request_id =
      let key = strip (or_empty provided) in
      if truthy key
      then match_key key request_id config.api_keys
      else raise (unauthorized "missing API key" request_id)

  -- The string that the server signs for a request.
  unfoldable pub request_canonical : Request → ScanAttachmentRequest → Text → Text → Text
  request_canonical request payload ts_raw nonce = build_canonical_string u (record {
    method = request.method;
    path = request.path;
    body_sha256_hex = sha256_hex k request.body;
    tenant_id = payload.tenant_id;
    request_id = or_empty payload.request_id;
    timestamp = ts_raw;
    nonce = nonce;
  })

  -- `validate_hmac` up to the replay cache: the headers, the clock, the secret and the signature, for
  -- a server that reads the clock at `now`. It returns the stripped nonce.
  unfoldable pub verify_signature :
      AuthConfig → ℕ → Request → ScanAttachmentRequest → Result Exception Text
  verify_signature config now request payload =
      let sig = strip (or_empty request.x_signature) in
      let ts_raw = strip (or_empty request.x_timestamp) in
      let nonce = strip (or_empty request.x_nonce) in
      let id = payload.request_id in
      do
        raise_if (not (truthy sig) || not (truthy ts_raw) || not (truthy nonce))
            (invalid_signature "missing signature headers" id)
        ts_i ← parse_timestamp id (int_of u ts_raw)
        raise_if (ltb_ℤ config.max_clock_skew_sec (pos (dist_ℤ (now / ticks_per_sec) ts_i)))
            (http_error 401 "stale_timestamp" "timestamp outside accepted skew" id [])
        raise_if (not (truthy config.hmac_secret))
            (invalid_signature "server hmac secret not configured" id)
        same ←
            compare_digest
              (sign_canonical k (request_canonical request payload ts_raw nonce) config.hmac_secret)
              sig
        raise_if (not same) (invalid_signature "signature verification failed" id)
        ok nonce

  -- `validate_hmac`; `marked_at` is the clock when the nonce is looked up. It returns the cache that
  -- it leaves.
  unfoldable pub validate_hmac :
      AuthConfig
      → ℕ
      → ℕ
      → Request
      → ScanAttachmentRequest
      → Text
      → NonceReplayCache
      → Result Exception (Unit {0}) × NonceReplayCache
  validate_hmac config now marked_at request payload provided_api_key cache =
      if config.require_hmac
      then (elim (verify_signature config now request payload) [
        | raise e ↦ (raise e, cache)
        | ok nonce ↦
            mark_nonce payload.request_id (
              check_and_mark marked_at (replay_key k payload.tenant_id provided_api_key nonce)
                cache)
      ])
      else (ok tt, cache)
