-- ===== src/App/Statuses.antt =====
-- The status of every reply.
use sgraph_omega_connector.Base.{
  ℕ, Bool, true, false, List, [], ◌∷◌, Option, Result, Result-cases, ok, raise, ◌≡◌, refl, inl, inr,
  ◌==◌, any, arith,
}
use sgraph_omega_connector.Text.{Text, Unicode, strip}
use sgraph_omega_connector.Codec.{Crypto}
use sgraph_omega_connector.Security.{NonceReplayCache}
use sgraph_omega_connector.Errors.{Exception, http, request_validation, unexpected, envelope, plain}
use sgraph_omega_connector.Models.{ScanAttachmentRequest, ScanAttachmentResponse, or_empty}
use sgraph_omega_connector.Auth.{
  AuthConfig, Request, compare_digest, key_matches, match_key, validate_api_key, parse_timestamp,
  verify_signature, mark_nonce, validate_hmac,
}
use sgraph_omega_connector.App.Endpoint.{
  ConnectorRuntime, State, Environment, read_payload, authenticate_and_scan, serve_scan,
  scan_endpoint, document_scan_endpoint,
}
use sgraph_omega_connector.App.Admission.{hmac_check, serve_scan-IsServed}
use sgraph_omega_connector.App.Handlers.{
  status_code, http_exception_handler, fallback_exception_handler, validation_exception_handler,
  reply_of,
}

-- The statuses of docs/CONTRACT.md.
abbrev pub is_documented : ℕ → Bool
is_documented n = any (λ m. m == n) (200 ∷ 400 ∷ 401 ∷ 403 ∷ 409 ∷ 500 ∷ [])

-- The exception is answered by a documented status.
abbrev IsDocumented : Exception → Type 0
IsDocumented (http n detail) = is_documented n ≡ true
IsDocumented (request_validation errors) = Unit
IsDocumented (unexpected e) = Unit

abbrev RaisesDocumented {ℓ} : {A : Type ℓ} → Result Exception A → Type 0
RaisesDocumented (ok a) = Unit
RaisesDocumented (raise e) = IsDocumented e

module _ (k : Crypto) (u : Unicode) where
  key_matches-documented :
      (key configured : Text) → RaisesDocumented (key_matches k u key configured)
  unfolding key_matches compare_digest
  key_matches-documented key configured = ground arith

  match_key-documented :
      (key : Text) (id : Option Text) (keys : List Text)
      → RaisesDocumented (match_key k u key id keys)
  unfolding match_key
  match_key-documented key id [] = refl
  match_key-documented key id (configured ∷ rest) =
      ground (arith, key_matches-documented key configured, match_key-documented key id rest)

  validate_api_key-documented :
      (config : AuthConfig) (provided id : Option Text)
      → RaisesDocumented (validate_api_key k u config provided id)
  unfolding validate_api_key
  validate_api_key-documented config provided id =
      ground (arith, match_key-documented (strip (or_empty provided)) id config.api_keys)

  verify_signature-documented :
      (config : AuthConfig) (now : ℕ) (request : Request) (payload : ScanAttachmentRequest)
      → RaisesDocumented (verify_signature k u config now request payload)
  unfolding verify_signature compare_digest parse_timestamp
  verify_signature-documented config now request payload = ground arith

  validate_hmac-documented :
      (config : AuthConfig) (now marked_at : ℕ) (request : Request)
      (payload : ScanAttachmentRequest) (api_key : Text) (cache : NonceReplayCache)
      → RaisesDocumented (validate_hmac k u config now marked_at request payload api_key cache).0
  unfolding validate_hmac mark_nonce
  validate_hmac-documented config now marked_at request payload api_key cache =
      ground (arith, verify_signature-documented config now request payload)

read_payload-documented :
    (env : Environment) (body : List ℕ) → RaisesDocumented (read_payload env body)
unfolding read_payload
read_payload-documented env body = ground arith

reply_of-documented :
    (x : Result Exception ScanAttachmentResponse)
    → RaisesDocumented x
    → is_documented (status_code (reply_of x)) ≡ true
unfolding reply_of http_exception_handler fallback_exception_handler validation_exception_handler
reply_of-documented (ok r) h = refl
reply_of-documented (raise (http n (envelope body))) h = h
reply_of-documented (raise (http n (plain message))) h = h
reply_of-documented (raise (request_validation errors)) h = refl
reply_of-documented (raise (unexpected e)) h = refl

module _ (k : Crypto) (rt : ConnectorRuntime) (env : Environment) (request : Request)
    (s : State) where
  serve_scan-documented : (debug : Bool) → RaisesDocumented (serve_scan k rt env debug request s).0
  unfolding serve_scan authenticate_and_scan
  serve_scan-documented debug = elim (Result-cases (read_payload env request.body)) [
    | inl (x, bad) ↦ ground (arith, read_payload-documented env request.body)
    | inr (payload, read) ↦
        elim (Result-cases (validate_api_key k u rt.auth request.x_api_key payload.request_id)) [
          | inl (x, bad) ↦
              ground (
                arith,
                validate_api_key-documented k u rt.auth request.x_api_key payload.request_id,
              )
          | inr (api_key, key) ↦
              elim (Result-cases (hmac_check k rt env request s payload api_key).0) [
                | inl (x, bad) ↦ ground (
                  arith,
                  validate_hmac-documented k u rt.auth env.now env.marked_at request payload api_key
                      s.replay_cache,
                )
                | inr (done, signed) ↦
                    let (r, served) =
                      serve_scan-IsServed k rt env request s debug payload api_key
                        (record { read = read; key = key; signed = ground arith }) in
                    elim served.outcome [
                      | inl (line, audited, result, log) ↦ ground (arith, result)
                      | inr (on, lone, result, log) ↦ ground (arith, result)
                    ]
              ]
        ]
  ]
    where
      u : Unicode
      u = env.runtime.unicode

  document_scan_endpoint-documented : RaisesDocumented (document_scan_endpoint k rt env request s).0
  unfolding document_scan_endpoint
  document_scan_endpoint-documented = ground (arith, serve_scan-documented true)

  -- Whatever the request, the state and Omega do, each of the two endpoints answers with one of the
  -- statuses 200, 400, 401, 403, 409 and 500.
  pub endpoints-is_documented :
      (is_documented (status_code (reply_of (scan_endpoint k rt env request s).0)) ≡ true)
      × (is_documented (status_code (reply_of (document_scan_endpoint k rt env request s).0))
          ≡ true)
  unfolding scan_endpoint document_scan_endpoint
  endpoints-is_documented = (
    reply_of-documented (scan_endpoint k rt env request s).0 (serve_scan-documented false),
    reply_of-documented (document_scan_endpoint k rt env request s).0
        document_scan_endpoint-documented,
  )
