-- ===== src/App/Guarantees.antt =====
-- What a caller of an endpoint can rely on.
use sgraph_omega_connector.Base.{
  ok_injective, ℕ, ◌+◌, ◌≤◌, Bool, true, false, List, [], ◌∷◌, none, ok, raise, length, ◌≡◌, ◌≢◌,
  sym, ◌∙◌, ap, ◌⊎◌, inl, inr, arith, all,
}
use mathlib.Core.Path.{subst}
use sgraph_omega_connector.Base.Int.{pos, leb_ℤ}
use sgraph_omega_connector.Text.{Text, codes, strip, is_ascii}
use sgraph_omega_connector.Codec.{Crypto, IsCrypto}
use sgraph_omega_connector.Dict.{lookup, Distinct}
use sgraph_omega_connector.Security.{expiry}
use sgraph_omega_connector.Security.Replay.{Call, Ordered}
use sgraph_omega_connector.Security.Survival.{last_time, serve}
use sgraph_omega_connector.Json.{Fields, fields, object}
use sgraph_omega_connector.Errors.{http_error}
use sgraph_omega_connector.Models.{ScanAttachmentRequest, ScanAttachmentResponse, or_empty}
use sgraph_omega_connector.Auth.{Request, validate_hmac}
use sgraph_omega_connector.Auth.Signature.{IsSigned}
use sgraph_omega_connector.Auth.Replays.{validate_hmac-serve}
use sgraph_omega_connector.Auth.ApiKey.{is_digest, validate_api_key_wide}
use sgraph_omega_connector.OmegaClient.{scan_attachment}
use sgraph_omega_connector.App.Normalize.{allow, known_verdict, verdict_of}
use sgraph_omega_connector.App.Endpoint.{
  ConnectorRuntime, State, Environment, read_payload, authenticate_and_scan, serve_scan,
  document_scan_endpoint, debug_disabled,
}
use sgraph_omega_connector.App.Verdicts.{IsContract}
use sgraph_omega_connector.App.Admission.{
  IsAdmitted, IsServed, hmac_check, serve_scan_ok, serve_scan-IsServed, serve_scan_hmac_refused,
}
use sgraph_omega_connector.App.Handlers.{
  error, reply_of, http_exception_handler, fallback_exception_handler,
}

module _ (k : Crypto) (rt : ConnectorRuntime) (env : Environment) (request : Request) (s : State)
    (debug : Bool) where
  pub served :
      (r : ScanAttachmentResponse)
      → (serve_scan k rt env debug request s).0 ≡ ok r
      → (payload : ScanAttachmentRequest) × (api_key : Text) × IsAdmitted k rt env request s payload
          api_key
        × IsServed k rt env request s debug payload api_key r
  served r h =
      let (payload, api_key, a) = serve_scan_ok k rt env request s debug r h in
      let (r', done) = serve_scan-IsServed k rt env request s debug payload api_key a in
      elim done.outcome [
        | inl (line, audited, result, log) ↦ (
          payload,
          api_key,
          a,
          subst (IsServed k rt env request s debug payload api_key)
              (ok_injective r' r (sym result ∙ h)) done,
        )
        | inr (on, lone, result, log) ↦ absurd (ground (arith, h, result))
      ]

  -- Every response of an endpoint has one of the three verdicts and a risk score of 0 to 100.
  pub serve_scan-IsContract :
      (r : ScanAttachmentResponse) → (serve_scan k rt env debug request s).0 ≡ ok r → IsContract r
  serve_scan-IsContract r h = (served r h).3.explained.0

  -- A response says "allow" only for a request that was admitted, with its body, its API key and its
  -- signature, and where the fail mode is "allow", or where Omega replied to the payload of this request
  -- with an object whose verdict reads "allow".
  pub serve_scan-allow :
      (r : ScanAttachmentResponse)
      → (serve_scan k rt env debug request s).0 ≡ ok r
      → r.verdict ≡ allow
      → (payload : ScanAttachmentRequest) × (api_key : Text) × IsAdmitted k rt env request s payload
          api_key
        × ((known_verdict rt.fail_mode ≡ allow)
            ⊎ ((fs : Fields) × ((scan_attachment k env.runtime.unicode rt.omega env.upstream payload
                    debug s.circuit).0
                  ≡ ok (object fs))
                × (verdict_of env.runtime (lookup (codes "verdict") (fields fs)) ≡ allow)))
  serve_scan-allow r h allowed =
      let (payload, api_key, a, done) = served r h in
      (
        payload,
        api_key,
        a,
        elim done.explained.1 [
          | inl (fs, replied, verdict) ↦ inr (fs, replied, sym verdict ∙ allowed)
          | inr (verdict, risk, tenant) ↦ inl (sym verdict ∙ allowed)
        ],
      )

-- While the debug endpoint is disabled it answers 403, and reads and changes nothing.
pub document_scan_endpoint_disabled :
    (k : Crypto) (rt : ConnectorRuntime) (env : Environment) (request : Request) (s : State)
    → rt.debug_document_scan ≡ false
    → document_scan_endpoint k rt env request s ≡ (raise debug_disabled, s)
unfolding document_scan_endpoint
document_scan_endpoint_disabled k rt env request s h = ground arith

-- A request that was answered is answered by 409 when it comes again, at either endpoint, before its
-- nonce expires and while its timestamp is still fresh, whatever else was looked up in between, if the
-- replay cache has room for all of it.
pub serve_scan_replayed :
    (k : Crypto) (rt : ConnectorRuntime) (env : Environment) (request : Request) (s s' : State)
    (debug again : Bool) (payload : ScanAttachmentRequest) (api_key : Text) (calls : List Call)
    (uuid : Text) (now marked_at : ℕ)
    → IsCrypto k
    → rt.auth.require_hmac ≡ true
    → Distinct s.replay_cache.entries
    → length s.replay_cache.entries + 1 + length calls ≤ s.replay_cache.max_entries
    → IsAdmitted k rt env request s payload api_key
    → s'.replay_cache ≡ serve calls (serve_scan k rt env debug request s).1.replay_cache
    → Ordered env.marked_at calls
    → last_time env.marked_at calls ≤ marked_at
    → leb_ℤ (expiry s.replay_cache.ttl_sec env.marked_at) (pos marked_at) ≡ false
    → read_payload (record env { request_uuid = uuid }) request.body ≡ ok payload
    → IsSigned k env.runtime.unicode rt.auth now request payload
    → reply_of
        (serve_scan k rt
          (record env { request_uuid = uuid; now = now; marked_at = marked_at })
          again
          request
          s').0
      ≡ error 409 (record {
        request_id = payload.request_id;
        code = "replay_detected";
        message = "nonce already used";
        details = [];
      })
unfolding reply_of http_exception_handler read_payload
serve_scan_replayed k rt env request s s' debug again payload api_key calls uuid now marked_at c on
      d room a state o end ahead read signed =
    let (r, done) = serve_scan-IsServed k rt env request s debug payload api_key a in
    let before : s'.replay_cache ≡ serve calls (hmac_check k rt env request s payload api_key).1 =
      state ∙ ap (serve calls) done.replay_cache in
    let refused =
      validate_hmac-serve k env.runtime.unicode rt.auth env.now env.marked_at request payload
        api_key s.replay_cache calls now marked_at c on d room a.signed o end ahead signed in
    let later = record env { request_uuid = uuid; now = now; marked_at = marked_at } in
    let check =
      ap
        (λ x.
          (validate_hmac k env.runtime.unicode rt.auth now marked_at request payload api_key x).0)
        before
      ∙ refused in
    ap reply_of (
      serve_scan_hmac_refused k rt later request s' again payload api_key
        (http_error 409 "replay_detected" "nonce already used" payload.request_id []) read a.key
        check)

-- A key that is not ASCII is answered by 500, and not by 401, where the first configured key is
-- neither blank nor a digest.
pub serve_scan_wide_key :
    (k : Crypto) (rt : ConnectorRuntime) (env : Environment) (request : Request) (s : State)
    (debug : Bool) (payload : ScanAttachmentRequest) (first : Text) (rest : List Text)
    → read_payload env request.body ≡ ok payload
    → rt.auth.api_keys ≡ first ∷ rest
    → strip first ≢ []
    → is_digest first ≡ false
    → all is_ascii (strip (or_empty request.x_api_key)) ≡ false
    → reply_of (serve_scan k rt env debug request s).0
      ≡ error 500 (record {
        request_id = none;
        code = "internal_error";
        message = "internal server error";
        details = [];
      })
unfolding serve_scan authenticate_and_scan reply_of fallback_exception_handler
serve_scan_wide_key k rt env request s debug payload first rest read keys n plain wide = ground (
  arith,
  read,
  validate_api_key_wide k env.runtime.unicode rt.auth request.x_api_key payload.request_id first
      rest keys n plain wide,
)
