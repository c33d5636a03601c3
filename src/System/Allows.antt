-- ===== src/System/Allows.antt =====
-- What it takes for the hook to let a file pass.
use sgraph_omega_connector.Base.{
  ℕ, Bool, true, false, List, some, none, Result, ok, raise, ◌≡◌, refl, sym, ap, ◌∙◌, ◌⊎◌, inl, inr,
  Bool-cases, arith,
}
use sgraph_omega_connector.Base.Int.{ℤ}
use sgraph_omega_connector.Text.{Text, codes, text_eq}
use sgraph_omega_connector.Codec.{Crypto}
use sgraph_omega_connector.Dict.{lookup}
use sgraph_omega_connector.Json.{Json, Fields, text, object, fields}
use sgraph_omega_connector.Errors.{Exception, http, envelope, plain, request_validation, unexpected}
use sgraph_omega_connector.Models.{ScanAttachmentRequest, ScanAttachmentResponse}
use sgraph_omega_connector.Auth.{Request}
use sgraph_omega_connector.OmegaClient.{scan_attachment, scan_path}
use sgraph_omega_connector.App.{
  ConnectorRuntime, State, Environment, scanned, reply_of, response_fields, dispatch, scan_endpoint,
  document_scan_endpoint, debug_disabled, serve_scan, allow, known_verdict, verdict_of,
  http_exception_handler, validation_exception_handler, fallback_exception_handler,
}
use sgraph_omega_connector.App.Guarantees.{serve_scan-IsContract, serve_scan-allow}
use sgraph_omega_connector.App.Admission.{IsAdmitted}
use sgraph_omega_connector.SGraph.{ConnectorClientConfig, answered, stated_verdict}
use sgraph_omega_connector.SGraph.Enforce.{stated_verdict_contract, run_hook-allow}
use sgraph_omega_connector.System.{
  Channel, IsFaithful, exchange_of, answer, post, signed_request, hook_round,
}

-- The verdict of a response, as the client finds it.
pub verdict-response_fields :
    (r : ScanAttachmentResponse)
    → lookup (codes "verdict") (fields (response_fields r)) ≡ some (text r.verdict)
unfolding response_fields lookup text_eq
verdict-response_fields r = refl

module _ {B : Type 0} (c : Channel B) (f : IsFaithful c) where
  pub exchange_of-scanned :
      (r : ScanAttachmentResponse)
      → exchange_of c (scanned r) ≡ answered (object (response_fields r))
  unfolding exchange_of
  exchange_of-scanned r = rw (f (object (response_fields r))) refl

  exchange_of-raise :
      (e : Exception) (j : Json) → exchange_of c (reply_of (raise e)) ≡ answered j → ⊥
  unfolding exchange_of reply_of http_exception_handler validation_exception_handler
      fallback_exception_handler
  exchange_of-raise (http status (envelope body)) j h = absurd (grind (arith, h))
  exchange_of-raise (http status (plain message)) j h = absurd (grind (arith, h))
  exchange_of-raise (request_validation errors) j h = absurd (grind (arith, h))
  exchange_of-raise (unexpected e) j h = absurd (grind (arith, h))

  -- A document that the client is given is that of a response.
  exchange_of-answered :
      (x : Result Exception ScanAttachmentResponse) (fs : Fields)
      → exchange_of c (reply_of x) ≡ answered (object fs)
      → (r : ScanAttachmentResponse) × (x ≡ ok r) × (response_fields r ≡ fs)
  unfolding reply_of
  exchange_of-answered (ok r) fs h = (r, refl, grind (arith, sym (exchange_of-scanned r) ∙ h))
  exchange_of-answered (raise e) fs h = absurd (exchange_of-raise e (object fs) h)

module _ (k : Crypto) (rt : ConnectorRuntime) (env : Environment) (request : Request)
    (s : State) where
  -- A request is served by an endpoint, or by none, or meets the disabled debug endpoint.
  pub dispatch_cases :
      ((debug : Bool) × (dispatch k rt env request s ≡ some (serve_scan k rt env debug request s)))
      ⊎ ((dispatch k rt env request s ≡ none)
          ⊎ (dispatch k rt env request s ≡ some (raise debug_disabled, s)))
  unfolding dispatch scan_endpoint document_scan_endpoint
  dispatch_cases = elim (Bool-cases (text_eq request.path (scan_path false))) [
    | inl scan ↦ inl (false, rw scan refl)
    | inr other ↦ elim (Bool-cases (text_eq request.path (scan_path true))) [
      | inr no_route ↦ inr (inl (rw (other, no_route) refl))
      | inl report ↦ elim (Bool-cases rt.debug_document_scan) [
        | inl enabled ↦ inl (true, rw (other, report, enabled) refl)
        | inr disabled ↦ inr (inr (rw (other, report, disabled) refl))
      ]
    ]
  ]

  module _ {B : Type 0} (c : Channel B) (f : IsFaithful c) where
    -- A document that the client is given has come in time.
    post-answered :
        (timeout_sec : ℤ) (fs : Fields)
        → (post c k rt env timeout_sec request s).0 ≡ answered (object fs)
        → (answer c k rt env request s).0 ≡ answered (object fs)
    unfolding post
    post-answered timeout_sec fs h = ground arith

    answer-answered :
        (fs : Fields)
        → (answer c k rt env request s).0 ≡ answered (object fs)
        → (debug : Bool) × (r : ScanAttachmentResponse) × ((serve_scan k rt env debug request s).0
            ≡ ok r)
          × (response_fields r ≡ fs)
    unfolding answer
    answer-answered fs h = elim dispatch_cases [
      | inl (debug, to) ↦
          let (r, done, same) =
            exchange_of-answered c f (serve_scan k rt env debug request s).0 fs
              (rw (answer, to) at h) in
          (debug, r, done, same)
      | inr (inl to) ↦ absurd (ground (arith, to))
      | inr (inr to) ↦
          absurd (exchange_of-raise c f debug_disabled (object fs) (rw (answer, to) at h))
    ]

module _ {B : Type 0} (c : Channel B) (f : IsFaithful c) (k : Crypto) (rt : ConnectorRuntime)
    (env : Environment) (s : State) where
  -- The hook lets a file pass only if an endpoint has admitted the request, with its body, its API key
  -- and its signature, and either the connector's fail mode is "allow", or Omega replied to the payload
  -- with an object whose verdict reads "allow". This holds for all settings of the client, whatever
  -- becomes of the exchange on the network, and it supposes that a JSON document is received as it was sent.
  pub hook_round-allow :
      (config : ConnectorClientConfig) (timeout_sec : ℤ) (sent : ℕ) (nonce : Text)
      (dump : Fields → List ℕ) (body : Fields)
      → (hook_round c k rt env config timeout_sec sent nonce dump body s).0 ≡ ok allow
      → (debug : Bool) × (payload : ScanAttachmentRequest) × (api_key : Text) × IsAdmitted k rt env
          (signed_request k env.runtime config sent nonce dump body)
          s
          payload
          api_key
        × ((known_verdict rt.fail_mode ≡ allow)
            ⊎ ((fs : Fields) × ((scan_attachment k env.runtime.unicode rt.omega env.upstream payload
                    debug s.circuit).0
                  ≡ ok (object fs))
                × (verdict_of env.runtime (lookup (codes "verdict") (fields fs)) ≡ allow)))
  unfolding hook_round
  hook_round-allow config timeout_sec sent nonce dump body h =
      let request = signed_request k env.runtime config sent nonce dump body in
      let u = env.runtime.unicode in
      let (doc, (got, passed)) =
        run_hook-allow u env.runtime.repr (post c k rt env timeout_sec request s).0 h in
      let (debug, r, done, same) =
        answer-answered k rt env request s c f doc
          (post-answered k rt env request s c f timeout_sec doc got) in
      let stated = ap (λ x. lookup (codes "verdict") (fields x)) same in
      let allowed : r.verdict ≡ allow =
        sym (
          stated_verdict_contract u env.runtime.repr r.verdict
            (serve_scan-IsContract k rt env request s debug r done).verdict)
        ∙ ap (stated_verdict u env.runtime.repr) (sym (verdict-response_fields r) ∙ stated)
        ∙ passed in
      let (payload, api_key, a, why) = serve_scan-allow k rt env request s debug r done allowed in
      (debug, payload, api_key, a, why)
