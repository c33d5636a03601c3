-- ===== src/System/Serves.antt =====
-- A paired hook and connector: the hook's request is always served, and the hook enforces what the
-- connector has decided.
use sgraph_omega_connector.Base.{
  ℕ, true, false, List, [], some, none, Result, ok, raise, ◌⊎◌, ◌/◌, ◌≤◌, length, ◌≡◌, ◌≢◌, refl,
  inl, inr, arith,
}
use sgraph_omega_connector.Base.Int.{ℤ, pos, dist_ℤ, ◌≤ℤ◌}
use sgraph_omega_connector.Text.{
  Text, strip, text_eq_refl, NoSpace, str_ℕ, max_str_digits, strip-NoSpace,
}
use sgraph_omega_connector.Codec.{Crypto, IsCrypto}
use sgraph_omega_connector.Dict.{lookup, Distinct}
use sgraph_omega_connector.Json.{Json, Fields, object, fields}
use sgraph_omega_connector.Security.{ticks_per_sec}
use sgraph_omega_connector.Security.Cleanup.{live, check_and_mark_fresh}
use sgraph_omega_connector.Models.{
  ScanAttachmentRequest, ScanAttachmentResponse, or_empty, given, model_validate,
}
use sgraph_omega_connector.Auth.{Request, replay_key, validate_api_key}
use sgraph_omega_connector.Auth.ApiKey.{validate_api_key_iff}
use sgraph_omega_connector.Auth.Signature.{truthy_of_ne, IsSigned}
use sgraph_omega_connector.Auth.Replays.{request_key, validate_hmac_iff}
use sgraph_omega_connector.OmegaClient.{scan_path}
use sgraph_omega_connector.App.{
  ConnectorRuntime, State, Environment, read_payload, fill_request_id, serve_scan, dispatch,
  scan_endpoint, response_fields,
}
use sgraph_omega_connector.App.Admission.{IsAdmitted, Recorded, Unrecorded}
use sgraph_omega_connector.SGraph.{
  ConnectorClientConfig, sign_headers, answered, run_hook, scan_result, HookError, client_error,
  connector_http_error, connector_request_failed,
}
use sgraph_omega_connector.SGraph.Signed.{sign_headers-IsSigned}
use sgraph_omega_connector.SGraph.Payload.{IsPydantic, model_validate-scan_payload}
use sgraph_omega_connector.System.{
  internal_error, Channel, IsFaithful, lost, answer, post, signed_request, hook_round,
}
use sgraph_omega_connector.System.Answers.{answer_served}
use sgraph_omega_connector.System.Pairing.{
  Enforces, IsPaired, HookCall, payload_of, read_of, IsComplete, text_of-payload_of,
}

read_payload_valid :
    (env : Environment) (body : List ℕ) (j : Json) (payload : ScanAttachmentRequest)
    → env.loads_body body ≡ some j
    → model_validate env.pydantic j ≡ some payload
    → given payload.request_id ≡ true
    → read_payload env body ≡ ok payload
unfolding read_payload fill_request_id
read_payload_valid env body j payload decoded valid has_id = ground arith

module _ {B : Type 0} (c : Channel B) (f : IsFaithful c) (k : Crypto) (rt : ConnectorRuntime)
    (env : Environment) (s : State) (ck : IsCrypto k) (cp : IsPydantic env.pydantic)
    (config : ConnectorClientConfig) (paired : IsPaired k env.runtime.unicode config rt.auth)
    (sent : ℕ) (nonce : Text) (dump : Fields → List ℕ) (call : HookCall)
    (complete : IsComplete call)
    (decoded : env.loads_body (dump (payload_of call)) ≡ some (object (payload_of call))) where
  abbrev pub hook_request : Request
  hook_request = signed_request k env.runtime config sent nonce dump (payload_of call)

  read_hook_request : read_payload env hook_request.body ≡ ok (read_of call)
  read_hook_request =
      read_payload_valid env (dump (payload_of call)) (object (payload_of call)) (read_of call)
        decoded
        (model_validate-scan_payload env.pydantic call.tenant_id call.request_id call.filename
          call.mime call.decrypted_bytes call.metadata cp complete.0 complete.1.1)
        (truthy_of_ne call.request_id complete.1.0)

  key_accepted :
      validate_api_key k env.runtime.unicode rt.auth (some config.api_key) (some call.request_id)
      ≡ ok (strip config.api_key)
  key_accepted =
      elim (validate_api_key_iff k env.runtime.unicode rt.auth (some config.api_key)
        (some call.request_id) paired.some_key paired.ascii paired.comparable) [
          | inl (accepted, found) ↦ accepted
          | inr (refused, missing) ↦ absurd (missing paired.known)
        ]

  -- The clocks and the nonce of the two sides fit.
  pub record IsTimely : Type 0 where
    pub plain : NoSpace nonce
    pub some_nonce : nonce ≢ []
    pub short : length (str_ℕ (sent / ticks_per_sec)) ≤ max_str_digits
    pub near :
        pos (dist_ℤ (env.now / ticks_per_sec) (pos (sent / ticks_per_sec)))
        ≤ℤ rt.auth.max_clock_skew_sec
    pub distinct : Distinct s.replay_cache.entries
    pub fresh :
        live env.marked_at
          (lookup (replay_key k call.tenant_id (strip config.api_key) nonce) s.replay_cache.entries)
        ≡ none

  module _ (timely : IsTimely) where
    hook_request-IsSigned :
        IsSigned k env.runtime.unicode rt.auth env.now hook_request (read_of call)
    hook_request-IsSigned =
        let (tenant, id) = text_of-payload_of env.runtime.repr call in
        sign_headers-IsSigned k env.runtime.unicode env.runtime.repr ck config rt.auth sent env.now
          nonce (fields (payload_of call)) (dump (payload_of call)) (read_of call) paired.secret
          paired.set timely.plain timely.some_nonce tenant id timely.short timely.near

    hook_nonce : strip (or_empty hook_request.x_nonce) ≡ nonce
    unfolding sign_headers
    hook_nonce = strip-NoSpace nonce timely.plain

    sent_key :
        validate_api_key k env.runtime.unicode rt.auth hook_request.x_api_key (some call.request_id)
        ≡ ok (strip config.api_key)
    unfolding sign_headers
    sent_key = key_accepted

    pub hook_request-IsAdmitted :
        IsAdmitted k rt env hook_request s (read_of call) (strip config.api_key)
    hook_request-IsAdmitted = record {
      read = read_hook_request;
      key = sent_key;
      signed =
          (validate_hmac_iff k env.runtime.unicode ck rt.auth paired.required env.now env.marked_at
              hook_request (read_of call) (strip config.api_key) s.replay_cache).1
            (
              hook_request-IsSigned,
              check_and_mark_fresh env.marked_at
                  (request_key k env.runtime.unicode hook_request (read_of call)
                    (strip config.api_key))
                  s.replay_cache timely.distinct (rw (hook_nonce) timely.fresh),
            );
    }

    dispatch-hook_request :
        dispatch k rt env hook_request s ≡ some (serve_scan k rt env false hook_request s)
    unfolding dispatch scan_endpoint
    dispatch-hook_request = rw (paired.path, text_eq_refl (scan_path false)) refl

    pub answer-hook_request :
        (r : ScanAttachmentResponse)
        → (serve_scan k rt env false hook_request s).0 ≡ ok r
        → answer c k rt env hook_request s
          ≡ (answered (object (response_fields r)), (serve_scan k rt env false hook_request s).1)
    answer-hook_request r done =
        answer_served c f k rt env hook_request s (serve_scan k rt env false hook_request s) r
          dispatch-hook_request done

    -- The hook, on the decision `x`, against the endpoint with the response `r`: it enforces the verdict
    -- of the response that is recorded; for one that cannot be, it reports the status 500.
    abbrev pub Shown : Result HookError Text → ScanAttachmentResponse → Type 0
    Shown x r =
        (Recorded k rt env hook_request s false r × Enforces x r.verdict)
        ⊎ (Unrecorded k rt env hook_request s false r
            × (x ≡ raise (client_error (connector_http_error 500 (internal_error c)))))

    -- Where the reply is late or lost, the connector has served the request, and the hook reports the
    -- failure in place of a decision.
    pub hook_round_lost :
        (timeout_sec : ℤ) (exc : Text) (r : ScanAttachmentResponse)
        → c.network timeout_sec ≡ lost exc
        → (serve_scan k rt env false hook_request s).0 ≡ ok r
        → hook_round c k rt env config timeout_sec sent nonce dump (payload_of call) s ≡ (
          raise (client_error (connector_request_failed exc)),
          (serve_scan k rt env false hook_request s).1,
        )
    unfolding hook_round post run_hook scan_result
    hook_round_lost timeout_sec exc r late done =
        rw (hook_round, post, late, answer-hook_request r done) refl
