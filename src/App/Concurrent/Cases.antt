-- ===== src/App/Concurrent/Cases.antt =====
-- The ways in which a request is taken in.
use sgraph_omega_connector.Base.{
  ℕ, Bool, Result-cases, raise, ◌≡◌, refl, ◌⊎◌, inl, inr, Bool-cases, arith,
}
use sgraph_omega_connector.Text.{Text, Unicode}
use sgraph_omega_connector.Codec.{Crypto}
use sgraph_omega_connector.Security.{NonceReplayCache}
use sgraph_omega_connector.Security.Calls.{Looks}
use sgraph_omega_connector.Errors.{Exception}
use sgraph_omega_connector.Models.{ScanAttachmentRequest}
use sgraph_omega_connector.Auth.{
  AuthConfig, Request, validate_api_key, validate_hmac, verify_signature, mark_nonce, replay_key,
}
use sgraph_omega_connector.App.Endpoint.{ConnectorRuntime, State, Environment, read_payload}
use sgraph_omega_connector.App.Admission.{hmac_check, IsAdmitted, admitted_state}
use sgraph_omega_connector.App.Concurrent.{answered, arrive, check_request, start_scan}

validate_hmac-Looks :
    (k : Crypto) (u : Unicode) (config : AuthConfig) (now marked_at : ℕ) (request : Request)
    (payload : ScanAttachmentRequest) (api_key : Text) (cache : NonceReplayCache)
    → Looks marked_at cache (validate_hmac k u config now marked_at request payload api_key cache).1
unfolding validate_hmac mark_nonce
validate_hmac-Looks k u config now marked_at request payload api_key cache =
    elim (Bool-cases config.require_hmac) [
      | inr off ↦ inl (ground arith)
      | inl on ↦ elim (Result-cases (verify_signature k u config now request payload)) [
        | inl (e, bad) ↦ inl (ground arith)
        | inr (nonce, good) ↦ inr (replay_key k payload.tenant_id api_key nonce, ground arith)
      ]
    ]

module _ (k : Crypto) (rt : ConnectorRuntime) (env : Environment) (debug : Bool) (request : Request)
    (s : State) where
  -- The request is refused, and at most the replay cache has changed.
  abbrev pub Refuses : Type 0
  Refuses =
      (e : Exception) × (c' : NonceReplayCache) × (arrive k rt env debug request s
        ≡ (answered (raise e), record s { replay_cache = c' }))
      × Looks env.marked_at s.replay_cache c'

  -- The request is admitted, and goes on to the check of the circuit.
  abbrev pub Admits : Type 0
  Admits =
      (payload : ScanAttachmentRequest) × (api_key : Text) × IsAdmitted k rt env request s payload
        api_key
      × (arrive k rt env debug request s
          ≡ start_scan k rt env debug payload (admitted_state k rt env request s payload api_key))
      × Looks env.marked_at s.replay_cache (hmac_check k rt env request s payload api_key).1

  pub arrive_admitted :
      (payload : ScanAttachmentRequest) (api_key : Text)
      → IsAdmitted k rt env request s payload api_key
      → arrive k rt env debug request s
        ≡ start_scan k rt env debug payload (admitted_state k rt env request s payload api_key)
  unfolding arrive check_request
  arrive_admitted payload api_key h = ground (arith, h.read, h.key, h.signed)

  pub arrive-cases : Refuses ⊎ Admits
  unfolding arrive check_request
  arrive-cases = elim (Result-cases (read_payload env request.body)) [
    | inl (e, bad) ↦ inl (e, s.replay_cache, ground arith, inl refl)
    | inr (payload, read) ↦
        elim (Result-cases
          (validate_api_key k env.runtime.unicode rt.auth request.x_api_key payload.request_id)) [
            | inl (e, bad) ↦ inl (e, s.replay_cache, ground arith, inl refl)
            | inr (api_key, key) ↦
                let checked = hmac_check k rt env request s payload api_key in
                let looked =
                  validate_hmac-Looks k env.runtime.unicode rt.auth env.now env.marked_at request
                    payload api_key s.replay_cache in
                elim (Result-cases checked.0) [
                  | inl (e, bad) ↦ inl (e, checked.1, ground arith, looked)
                  | inr (done, good) ↦ inr (
                    payload,
                    api_key,
                    record { read = read; key = key; signed = ground arith },
                    ground arith,
                    looked,
                  )
                ]
          ]
  ]
