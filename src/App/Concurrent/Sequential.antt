-- ===== src/App/Concurrent/Sequential.antt =====
-- A request with nothing in between is served as `serve_scan` says.
use sgraph_omega_connector.Base.{
  suc, Bool, none, Result, Result-cases, ◌≡◌, refl, inl, inr, Bool-cases, arith,
}
use sgraph_omega_connector.Codec.{Crypto}
use sgraph_omega_connector.Errors.{Exception}
use sgraph_omega_connector.Models.{ScanAttachmentRequest, ScanAttachmentResponse}
use sgraph_omega_connector.Auth.{Request, validate_api_key, validate_hmac}
use sgraph_omega_connector.OmegaClient.{Attempt, builds, can_attempt, run_attempts, scan_attachment}
use sgraph_omega_connector.OmegaClient.Attempts.{nth_attempt}
use sgraph_omega_connector.App.Endpoint.{
  ConnectorRuntime, State, Environment, read_payload, scan_and_respond, authenticate_and_scan,
  serve_scan,
}
use sgraph_omega_connector.App.Concurrent.{
  Arrival, answered, scanning, arrive, check_request, start_scan, conclude,
}

module _ (k : Crypto) (rt : ConnectorRuntime) (env : Environment) (debug : Bool) where
  -- What the loop over the posts comes to for the payload.
  abbrev pub outcome : ScanAttachmentRequest → Attempt
  outcome payload =
      run_attempts (nth_attempt k env.runtime.unicode rt.omega env.upstream payload debug) 0
        (suc rt.omega.retry_count) none

  -- The second part, right after the first.
  abbrev pub complete : Arrival × State → Result Exception ScanAttachmentResponse × State
  complete (answered r, s) = (r, s)
  complete (scanning payload, s) =
      conclude k rt env.runtime debug payload env.upstream.ended (outcome payload) s

  start_scan_lem :
      (payload : ScanAttachmentRequest) (s : State)
      → complete (start_scan k rt env debug payload s) ≡ scan_and_respond k rt env debug payload s
  unfolding start_scan conclude scan_and_respond scan_attachment
  start_scan_lem payload s = elim (Bool-cases (can_attempt env.upstream.started s.circuit)) [
    | inl free ↦ elim (Bool-cases (builds rt.omega env.upstream payload debug)) [
      | inl built ↦ rw (free, built) refl
      | inr unbuilt ↦ rw (free, unbuilt) refl
    ]
    | inr shut ↦ rw shut refl
  ]

  check_request_lem :
      (request : Request) (payload : ScanAttachmentRequest) (s : State)
      → complete (check_request k rt env debug request payload s)
        ≡ authenticate_and_scan k rt env debug request payload s
  unfolding check_request authenticate_and_scan
  check_request_lem request payload s =
      elim (Result-cases
        (validate_api_key k env.runtime.unicode rt.auth request.x_api_key payload.request_id)) [
          | inl (e, bad) ↦ ground arith
          | inr (api_key, key) ↦
              let checked =
                validate_hmac k env.runtime.unicode rt.auth env.now env.marked_at request payload
                  api_key s.replay_cache in
              elim (Result-cases checked.0) [
                | inl (e, bad) ↦ ground arith
                | inr (done, good) ↦
                    ground (arith, start_scan_lem payload (record s { replay_cache = checked.1 }))
              ]
        ]

  -- The two parts of an endpoint, one right after the other, are `serve_scan`.
  pub complete-arrive :
      (request : Request) (s : State)
      → complete (arrive k rt env debug request s) ≡ serve_scan k rt env debug request s
  unfolding arrive serve_scan
  complete-arrive request s = elim (Result-cases (read_payload env request.body)) [
    | inl (e, bad) ↦ ground arith
    | inr (payload, read) ↦ ground (arith, check_request_lem request payload s)
  ]
