-- ===== src/App/Concurrent.antt =====
-- Requests that overlap on the event loop. Up to the check of the circuit an endpoint does not wait, so
-- that part is one step; it then waits for Omega, and what it does with the outcome is another step.
pub mod Sequential
pub mod Cases
pub mod Nonces
use sgraph_omega_connector.Base.{
  ℕ, ◌+◌, ◌≤◌, Bool, true, false, List, [], ◌∷◌, ◌++◌, Result, ok, raise, ◌≡◌, if◌then◌else◌,
}
use sgraph_omega_connector.Codec.{Crypto}
use sgraph_omega_connector.Errors.{Exception}
use sgraph_omega_connector.Models.{ScanAttachmentRequest, ScanAttachmentResponse}
use sgraph_omega_connector.Auth.{Request, validate_api_key, validate_hmac}
use sgraph_omega_connector.OmegaClient.{
  Attempt, OmegaError, builds, client_error, settle, can_attempt, circuit_open, scan_path,
}
use sgraph_omega_connector.App.Normalize.{Runtime}
use sgraph_omega_connector.App.Endpoint.{
  ConnectorRuntime, State, Environment, read_payload, respond, write_audit,
}

-- What the first part leads to: an answer, or a scan that waits for Omega.
pub data Arrival : Type 0 where
  answered : Result Exception ScanAttachmentResponse → Arrival
  scanning : ScanAttachmentRequest → Arrival

module _ (k : Crypto) (rt : ConnectorRuntime) where
  -- The response to what the client has returned or raised, and its audit record.
  unfoldable pub conclude :
      Runtime
      → Bool
      → ScanAttachmentRequest
      → ℕ
      → Attempt
      → State
      → Result Exception ScanAttachmentResponse × State
  conclude run debug payload ended a s =
      let (raw, circuit') = settle rt.omega ended s.circuit a in
      let (answer, log) =
        write_audit k rt (scan_path debug) (respond run payload rt.fail_mode raw) s.audit in
      (answer, record s { circuit = circuit'; audit = log })

  -- The answer to an error that is raised before the loop over the posts.
  abbrev fail_scan :
      Environment → Bool → ScanAttachmentRequest → OmegaError → State → Arrival × State
  fail_scan env debug payload e s =
      let (answer, log) =
        write_audit k rt (scan_path debug) (respond env.runtime payload rt.fail_mode (raise e))
          s.audit in
      (answered answer, record s { audit = log })

  -- An open circuit, and a request that cannot be built, are answered by the fallback at once.
  unfoldable pub start_scan : Environment → Bool → ScanAttachmentRequest → State → Arrival × State
  start_scan env debug payload s =
      if can_attempt env.upstream.started s.circuit
      then (if builds rt.omega env.upstream payload debug
          then (scanning payload, s)
          else fail_scan env debug payload client_error s)
      else fail_scan env debug payload circuit_open s

  unfoldable pub check_request :
      Environment → Bool → Request → ScanAttachmentRequest → State → Arrival × State
  check_request env debug request payload s =
      elim (validate_api_key k env.runtime.unicode rt.auth request.x_api_key payload.request_id) [
        | raise e ↦ (answered (raise e), s)
        | ok api_key ↦
            let (checked, cache) =
              validate_hmac k env.runtime.unicode rt.auth env.now env.marked_at request payload
                api_key s.replay_cache in
            let s' = record s { replay_cache = cache } in
            elim checked [
              | raise e ↦ (answered (raise e), s')
              | ok _ ↦ start_scan env debug payload s'
            ]
      ]

  -- From the body to the check of the circuit.
  unfoldable pub arrive : Environment → Bool → Request → State → Arrival × State
  arrive env debug request s = elim (read_payload env request.body) [
    | raise e ↦ (answered (raise e), s)
    | ok payload ↦ check_request env debug request payload s
  ]

-- A scan that waits for Omega.
pub record Waiting : Type 0 where
  pub payload : ScanAttachmentRequest
  pub debug : Bool

-- The clock, what the requests share, and the scans that wait.
pub record Server : Type 0 where
  pub now : ℕ
  pub state : State
  pub scans : List Waiting

pub data Step (k : Crypto) (rt : ConnectorRuntime) (w : Server) : Server → Type 0 where
  -- time passes
  wait : (n : ℕ) → Step k rt w (record w { now = w.now + n })
  -- a request is answered without a scan
  answer :
      (env : Environment) (debug : Bool) (request : Request)
      (r : Result Exception ScanAttachmentResponse) (s : State)
      → w.now ≤ env.marked_at
      → arrive k rt env debug request w.state ≡ (answered r, s)
      → Step k rt w (record { now = env.marked_at; state = s; scans = w.scans })
  -- a request begins to wait for Omega
  start :
      (env : Environment) (debug : Bool) (request : Request) (payload : ScanAttachmentRequest)
      (s : State)
      → w.now ≤ env.marked_at
      → arrive k rt env debug request w.state ≡ (scanning payload, s)
      → Step k rt w (record {
        now = env.marked_at;
        state = s;
        scans = record { payload = payload; debug = debug } ∷ w.scans;
      })
  -- Omega's outcome `a` for one of the scans that wait
  finish :
      (run : Runtime) (a : Attempt) (x : Waiting) (before after : List Waiting)
      → w.scans ≡ before ++ x ∷ after
      → Step k rt w (record {
        now = w.now;
        state = (conclude k rt run x.debug x.payload w.now a w.state).1;
        scans = before ++ after;
      })

pub data Reach (k : Crypto) (rt : ConnectorRuntime) (v : Server) : Server → Type 0 where
  here : Reach k rt v v
  next : {w x : Server} → Reach k rt v w → Step k rt w x → Reach k rt v x
