-- ===== src/OmegaClient/Posts.antt =====
-- A call of `scan_attachment`: the posts to Omega, and what they lead to.
use sgraph_omega_connector.Base.{
  ℕ, zero, suc, ◌+◌, Bool, List, ◌++◌, Option, some, none, Result, ok, raise, leb, if◌then◌else◌,
}
use sgraph_omega_connector.Base.Int.{ℤ}
use sgraph_omega_connector.Text.{Text, Unicode, codes, strip, truthy, str_ℕ}
use sgraph_omega_connector.Codec.{Crypto}
use sgraph_omega_connector.Dict.{lookup}
use sgraph_omega_connector.Json.{Json, text, object, fields}
use sgraph_omega_connector.Models.{ScanAttachmentRequest, or_empty}
use sgraph_omega_connector.OmegaClient.Client.{
  CircuitState, OmegaError, OmegaClient, can_attempt, record_failure, record_success, Verify,
  resolve_verify, headers, client_error, circuit_open, timeout_error, unavailable, rejected,
}

-- A reply: its status, its JSON (none where `response.json()` raises) and its text.
pub record Response : Type 0 where
  pub status_code : ℕ
  pub json : Option Json
  pub body_text : Text

-- What a call of `client.post` does. A connection error is a ConnectError, NetworkError or
-- ProtocolError; a ConnectTimeout is a timeout, since that clause comes first.
pub data Posted : Type 0 where
  replied : Response → Posted
  timed_out connection_error other_exception : Posted

-- `data["detail"]`, if `data` is an object that has a text there which is not blank
unfoldable pub stated_detail : Option Json → Option Text
stated_detail (some (object fs)) = elim (lookup (codes "detail") (fields fs)) [
  | some (text s) ↦ if truthy (strip s) then some (strip s) else none
  | _ ↦ none
]
stated_detail _ = none

abbrev pub or_else : Option Text → Text → Text
or_else none d = d
or_else (some s) d = s

unfoldable pub detail_code : (Text → Option Json) → Response → Text
detail_code loads r =
    let http_status = codes "http_" ++ str_ℕ r.status_code in
    let trimmed = strip r.body_text in
    or_else (stated_detail r.json)
      (if truthy trimmed then or_else (stated_detail (loads trimmed)) http_status else http_status)

-- The error that the loop remembers: one of the client's own, or another exception.
pub data LastError : Type 0 where
  omega_error : OmegaError → LastError
  foreign : LastError

-- One round of the loop.
pub data Attempt : Type 0 where
  returned : Json → Attempt
  refused : ℕ → Text → Text → Attempt
  failed : LastError → Attempt

unfoldable pub attempt : (Text → Option Json) → Posted → Attempt
attempt loads (replied r) =
    if leb 500 r.status_code
    then failed (omega_error unavailable)
    else if leb 400 r.status_code
    then refused r.status_code (detail_code loads r) r.body_text
    else elim r.json [
      | none ↦ failed (omega_error client_error)
      | some data_json ↦ returned data_json
    ]
attempt loads timed_out = failed (omega_error timeout_error)
attempt loads connection_error = failed (omega_error unavailable)
attempt loads other_exception = failed foreign

-- The rounds from `i` on, `n` of them; `last` is the error so far.
unfoldable pub run_attempts : (ℕ → Attempt) → ℕ → ℕ → Option LastError → Attempt
run_attempts at i zero none = failed foreign
run_attempts at i zero (some last) = failed last
run_attempts at i (suc n) last = elim (at i) [
  | returned j ↦ returned j
  | refused status code body ↦ refused status code body
  | failed e ↦ run_attempts at (i + 1) n (some e)
]

-- What `raise` ends the function with.
abbrev pub to_client_error : LastError → OmegaError
to_client_error (omega_error e) = e
to_client_error foreign = client_error

-- The state and the result behind the loop; `ended` is the clock at `_record_failure`.
unfoldable pub settle :
    OmegaClient → ℕ → CircuitState → Attempt → Result OmegaError Json × CircuitState
settle c ended s (returned j) = (ok j, record_success s)
settle c ended s (refused status code body) = (raise (rejected status code body), s)
settle c ended s (failed e) = (raise (to_client_error e), record_failure c ended s)

-- The request as it is handed to httpx.
pub record Outgoing : Type 0 where
  pub url : Text
  pub body : List ℕ
  pub sent_headers : List (Text × Text)
  pub timeout_ms : ℤ
  pub verify : Verify

-- What a call of `scan_attachment` meets: the readings of the clock, the fresh UUID, whether pydantic
-- and httpx can build the request for the URL and the payload, its bytes where they can, the parser,
-- and the answer to the n-th post.
pub record Upstream : Type 0 where
  pub started : ℕ
  pub signed_at : ℕ
  pub ended : ℕ
  pub nonce : Text
  pub can_build : Text → ScanAttachmentRequest → Bool
  pub dump : ScanAttachmentRequest → List ℕ
  pub loads : Text → Option Json
  pub post : Outgoing → ℕ → Posted

abbrev pub scan_path : Bool → Text
scan_path debug =
    if debug then codes "/v1/scan/attachment/document_scan_report" else codes "/v1/scan/attachment"

-- `f"{self.base_url}{path}"`
abbrev pub upstream_url : OmegaClient → Bool → Text
upstream_url c debug = c.base_url ++ scan_path debug

-- Whether `model_dump` and `httpx.Request` give a request, and do not raise.
abbrev pub builds : OmegaClient → Upstream → ScanAttachmentRequest → Bool → Bool
builds c up payload debug = up.can_build (upstream_url c debug) payload

module _ (k : Crypto) (u : Unicode) where
  -- The request, where it can be built.
  unfoldable pub outgoing : OmegaClient → Upstream → ScanAttachmentRequest → Bool → Outgoing
  outgoing c up payload debug =
      let path = scan_path debug in
      let body = up.dump payload in
      record {
        url = upstream_url c debug;
        body = body;
        sent_headers =
            headers k u c path body payload.tenant_id (or_empty payload.request_id) up.signed_at
              up.nonce;
        timeout_ms = c.timeout_ms;
        verify = resolve_verify c;
      }

  -- An exception before the loop leaves the circuit as it was.
  unfoldable pub scan_attachment :
      OmegaClient
      → Upstream
      → ScanAttachmentRequest
      → Bool
      → CircuitState
      → Result OmegaError Json × CircuitState
  scan_attachment c up payload debug s =
      if can_attempt up.started s
      then (if builds c up payload debug
          then settle c up.ended s (
              run_attempts (λ i. attempt up.loads (up.post (outgoing c up payload debug) i)) 0
                (suc c.retry_count) none)
          else (raise client_error, s))
      else (raise circuit_open, s)
