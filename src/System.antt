-- ===== src/System.antt =====
-- The SGraph hook and the connector together: upstream_patches/sgraph sends a request to the
-- application of connector/app.py and enforces what comes back.
pub mod Allows
pub mod Answers
pub mod Pairing
pub mod Environments
pub mod Process
pub mod Serves
use sgraph_omega_connector.Base.{ℕ, List, [], Option, some, none, Result, ◌≡◌}
use sgraph_omega_connector.Base.Int.{ℤ}
use sgraph_omega_connector.Text.{Text}
use sgraph_omega_connector.Codec.{Crypto}
use sgraph_omega_connector.Json.{Json, Fields, object, fields}
use sgraph_omega_connector.Auth.{Request}
use sgraph_omega_connector.App.{
  Runtime, ConnectorRuntime, State, Environment, Reply, scanned, error, reply_of, response_fields,
  error_fields, dispatch,
}
use sgraph_omega_connector.SGraph.{
  ConnectorClientConfig, Exchange, answered, http_failed, broken, HookError, sign_headers, run_hook,
}
use sgraph_omega_connector.SGraph.Signed.{delivered}

-- What becomes of a call of `urlopen`.
pub data Network : Type 0 where
  -- the connector has the request, and its reply is read
  in_time : Network
  -- an exception, with its text, before the connector has the request
  unreached : Text → Network
  -- the connector has the request, but its reply is late or lost: an exception, with its text
  lost : Text → Network

-- How a document goes over the wire: its rendering, its parsing, the text of a rendering, the text
-- that Starlette sends where no endpoint is found, and what becomes of a call with a timeout.
pub record Channel (B : Type 0) : Type 0 where
  pub render : Json → B
  pub loads : B → Option Json
  pub show : B → Text
  pub not_found : Text
  pub network : ℤ → Network

-- What is rendered is parsed.
abbrev pub IsFaithful : {B : Type 0} → Channel B → Type 0
IsFaithful c = (j : Json) → c.loads (c.render j) ≡ some j

-- The text of the error 500 that is sent for an exception without a status.
abbrev pub internal_error : {B : Type 0} → Channel B → Text
internal_error c = c.show (
    c.render (
      object (
        error_fields (record {
          request_id = none;
          code = "internal_error";
          message = "internal server error";
          details = [];
        }))))

abbrev parsed : Option Json → Exchange
parsed none = broken []
parsed (some j) = answered j

-- The request of the client for a payload: its JSON is what is signed and what is sent.
abbrev pub signed_request :
    Crypto → Runtime → ConnectorClientConfig → ℕ → Text → (Fields → List ℕ) → Fields → Request
signed_request k rt config sent nonce dump payload =
    let body = dump payload in
    delivered config (sign_headers k rt.unicode rt.repr config sent nonce (fields payload) body)
      body

module _ {B : Type 0} (c : Channel B) where
  -- What the client gets of a reply that it has read: `urlopen` raises for the status of an error.
  unfoldable pub exchange_of : Reply → Exchange
  exchange_of (scanned r) = parsed (c.loads (c.render (object (response_fields r))))
  exchange_of (error status body) =
      http_failed status (c.show (c.render (object (error_fields body))))

  module _ (k : Crypto) (rt : ConnectorRuntime) (env : Environment) where
    -- A path without an endpoint is answered by 404.
    unfoldable pub answer : Request → State → Exchange × State
    answer request s = elim (dispatch k rt env request s) [
      | none ↦ (http_failed 404 c.not_found, s)
      | some result ↦ (exchange_of (reply_of result.0), result.1)
    ]

    -- The request over the network, with a timeout: an exception of `urlopen` that is no `HTTPError` is
    -- wrapped, and the connector may have served the request all the same.
    unfoldable pub post : ℤ → Request → State → Exchange × State
    post timeout_sec request s = elim (c.network timeout_sec) [
      | in_time ↦ answer request s
      | unreached exc ↦ (broken exc, s)
      | lost exc ↦ (broken exc, (answer request s).1)
    ]

    -- The hook on one payload, signed at `sent` with a fresh nonce and encoded by `dump`.
    unfoldable pub hook_round :
        ConnectorClientConfig
        → ℤ
        → ℕ
        → Text
        → (Fields → List ℕ)
        → Fields
        → State
        → Result HookError Text × State
    hook_round config timeout_sec sent nonce dump payload s =
        let (exchange, s') =
          post timeout_sec (signed_request k env.runtime config sent nonce dump payload) s in
        (run_hook env.runtime.unicode env.runtime.repr exchange, s')
