-- ===== src/System/Answers.antt =====
-- What comes back over the channel for the result of an endpoint, a response or the exception of the
-- audit record.
use sgraph_omega_connector.Base.{ℕ, some, Result, ok, raise, ◌≡◌, refl, ap}
use sgraph_omega_connector.Text.{Text}
use sgraph_omega_connector.Codec.{Crypto}
use sgraph_omega_connector.Json.{object}
use sgraph_omega_connector.Errors.{Exception}
use sgraph_omega_connector.Models.{ScanAttachmentResponse}
use sgraph_omega_connector.Auth.{Request}
use sgraph_omega_connector.App.{
  ConnectorRuntime, State, Environment, dispatch, response_fields, reply_of, Runtime,
  fallback_exception_handler,
}
use sgraph_omega_connector.Audit.{encode_error}
use sgraph_omega_connector.SGraph.{
  answered, http_failed, run_hook, scan_result, client_error, connector_http_error,
}
use sgraph_omega_connector.System.{internal_error, Channel, IsFaithful, exchange_of, answer}
use sgraph_omega_connector.System.Allows.{exchange_of-scanned}

pub answer_served :
    {B : Type 0} (c : Channel B)
    → IsFaithful c
    → (k : Crypto) (rt : ConnectorRuntime) (env : Environment) (request : Request) (s : State)
      (result : Result Exception ScanAttachmentResponse × State) (r : ScanAttachmentResponse)
    → dispatch k rt env request s ≡ some result
    → result.0 ≡ ok r
    → answer c k rt env request s ≡ (answered (object (response_fields r)), result.1)
unfolding answer reply_of
answer_served c f k rt env request s result r to done =
    rw (answer, to, done) (ap (λ x. (x, result.1)) (exchange_of-scanned c f r))

pub answer_failed :
    {B : Type 0} (c : Channel B) (k : Crypto) (rt : ConnectorRuntime) (env : Environment)
    (request : Request) (s : State) (result : Result Exception ScanAttachmentResponse × State)
    → dispatch k rt env request s ≡ some result
    → result.0 ≡ raise encode_error
    → answer c k rt env request s ≡ (http_failed 500 (internal_error c), result.1)
unfolding answer reply_of exchange_of fallback_exception_handler
answer_failed c k rt env request s result to failed = rw (answer, to, failed) refl

pub run_hook_failed :
    (rt : Runtime) (status : ℕ) (raw : Text)
    → run_hook rt.unicode rt.repr (http_failed status raw)
      ≡ raise (client_error (connector_http_error status raw))
unfolding run_hook scan_result
run_hook_failed rt status raw = refl
