-- ===== src/OmegaClient/Client.antt =====
-- The client's data, its circuit breaker and the headers that it signs.
use sgraph_omega_connector.Base.{
  ℕ, ◌+◌, ◌*◌, ◌/◌, Bool, not, List, [], ◌∷◌, leb, ◌==◌, if◌then◌else◌,
}
use sgraph_omega_connector.Base.Int.{ℤ, max_ℕ}
use sgraph_omega_connector.Text.{Text, Unicode, codes, strip, rstrip_by, truthy, str_ℕ}
use sgraph_omega_connector.Codec.{Crypto}
use sgraph_omega_connector.Security.{
  sha256_hex, build_canonical_string, sign_canonical, ticks_per_sec,
}

pub record CircuitState : Type 0 where
  pub failure_count : ℕ
  pub opened_until_ts : ℕ

abbrev pub closed : CircuitState
closed = record { failure_count = 0; opened_until_ts = 0 }

-- `OmegaClientError`, which also stands for an exception of another class, and its subclasses.
pub data OmegaError : Type 0 where
  client_error circuit_open timeout_error unavailable : OmegaError
  -- the status, the detail code and the body of the reply
  rejected : ℕ → Text → Text → OmegaError

pub record OmegaClient : Type 0 where
  pub base_url : Text
  pub api_key : Text
  pub require_hmac : Bool
  pub hmac_secret : Text
  pub tls_verify : Bool
  pub ca_cert_path : Text
  pub timeout_ms : ℤ
  pub retry_count : ℕ
  pub breaker_fails : ℕ
  pub breaker_reset_sec : ℕ

-- `OmegaClient(...)`, with the numbers brought into their ranges
unfoldable pub new_client : Text → Text → Bool → Text → Bool → Text → ℤ → ℤ → ℤ → ℤ → OmegaClient
new_client base_url api_key require_hmac hmac_secret tls_verify ca_cert_path timeout_ms retry_count
      breaker_fails breaker_reset_sec =
    record {
      base_url = rstrip_by (λ c. c == b'/') base_url;
      api_key = api_key;
      require_hmac = require_hmac;
      hmac_secret = hmac_secret;
      tls_verify = tls_verify;
      ca_cert_path = strip ca_cert_path;
      timeout_ms = timeout_ms;
      retry_count = max_ℕ 0 retry_count;
      breaker_fails = max_ℕ 1 breaker_fails;
      breaker_reset_sec = max_ℕ 1 breaker_reset_sec;
    }

unfoldable pub can_attempt : ℕ → CircuitState → Bool
can_attempt now s = leb s.opened_until_ts now

-- `_record_failure`, for a clock that reads `now`
unfoldable pub record_failure : OmegaClient → ℕ → CircuitState → CircuitState
record_failure c now s =
    let failures = s.failure_count + 1 in
    record {
      failure_count = failures;
      opened_until_ts =
          if leb c.breaker_fails failures
          then now + c.breaker_reset_sec * ticks_per_sec
          else s.opened_until_ts;
    }

abbrev pub record_success : CircuitState → CircuitState
record_success s = closed

-- The value of httpx's `verify`.
pub data Verify : Type 0 where
  off default : Verify
  bundle : Text → Verify

unfoldable pub resolve_verify : OmegaClient → Verify
resolve_verify c =
    if not c.tls_verify
    then off
    else if truthy c.ca_cert_path
    then bundle c.ca_cert_path
    else default

unfoldable pub headers :
    Crypto → Unicode → OmegaClient → Text → List ℕ → Text → Text → ℕ → Text → List (Text × Text)
headers k u c path body tenant_id request_id now nonce =
    let ts = str_ℕ (now / ticks_per_sec) in
    let canonical = build_canonical_string u (record {
      method = codes "POST";
      path = path;
      body_sha256_hex = sha256_hex k body;
      tenant_id = tenant_id;
      request_id = request_id;
      timestamp = ts;
      nonce = nonce;
    }) in
    (codes "X-API-Key", c.api_key)
    ∷ (codes "Content-Type", codes "application/json")
    ∷ (if c.require_hmac
        then (codes "X-Timestamp", ts)
          ∷ (codes "X-Nonce", nonce)
          ∷ (codes "X-Signature", sign_canonical k canonical c.hmac_secret)
          ∷ []
        else [])
