-- ===== src/Config/Startup.antt =====
-- `ConnectorRuntime.__init__` of connector/app.py, and what the settings guarantee at start.
use Prim.Native.String.{String}
use mathlib.Core.Path.{subst}
use sgraph_omega_connector.Base.{
  true, List, [], ◌∷◌, Option, bind-eq-ok, ok_injective, ok, ◌≡◌, inl, inr, Bool-cases, All,
}
use sgraph_omega_connector.Base.Int.{ℤ, pos}
use sgraph_omega_connector.Text.{Text, Unicode, strip, strip_idem, truthy}
use sgraph_omega_connector.Dict.{Distinct}
use sgraph_omega_connector.OmegaClient.{new_client, closed}
use sgraph_omega_connector.OmegaClient.Breaker.{
  IsClient, IsBreaker, new_client-IsClient, closed-IsBreaker,
}
use sgraph_omega_connector.App.{is_verdict, ConnectorRuntime, State}
use sgraph_omega_connector.App.Verdicts.{known_verdict-is_verdict}
use sgraph_omega_connector.Config.{Settings, strip_all, as_int, settings_of, load_settings}

unfoldable pub new_runtime : Settings → ConnectorRuntime
new_runtime c = record {
  fail_mode = c.connector_fail_mode;
  debug_document_scan = c.connector_debug_document_scan;
  audit_redaction = c.audit_redaction;
  auth = record {
    api_keys = c.connector_api_keys;
    require_hmac = c.connector_require_hmac;
    hmac_secret = c.connector_hmac_secret;
    max_clock_skew_sec = c.max_clock_skew_sec;
  };
  omega =
      new_client c.omega_base_url c.omega_api_key c.omega_require_hmac c.omega_hmac_secret
        c.omega_tls_verify c.omega_ca_cert_path c.omega_timeout_ms c.omega_retry_count
        c.omega_circuit_breaker_fails c.omega_circuit_breaker_reset_sec;
}

-- The objects that keep state, as the runtime is made.
unfoldable pub new_state : Settings → State
new_state c = record {
  replay_cache = record { ttl_sec = c.nonce_ttl_sec; max_entries = 100000; entries = [] };
  circuit = closed;
  audit = [];
}

-- A configured key is stripped, and not empty.
abbrev pub IsKey : Text → Type 0
IsKey s = (strip s ≡ s) × (truthy s ≡ true)

strip_all-IsKey : (items : List Text) → All IsKey (strip_all items)
unfolding strip_all
strip_all-IsKey [] = tt
strip_all-IsKey (s ∷ r) = elim (Bool-cases (truthy (strip s))) [
  | inl kept ↦ rw kept ((strip_idem s, kept), strip_all-IsKey r)
  | inr blank ↦ rw blank (strip_all-IsKey r)
]

-- Settings that load have a verdict for the fail mode, and API keys that are stripped and not empty.
pub record IsSettings (c : Settings) : Type 0 where
  pub fail_mode : is_verdict c.connector_fail_mode ≡ true
  pub api_keys : All IsKey c.connector_api_keys

-- Settings that load are those of the environment, with some integers.
pub load_settings_elim :
    (u : Unicode) (getenv : String → Option Text) (P : Settings → Type 0)
    → ((port ttl skew timeout retries fails reset : ℤ)
        → P (settings_of u getenv port ttl skew timeout retries fails reset))
    → (c : Settings) → load_settings u getenv ≡ ok c
    → P c
unfolding load_settings
load_settings_elim u getenv P p c h =
    bind-eq-ok (as_int u (getenv "CONNECTOR_PORT") (pos 18080)) _ c h (λ port h.
      bind-eq-ok (as_int u (getenv "NONCE_TTL_SEC") (pos 600)) _ c h (λ ttl h.
        bind-eq-ok (as_int u (getenv "MAX_CLOCK_SKEW_SEC") (pos 300)) _ c h (λ skew h.
          bind-eq-ok (as_int u (getenv "OMEGA_TIMEOUT_MS") (pos 15000)) _ c h (λ timeout h.
            bind-eq-ok (as_int u (getenv "OMEGA_RETRY_COUNT") (pos 2)) _ c h (λ retries h.
              bind-eq-ok (as_int u (getenv "OMEGA_CIRCUIT_BREAKER_FAILS") (pos 5)) _ c h (λ fails h.
                bind-eq-ok (as_int u (getenv "OMEGA_CIRCUIT_BREAKER_RESET_SEC") (pos 30)) _ c h
                  (λ reset h.
                    subst P (ok_injective _ c h)
                      (p port ttl skew timeout retries fails reset))))))))

-- Whatever the environment holds, settings that load have one of the three verdicts as fail mode, and
-- API keys that are stripped and not empty.
pub load_settings-IsSettings :
    (u : Unicode) (getenv : String → Option Text) (c : Settings)
    → load_settings u getenv ≡ ok c
    → IsSettings c
load_settings-IsSettings u getenv c h =
    load_settings_elim u getenv IsSettings
      (λ port ttl skew timeout retries fails reset. record {
        fail_mode = known_verdict-is_verdict _;
        api_keys = strip_all-IsKey _;
      })
      c h

-- Whatever the settings, the runtime starts with a client whose breaker limits are at least 1, a
-- circuit that has the breaker's invariant and a replay cache without a double key.
pub new_state_lem :
    (c : Settings)
    → IsClient (new_runtime c).omega
      × IsBreaker (new_runtime c).omega (new_state c).circuit
      × Distinct (new_state c).replay_cache.entries
unfolding new_runtime new_state
new_state_lem c =
    let v =
      new_client-IsClient c.omega_base_url c.omega_api_key c.omega_require_hmac c.omega_hmac_secret
        c.omega_tls_verify c.omega_ca_cert_path c.omega_timeout_ms c.omega_retry_count
        c.omega_circuit_breaker_fails c.omega_circuit_breaker_reset_sec in
    (v, closed-IsBreaker _ v, tt)
