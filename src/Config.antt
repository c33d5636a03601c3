-- ===== src/Config.antt =====
-- connector/config.py: the settings that are read from the environment.
pub mod Startup
use Prim.Native.String.{String}
use sgraph_omega_connector.Base.{
  ℕ, Bool, true, false, List, [], ◌∷◌, Option, some, none, Result, ok, raise, ◌>>=◌, any,
  if◌then◌else◌, map,
}
use sgraph_omega_connector.Base.Int.{ℤ, pos}
use sgraph_omega_connector.Text.{Text, Unicode, codes, text_eq, strip, lower, truthy, split, int_of}
use sgraph_omega_connector.Errors.{Exception, unexpected}
use sgraph_omega_connector.App.{known_verdict, quarantine}

pub record Settings : Type 0 where
  pub connector_host : Text
  pub connector_port : ℤ
  pub connector_api_keys : List Text
  pub connector_require_hmac : Bool
  pub connector_hmac_secret : Text
  pub connector_fail_mode : Text
  pub connector_debug_document_scan : Bool
  pub log_level : Text
  pub audit_redaction : Bool
  pub nonce_ttl_sec : ℤ
  pub max_clock_skew_sec : ℤ
  pub omega_base_url : Text
  pub omega_api_key : Text
  pub omega_require_hmac : Bool
  pub omega_hmac_secret : Text
  pub omega_tls_verify : Bool
  pub omega_ca_cert_path : Text
  pub omega_timeout_ms : ℤ
  pub omega_retry_count : ℤ
  pub omega_circuit_breaker_fails : ℤ
  pub omega_circuit_breaker_reset_sec : ℤ

-- `os.getenv(name, default)`
abbrev pub get_or : Option Text → Text → Text
get_or none default = default
get_or (some s) default = s

-- `[item.strip() for item in items if item.strip()]`
unfoldable pub strip_all : List Text → List Text
strip_all [] = []
strip_all (s ∷ r) = let rest = strip_all r in if truthy (strip s) then strip s ∷ rest else rest

module _ (u : Unicode) where
  unfoldable pub as_bool : Option Text → Bool → Bool
  as_bool none default = default
  as_bool (some s) default =
      any (text_eq (lower u (strip s))) (codes "1" ∷ codes "true" ∷ codes "yes" ∷ codes "on" ∷ [])

  unfoldable pub as_int : Option Text → ℤ → Result Exception ℤ
  as_int none default = ok default
  as_int (some s) default =
      if truthy (strip s)
      then (elim (int_of u s) [ none ↦ raise (unexpected "ValueError") | some z ↦ ok z ])
      else ok default

  -- The settings, from the environment and the seven integers that are read from it.
  abbrev pub settings_of :
      (String → Option Text) → (port ttl skew timeout retries fails reset : ℤ) → Settings
  settings_of getenv port ttl skew timeout retries fails reset = record {
    connector_host = get_or (getenv "CONNECTOR_HOST") (codes "0.0.0.0");
    connector_port = port;
    connector_api_keys = strip_all (split b',' (get_or (getenv "CONNECTOR_API_KEYS") []));
    connector_require_hmac = as_bool (getenv "CONNECTOR_REQUIRE_HMAC") true;
    connector_hmac_secret = get_or (getenv "CONNECTOR_HMAC_SECRET") [];
    connector_fail_mode =
        known_verdict (lower u (strip (get_or (getenv "CONNECTOR_FAIL_MODE") quarantine)));
    connector_debug_document_scan = as_bool (getenv "CONNECTOR_DEBUG_DOCUMENT_SCAN") false;
    log_level = get_or (getenv "LOG_LEVEL") (codes "INFO");
    audit_redaction = as_bool (getenv "AUDIT_REDACTION") true;
    nonce_ttl_sec = ttl;
    max_clock_skew_sec = skew;
    omega_base_url = get_or (getenv "OMEGA_BASE_URL") (codes "http://omega-api:8080");
    omega_api_key = get_or (getenv "OMEGA_API_KEY") [];
    omega_require_hmac = as_bool (getenv "OMEGA_REQUIRE_HMAC") true;
    omega_hmac_secret = get_or (getenv "OMEGA_HMAC_SECRET") [];
    omega_tls_verify = as_bool (getenv "OMEGA_TLS_VERIFY") true;
    omega_ca_cert_path = strip (get_or (getenv "OMEGA_CA_CERT_PATH") []);
    omega_timeout_ms = timeout;
    omega_retry_count = retries;
    omega_circuit_breaker_fails = fails;
    omega_circuit_breaker_reset_sec = reset;
  }

  unfoldable pub load_settings : (String → Option Text) → Result Exception Settings
  load_settings getenv = do
    port ← as_int (getenv "CONNECTOR_PORT") (pos 18080)
    ttl ← as_int (getenv "NONCE_TTL_SEC") (pos 600)
    skew ← as_int (getenv "MAX_CLOCK_SKEW_SEC") (pos 300)
    timeout ← as_int (getenv "OMEGA_TIMEOUT_MS") (pos 15000)
    retries ← as_int (getenv "OMEGA_RETRY_COUNT") (pos 2)
    fails ← as_int (getenv "OMEGA_CIRCUIT_BREAKER_FAILS") (pos 5)
    reset ← as_int (getenv "OMEGA_CIRCUIT_BREAKER_RESET_SEC") (pos 30)
    ok (settings_of getenv port ttl skew timeout retries fails reset)
