-- ===== src/Tests/ConfigRuns.antt =====
-- The settings of an empty environment.
use sgraph_omega_connector.Base.{true, false, [], none, ok, ◌≡◌, refl}
use sgraph_omega_connector.Base.Int.{pos}
use sgraph_omega_connector.Text.{
  codes, split, strip, lower, lstrip_by, rstrip_by, is_space, ascii_lower, text_eq,
}
use sgraph_omega_connector.App.{is_verdict, quarantine}
use sgraph_omega_connector.Config.{Settings, strip_all, as_bool, as_int, load_settings}
use sgraph_omega_connector.Config.Startup.{IsSettings, load_settings-IsSettings}
use sgraph_omega_connector.Tests.Data.{unicode}

abbrev pub defaults : Settings
defaults = record {
  connector_host = codes "0.0.0.0";
  connector_port = pos 18080;
  connector_api_keys = [];
  connector_require_hmac = true;
  connector_hmac_secret = [];
  connector_fail_mode = quarantine;
  connector_debug_document_scan = false;
  log_level = codes "INFO";
  audit_redaction = true;
  nonce_ttl_sec = pos 600;
  max_clock_skew_sec = pos 300;
  omega_base_url = codes "http://omega-api:8080";
  omega_api_key = [];
  omega_require_hmac = true;
  omega_hmac_secret = [];
  omega_tls_verify = true;
  omega_ca_cert_path = [];
  omega_timeout_ms = pos 15000;
  omega_retry_count = pos 2;
  omega_circuit_breaker_fails = pos 5;
  omega_circuit_breaker_reset_sec = pos 30;
}

load_defaults : load_settings unicode (λ name. none) ≡ ok defaults
unfolding load_settings as_int as_bool strip_all split strip lower lstrip_by rstrip_by is_space
    ascii_lower is_verdict text_eq
load_defaults = refl

load_settings-IsSettings_example : IsSettings defaults
load_settings-IsSettings_example =
    load_settings-IsSettings unicode (λ name. none) defaults load_defaults
