-- ===== src/SGraph/Settings.antt =====
-- upstream_patches/sgraph/connector_hook.py and example_hook.py: the client's settings, from the
-- environment of the process.
use mathlib.Core.Path.{subst}
use Prim.Native.String.{String}
use sgraph_omega_connector.Base.{
  Option, some, none, Result, ok, raise, ◌>>=◌, bind-eq-ok_parts, Option-cases, inl, inr,
  ok_injective, ◌≡◌, refl, arith,
}
use sgraph_omega_connector.Base.Int.{ℤ}
use sgraph_omega_connector.Text.{Text, Unicode, codes, int_of}
use sgraph_omega_connector.Errors.{Exception, unexpected}
use sgraph_omega_connector.SGraph.{ConnectorClientConfig}

-- `os.environ[name]`
unfoldable pub environ : (String → Option Text) → String → Result Exception Text
environ getenv name = elim (getenv name) [ none ↦ raise (unexpected "KeyError") | some s ↦ ok s ]

abbrev timeout_text : Option Text → Text
timeout_text none = codes "30"
timeout_text (some s) = s

-- `int(os.getenv(name, "30"))`
unfoldable pub timeout_sec : Unicode → Option Text → Result Exception ℤ
timeout_sec u value = elim (int_of u (timeout_text value)) [
  | none ↦ raise (unexpected "ValueError")
  | some z ↦ ok z
]

-- The configuration, with the default path of `ConnectorClientConfig`, and the timeout.
unfoldable pub load_config :
    Unicode → (String → Option Text) → Result Exception (ConnectorClientConfig × ℤ)
load_config u getenv = do
  base_url ← environ getenv "SGRAPH_CONNECTOR_BASE_URL"
  api_key ← environ getenv "SGRAPH_CONNECTOR_API_KEY"
  hmac_secret ← environ getenv "SGRAPH_CONNECTOR_HMAC_SECRET"
  timeout ← timeout_sec u (getenv "SGRAPH_CONNECTOR_TIMEOUT_SEC")
  ok (
    record {
      base_url = base_url;
      api_key = api_key;
      hmac_secret = hmac_secret;
      path_scan_attachment = codes "/v1/scan/attachment";
    },
    timeout,
  )

environ-eq-ok :
    (getenv : String → Option Text) (name : String) (s : Text)
    → environ getenv name ≡ ok s
    → getenv name ≡ some s
unfolding environ
environ-eq-ok getenv name s h = elim (Option-cases (getenv name)) [
  | inl missing ↦ absurd (ground arith)
  | inr (s', found) ↦ ground arith
]

-- A configuration that loads has the key and the secret of the environment, and the path of the
-- connector's endpoint.
pub record IsLoaded (getenv : String → Option Text) (config : ConnectorClientConfig) : Type 0 where
  pub api_key : getenv "SGRAPH_CONNECTOR_API_KEY" ≡ some config.api_key
  pub hmac_secret : getenv "SGRAPH_CONNECTOR_HMAC_SECRET" ≡ some config.hmac_secret
  pub path : config.path_scan_attachment ≡ codes "/v1/scan/attachment"

pub load_config-IsLoaded :
    (u : Unicode) (getenv : String → Option Text) (loaded : ConnectorClientConfig × ℤ)
    → load_config u getenv ≡ ok loaded
    → IsLoaded getenv loaded.0
unfolding load_config
load_config-IsLoaded u getenv loaded h =
    let (base_url, _, h₁) =
      bind-eq-ok_parts (environ getenv "SGRAPH_CONNECTOR_BASE_URL") _ loaded h in
    let (api_key, key, h₂) =
      bind-eq-ok_parts (environ getenv "SGRAPH_CONNECTOR_API_KEY") _ loaded h₁ in
    let (hmac_secret, secret, h₃) =
      bind-eq-ok_parts (environ getenv "SGRAPH_CONNECTOR_HMAC_SECRET") _ loaded h₂ in
    let (timeout, _, h₄) =
      bind-eq-ok_parts (timeout_sec u (getenv "SGRAPH_CONNECTOR_TIMEOUT_SEC")) _ loaded h₃ in
    subst (λ x. IsLoaded getenv x.0) (ok_injective _ loaded h₄)
      (record {
        api_key = environ-eq-ok getenv "SGRAPH_CONNECTOR_API_KEY" api_key key;
        hmac_secret = environ-eq-ok getenv "SGRAPH_CONNECTOR_HMAC_SECRET" hmac_secret secret;
        path = refl;
      })
