-- ===== src/Tests/EnvironmentRuns.antt =====
-- The environments of a connector and of a hook that fit.
use Prim.Native.String.{String}
use sgraph_omega_connector.Base.{List, [], ◌∷◌, Option}
use sgraph_omega_connector.Base.Int.{pos, ℤ}
use sgraph_omega_connector.Text.{Text, codes}
use sgraph_omega_connector.Dict.{lookup}
use sgraph_omega_connector.Config.{Settings}
use sgraph_omega_connector.SGraph.{ConnectorClientConfig}
use sgraph_omega_connector.Tests.ConfigRuns.{defaults}

abbrev variables : List (Text × Text) → String → Option Text
variables m name = lookup (codes name) m

abbrev of_connector : String → Option Text
of_connector =
    variables (
      (codes "CONNECTOR_API_KEYS", codes "k0, k1")
      ∷ (codes "CONNECTOR_HMAC_SECRET", codes "s")
      ∷ [])

abbrev of_client : String → Option Text
of_client = variables (
    (codes "SGRAPH_CONNECTOR_BASE_URL", codes "c")
    ∷ (codes "SGRAPH_CONNECTOR_API_KEY", codes "k1")
    ∷ (codes "SGRAPH_CONNECTOR_HMAC_SECRET", codes "s")
    ∷ (codes "SGRAPH_CONNECTOR_TIMEOUT_SEC", codes "9")
    ∷ [])

abbrev settings : Settings
settings = record defaults {
  connector_api_keys = codes "k0" ∷ codes "k1" ∷ [];
  connector_hmac_secret = codes "s";
}

abbrev loaded : ConnectorClientConfig × ℤ
loaded = (
  record {
    base_url = codes "c";
    api_key = codes "k1";
    hmac_secret = codes "s";
    path_scan_attachment = codes "/v1/scan/attachment";
  },
  pos 9,
)
