-- ===== src/Tests/SGraphRuns.antt =====
-- Runs of the SGraph client and of its hook.
use sgraph_omega_connector.Base.{false, [], ◌∷◌, ok, All, ◌≡◌, refl, arith}
use sgraph_omega_connector.Text.{Text, codes, text_eq, str_ℕ, is_space, is_space}
use sgraph_omega_connector.Dict.{lookup}
use sgraph_omega_connector.Json.{Json, fields, is_truthy, str_json}
use sgraph_omega_connector.Auth.{verify_signature}
use sgraph_omega_connector.App.{text_or}
use sgraph_omega_connector.SGraph.{ConnectorClientConfig, sign_headers}
use sgraph_omega_connector.SGraph.Signed.{delivered, sign_headers-verify_signature}
use sgraph_omega_connector.Tests.Data.{
  unicode, toy, toy-IsCrypto, server, payload, body_fields, now, later,
}

abbrev pub config : ConnectorClientConfig
config = record {
  base_url = codes "c";
  api_key = codes "k1";
  hmac_secret = codes "s";
  path_scan_attachment = codes "/v1/scan/attachment";
}

abbrev repr : Json → Text
repr j = []

pub n-NoSpace : All (λ c. is_space c ≡ false) (codes "n")
unfolding is_space
n-NoSpace = (refl, tt)

sign_headers-verify_signature_example :
    verify_signature toy unicode server later
      (delivered config
        (sign_headers toy unicode repr config now (codes "n") (fields body_fields) (1 ∷ []))
        (1 ∷ []))
      payload
    ≡ ok (codes "n")
unfolding text_or lookup text_eq is_truthy str_json str_ℕ
sign_headers-verify_signature_example =
    sign_headers-verify_signature toy unicode repr toy-IsCrypto config server now later (codes "n")
      (fields body_fields) (1 ∷ []) payload refl (λ h. cc) n-NoSpace (λ h. cc) refl refl
      (ground arith) (ground arith)
