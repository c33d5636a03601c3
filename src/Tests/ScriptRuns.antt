-- ===== src/Tests/ScriptRuns.antt =====
-- The hook's payload, read by the connector.
use sgraph_omega_connector.Base.{[], ◌∷◌, some, none, ◌≡◌, refl}
use sgraph_omega_connector.Text.{codes}
use sgraph_omega_connector.Json.{fields, object}
use sgraph_omega_connector.Models.{model_validate}
use sgraph_omega_connector.SGraph.{b64encode, metadata_or, scan_payload}
use sgraph_omega_connector.SGraph.Payload.{IsPydantic, model_validate-scan_payload}
use sgraph_omega_connector.Tests.Data.{pydantic}

pub pydantic-IsPydantic : IsPydantic pydantic
pydantic-IsPydantic = record { str = λ s. refl; dict = λ fs. refl }

model_validate-scan_payload_example :
    model_validate pydantic
      (object (scan_payload (codes "t") [] (codes "f") (codes "m") (7 ∷ []) none))
    ≡ some (record {
      tenant_id = codes "t";
      request_id = some [];
      filename = some (codes "f");
      mime = some (codes "m");
      file_base64 = some (b64encode (7 ∷ []));
      extracted_text = none;
      metadata = fields (metadata_or none (codes "sgraph_trusted_decrypt_flow"));
    })
model_validate-scan_payload_example =
    model_validate-scan_payload pydantic (codes "t") [] (codes "f") (codes "m") (7 ∷ []) none
      pydantic-IsPydantic (λ h. cc) (λ h. cc)
