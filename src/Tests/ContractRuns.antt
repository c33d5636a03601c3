-- ===== src/Tests/ContractRuns.antt =====
-- The contract's schemas on concrete documents.
use sgraph_omega_connector.Base.{All, ◌∷◌, true, false, [], some, none, ◌≡◌, refl, inr}
use sgraph_omega_connector.Text.{codes, text_eq}
use sgraph_omega_connector.Dict.{lookup}
use sgraph_omega_connector.Json.{Fields, field, text, object, fields}
use sgraph_omega_connector.Models.{
  ScanAttachmentRequest, model_validate, validate_fields, required_str, optional_str, dict_field,
  validate_input_payload,
}
use sgraph_omega_connector.App.{reply_of, serve_scan, scan_endpoint, dispatch, as_fields}
use sgraph_omega_connector.Contract.{conforms, request_schema}
use sgraph_omega_connector.Contract.Replies.{
  reply_schema, reply_json, is_attested, dispatch-conforms,
}
use sgraph_omega_connector.Contract.Requests.{HasContent, model_validate-conforms}
use sgraph_omega_connector.Contract.Clients.{clients-conforms}
use sgraph_omega_connector.SGraph.{scan_payload, example_payload}
use sgraph_omega_connector.Scripts.Smoke.{smoke_scenarios}
use sgraph_omega_connector.Scripts.Qualification.{scenario_block}
use sgraph_omega_connector.Scripts.Qualification.Run.{RoundDraw, with_id, round_payload}
use sgraph_omega_connector.Tests.Data.{toy, connector, state, environment, pydantic, body_fields}
use sgraph_omega_connector.Tests.AuthRuns.{request}
use sgraph_omega_connector.Tests.ScriptRuns.{pydantic-IsPydantic}

dispatched :
    dispatch toy connector environment request state
    ≡ some (serve_scan toy connector environment false request state)
unfolding dispatch scan_endpoint text_eq
dispatched = refl

dispatch-conforms_example :
    (conforms
      (reply_schema (reply_of (serve_scan toy connector environment false request state).0))
      (reply_json (reply_of (serve_scan toy connector environment false request state).0)))
    ≡ is_attested (reply_of (serve_scan toy connector environment false request state).0)
dispatch-conforms_example =
    dispatch-conforms toy connector environment request state
      (serve_scan toy connector environment false request state) dispatched

body_conforms : conforms request_schema (object body_fields) ≡ true
unfolding conforms lookup text_eq
body_conforms = refl

content : HasContent (fields body_fields)
unfolding lookup text_eq
content = (b'x', [], inr refl)

model_validate-conforms_example :
    (p : ScanAttachmentRequest) × (model_validate pydantic (object body_fields) ≡ some p)
model_validate-conforms_example =
    model_validate-conforms pydantic pydantic-IsPydantic body_fields body_conforms content

abbrev draw : RoundDraw
draw = record { scenario = scenario_block; drawn_id = []; nonce = codes "n"; now = 0 }

clients-conforms_example :
    (conforms request_schema
        (object (scan_payload (codes "t") [] (codes "f") (codes "m") (7 ∷ []) none))
      ≡ true)
    × (conforms request_schema
          (object (example_payload (codes "t") [] (codes "f") (codes "m") (7 ∷ [])))
        ≡ true)
    × All
        (λ scenario. conforms request_schema (object (as_fields scenario.payload)) ≡ true)
        smoke_scenarios
    × (conforms request_schema (object (as_fields (with_id draw (round_payload scenario_block 3))))
        ≡ true)
clients-conforms_example =
    clients-conforms (codes "t") [] (codes "f") (codes "m") (7 ∷ []) none draw scenario_block 3
      (λ h. cc)

-- Both contents at once: the schema refuses what the connector takes.
abbrev both : Fields
both = field (codes "file_base64") (text (codes "eA==")) body_fields

both_refused : conforms request_schema (object both) ≡ false
unfolding conforms lookup text_eq
both_refused = refl

both_taken : (p : ScanAttachmentRequest) × (model_validate pydantic (object both) ≡ some p)
unfolding model_validate validate_fields required_str optional_str dict_field validate_input_payload
    lookup text_eq
both_taken = (_, refl)
