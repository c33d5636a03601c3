-- ===== src/Contract/Clients.antt =====
-- The payloads that the repository's own clients send, against the schema for requests.
use sgraph_omega_connector.Base.{
  ℕ, true, List, [], ◌∷◌, Option, leb, length, All, ◌≡◌, ◌≢◌, refl, arith,
}
use sgraph_omega_connector.Text.{Text, codes, text_eq}
use sgraph_omega_connector.Dict.{lookup, set}
use sgraph_omega_connector.Json.{text, object, is_truthy, Fields, field, end}
use sgraph_omega_connector.App.{as_fields}
use sgraph_omega_connector.SGraph.{b64encode, scan_payload, example_payload}
use sgraph_omega_connector.Contract.{conforms, request_schema}
use sgraph_omega_connector.Contract.Replies.{leb-zero}
use sgraph_omega_connector.Scripts.Smoke.{repeat_char, smoke_scenarios}
use sgraph_omega_connector.Scripts.Qualification.{
  Scenario, scenario_allow, scenario_quarantine, scenario_block,
}
use sgraph_omega_connector.Scripts.Qualification.Run.{
  RoundDraw, request_id_or, scenario_payload, round_payload, round_id, with_id,
}

leb-one : (s : Text) → s ≢ [] → leb 1 (length s) ≡ true
leb-one [] n = absurd (n refl)
leb-one (c ∷ s) n = ground arith

-- A payload with a file.
file_payload-conforms :
    (tenant_id request_id filename mime file_base64 : Text) (metadata : Fields)
    → tenant_id ≢ []
    → conforms request_schema (
        object (
          field (codes "tenant_id") (text tenant_id) (
            field (codes "request_id") (text request_id) (
              field (codes "filename") (text filename) (
                field (codes "mime") (text mime) (
                  field
                    (codes "file_base64")
                    (text file_base64)
                    (field (codes "metadata") (object metadata) end)))))))
      ≡ true
unfolding conforms lookup text_eq
file_payload-conforms tenant_id request_id filename mime file_base64 metadata n =
    rw
      (
        leb-one tenant_id n,
        leb-zero (length request_id),
        leb-zero (length filename),
        leb-zero (length mime),
        leb-zero (length file_base64),
      )
      refl

-- A payload with a text.
text_payload-conforms :
    (tenant_id request_id filename mime extracted_text : Text) (metadata : Fields)
    → tenant_id ≢ []
    → conforms request_schema (
        object (
          field (codes "tenant_id") (text tenant_id) (
            field (codes "request_id") (text request_id) (
              field (codes "filename") (text filename) (
                field (codes "mime") (text mime) (
                  field
                    (codes "extracted_text")
                    (text extracted_text)
                    (field (codes "metadata") (object metadata) end)))))))
      ≡ true
unfolding conforms lookup text_eq
text_payload-conforms tenant_id request_id filename mime extracted_text metadata n =
    rw
      (
        leb-one tenant_id n,
        leb-zero (length request_id),
        leb-zero (length filename),
        leb-zero (length mime),
        leb-zero (length extracted_text),
      )
      refl

smoke_scenarios-conforms :
    All (λ sc. conforms request_schema (object (as_fields sc.payload)) ≡ true) smoke_scenarios
unfolding smoke_scenarios
smoke_scenarios-conforms =
    let n : codes "tenant-smoke" ≢ [] = λ h. cc in
    (
      text_payload-conforms (codes "tenant-smoke") _ _ _ _ _ n,
      (
        text_payload-conforms (codes "tenant-smoke") _ _ _ _ _ n,
        (text_payload-conforms (codes "tenant-smoke") _ _ _ _ _ n, tt),
      ),
    )

round-conforms :
    (d : RoundDraw) (sc : Scenario) (idx : ℕ)
    → conforms request_schema (object (as_fields (with_id d (round_payload sc idx)))) ≡ true
unfolding conforms lookup text_eq set scenario_payload with_id request_id_or is_truthy
round-conforms d scenario_allow idx = rw (leb-zero (length (round_id scenario_allow idx))) refl
round-conforms d scenario_quarantine idx =
    rw
      (
        leb-zero (length (round_id scenario_quarantine idx)),
        leb-zero (length (repeat_char b'A' 210000)),
      )
      refl
round-conforms d scenario_block idx = rw (leb-zero (length (round_id scenario_block idx))) refl

module _ (tenant_id request_id filename mime : Text) (decrypted_bytes : List ℕ)
    (metadata : Option Fields) (d : RoundDraw) (sc : Scenario) (idx : ℕ) where
  -- What the repository's own clients send is of the contract's schema for requests: the payloads of
  -- the hook and of the example hook for a tenant that is not empty, those of the smoke test, and those
  -- of each round of the qualification report.
  pub clients-conforms :
      tenant_id ≢ []
      → (conforms request_schema
            (object (scan_payload tenant_id request_id filename mime decrypted_bytes metadata))
          ≡ true)
        × (conforms request_schema
              (object (example_payload tenant_id request_id filename mime decrypted_bytes))
            ≡ true)
        × All
            (λ scenario. conforms request_schema (object (as_fields scenario.payload)) ≡ true)
            smoke_scenarios
        × (conforms request_schema (object (as_fields (with_id d (round_payload sc idx)))) ≡ true)
  unfolding scan_payload example_payload
  clients-conforms n = (
    file_payload-conforms tenant_id request_id filename mime (b64encode decrypted_bytes) _ n,
    file_payload-conforms tenant_id request_id filename mime (b64encode decrypted_bytes) _ n,
    smoke_scenarios-conforms,
    round-conforms d sc idx,
  )
