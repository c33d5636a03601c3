-- ===== src/SGraph/Payload.antt =====
-- The payload of the hook, read by the connector.
use sgraph_omega_connector.Base.{ℕ, List, [], ◌∷◌, Option, some, none, ◌≡◌, ◌≢◌, refl, arith}
use sgraph_omega_connector.Text.{Text, codes, text_eq}
use sgraph_omega_connector.Codec.Base64.{urlsafe_b64encode}
use sgraph_omega_connector.Dict.{lookup}
use sgraph_omega_connector.Json.{Fields, text, object, fields}
use sgraph_omega_connector.Models.{
  Pydantic, model_validate, validate_fields, required_str, optional_str, dict_field,
  validate_input_payload,
}
use sgraph_omega_connector.Auth.Signature.{truthy_of_ne}
use sgraph_omega_connector.SGraph.{b64encode, metadata_or, scan_payload}

-- A field of type `str` takes a string as it is, and one of type `dict` an object.
pub record IsPydantic (p : Pydantic) : Type 0 where
  pub str : (s : Text) → p.as_str (text s) ≡ some s
  pub dict : (fs : Fields) → p.as_dict (object fs) ≡ some (fields fs)

b64encode-ne-nil : (bs : List ℕ) → bs ≢ [] → b64encode bs ≢ []
unfolding b64encode urlsafe_b64encode
b64encode-ne-nil [] n e = n refl
b64encode-ne-nil (a ∷ []) n e = cc
b64encode-ne-nil (a ∷ b ∷ []) n e = cc
b64encode-ne-nil (a ∷ b ∷ c ∷ r) n e = cc

-- The connector reads back what the hook was called with: the payload of a tenant and a file that
-- are not empty is valid, with the ids, the name and the type as given and the file in base64.
pub model_validate-scan_payload :
    (p : Pydantic) (tenant_id request_id filename mime : Text) (decrypted_bytes : List ℕ)
    (metadata : Option Fields)
    → IsPydantic p
    → tenant_id ≢ []
    → decrypted_bytes ≢ []
    → model_validate p
        (object (scan_payload tenant_id request_id filename mime decrypted_bytes metadata))
      ≡ some (record {
        tenant_id = tenant_id;
        request_id = some request_id;
        filename = some filename;
        mime = some mime;
        file_base64 = some (b64encode decrypted_bytes);
        extracted_text = none;
        metadata = fields (metadata_or metadata (codes "sgraph_trusted_decrypt_flow"));
      })
unfolding model_validate validate_fields required_str optional_str dict_field validate_input_payload
    lookup text_eq scan_payload
model_validate-scan_payload p tenant_id request_id filename mime decrypted_bytes metadata c n
      some_file =
    let file = b64encode decrypted_bytes in
    let there = truthy_of_ne file (b64encode-ne-nil decrypted_bytes some_file) in
    rw
      (
        c.str tenant_id,
        c.str request_id,
        c.str filename,
        c.str mime,
        c.str file,
        truthy_of_ne tenant_id n,
        c.dict (metadata_or metadata (codes "sgraph_trusted_decrypt_flow")),
        there,
      )
      refl

-- A file without a byte is refused by the validation, whatever else the hook was called with.
pub model_validate-empty_file :
    (p : Pydantic) (tenant_id request_id filename mime : Text) (metadata : Option Fields)
    → IsPydantic p
    → model_validate p (object (scan_payload tenant_id request_id filename mime [] metadata)) ≡ none
unfolding model_validate validate_fields required_str optional_str dict_field validate_input_payload
    lookup text_eq scan_payload b64encode urlsafe_b64encode
model_validate-empty_file p tenant_id request_id filename mime metadata c = ground (
  arith,
  c.str tenant_id,
  c.str request_id,
  c.str filename,
  c.str mime,
  c.str [],
  c.dict (metadata_or metadata (codes "sgraph_trusted_decrypt_flow")),
)
