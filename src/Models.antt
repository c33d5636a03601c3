-- ===== src/Models.antt =====
-- connector/models.py: the request and the response, with the checks that the classes declare.
use sgraph_omega_connector.Base.{
  Bool, ◌&&◌, ◌||◌, List, [], ◌∷◌, Option, some, none, Result, ok, raise, all, any, if◌then◌else◌,
}
use sgraph_omega_connector.Base.Int.{ℤ, pos, leb_ℤ}
use sgraph_omega_connector.Text.{Text, codes, text_eq, truthy}
use sgraph_omega_connector.Dict.{lookup}
use sgraph_omega_connector.Json.{Json, null, object, fields}
use sgraph_omega_connector.Errors.{Exception, unexpected}

pub record ScanAttachmentRequest : Type 0 where
  pub tenant_id : Text
  pub request_id : Option Text
  pub filename : Option Text
  pub mime : Option Text
  pub file_base64 : Option Text
  pub extracted_text : Option Text
  pub metadata : List (Text × Json)

pub record ScanAttachmentResponse : Type 0 where
  pub request_id : Text
  pub tenant_id : Text
  pub risk_score : ℤ
  pub verdict : Text
  pub reasons : List Text
  pub evidence_id : Text
  pub policy_trace : List (Text × Json)
  pub attestation : Option (List (Text × Json))

-- What the classes take from pydantic: how a field of type `str` or `dict` reads a value (`none` is a
-- validation error), and the report of the errors.
pub record Pydantic : Type 0 where
  pub as_str : Json → Option Text
  pub as_dict : Json → Option (List (Text × Json))
  pub errors : Json → Json

-- `s or ""`, and whether an optional text is there and not empty
abbrev pub or_empty : Option Text → Text
or_empty none = []
or_empty (some s) = s

abbrev pub given : Option Text → Bool
given o = truthy (or_empty o)

abbrev pub field_names : List Text
field_names =
    codes "tenant_id"
    ∷ codes "request_id"
    ∷ codes "filename"
    ∷ codes "mime"
    ∷ codes "file_base64"
    ∷ codes "extracted_text"
    ∷ codes "metadata"
    ∷ []

infixl 5 ◌>>=?◌
abbrev ◌>>=?◌ {ℓ κ} : {A : Type ℓ} {B : Type κ} → Option A → (A → Option B) → Option B
none >>=? f = none
some a >>=? f = f a

module _ (p : Pydantic) where
  -- `tenant_id: str = Field(min_length=1)`
  unfoldable pub required_str : Option Json → Option Text
  required_str none = none
  required_str (some j) = p.as_str j >>=? λ s. if truthy s then some s else none

  -- `Optional[str] = None`
  unfoldable pub optional_str : Option Json → Option (Option Text)
  optional_str none = some none
  optional_str (some null) = some none
  optional_str (some j) = p.as_str j >>=? λ s. some (some s)

  -- `dict[str, Any] = Field(default_factory=dict)`
  unfoldable pub dict_field : Option Json → Option (List (Text × Json))
  dict_field none = some []
  dict_field (some j) = p.as_dict j

  -- The validator that runs after the fields.
  unfoldable pub validate_input_payload : ScanAttachmentRequest → Option ScanAttachmentRequest
  validate_input_payload r = if given r.file_base64 || given r.extracted_text then some r else none

  unfoldable pub validate_fields : List (Text × Json) → Option ScanAttachmentRequest
  unfolding required_str optional_str dict_field validate_input_payload
  validate_fields m =
      if all (λ e. any (text_eq e.0) field_names) m
      then (required_str (lookup (codes "tenant_id") m) >>=? λ tenant_id.
          optional_str (lookup (codes "request_id") m) >>=? λ request_id.
          optional_str (lookup (codes "filename") m) >>=? λ filename.
          optional_str (lookup (codes "mime") m) >>=? λ mime.
          optional_str (lookup (codes "file_base64") m) >>=? λ file_base64.
          optional_str (lookup (codes "extracted_text") m) >>=? λ extracted_text.
          dict_field (lookup (codes "metadata") m) >>=? λ metadata. validate_input_payload (record {
            tenant_id = tenant_id;
            request_id = request_id;
            filename = filename;
            mime = mime;
            file_base64 = file_base64;
            extracted_text = extracted_text;
            metadata = metadata;
          }))
      else none

  -- `ScanAttachmentRequest.model_validate`; `none` is ValidationError.
  unfoldable pub model_validate : Json → Option ScanAttachmentRequest
  unfolding validate_fields
  model_validate (object fs) = validate_fields (fields fs)
  model_validate _ = none

-- `ScanAttachmentResponse(...)`: `risk_score` is checked to lie in 0..100.
unfoldable pub new_response : ScanAttachmentResponse → Result Exception ScanAttachmentResponse
new_response r =
    if leb_ℤ (pos 0) r.risk_score && leb_ℤ r.risk_score (pos 100)
    then ok r
    else raise (unexpected "ValidationError")
