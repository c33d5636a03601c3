-- ===== src/Contract/Requests.antt =====
-- The documents that a client may send by the contract, and those that the connector takes.
use sgraph_omega_connector.Base.{
  ℕ, Bool, true, false, ◌&&◌, ◌||◌, List, [], ◌∷◌, Option, some, none, all, any, ◌≡◌, ◌≢◌, ◌⊎◌,
  refl, sym, ap, ◌∙◌, inl, inr, some_injective, arith,
}
use sgraph_omega_connector.Text.{Text, codes, text_eq}
use sgraph_omega_connector.Dict.{lookup}
use sgraph_omega_connector.Json.{
  Json, null, boolean, integer, float, text, array, Fields, object, fields,
}
use sgraph_omega_connector.Models.{
  ScanAttachmentRequest, Pydantic, field_names, given, required_str, optional_str, dict_field,
  validate_fields, validate_input_payload, model_validate,
}
use sgraph_omega_connector.SGraph.Payload.{IsPydantic}
use sgraph_omega_connector.Contract.{Schema, str, a_string, any_object, conforms, request_schema}

-- The value of a property, if it is there, is of the schema.
abbrev property_conforms : Schema → Option Json → Bool
property_conforms s none = true
property_conforms s (some j) = conforms s j

-- One of the two contents is a text that is not empty.
abbrev pub HasContent : List (Text × Json) → Type 0
HasContent m =
    (x : ℕ) × (s : Text) × ((lookup (codes "file_base64") m ≡ some (text (x ∷ s)))
      ⊎ (lookup (codes "extracted_text") m ≡ some (text (x ∷ s))))

and_true : (a b : Bool) → a && b ≡ true → (a ≡ true) × (b ≡ true)
and_true true b h = (refl, h)
and_true false b h = absurd (ground (arith, h))

or_true : (b : Bool) → b || true ≡ true
or_true true = refl
or_true false = refl

module _ (p : Pydantic) (c : IsPydantic p) where
  optional_str-conforms :
      (o : Option Json)
      → property_conforms str o ≡ true
      → (v : Option Text) × (optional_str p o ≡ some v)
  unfolding conforms optional_str
  optional_str-conforms none h = (none, refl)
  optional_str-conforms (some null) h = (none, refl)
  optional_str-conforms (some (text s)) h = (some s, rw (c.str s) refl)
  optional_str-conforms (some (boolean b)) h = absurd (ground (arith, h))
  optional_str-conforms (some (integer z)) h = absurd (ground (arith, h))
  optional_str-conforms (some (float f)) h = absurd (ground (arith, h))
  optional_str-conforms (some (array js)) h = absurd (ground (arith, h))
  optional_str-conforms (some (object fs)) h = absurd (ground (arith, h))

  optional_str-text : (s : Text) → optional_str p (some (text s)) ≡ some (some s)
  unfolding optional_str
  optional_str-text s = rw (c.str s) refl

  dict_field-conforms :
      (o : Option Json)
      → property_conforms any_object o ≡ true
      → (m : List (Text × Json)) × (dict_field p o ≡ some m)
  unfolding conforms dict_field
  dict_field-conforms none h = ([], refl)
  dict_field-conforms (some (object fs)) h = (fields fs, c.dict fs)
  dict_field-conforms (some null) h = absurd (ground (arith, h))
  dict_field-conforms (some (text s)) h = absurd (ground (arith, h))
  dict_field-conforms (some (boolean b)) h = absurd (ground (arith, h))
  dict_field-conforms (some (integer z)) h = absurd (ground (arith, h))
  dict_field-conforms (some (float f)) h = absurd (ground (arith, h))
  dict_field-conforms (some (array js)) h = absurd (ground (arith, h))

  required_str-conforms :
      (o : Option Json)
      → o ≢ none
      → property_conforms (a_string 1) o ≡ true
      → (s : Text) × (required_str p o ≡ some s)
  unfolding conforms required_str
  required_str-conforms none n h = absurd (n refl)
  required_str-conforms (some (text [])) n h = absurd (ground (arith, h))
  required_str-conforms (some (text (x ∷ s))) n h = (x ∷ s, rw (c.str (x ∷ s)) refl)
  required_str-conforms (some null) n h = absurd (ground (arith, h))
  required_str-conforms (some (boolean b)) n h = absurd (ground (arith, h))
  required_str-conforms (some (integer z)) n h = absurd (ground (arith, h))
  required_str-conforms (some (float f)) n h = absurd (ground (arith, h))
  required_str-conforms (some (array js)) n h = absurd (ground (arith, h))
  required_str-conforms (some (object fs)) n h = absurd (ground (arith, h))

  -- A chain of fields that are all read is a payload, where one of the contents is not empty.
  validate_fields_lem :
      (m : List (Text × Json)) (tenant_id : Text)
      (request_id filename mime file_base64 extracted_text : Option Text)
      (metadata : List (Text × Json))
      → all (λ e. any (text_eq e.0) field_names) m ≡ true
      → required_str p (lookup (codes "tenant_id") m) ≡ some tenant_id
      → optional_str p (lookup (codes "request_id") m) ≡ some request_id
      → optional_str p (lookup (codes "filename") m) ≡ some filename
      → optional_str p (lookup (codes "mime") m) ≡ some mime
      → optional_str p (lookup (codes "file_base64") m) ≡ some file_base64
      → optional_str p (lookup (codes "extracted_text") m) ≡ some extracted_text
      → dict_field p (lookup (codes "metadata") m) ≡ some metadata
      → given file_base64 || given extracted_text ≡ true
      → (payload : ScanAttachmentRequest) × (validate_fields p m ≡ some payload)
  unfolding validate_fields validate_input_payload
  validate_fields_lem m tenant_id request_id filename mime file_base64 extracted_text metadata known
        tenant id name kind file extracted data_of content =
      (
        record {
          tenant_id = tenant_id;
          request_id = request_id;
          filename = filename;
          mime = mime;
          file_base64 = file_base64;
          extracted_text = extracted_text;
          metadata = metadata;
        },
        rw (known, tenant, id, name, kind, file, extracted, data_of, content) refl,
      )

  content_given :
      (m : List (Text × Json)) (file_base64 extracted_text : Option Text)
      → HasContent m
      → optional_str p (lookup (codes "file_base64") m) ≡ some file_base64
      → optional_str p (lookup (codes "extracted_text") m) ≡ some extracted_text
      → given file_base64 || given extracted_text ≡ true
  content_given m file_base64 extracted_text (x, s, inl there) file extracted =
      let same =
        some_injective file_base64 (some (x ∷ s))
          (sym file ∙ ap (optional_str p) there ∙ optional_str-text (x ∷ s)) in
      rw same refl
  content_given m file_base64 extracted_text (x, s, inr there) file extracted =
      let same =
        some_injective extracted_text (some (x ∷ s))
          (sym extracted ∙ ap (optional_str p) there ∙ optional_str-text (x ∷ s)) in
      rw same (or_true (given file_base64))

  -- A document of the contract's schema for requests, whose content is not the empty text, is a valid
  -- payload for the connector.
  pub model_validate-conforms :
      (fs : Fields)
      → conforms request_schema (object fs) ≡ true
      → HasContent (fields fs)
      → (payload : ScanAttachmentRequest) × (model_validate p (object fs) ≡ some payload)
  unfolding conforms model_validate
  model_validate-conforms fs h content =
      let m = fields fs in
      let (h₁, one) = and_true _ _ h in
      let (h₂, known) = and_true _ _ h₁ in
      let (all_conform, required) = and_true _ _ h₂ in
      let (of_tenant, g₁) = and_true _ _ all_conform in
      let (of_id, g₂) = and_true _ _ g₁ in
      let (of_name, g₃) = and_true _ _ g₂ in
      let (of_mime, g₄) = and_true _ _ g₃ in
      let (of_file, g₅) = and_true _ _ g₄ in
      let (of_extracted, g₆) = and_true _ _ g₅ in
      let (of_metadata, _) = and_true _ _ g₆ in
      let (tenant_id, tenant) =
        required_str-conforms (lookup (codes "tenant_id") m)
          (λ missing. absurd (ground (arith, required, missing))) of_tenant in
      let (request_id, id) = optional_str-conforms (lookup (codes "request_id") m) of_id in
      let (filename, name) = optional_str-conforms (lookup (codes "filename") m) of_name in
      let (mime, kind) = optional_str-conforms (lookup (codes "mime") m) of_mime in
      let (file_base64, file) = optional_str-conforms (lookup (codes "file_base64") m) of_file in
      let (extracted_text, extracted) =
        optional_str-conforms (lookup (codes "extracted_text") m) of_extracted in
      let (metadata, data_of) = dict_field-conforms (lookup (codes "metadata") m) of_metadata in
      validate_fields_lem m tenant_id request_id filename mime file_base64 extracted_text metadata
        known tenant id name kind file extracted data_of
        (content_given m file_base64 extracted_text content file extracted)
