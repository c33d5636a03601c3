-- ===== src/Contract.antt =====
-- contracts/schemas/snapshots: the frozen schemas of the connector's API, and what they demand of a
-- JSON document.
pub mod Replies
pub mod Requests
pub mod Clients
use sgraph_omega_connector.Base.{
  ℕ, ◌+◌, ◌==◌, Bool, true, false, ◌&&◌, ◌||◌, not, List, [], ◌∷◌, Option, some, none, length, leb,
  all, any, if◌then◌else◌,
}
use sgraph_omega_connector.Base.Int.{pos, leb_ℤ}
use sgraph_omega_connector.Text.{Text, codes, text_eq}
use sgraph_omega_connector.Dict.{lookup, is_none}
use sgraph_omega_connector.Json.{Json, null, text, integer, array, object, items, fields}

mutual
  pub data Schema : Type 0 where
    -- `"type": "string"`, with `minLength`
    a_string : ℕ → Schema
    -- `"type": ["string", "null"]`
    string_or_null : Schema
    -- `"enum"` of strings
    one_of_strings : List Text → Schema
    -- `"type": "integer"`, with `minimum` and `maximum`
    integer_within : ℕ → ℕ → Schema
    -- `"type": "array"`, with `items`
    array_of : Schema → Schema
    -- `"type": "object"`, with `additionalProperties`, `properties`, `required` and `oneOf`
    object_of : Bool → Properties → List Text → List (List Text) → Schema

  pub data Properties : Type 0 where
    no_properties : Properties
    property : Text → Schema → Properties → Properties

abbrev pub names : Properties → List Text
names no_properties = []
names (property name s rest) = name ∷ names rest

abbrev pub has : List (Text × Json) → Text → Bool
has m name = not (is_none (lookup name m))

abbrev pub how_many : {A : Type 0} → (A → Bool) → List A → ℕ
how_many p [] = 0
how_many p (x ∷ xs) = if p x then how_many p xs + 1 else how_many p xs

-- `oneOf` of lists of required names
abbrev pub exactly_one : List (Text × Json) → List (List Text) → Bool
exactly_one m [] = true
exactly_one m (alternative ∷ more) = how_many (all (has m)) (alternative ∷ more) == 1

unfoldable mutual
  pub conforms : Schema → Json → Bool
  conforms (a_string min_length) (text s) = leb min_length (length s)
  conforms string_or_null null = true
  conforms string_or_null (text s) = true
  conforms (one_of_strings allowed) (text s) = any (text_eq s) allowed
  conforms (integer_within low high) (integer z) = leb_ℤ (pos low) z && leb_ℤ z (pos high)
  conforms (array_of s) (array js) = all (conforms s) (items js)
  conforms (object_of additional properties required alternatives) (object fs) =
      fields_conform properties (fields fs)
      && all (has (fields fs)) required
      && (additional || all (λ e. any (text_eq e.0) (names properties)) (fields fs))
      && exactly_one (fields fs) alternatives
  conforms _ _ = false

  pub fields_conform : Properties → List (Text × Json) → Bool
  fields_conform no_properties m = true
  fields_conform (property name s rest) m =
      (elim (lookup name m) [ none ↦ true | some j ↦ conforms s j ]) && fields_conform rest m

-- `{"type": "string"}`, and an object without conditions
abbrev pub str : Schema
str = a_string 0

abbrev pub any_object : Schema
any_object = object_of true no_properties [] []

-- error.schema.json
abbrev pub error_schema : Schema
error_schema =
    object_of false
      (property (codes "request_id") string_or_null (
        property (codes "error")
          (object_of false
            (property (codes "code") str (
              property (codes "message") str (property (codes "details") any_object no_properties)))
            (codes "code" ∷ codes "message" ∷ codes "details" ∷ []) [])
          no_properties))
      (codes "error" ∷ []) []

-- response.schema.json
abbrev pub response_schema : Schema
response_schema =
    object_of true
      (property (codes "request_id") str (
        property (codes "tenant_id") str (
          property (codes "risk_score") (integer_within 0 100) (
            property (codes "verdict")
              (one_of_strings (codes "allow" ∷ codes "quarantine" ∷ codes "block" ∷ []))
              (property (codes "reasons") (array_of str) (
                property (codes "evidence_id") str (
                  property (codes "policy_trace") any_object
                    (property (codes "attestation") any_object no_properties))))))))
      (codes "request_id"
        ∷ codes "tenant_id"
        ∷ codes "risk_score"
        ∷ codes "verdict"
        ∷ codes "reasons"
        ∷ codes "evidence_id"
        ∷ codes "policy_trace"
        ∷ [])
      []

-- request.schema.json
abbrev pub request_schema : Schema
request_schema =
    object_of false
      (property (codes "tenant_id") (a_string 1) (
        property (codes "request_id") str (
          property (codes "filename") str (
            property (codes "mime") str (
              property (codes "file_base64") str (
                property (codes "extracted_text") str
                  (property (codes "metadata") any_object no_properties)))))))
      (codes "tenant_id" ∷ []) ((codes "file_base64" ∷ []) ∷ (codes "extracted_text" ∷ []) ∷ [])
