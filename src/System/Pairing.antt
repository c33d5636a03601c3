-- ===== src/System/Pairing.antt =====
-- A hook that is set up for a connector, and the call of the hook for one file.
use sgraph_omega_connector.Base.{
  ℕ, true, false, List, [], ◌∷◌, Option, some, none, Result, ok, raise, All, ◌≡◌, ◌≢◌, refl, ◌↔◌,
}
use sgraph_omega_connector.Text.{Text, Unicode, codes, strip, text_eq}
use sgraph_omega_connector.Codec.{Crypto}
use sgraph_omega_connector.Dict.{lookup}
use sgraph_omega_connector.Json.{Json, Fields, text, fields, str_json, is_truthy}
use sgraph_omega_connector.Models.{ScanAttachmentRequest}
use sgraph_omega_connector.Auth.{AuthConfig}
use sgraph_omega_connector.Auth.ApiKey.{IsAscii, IsComparable, Accepts, Exists}
use sgraph_omega_connector.OmegaClient.{scan_path}
use sgraph_omega_connector.App.{allow, quarantine, block, text_or}
use sgraph_omega_connector.SGraph.{
  ConnectorClientConfig, HookError, blocked, text_of, b64encode, metadata_or, scan_payload,
}

-- The hook's decision is that of the verdict: pass for "allow", an exception for "block" and hold for
-- "quarantine".
abbrev pub Enforces : Result HookError Text → Text → Type 0
Enforces x verdict =
    (x ≡ ok allow ↔ verdict ≡ allow)
    × ((x ≡ raise blocked ↔ verdict ≡ block) × (x ≡ ok quarantine ↔ verdict ≡ quarantine))

-- The client posts to the scan endpoint of a connector that requires HMAC, they share the secret, and
-- one of the connector's API keys accepts the client's. That key is ASCII and not blank, and the
-- connector can compare all of its keys: they are digests or ASCII.
pub record IsPaired (k : Crypto) (u : Unicode) (config : ConnectorClientConfig)
    (server : AuthConfig) : Type 0 where
  pub path : config.path_scan_attachment ≡ scan_path false
  pub required : server.require_hmac ≡ true
  pub secret : config.hmac_secret ≡ server.hmac_secret
  pub set : server.hmac_secret ≢ []
  pub some_key : strip config.api_key ≢ []
  pub ascii : IsAscii (strip config.api_key)
  pub comparable : All IsComparable server.api_keys
  pub known : Exists (Accepts k u (strip config.api_key)) server.api_keys

-- A file with its names, as the hook is called with it.
pub record HookCall : Type 0 where
  pub tenant_id : Text
  pub request_id : Text
  pub filename : Text
  pub mime : Text
  pub decrypted_bytes : List ℕ
  pub metadata : Option Fields

abbrev pub payload_of : HookCall → Fields
payload_of call =
    scan_payload call.tenant_id call.request_id call.filename call.mime call.decrypted_bytes
      call.metadata

-- What the connector reads of the payload.
abbrev pub read_of : HookCall → ScanAttachmentRequest
read_of call = record {
  tenant_id = call.tenant_id;
  request_id = some call.request_id;
  filename = some call.filename;
  mime = some call.mime;
  file_base64 = some (b64encode call.decrypted_bytes);
  extracted_text = none;
  metadata = fields (metadata_or call.metadata (codes "sgraph_trusted_decrypt_flow"));
}

-- The tenant, the request id and the file are not empty.
abbrev pub IsComplete : HookCall → Type 0
IsComplete call = (call.tenant_id ≢ []) × ((call.request_id ≢ []) × (call.decrypted_bytes ≢ []))

text_or-text : (repr : Json → Text) (s : Text) → s ≡ text_or repr (some (text s)) []
unfolding text_or str_json is_truthy
text_or-text repr [] = refl
text_or-text repr (c ∷ s) = refl

pub text_of-payload_of :
    (repr : Json → Text) (call : HookCall)
    → (call.tenant_id ≡ text_of repr (fields (payload_of call)) (codes "tenant_id"))
      × (call.request_id ≡ text_of repr (fields (payload_of call)) (codes "request_id"))
unfolding scan_payload lookup text_eq
text_of-payload_of repr call = (text_or-text repr call.tenant_id, text_or-text repr call.request_id)
