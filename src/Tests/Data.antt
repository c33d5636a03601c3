-- ===== src/Tests/Data.antt =====
-- A toy pair of digests, a configuration, one signed request and two Omegas.
use sgraph_omega_connector.Base.{
  ℕ, zero, suc, ◌+◌, ◌%◌, ◌<◌, true, false, List, [], ◌∷◌, Option, some, none, length, All, ◌≡◌,
  refl, arith,
}
use sgraph_omega_connector.Base.Int.{pos}
use sgraph_omega_connector.Text.{Text, Unicode, codes}
use sgraph_omega_connector.Codec.{Crypto, IsCrypto}
use sgraph_omega_connector.Codec.Hex.{IsByte}
use sgraph_omega_connector.Json.{Json, text, integer, object, Fields, field, end, fields}
use sgraph_omega_connector.Models.{ScanAttachmentRequest, Pydantic}
use sgraph_omega_connector.Security.{NonceReplayCache, sign_canonical}
use sgraph_omega_connector.Auth.{AuthConfig, Request, request_canonical}
use sgraph_omega_connector.OmegaClient.{OmegaClient, Upstream, Posted, replied, closed, scan_path}
use sgraph_omega_connector.App.{Runtime, ConnectorRuntime, State, Environment, quarantine}

abbrev pub unicode : Unicode
unicode = record { lower_wide = λ s. s; upper_wide = λ s. s; digit_wide = λ c. none }

abbrev copies : ℕ → ℕ → List ℕ
copies zero b = []
copies (suc n) b = b ∷ copies n b

-- 32 bytes that depend on the length alone.
abbrev pub toy : Crypto
toy = record {
  sha256 = λ m. copies 32 (length m % 256);
  hmac_sha256 = λ key m. copies 32 ((length key + length m) % 256);
}

copies-IsByte : (n b : ℕ) → b < 256 → All IsByte (copies n b)
copies-IsByte zero b h = tt
copies-IsByte (suc n) b h = (h, copies-IsByte n b h)

length-copies : (n b : ℕ) → length (copies n b) ≡ n
length-copies zero b = refl
length-copies (suc n) b = ground (arith, length-copies n b)

pub toy-IsCrypto : IsCrypto toy
toy-IsCrypto = record {
  sha256_bytes = λ m. copies-IsByte 32 (length m % 256) (omega arith);
  sha256_length = λ m. length-copies 32 (length m % 256);
  hmac_bytes = λ key m. copies-IsByte 32 ((length key + length m) % 256) (omega arith);
  hmac_length = λ key m. length-copies 32 ((length key + length m) % 256);
}

-- 32 zero bytes for every text.
abbrev pub flat : Crypto
flat = record { sha256 = λ m. copies 32 0; hmac_sha256 = λ key m. copies 32 0 }

pub flat-IsCrypto : IsCrypto flat
flat-IsCrypto = record {
  sha256_bytes = λ m. copies-IsByte 32 0 (omega arith);
  sha256_length = λ m. refl;
  hmac_bytes = λ key m. copies-IsByte 32 0 (omega arith);
  hmac_length = λ key m. refl;
}

abbrev pub server : AuthConfig
server = record {
  api_keys = codes "k1" ∷ [];
  require_hmac = true;
  hmac_secret = codes "s";
  max_clock_skew_sec = pos 300;
}

abbrev pub payload : ScanAttachmentRequest
payload = record {
  tenant_id = codes "t";
  request_id = some (codes "r");
  filename = none;
  mime = none;
  file_base64 = none;
  extracted_text = some (codes "x");
  metadata = [];
}

abbrev pub body_fields : Fields
body_fields = field (codes "tenant_id") (text (codes "t")) (
    field (codes "request_id") (text (codes "r"))
      (field (codes "extracted_text") (text (codes "x")) end))

abbrev pub unsigned : Request
unsigned = record {
  method = codes "POST";
  path = scan_path false;
  x_api_key = some (codes "k1");
  x_signature = none;
  x_timestamp = some (codes "7");
  x_nonce = some (codes "n");
  body = 1 ∷ [];
}

-- The request with the signature for the payload's id.
abbrev pub signed_by : Crypto → ScanAttachmentRequest → Request
signed_by k p = record unsigned {
  x_signature = some (
      sign_canonical k (request_canonical k unicode unsigned p (codes "7") (codes "n"))
        (codes "s"));
}

abbrev pub cache : NonceReplayCache
cache = record { ttl_sec = pos 600; max_entries = 4; entries = [] }

-- 7 and 8 seconds.
abbrev pub now : ℕ
now = 7000000

abbrev pub later : ℕ
later = 8000000

abbrev as_str : Json → Option Text
as_str (text s) = some s
as_str _ = none

abbrev as_dict : Json → Option (List (Text × Json))
as_dict (object fs) = some (fields fs)
as_dict _ = none

abbrev pub pydantic : Pydantic
pydantic = record { as_str = as_str; as_dict = as_dict; errors = λ j. j }

abbrev pub runtime : Runtime
runtime = record {
  unicode = unicode;
  repr = λ j. [];
  id_uuid = codes "u";
  evidence_uuid = codes "e";
}

abbrev pub allowing : Fields
allowing =
    field (codes "verdict") (text (codes "allow"))
      (field (codes "risk_score") (integer (pos 3)) end)

abbrev pub good : ℕ → Posted
good n = replied (record { status_code = 200; json = some (object allowing); body_text = [] })

abbrev pub upstream : (ℕ → Posted) → Upstream
upstream post = record {
  started = now;
  signed_at = now;
  ended = now;
  nonce = codes "m";
  can_build = λ url p. true;
  dump = λ p. [];
  loads = λ s. none;
  post = λ out n. post n;
}

abbrev pub omega_client : OmegaClient
omega_client = record {
  base_url = codes "o";
  api_key = codes "a";
  require_hmac = true;
  hmac_secret = codes "h";
  tls_verify = true;
  ca_cert_path = [];
  timeout_ms = pos 1000;
  retry_count = 1;
  breaker_fails = 1;
  breaker_reset_sec = 30;
}

abbrev pub connector : ConnectorRuntime
connector = record {
  fail_mode = quarantine;
  debug_document_scan = false;
  audit_redaction = true;
  auth = server;
  omega = omega_client;
}

abbrev pub state : State
state = record { replay_cache = cache; circuit = closed; audit = [] }

abbrev pub environment : Environment
environment = record {
  loads_body = λ bytes. some (object body_fields);
  pydantic = pydantic;
  runtime = runtime;
  request_uuid = codes "q";
  now = now;
  marked_at = now;
  upstream = upstream good;
}
