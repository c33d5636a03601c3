-- ===== src/Scripts/Transfer.antt =====
-- scripts/e2e_sgraph_real_path.py and scripts/e2e_sgraph_upstream_connector_path.py: a file goes
-- through SGraph, encrypted, and from there to the connector.
pub mod Honest
pub mod Requests
pub mod Fallbacks
use sgraph_omega_connector.Base.{
  ℕ, Bool, true, false, not, ◌&&◌, ◌||◌, ◌==◌, List, [], ◌∷◌, ◌++◌, map, all, Option, some, none,
  Result, ok, raise, length, if◌then◌else◌,
}
use sgraph_omega_connector.Text.{Text, Unicode, codes, truthy, text_eq}
use sgraph_omega_connector.Codec.{Crypto}
use sgraph_omega_connector.Codec.Base64.{urlsafe_b64encode}
use sgraph_omega_connector.Codec.Hex.{hex}
use sgraph_omega_connector.Dict.{lookup}
use sgraph_omega_connector.Json.{
  Json, Fields, field, end, text, array, object, items, fields, is_truthy, str_json,
}
use sgraph_omega_connector.Errors.{Exception, unexpected}
use sgraph_omega_connector.App.{text_or}
use sgraph_omega_connector.SGraph.{SignedHeaders, b64encode}
use sgraph_omega_connector.Scripts.{build_headers}
use sgraph_omega_connector.Scripts.Flow.{
  Flow, ◌>>=◌, ◌>>◌, lift, ensure, Wire, Decoder, loads_bytes, http_json, http_bytes,
}
use sgraph_omega_connector.Scripts.Answers.{get_dict, filename_of, accept_answer}
use sgraph_omega_connector.Scripts.SgMeta.{
  package_with_sgmeta, extract_sgmeta_or_raw, Aesgcm, encrypt_like_sgraph_ui,
  decrypt_like_sgraph_ui,
}

-- `Scenario`
pub record Scenario : Type 0 where
  pub name : Text
  pub filename : Text
  pub mime : Text
  pub content : List ℕ

-- The requests that the scripts send, without the base URL and the access token, which do not change.
pub data Call : Type 0 where
  create : ℕ → Text → Call
  upload : Text → List ℕ → Call
  complete download : Text → Call
  -- the connector's endpoint, or SGraph's route to it, which needs no signature
  scan : Option SignedHeaders → List (Text × Json) → Call

-- What a round draws: the key and the nonce of its encryption, the ids, and the clock.
pub record Draw : Type 0 where
  pub key : List ℕ
  pub iv : List ℕ
  pub request_hex : Text
  pub nonce : Text
  pub now : ℕ

-- The libraries that the scripts call.
pub record Libraries : Type 0 where
  pub crypto : Crypto
  pub unicode : Unicode
  pub repr : Json → Text
  pub dump : List (Text × Json) → List ℕ
  pub decoder : Decoder
  pub aesgcm : Aesgcm

-- The arguments of the command line that matter: signed requests go to the connector itself.
pub record Args : Type 0 where
  pub tenant_id : Text
  pub connector_path : Text
  pub connector_api_key : Text
  pub connector_hmac_secret : Text
  pub strict_no_fallback : Bool

-- How the two scripts differ.
pub record Route : Type 0 where
  pub id_prefix : Text
  pub flow : Text
  pub is_signed : Bool

abbrev pub real_path : Route
real_path = record {
  id_prefix = codes "sgraph-real-";
  flow = codes "sgraph-decrypt-to-connector";
  is_signed = true;
}

abbrev pub upstream_path : Route
upstream_path = record {
  id_prefix = codes "sgraph-upstream-";
  flow = codes "sgraph-route-to-connector";
  is_signed = false;
}

-- An entry of `results`.
pub record Walked : Type 0 where
  pub scenario : Text
  pub transfer_id : Text
  pub uploaded_encrypted_sha256 : Text
  pub downloaded_encrypted_sha256 : Text
  pub encrypted_roundtrip_match : Bool
  pub sgmeta_metadata : Option Json
  pub decrypted_content_sha256 : Text
  pub decrypted_content_size : ℕ
  pub response : Json

module _ {S : Type 0} (l : Libraries) (send : Call → S → S × Wire) where
  abbrev pub call_json : Call → Flow S (ℕ × Json)
  call_json c = λ s. let (s', w) = send c s in (s', http_json l.decoder w)

  abbrev pub call_bytes : Call → Flow S (ℕ × List ℕ)
  call_bytes c = λ s. let (s', w) = send c s in (s', http_bytes w)

  -- From `create` to `download`: the id of the transfer, and what has come back.
  unfoldable pub transfer : ℕ → Text → List ℕ → Flow S (Text × List ℕ)
  transfer size mime encrypted = do
    created ← call_json (create size mime)
    ensure (created.0 == 200)
    body ← lift (get_dict created.1)
    let transfer_id = text_or l.repr (lookup (codes "transfer_id") body) []
    ensure (truthy transfer_id)
    uploaded ← call_bytes (upload transfer_id encrypted)
    ensure (uploaded.0 == 200)
    completed ← call_json (complete transfer_id)
    ensure (completed.0 == 200)
    downloaded ← call_bytes (download transfer_id)
    ensure (downloaded.0 == 200)
    lift (ok (transfer_id, downloaded.1))

  module _ (route : Route) (args : Args) where
    abbrev pub connector_payload : Scenario → Draw → Text → Text → List ℕ → List (Text × Json)
    connector_payload sc d transfer_id filename content =
        (codes "tenant_id", text args.tenant_id)
        ∷ (codes "request_id", text (route.id_prefix ++ sc.name ++ b'-' ∷ d.request_hex))
        ∷ (codes "filename", text filename)
        ∷ (codes "mime", text sc.mime)
        ∷ (codes "file_base64", text (b64encode content))
        ∷ (
          codes "metadata",
          object (
              field (codes "flow") (text route.flow) (
                field (codes "sgraph_transfer_id") (text transfer_id)
                  (field (codes "scenario") (text sc.name) end))),
        )
        ∷ []

    abbrev pub scan_call : Draw → List (Text × Json) → Call
    scan_call d payload =
        scan
          (if route.is_signed
            then some (
                build_headers l.crypto l.unicode l.repr l.dump d.now d.nonce
                  args.connector_hmac_secret args.connector_api_key args.connector_path payload)
            else none)
          payload

    -- The call of the connector, and the search for a fallback in its answer.
    unfoldable pub judge : Draw → List (Text × Json) → Flow S Json
    judge d payload = do
      answer ← call_json (scan_call d payload)
      lift (accept_answer l.repr args.strict_no_fallback answer.0 answer.1)

    -- One round of the loop.
    unfoldable pub walk : Scenario → Draw → Flow S Walked
    walk sc d = do
      packaged_plain ← lift (package_with_sgmeta l.dump sc.content sc.filename)
      let encrypted = encrypt_like_sgraph_ui l.aesgcm d.key d.iv packaged_plain
      fetched ← transfer (length packaged_plain) sc.mime encrypted
      decrypted ← lift (decrypt_like_sgraph_ui l.aesgcm d.key fetched.1)
      let unpacked = extract_sgmeta_or_raw (loads_bytes l.decoder) decrypted
      filename ← lift (filename_of l.repr unpacked.0 sc.filename)
      response ← judge d (connector_payload sc d fetched.0 filename unpacked.1)
      lift (
          ok (record {
            scenario = sc.name;
            transfer_id = fetched.0;
            uploaded_encrypted_sha256 = hex (l.crypto.sha256 encrypted);
            downloaded_encrypted_sha256 = hex (l.crypto.sha256 fetched.1);
            encrypted_roundtrip_match = text_eq encrypted fetched.1;
            sgmeta_metadata = unpacked.0;
            decrypted_content_sha256 = hex (l.crypto.sha256 unpacked.1);
            decrypted_content_size = length unpacked.1;
            response = response;
          }))

    -- `run`: the results of all rounds, or the first error.
    unfoldable pub run : List (Scenario × Draw) → Flow S (List Walked)
    run [] = lift (ok [])
    run ((sc, d) ∷ rounds) = do
      walked ← walk sc d
      results ← run rounds
      lift (ok (walked ∷ results))

  -- `run` of the two scripts.
  unfoldable pub run_real_path : Args → List (Scenario × Draw) → Flow S (List Walked)
  run_real_path args rounds = run real_path args rounds

  unfoldable pub run_upstream_path : Args → List (Scenario × Draw) → Flow S (List Walked)
  run_upstream_path args rounds = run upstream_path args rounds
