-- ===== src/Tests/TransferRuns.antt =====
-- Runs of the end-to-end scripts against a store that keeps one file.
use sgraph_omega_connector.Base.{
  inr, ℕ, true, ◌==◌, List, [], ◌∷◌, ◌++◌, drop, Option, some, none, ok, raise, ◌≡◌, ◌↔◌, refl,
  if◌then◌else◌, arith,
}
use sgraph_omega_connector.Text.{Text, codes, text_eq, starts_with}
use sgraph_omega_connector.Dict.{lookup}
use sgraph_omega_connector.Json.{
  Json, Fields, text, array, object, field, end, nil, is_truthy, str_json,
}
use sgraph_omega_connector.Models.{ScanAttachmentResponse, new_response}
use sgraph_omega_connector.OmegaClient.{client_error}
use sgraph_omega_connector.App.{
  text_or, respond, on_error, fallback_response, fallback_trace, fallback_risk, is_verdict,
  quarantine,
}
use sgraph_omega_connector.Scripts.Flow.{
  Wire, answered, loads_bytes, http_json, http_bytes, resume, lift,
}
use sgraph_omega_connector.Scripts.Answers.{
  get_dict, filename_of, listed_reasons, is_tolerated, is_fallback_reason, accept_answer,
}
use sgraph_omega_connector.Scripts.SgMeta.{
  Aesgcm, IsAesgcm, sgmeta_magic, package_with_sgmeta, to_bytes, from_bytes, extract_sgmeta_or_raw,
  encrypt_like_sgraph_ui, decrypt_like_sgraph_ui,
}
use sgraph_omega_connector.Scripts.Transfer.{
  run_upstream_path, Scenario, Call, create, upload, complete, download, scan, Draw, Libraries,
  Args, Walked, real_path, transfer, connector_payload, judge, walk, run,
}
use sgraph_omega_connector.Scripts.Transfer.Honest.{IsStore, delivered, walk-delivers}
use sgraph_omega_connector.Scripts.Transfer.Fallbacks.{
  IsReport, runs-IsReport, respond-is_tolerated,
}
use sgraph_omega_connector.Tests.Data.{unicode, toy, runtime, payload}

-- 16 zeros in front of the text.
abbrev tag : List ℕ
tag = 0 ∷ 0 ∷ 0 ∷ 0 ∷ 0 ∷ 0 ∷ 0 ∷ 0 ∷ 0 ∷ 0 ∷ 0 ∷ 0 ∷ 0 ∷ 0 ∷ 0 ∷ 0 ∷ []

abbrev toy_aesgcm : Aesgcm
toy_aesgcm = record {
  encrypt = λ key iv plaintext. tag ++ plaintext;
  decrypt = λ key iv c. some (drop 16 c);
}

toy_aesgcm-IsAesgcm : IsAesgcm toy_aesgcm
toy_aesgcm-IsAesgcm = record { tag = λ key iv p. ground arith; decrypts = λ key iv p. refl }

abbrev created : Fields
created = field (codes "transfer_id") (text (codes "x")) end

abbrev scanned : Fields
scanned = field (codes "reasons") (array nil) end

abbrev named : Text → Fields
named name = field (codes "filename") (text name) end

-- A byte tells which of the three documents it is.
abbrev toy_loads : Text → Option Json
toy_loads [] = none
toy_loads (c ∷ s) = some (object (if c == 1 then created else if c == 2 then scanned else named s))

abbrev toy_dump : List (Text × Json) → List ℕ
toy_dump ((_, text s) ∷ m) = 3 ∷ s
toy_dump _ = 3 ∷ []

abbrev libraries : Libraries
libraries = record {
  crypto = toy;
  unicode = unicode;
  repr = λ j. [];
  dump = toy_dump;
  decoder = record { decode = λ b. some b; decode_replace = λ b. b; loads = toy_loads };
  aesgcm = toy_aesgcm;
}

-- The state is the file that was uploaded last.
abbrev store : Call → List ℕ → List ℕ × Wire
store (create _ _) s = (s, answered 200 (1 ∷ []))
store (upload _ b) s = (b, answered 200 [])
store (complete _) s = (s, answered 200 [])
store (download _) s = (s, answered 200 s)
store (scan _ _) s = (s, answered 200 (2 ∷ []))

abbrev Holds : List ℕ → Text → List ℕ → Type 0
Holds s id b = s ≡ b

store-IsStore : IsStore libraries store Holds
unfolding http_json http_bytes loads_bytes lookup text_eq text_or is_truthy str_json
store-IsStore = record {
  creates = λ n mime s. (s, answered 200 (1 ∷ []), codes "x", created, refl, refl, refl, refl);
  keeps = λ id b s. (b, answered 200 [], [], refl, refl, refl);
  completes = λ id b s h. (s, answered 200 [], object end, refl, refl, h);
  gives_back = λ id b s h. (s, answered 200 s, refl, ground (arith, h));
}

abbrev file : Scenario
file = record { name = codes "html"; filename = codes "a"; mime = codes "m"; content = 7 ∷ 8 ∷ [] }

abbrev draw : Draw
draw = record {
  key = [];
  iv = 1 ∷ 2 ∷ 3 ∷ 4 ∷ 5 ∷ 6 ∷ 7 ∷ 8 ∷ 9 ∷ 10 ∷ 11 ∷ 12 ∷ [];
  request_hex = codes "0f";
  nonce = codes "n";
  now = 7000000;
}

abbrev args : Args
args = record {
  tenant_id = codes "t";
  connector_path = codes "/v1";
  connector_api_key = codes "k";
  connector_hmac_secret = codes "s";
  strict_no_fallback = true;
}

abbrev packaged : List ℕ
packaged = sgmeta_magic ++ 0 ∷ 0 ∷ 0 ∷ 2 ∷ 3 ∷ b'a' ∷ 7 ∷ 8 ∷ []

file-packaged : package_with_sgmeta toy_dump (7 ∷ 8 ∷ []) (codes "a") ≡ ok packaged
unfolding package_with_sgmeta to_bytes
file-packaged = refl

walk-delivers_example :
    (s' : List ℕ) × (id : Text) × (walk libraries store real_path args file draw []
      ≡ resume
          (judge libraries store real_path args draw
            (connector_payload libraries store real_path args file draw id (codes "a") (7 ∷ 8 ∷ []))
            s')
          (λ response. lift (ok (delivered libraries file draw packaged id response))))
unfolding loads_bytes
walk-delivers_example =
    walk-delivers libraries store Holds store-IsStore real_path args file draw [] packaged
      toy_aesgcm-IsAesgcm refl file-packaged refl refl

abbrev results : List Walked
results = delivered libraries file draw packaged (codes "x") (object scanned) ∷ []

ran :
    run_upstream_path libraries store args ((file, draw) ∷ []) []
    ≡ (encrypt_like_sgraph_ui toy_aesgcm [] draw.iv packaged, ok results)
unfolding run_upstream_path run walk transfer judge resume http_json http_bytes loads_bytes get_dict
    filename_of listed_reasons accept_answer is_fallback_reason package_with_sgmeta to_bytes
    from_bytes extract_sgmeta_or_raw encrypt_like_sgraph_ui decrypt_like_sgraph_ui lookup text_eq
    starts_with text_or is_truthy str_json
ran = refl

runs-IsReport_example : IsReport (λ j. []) ((file, draw) ∷ []) results
runs-IsReport_example =
    runs-IsReport libraries store args ((file, draw) ∷ []) []
      (encrypt_like_sgraph_ui toy_aesgcm [] draw.iv packaged) results refl (inr ran)

abbrev overlooked : ScanAttachmentResponse
overlooked = record {
  request_id = codes "r";
  tenant_id = codes "t";
  risk_score = fallback_risk quarantine;
  verdict = quarantine;
  reasons = codes "invalid_response" ∷ [];
  evidence_id = codes "e";
  policy_trace = fallback_trace (codes "invalid_response") quarantine none none;
  attestation = none;
}

responded : respond runtime payload quarantine (raise client_error) ≡ ok overlooked
unfolding respond on_error fallback_response new_response fallback_risk is_verdict text_eq
responded = refl

respond-is_tolerated_example :
    (is_tolerated true (codes "invalid_response" ∷ []) ≡ true) ↔ (client_error ≡ client_error)
respond-is_tolerated_example =
    respond-is_tolerated runtime payload quarantine client_error overlooked responded
