-- ===== src/Tests/ReportRuns.antt =====
-- Runs of the qualification report against a connector that always allows.
use sgraph_omega_connector.Base.{
  ℕ, suc, ◌<◌, List, [], ◌∷◌, true, some, none, ok, length, All, ◌≡◌, refl, arith,
}
use sgraph_omega_connector.Base.Int.{pos}
use sgraph_omega_connector.Text.{
  Text, codes, text_eq, str_ℕ, strip, lstrip_by, rstrip_by, is_space, NoSpace,
}
use sgraph_omega_connector.Dict.{lookup}
use sgraph_omega_connector.Json.{Json, object, fields}
use sgraph_omega_connector.SGraph.{SignedHeaders}
use sgraph_omega_connector.SGraph.Signed.{delivered}
use sgraph_omega_connector.Auth.{AuthConfig, verify_signature}
use sgraph_omega_connector.Models.{ScanAttachmentRequest}
use sgraph_omega_connector.Scripts.{build_headers}
use sgraph_omega_connector.Scripts.Flow.{Wire, answered, resume, loads_bytes}
use sgraph_omega_connector.Scripts.Answers.{get_dict}
use sgraph_omega_connector.Scripts.Transfer.{Libraries}
use sgraph_omega_connector.Scripts.Qualification.{
  Sample, scenario_allow, new_tally, count_samples, count_sample, percentile, sorted, insert_value,
  item,
}
use sgraph_omega_connector.Scripts.Qualification.Report.{
  Fixed, Summary, summarize, blockers_of, decision_of,
}
use sgraph_omega_connector.Scripts.Qualification.Run.{
  RoundDraw, QualificationArgs, round_id, posted_signed, post_signed, qualify_round, qualify_rounds,
  qualify,
}
use sgraph_omega_connector.Scripts.Qualification.Run.Signed.{
  config_of, sent_payload, round-verify_signature,
}
use sgraph_omega_connector.Scripts.Qualification.Run.Answered.{
  Answered, first_responses, qualify-go,
}
use sgraph_omega_connector.Tests.Data.{unicode, toy, toy-IsCrypto, allowing}

abbrev libraries : Libraries
libraries = record {
  crypto = toy;
  unicode = unicode;
  repr = λ j. [];
  dump = λ m. 1 ∷ [];
  decoder = record { decode = some; decode_replace = λ b. b; loads = λ s. some (object allowing) };
  aesgcm = record { encrypt = λ k iv m. m; decrypt = λ k iv c. some c };
}

-- The state counts the requests.
abbrev allows : SignedHeaders → List (Text × Json) → ℕ → ℕ × (Wire × ℕ)
allows headers payload n = (suc n, (answered 200 (1 ∷ []), 900))

abbrev draw : ℕ → RoundDraw
draw idx = record {
  scenario = scenario_allow;
  drawn_id = codes "q";
  nonce = codes "n";
  now = 7000000;
}

abbrev args : QualificationArgs
args = record { path = codes "/v1"; api_key = codes "k1"; hmac_secret = codes "s" }

abbrev fixed : Fixed
fixed n over under = []

abbrev sample : Sample
sample = record { scenario = scenario_allow; status = 200; out = fields allowing; latency = 900 }

abbrev summary : Summary
summary =
    summarize fixed (count_samples unicode libraries.repr (sample ∷ []) new_tally)
      (first_responses libraries allows args draw (sample ∷ []) [])

ends_once : qualify libraries allows args draw fixed (pos 1) 0 ≡ (1, ok summary)
unfolding qualify qualify_rounds qualify_round post_signed posted_signed loads_bytes get_dict resume
    count_samples
ends_once = refl

says_go : summary.decision ≡ codes "GO"
unfolding summarize blockers_of decision_of count_samples count_sample percentile sorted
    insert_value item lookup text_eq
says_go = refl

qualify-go_example :
    (xs : List Sample) × (length xs ≡ 1)
    × Answered libraries allows args draw 0 xs 0 1
    × All (λ x. x.status < 400) xs
qualify-go_example =
    qualify-go libraries allows args draw fixed (pos 1) 0 1 summary (omega arith) ends_once says_go

abbrev server : AuthConfig
server = record {
  api_keys = codes "k1" ∷ [];
  require_hmac = true;
  hmac_secret = codes "s";
  max_clock_skew_sec = pos 300;
}

abbrev parsed : ScanAttachmentRequest
parsed = record {
  tenant_id = codes "tenant-qualification";
  request_id = some (round_id scenario_allow 4);
  filename = none;
  mime = none;
  file_base64 = none;
  extracted_text = some (codes "x");
  metadata = [];
}

n-NoSpace : NoSpace (codes "n")
unfolding is_space
n-NoSpace = (refl, tt)

round-verify_signature_example :
    verify_signature toy unicode server 8000000
      (delivered
        (config_of args)
        (build_headers toy unicode libraries.repr libraries.dump 7000000
          (codes "n")
          (codes "s")
          (codes "k1")
          (codes "/v1")
          (sent_payload (draw 4) 4))
        (1 ∷ []))
      parsed
    ≡ ok (codes "n")
unfolding strip lstrip_by rstrip_by is_space str_ℕ
round-verify_signature_example =
    round-verify_signature libraries toy-IsCrypto args server (draw 4) 4 8000000 parsed refl
      (λ h. cc) refl n-NoSpace (λ h. cc) refl refl (ground arith) (ground arith)
