-- ===== src/Scripts/Probing.antt =====
-- scripts/e2e_connector_body_limit_probe.py and scripts/e2e_connector_boundary_20mb.py: the runs,
-- which send files of growing sizes and write down what comes back.
pub mod Rows
use sgraph_omega_connector.Base.{
  ℕ, Bool, true, false, ◌==◌, List, [], ◌∷◌, ◌++◌, Option, some, none, Result, ok, raise, length,
  if◌then◌else◌,
}
use sgraph_omega_connector.Base.Int.{ℤ, pos, negsuc}
use sgraph_omega_connector.Text.{Text, Unicode, codes, str_ℤ}
use sgraph_omega_connector.Codec.{Crypto}
use sgraph_omega_connector.Json.{Json, field, end, text, object}
use sgraph_omega_connector.Errors.{Exception, unexpected}
use sgraph_omega_connector.SGraph.{SignedHeaders, b64encode}
use sgraph_omega_connector.Scripts.{build_headers}
use sgraph_omega_connector.Scripts.Flow.{
  Flow, resume, ◌>>=◌, lift, Wire, answered, http_failed, unreachable, Decoder, error_body,
}
use sgraph_omega_connector.Scripts.Answers.{get_dict}
use sgraph_omega_connector.Scripts.Transfer.{Libraries}
use sgraph_omega_connector.Scripts.Probe.{
  mk_bytes, probe_seed, boundary_seed, looks_like_nginx_413, parse_sizes, boundary_sizes,
}

-- The arguments of the command line that matter.
pub record ProbeArgs : Type 0 where
  pub tenant_id : Text
  pub path : Text
  pub api_key : Text
  pub hmac_secret : Text

-- An entry of the results.
pub record ProbeRow : Type 0 where
  pub file_size_bytes : ℤ
  pub request_body_bytes : ℕ
  pub http_status : ℕ
  pub looks_like_413 : Bool
  pub response : Json

-- What a request draws: the end of its id, the nonce and the clock.
pub record ProbeDraw : Type 0 where
  pub request_hex : Text
  pub nonce : Text
  pub now : ℕ

-- `_mk_bytes` of a size that may be negative, for which the loop does not run.
unfoldable pub sized_bytes : List ℕ → ℤ → Option (List ℕ)
sized_bytes seed (pos n) = mk_bytes seed n
sized_bytes seed (negsuc n) = some []

-- `_post_json`: here the text of a reply is decoded with `errors="replace"`.
unfoldable pub post_reply : Decoder → Wire → Result Exception (ℕ × Json)
post_reply d (answered status []) = ok (status, object end)
post_reply d (answered status (b ∷ bs)) = elim (d.loads (d.decode_replace (b ∷ bs))) [
  | none ↦ raise (unexpected "JSONDecodeError")
  | some j ↦ ok (status, j)
]
post_reply d (http_failed status raw) = ok (status, error_body d raw)
post_reply d unreachable = raise (unexpected "URLError")

-- `bool(status == 413 and _looks_like_nginx_413(response))`
unfoldable pub flag_413 : (Json → Text) → ℕ → Json → Result Exception Bool
flag_413 repr status response =
    if status == 413
    then elim (get_dict response) [ raise e ↦ raise e | ok fs ↦ ok (looks_like_nginx_413 repr fs) ]
    else ok false

module _ {S : Type 0} (l : Libraries) (send : SignedHeaders → List (Text × Json) → S → S × Wire)
    (args : ProbeArgs) where
  abbrev pub probe_payload : Text → Text → Text → List ℕ → List (Text × Json)
  probe_payload request_id filename suite content =
      (codes "tenant_id", text args.tenant_id)
      ∷ (codes "request_id", text request_id)
      ∷ (codes "filename", text filename)
      ∷ (codes "mime", text (codes "application/octet-stream"))
      ∷ (codes "file_base64", text (b64encode content))
      ∷ (codes "metadata", object (field (codes "suite") (text suite) end))
      ∷ []

  -- The request of a round, signed and sent.
  abbrev pub post_probe : ProbeDraw → List (Text × Json) → Flow S (ℕ × Json)
  post_probe d payload = λ s.
      let headers =
        build_headers l.crypto l.unicode l.repr l.dump d.now d.nonce args.hmac_secret args.api_key
          args.path payload in
      let (s', w) = send headers payload s in (s', post_reply l.decoder w)

  -- The bytes, which `mk_bytes` always gives.
  abbrev pub made : Option (List ℕ) → Result Exception (List ℕ)
  made none = raise (unexpected "MemoryError")
  made (some bs) = ok bs

  -- A round of the body limit probe.
  unfoldable pub probe_size : ProbeDraw → ℤ → Flow S ProbeRow
  probe_size d size = do
    content ← lift (made (sized_bytes probe_seed size))
    let payload =
        probe_payload (codes "body-limit-" ++ str_ℤ size ++ b'-' ∷ d.request_hex)
          (codes "probe-" ++ str_ℤ size ++ codes ".bin") (codes "body_limit_probe") content
    answer ← post_probe d payload
    flag ← lift (flag_413 l.repr answer.0 answer.1)
    lift (
        ok (record {
          file_size_bytes = size;
          request_body_bytes = length (l.dump payload);
          http_status = answer.0;
          looks_like_413 = flag;
          response = answer.1;
        }))

  unfoldable pub probe_sizes : List (ProbeDraw × ℤ) → Flow S (List ProbeRow)
  probe_sizes [] = lift (ok [])
  probe_sizes ((d, size) ∷ rounds) = do
    row ← probe_size d size
    rows ← probe_sizes rounds
    lift (ok (row ∷ rows))

  -- A round of the boundary run, which raises no flag.
  unfoldable pub boundary_size : ProbeDraw → Text → ℕ → Flow S ProbeRow
  boundary_size d name size = do
    content ← lift (made (mk_bytes boundary_seed size))
    let payload =
        probe_payload (name ++ b'-' ∷ d.request_hex) (name ++ codes ".bin")
          (codes "boundary_20mb_via_connector") content
    answer ← post_probe d payload
    lift (
        ok (record {
          file_size_bytes = pos size;
          request_body_bytes = length (l.dump payload);
          http_status = answer.0;
          looks_like_413 = false;
          response = answer.1;
        }))

  unfoldable pub boundary_run : List (ProbeDraw × (Text × ℕ)) → Flow S (List ProbeRow)
  boundary_run [] = lift (ok [])
  boundary_run ((d, (name, size)) ∷ rounds) = do
    row ← boundary_size d name size
    rows ← boundary_run rounds
    lift (ok (row ∷ rows))
