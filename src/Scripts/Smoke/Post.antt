-- ===== src/Scripts/Smoke/Post.antt =====
-- scripts/smoke_local.py: the signed request of a scenario, and `main` with it.
use sgraph_omega_connector.Base.{ℕ, ◌==◌, Bool, List, ◌++◌, some, none, Result, ok, raise}
use sgraph_omega_connector.Text.{Text, starts_with, codes, rstrip_by}
use sgraph_omega_connector.Json.{Json}
use sgraph_omega_connector.Errors.{Exception, unexpected}
use sgraph_omega_connector.SGraph.{SignedHeaders}
use sgraph_omega_connector.Scripts.{build_headers}
use sgraph_omega_connector.Scripts.Flow.{
  Flow, Wire, answered, http_failed, unreachable, Decoder, loads_bytes,
}
use sgraph_omega_connector.Scripts.Transfer.{Libraries}
use sgraph_omega_connector.Scripts.Smoke.{smoke_scenarios, smoke}

-- The arguments of the command line.
pub record SmokeArgs : Type 0 where
  pub base_url : Text
  pub path : Text
  pub api_key : Text
  pub hmac_secret : Text
  pub strict : Bool

-- A request as `urlopen` gets it: whether the context is the unverified one, the address, the headers
-- and the payload.
pub record Posting : Type 0 where
  pub unverified : Bool
  pub url : Text
  pub headers : SignedHeaders
  pub payload : List (Text × Json)

-- `f"{args.base_url.rstrip('/')}{args.path}"`
unfoldable pub post_url : SmokeArgs → Text
post_url args = rstrip_by (λ c. c == b'/') args.base_url ++ args.path

-- What `_post_json` returns of an exchange; the status of an error is raised.
unfoldable pub posted_json : Decoder → Wire → Result Exception Json
posted_json d (answered status raw) = elim (loads_bytes d raw) [
  | none ↦ raise (unexpected "ValueError")
  | some j ↦ ok j
]
posted_json d (http_failed status raw) = raise (unexpected "HTTPError")
posted_json d unreachable = raise (unexpected "URLError")

module _ {S : Type 0} (l : Libraries) (clock : S → ℕ × Text) (send : Posting → S → S × Wire)
    (args : SmokeArgs) where
  -- `build_headers` and `_post_json`; the state gives the clock and a fresh UUID.
  unfoldable pub post_signed_json : List (Text × Json) → Flow S Json
  post_signed_json payload = λ s.
      let (now, nonce) = clock s in
      let url = post_url args in
      let (s', w) =
        send
          (record {
            unverified = starts_with (codes "https://") url;
            url = url;
            headers =
                build_headers l.crypto l.unicode l.repr l.dump now nonce args.hmac_secret
                  args.api_key args.path payload;
            payload = payload;
          })
          s in
      (s', posted_json l.decoder w)

  -- `main`
  unfoldable pub smoke_main : Flow S ℕ
  smoke_main = smoke l.repr post_signed_json args.strict smoke_scenarios
