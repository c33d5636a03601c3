-- ===== src/Scripts/Flow.antt =====
-- What the end-to-end scripts do over HTTP: steps that act on the world of the services they call,
-- and that return or raise. From scripts/e2e_sgraph_real_path.py: `_http_json` and `_http_bytes`.
pub mod Inversion
use sgraph_omega_connector.Base.{
  ℕ, List, [], ◌∷◌, Option, some, none, Result, ok, raise, Bool, true, false, length,
}
use sgraph_omega_connector.Text.{Text, codes}
use sgraph_omega_connector.Json.{Json, text, object, field, end}
use sgraph_omega_connector.Errors.{Exception, unexpected}

abbrev pub Flow : Type 0 → Type 0 → Type 0
Flow S A = S → S × Result Exception A

-- The rest of the chain, where it has not raised.
unfoldable pub resume :
    {S A B : Type 0} → S × Result Exception A → (A → Flow S B) → S × Result Exception B
resume (s, ok a) f = f a s
resume (s, raise e) f = (s, raise e)

infixl 5 ◌>>=◌ ◌>>◌
abbrev pub ◌>>=◌ : {S A B : Type 0} → Flow S A → (A → Flow S B) → Flow S B
m >>= f = λ s. resume (m s) f

abbrev pub ◌>>◌ : {S B : Type 0} → Flow S (Unit {0}) → Flow S B → Flow S B
m >> k = m >>= λ _. k

abbrev pub lift : {S A : Type 0} → Result Exception A → Flow S A
lift r = λ s. (s, r)

-- `if not b: raise RuntimeError(...)`
abbrev pub ensure : {S : Type 0} → Bool → Flow S (Unit {0})
ensure true = lift (ok tt)
ensure false = lift (raise (unexpected "RuntimeError"))

-- What `urlopen` gives: a reply, an `HTTPError` with its status and its body, or another exception.
pub data Wire : Type 0 where
  answered http_failed : ℕ → List ℕ → Wire
  unreachable : Wire

-- `bytes.decode("utf-8")`, the same with `errors="replace"`, and `json.loads`
pub record Decoder : Type 0 where
  pub decode : List ℕ → Option Text
  pub decode_replace : List ℕ → Text
  pub loads : Text → Option Json

-- `json.loads(raw.decode("utf-8"))`
unfoldable pub loads_bytes : Decoder → List ℕ → Option Json
loads_bytes d raw = elim (d.decode raw) [ none ↦ none | some s ↦ d.loads s ]

abbrev loaded : ℕ → Option Json → Result Exception (ℕ × Json)
loaded status none = raise (unexpected "ValueError")
loaded status (some j) = ok (status, j)

-- The body of an `HTTPError`, parsed or as it is.
abbrev pub error_body : Decoder → List ℕ → Json
error_body d [] = object end
error_body d (b ∷ bs) =
    let raw = d.decode_replace (b ∷ bs) in
    elim (d.loads raw) [ none ↦ object (field (codes "raw") (text raw) end) | some j ↦ j ]

-- `_http_json`, from what has come over the wire
unfoldable pub http_json : Decoder → Wire → Result Exception (ℕ × Json)
http_json d (answered status []) = ok (status, object end)
http_json d (answered status (b ∷ bs)) = loaded status (loads_bytes d (b ∷ bs))
http_json d (http_failed status raw) = ok (status, error_body d raw)
http_json d unreachable = raise (unexpected "URLError")

-- `_http_bytes`
unfoldable pub http_bytes : Wire → Result Exception (ℕ × List ℕ)
http_bytes (answered status raw) = ok (status, raw)
http_bytes (http_failed status raw) = ok (status, raw)
http_bytes unreachable = raise (unexpected "URLError")
