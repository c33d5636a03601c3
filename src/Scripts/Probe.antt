-- ===== src/Scripts/Probe.antt =====
-- scripts/e2e_connector_body_limit_probe.py and scripts/e2e_connector_boundary_20mb.py: files of
-- given sizes, and the answers that their requests get.
pub mod Bytes
pub mod Sizes
use sgraph_omega_connector.Base.{
  ℕ, zero, suc, ◌+◌, ◌*◌, Bool, true, false, ◌&&◌, ◌||◌, ◌==◌, List, [], ◌∷◌, ◌++◌, map, Option,
  some, none, Result, ok, raise, ◌>>=◌, length, take, ltb, if◌then◌else◌,
}
use sgraph_omega_connector.Base.Int.{ℤ}
use sgraph_omega_connector.Text.{Text, Unicode, codes, strip, truthy, split, int_of, starts_with}
use sgraph_omega_connector.Dict.{lookup}
use sgraph_omega_connector.Json.{Json, str_json}
use sgraph_omega_connector.Errors.{Exception, unexpected}

-- The seeds of `_mk_bytes` in the two scripts
abbrev pub probe_seed : List ℕ
probe_seed = codes "SGraphOmegaConnectorBodyLimitProbe"

abbrev pub boundary_seed : List ℕ
boundary_seed = codes "SGraphOmegaConnectorBoundary20MB"

-- `while len(out) < size: out.extend(seed)`; `none` where the fuel has run out
unfoldable pub extend_to : ℕ → List ℕ → ℕ → List ℕ → Option (List ℕ)
extend_to zero seed size out = if ltb (length out) size then none else some out
extend_to (suc fuel) seed size out =
    let rest = extend_to fuel seed size (out ++ seed) in
    if ltb (length out) size then rest else some out

-- `_mk_bytes`; each round adds a byte at least, so that as many rounds as bytes are enough.
unfoldable pub mk_bytes : List ℕ → ℕ → Option (List ℕ)
mk_bytes seed size = elim (extend_to size seed size []) [
  | none ↦ none
  | some out ↦ some (take size out)
]

-- `needle in text`
unfoldable pub contains : Text → Text → Bool
contains needle [] = starts_with needle []
contains needle (c ∷ s) = starts_with needle (c ∷ s) || contains needle s

-- `str(response.get("raw", ""))`
abbrev raw_text : (Json → Text) → Option Json → Text
raw_text repr none = []
raw_text repr (some j) = str_json repr j

-- `_looks_like_nginx_413`
unfoldable pub looks_like_nginx_413 : (Json → Text) → List (Text × Json) → Bool
looks_like_nginx_413 repr response =
    let raw = raw_text repr (lookup (codes "raw") response) in
    contains (codes "413 Request Entity Too Large") raw && contains (codes "nginx/") raw

-- `status == 413 and _looks_like_nginx_413(response)`
abbrev pub is_nginx_413 : (Json → Text) → ℕ → List (Text × Json) → Bool
is_nginx_413 repr status response = status == 413 && looks_like_nginx_413 repr response

-- The loop of `_parse_sizes` over the chunks of the text.
unfoldable pub size_values : Unicode → List Text → Result Exception (List ℤ)
size_values u [] = ok []
size_values u (chunk ∷ chunks) =
    let item = strip chunk in
    let rest = size_values u chunks in
    if truthy item
    then elim (int_of u item) [
      | none ↦ raise (unexpected "ValueError")
      | some n ↦ rest >>= λ ns. ok (n ∷ ns)
    ]
    else rest

-- `_parse_sizes`
unfoldable pub parse_sizes : Unicode → Text → Result Exception (List ℤ)
parse_sizes u raw = elim (size_values u (split b',' raw)) [
  | raise e ↦ raise e
  | ok [] ↦ raise (unexpected "ValueError")
  | ok (n ∷ ns) ↦ ok (n ∷ ns)
]

-- The sizes around the limit of 20 MiB, with the names of their scenarios.
abbrev pub boundary_sizes : List (Text × ℕ)
boundary_sizes =
    (codes "file_boundary_minus_1k", 20970496)
    ∷ (codes "file_boundary_exact_20mb", 20971520)
    ∷ (codes "file_boundary_plus_1k", 20972544)
    ∷ []
