-- ===== src/Scripts/Answers.antt =====
-- What the end-to-end scripts read out of the JSON that they receive: from
-- scripts/e2e_sgraph_real_path.py, and in the same words in
-- scripts/e2e_sgraph_upstream_connector_path.py.
use sgraph_omega_connector.Base.{
  ℕ, Bool, not, ◌||◌, ◌==◌, List, [], ◌∷◌, map, all, Option, some, none, Result, ok, raise,
  raise_if, ◌≡◌, refl, arith, ◌>>=◌, ◌>>◌, if◌then◌else◌,
}
use sgraph_omega_connector.Text.{Text, codes, starts_with, text_eq}
use sgraph_omega_connector.Dict.{lookup}
use sgraph_omega_connector.Json.{
  Json, Fields, text, array, object, items, fields, is_truthy, str_json,
}
use sgraph_omega_connector.Errors.{Exception, unexpected}
use sgraph_omega_connector.App.{text_or}

-- `j.get`, which only a dictionary has
unfoldable pub get_dict : Json → Result Exception (List (Text × Json))
get_dict (object fs) = ok (fields fs)
get_dict _ = raise (unexpected "AttributeError")

-- `str((meta or {}).get("filename") or scenario.filename)`
unfoldable pub filename_of : (Json → Text) → Option Json → Text → Result Exception Text
filename_of repr none filename = ok filename
filename_of repr (some (object fs)) filename =
    ok (text_or repr (lookup (codes "filename") (fields fs)) filename)
filename_of repr (some j) filename =
    if is_truthy j then raise (unexpected "AttributeError") else ok filename

-- `[str(x) for x in body.get("reasons", [])]`
unfoldable pub listed_reasons : (Json → Text) → Option Json → Result Exception (List Text)
listed_reasons repr none = ok []
listed_reasons repr (some (array js)) = ok (map (str_json repr) (items js))
listed_reasons repr (some (object fs)) = ok (map (λ e. e.0) (fields fs))
listed_reasons repr (some (text s)) = ok (map (λ c. c ∷ []) s)
listed_reasons repr (some _) = raise (unexpected "TypeError")

unfoldable pub is_fallback_reason : Text → Bool
is_fallback_reason r =
    starts_with (codes "omega_") r
    || text_eq r (codes "omega_timeout")
    || text_eq r (codes "omega_unavailable")

-- `strict_no_fallback and fallback_reasons` is not what stops the run
abbrev pub is_tolerated : Bool → List Text → Bool
is_tolerated strict reasons = not strict || all (λ r. not (is_fallback_reason r)) reasons

-- The answer to a scan, where the status is 200 and a strict run finds no fallback.
unfoldable pub accept_answer : (Json → Text) → Bool → ℕ → Json → Result Exception Json
accept_answer repr strict status answer = do
  raise_if (not (status == 200)) (unexpected "RuntimeError")
  body ← get_dict answer
  reasons ← listed_reasons repr (lookup (codes "reasons") body)
  raise_if (not (is_tolerated strict reasons)) (unexpected "RuntimeError")
  ok answer

pub get_dict-eq-ok :
    (j : Json) (m : List (Text × Json))
    → get_dict j ≡ ok m
    → (fs : Fields) × (j ≡ object fs) × (m ≡ fields fs)
unfolding get_dict
get_dict-eq-ok (object fs) m h = (fs, refl, ground (arith, h))
get_dict-eq-ok _ m h = absurd (ground (arith, h))
