-- ===== src/Scripts/Healthcheck.antt =====
-- scripts/compose_healthcheck.py: three addresses are fetched, and the exit code says whether all of
-- them answered.
use sgraph_omega_connector.Base.{
  ℕ, Bool, List, [], ◌∷◌, ◌++◌, Result, ok, raise, ◌==◌, ◌≡◌, ◌↔◌, refl, arith,
}
use sgraph_omega_connector.Base.Int.{pos}
use sgraph_omega_connector.Text.{Text, codes, starts_with, rstrip_by}
use sgraph_omega_connector.Json.{Json, field, end, text, integer, object}

-- What `urlopen` gives: a reply with its status and its body, or the text of its exception.
pub data Opened : Type 0 where
  opened : ℕ → List ℕ → Opened
  refused : Text → Opened

-- A check of the dictionary `checks`, in its order: a document, or only a status.
pub data Check : Type 0 where
  connector omega sgraph_docs : Check

abbrev pub check_name : Check → Text
check_name connector = codes "connector"
check_name omega = codes "omega"
check_name sgraph_docs = codes "sgraph_docs"

-- `args.base_url.rstrip("/")`
abbrev pub base_of : Text → Text
base_of base_url = rstrip_by (λ c. c == b'/') base_url

unfoldable pub check_url : Text → Check → Text
check_url base connector = base ++ codes "/healthz"
check_url base omega = base ++ codes "/omega/healthz"
check_url base sgraph_docs = base ++ codes "/sgraph/api/docs"

-- A request: whether its context is the unverified one, and its address.
abbrev pub Open : Type 0
Open = Bool → Text → Opened

abbrev open_url : Open → Text → Opened
open_url urlopen url = urlopen (starts_with (codes "https://") url) url

-- The result is a value.
abbrev pub Succeeds : {A : Type 0} → Result Text A → Type 0
Succeeds {A = A} r = (a : A) × (r ≡ ok a)

module _ (loads : List ℕ → Result Text Json) (repr : Json → Text) (urlopen : Open) where
  abbrev json_of : Opened → Result Text Json
  json_of (opened status body) = loads body
  json_of (refused exc) = raise exc

  unfoldable pub fetch_json : Text → Result Text Json
  fetch_json url = json_of (open_url urlopen url)

  abbrev status_of : Opened → Result Text ℕ
  status_of (opened status body) = ok status
  status_of (refused exc) = raise exc

  unfoldable pub fetch_status : Text → Result Text ℕ
  fetch_status url = status_of (open_url urlopen url)

  abbrev as_data : Result Text ℕ → Result Text Json
  as_data (ok status) = ok (
      object (
        field (codes "status") (text (codes "ok"))
          (field (codes "http_status") (integer (pos status)) end)))
  as_data (raise exc) = raise exc

  -- What the `try` statement binds to `data`.
  unfoldable pub checked : Text → Check → Result Text Json
  checked base connector = fetch_json (check_url base connector)
  checked base omega = fetch_json (check_url base omega)
  checked base sgraph_docs = as_data (fetch_status (check_url base sgraph_docs))

  abbrev check_line : Check → Result Text Json → Text
  check_line c (ok data_of) = check_name c ++ codes ": ok " ++ repr data_of
  check_line c (raise exc) = check_name c ++ codes ": fail (" ++ exc ++ codes ")"

  abbrev failed_name : Check → Result Text Json → List Text
  failed_name c (ok data_of) = []
  failed_name c (raise exc) = check_name c ∷ []

  -- The loop: the lines that it prints, and `failures`.
  unfoldable pub run_checks : Text → List Check → List Text × List Text
  run_checks base [] = ([], [])
  run_checks base (c ∷ cs) =
      let result = checked base c in
      let (lines, failures) = run_checks base cs in
      (check_line c result ∷ lines, failed_name c result ++ failures)

  abbrev exit_of : List Text → ℕ
  exit_of [] = 0
  exit_of (_ ∷ _) = 1

  -- `main`: the printed lines and the exit code.
  unfoldable pub healthcheck : Text → List Text × ℕ
  healthcheck base_url =
      let (lines, failures) =
        run_checks (base_of base_url) (connector ∷ omega ∷ sgraph_docs ∷ []) in
      (lines, exit_of failures)

  exits :
      (a b : Result Text Json) (c : Result Text ℕ)
      → (exit_of (
            failed_name connector a
            ++ (failed_name omega b ++ (failed_name sgraph_docs (as_data c) ++ [])))
          ≡ 0)
        ↔ (Succeeds a × Succeeds b × Succeeds c)
  exits (ok a) (ok b) (ok c) = ((λ h. ((a, refl), (b, refl), (c, refl))), (λ h. refl))
  exits (ok a) (ok b) (raise e) =
      ((λ h. absurd (ground (arith, h))), (λ (x, y, (z, h)). absurd (ground (arith, h))))
  exits (ok a) (raise e) c =
      ((λ h. absurd (ground (arith, h))), (λ (x, (y, h), z). absurd (ground (arith, h))))
  exits (raise e) b c =
      ((λ h. absurd (ground (arith, h))), (λ ((x, h), y, z). absurd (ground (arith, h))))

  -- The check exits with 0 exactly when the connector and Omega answer with some JSON document,
  -- whatever it says, and the documentation of SGraph is answered by any reply.
  pub healthcheck-eq-zero :
      (base_url : Text)
      → let base = base_of base_url in
        ((healthcheck base_url).1 ≡ 0) ↔ (
          Succeeds (fetch_json (base ++ codes "/healthz"))
          × Succeeds (fetch_json (base ++ codes "/omega/healthz"))
          × Succeeds (fetch_status (base ++ codes "/sgraph/api/docs")))
  unfolding healthcheck run_checks checked check_url
  healthcheck-eq-zero base_url = exits _ _ _
