-- ===== src/Scripts/Performance/Layouts.antt =====
-- The two layouts of a summary.
use sgraph_omega_connector.Base.{List, [], ◌∷◌, none, Result, ◌≡◌, refl, All, inl, inr, Bool-cases}
use sgraph_omega_connector.Text.{Text, codes, text_eq}
use sgraph_omega_connector.Dict.{lookup}
use sgraph_omega_connector.Json.{Json, Float, Fields, field, end, object, fields}
use sgraph_omega_connector.Errors.{Exception}
use sgraph_omega_connector.Scripts.Performance.{metric_in, values, extract}

-- A metric: its name, and its entries, of which there is a first one.
pub record Metric : Type 0 where
  pub name : Text
  pub key : Text
  pub entry : Json
  pub others : Fields

abbrev pub entries : Metric → Fields
entries m = field m.key m.entry m.others

-- The entries under the metric's name, or one level deeper, under "values".
abbrev pub flat : List Metric → Fields
flat [] = end
flat (m ∷ ms) = field m.name (object (entries m)) (flat ms)

abbrev pub nested : List Metric → Fields
nested [] = end
nested (m ∷ ms) =
    field m.name (object (field (codes "values") (object (entries m)) end)) (nested ms)

abbrev pub summary_of : Fields → List (Text × Json)
summary_of metrics = (codes "metrics", object metrics) ∷ []

-- No entry of the metric is named "values".
abbrev pub IsPlain : Metric → Type 0
IsPlain m = lookup (codes "values") (fields (entries m)) ≡ none

values-nested :
    (ms : List Metric) (name : Text)
    → All IsPlain ms
    → values (summary_of (nested ms)) name ≡ values (summary_of (flat ms)) name
unfolding values metric_in lookup text_eq
values-nested [] name h = refl
values-nested (m ∷ ms) name (plain, h) = elim (Bool-cases (text_eq m.name name)) [
  | inl same ↦ rw (same, plain) refl
  | inr other ↦ rw other (values-nested ms name h)
]

-- A summary gives the same figures, or the same exception, in both layouts, if no entry of a metric
-- is itself named "values".
pub extract-nested :
    (to_float : Json → Result Exception Float) (ms : List Metric)
    → All IsPlain ms
    → extract to_float (summary_of (nested ms)) ≡ extract to_float (summary_of (flat ms))
unfolding extract
extract-nested to_float ms h =
    rw
      (
        values-nested ms (codes "http_req_duration") h,
        values-nested ms (codes "http_req_failed") h,
        values-nested ms (codes "fallback_rate") h,
        values-nested ms (codes "unexpected_fallback_rate") h,
        values-nested ms (codes "scenario_error_rate") h,
      )
      refl
