-- ===== src/Scripts/Performance.antt =====
-- scripts/perf_report.py: what the report takes from the summary of a load test.
pub mod Layouts
pub mod Report
use Prim.Native.String.{String}
use sgraph_omega_connector.Base.{
  false, List, [], ◌∷◌, Option, some, none, Result, ok, raise, ◌>>=◌, if◌then◌else◌,
}
use sgraph_omega_connector.Base.Int.{pos}
use sgraph_omega_connector.Text.{Text, codes}
use sgraph_omega_connector.Dict.{lookup}
use sgraph_omega_connector.Json.{
  Json, Float, Fields, field, end, null, float, object, fields, is_truthy,
}
use sgraph_omega_connector.Errors.{Exception, unexpected}

abbrev pub object_or_empty : Option Json → List (Text × Json)
object_or_empty (some (object fs)) = fields fs
object_or_empty _ = []

-- `summary.get("metrics", {}).get(name, {})`, if it is an object
unfoldable pub metric_in : Option Json → Text → Result Exception (List (Text × Json))
metric_in none name = ok []
metric_in (some (object fs)) name = ok (object_or_empty (lookup name (fields fs)))
metric_in (some _) name = raise (unexpected "AttributeError")

-- The entries under "values", if there are any; else those of the metric itself.
abbrev pub values_or : Option Json → List (Text × Json) → List (Text × Json)
values_or (some (object (field k j fs))) metric = (k, j) ∷ fields fs
values_or _ metric = metric

unfoldable pub values : List (Text × Json) → Text → Result Exception (List (Text × Json))
values summary name = metric_in (lookup (codes "metrics") summary) name >>= λ metric.
    ok (values_or (lookup (codes "values") metric) metric)

abbrev pub zero_float : Float
zero_float = record { truncated = some (pos 0); nonzero = false; shown = codes "0.0" }

abbrev pub or_zero : Option Json → Json
or_zero none = float zero_float
or_zero (some j) = j

-- `a = m.get(key)`, and `m.get(other, 0.0)` if that is None
abbrev pub first_or : Option Json → Option Json → Json
first_or none other = or_zero other
first_or (some null) other = or_zero other
first_or (some j) other = j

unfoldable pub first_of : List (Text × Json) → String → String → Json
first_of m key other = first_or (lookup (codes key) m) (lookup (codes other) m)

pub record Metrics : Type 0 where
  pub http_req_failed_rate : Float
  pub fallback_rate : Float
  pub unexpected_fallback_rate : Float
  pub scenario_error_rate : Float
  pub p50 : Float
  pub p95 : Float
  pub p99 : Float
  pub avg : Float

-- `float(j)` is the argument `to_float`; `float(j or 0.0)`
abbrev pub float_or_zero : (Json → Result Exception Float) → Json → Result Exception Float
float_or_zero to_float j = if is_truthy j then to_float j else to_float (float zero_float)

unfoldable pub extract :
    (Json → Result Exception Float) → List (Text × Json) → Result Exception Metrics
extract to_float summary = do
  duration ← values summary (codes "http_req_duration")
  failed ← values summary (codes "http_req_failed")
  fallback ← values summary (codes "fallback_rate")
  unexpected_fallback ← values summary (codes "unexpected_fallback_rate")
  scenario_error ← values summary (codes "scenario_error_rate")
  err_value ← to_float (first_of failed "rate" "value")
  fallback_value ← to_float (first_of fallback "rate" "value")
  unexpected_value ← to_float (first_of unexpected_fallback "rate" "value")
  scenario_value ← to_float (first_of scenario_error "rate" "value")
  p50 ← float_or_zero to_float (first_of duration "p(50)" "med")
  p95 ← float_or_zero to_float (first_of duration "p(95)" "p95")
  p99 ← float_or_zero to_float (first_of duration "p(99)" "p99")
  avg ← to_float (or_zero (lookup (codes "avg") duration))
  ok (record {
    http_req_failed_rate = err_value;
    fallback_rate = fallback_value;
    unexpected_fallback_rate = unexpected_value;
    scenario_error_rate = scenario_value;
    p50 = p50;
    p95 = p95;
    p99 = p99;
    avg = avg;
  })
