-- ===== src/Scripts/Qualification/Report.antt =====
-- scripts/generate_qualification_report.py: the blockers, the summary and its rendering. A rate is a
-- pair of numbers; how Python writes a fraction with a number of decimals is a parameter.
pub mod Decisions
use sgraph_omega_connector.Base.{
  ℕ, ◌*◌, Bool, List, [], ◌∷◌, ◌++◌, map, length, leb, ltb, if◌then◌else◌,
}
use sgraph_omega_connector.Text.{Text, codes, join, str_ℕ}
use sgraph_omega_connector.Json.{Json}
use sgraph_omega_connector.App.{allow, quarantine, block}
use sgraph_omega_connector.Scripts.Qualification.{
  Scenario, scenario_allow, scenario_quarantine, scenario_block, Tally, at_least_one, percentile,
}

-- A numerator and a denominator.
pub record Rate : Type 0 where
  pub over : ℕ
  pub under : ℕ

-- `summary`; the latencies are in hundredths of a microsecond.
pub record Summary : Type 0 where
  pub total_requests : ℕ
  pub error_rate : Rate
  pub fallback_rate : Rate
  pub unexpected_fallback_rate : Rate
  pub p50 : ℕ
  pub p95 : ℕ
  pub p99 : ℕ
  pub verdict_matrix : Scenario → Text → ℕ
  pub sample_responses : List (Text × List (Text × Json))
  pub decision : Text
  pub blockers : List Text

-- `f"{over / under:.nf}"` is `fixed n over under`.
abbrev pub Fixed : Type 0
Fixed = ℕ → ℕ → ℕ → Text

-- A latency in milliseconds, with one decimal.
abbrev pub shown_ms : Fixed → ℕ → Text
shown_ms fixed latency = fixed 1 latency 100000

abbrev pub shown_rate : Fixed → Rate → Text
shown_rate fixed rate = fixed 4 rate.over rate.under

-- `if b: blockers.append(item)`
abbrev pub append_if : Bool → Text → List Text → List Text
append_if b item blockers = if b then blockers ++ item ∷ [] else blockers

-- The rate is above 0.01; it is at least 0.01.
abbrev pub above_percent : Rate → Bool
above_percent rate = ltb rate.under (100 * rate.over)

abbrev pub at_least_percent : Rate → Bool
at_least_percent rate = leb rate.under (100 * rate.over)

unfoldable pub blockers_of : Fixed → Rate → Rate → ℕ → List Text
blockers_of fixed unexpected_fallback_rate error_rate p95 =
    append_if (leb 100000000 p95)
      (codes "latency p95 " ++ shown_ms fixed p95 ++ codes "ms >= 1000.0ms")
      (append_if (at_least_percent error_rate)
        (codes "error_rate " ++ shown_rate fixed error_rate ++ codes " >= 0.0100")
        (append_if (above_percent unexpected_fallback_rate)
          (codes "unexpected_fallback_rate "
            ++ shown_rate fixed unexpected_fallback_rate
            ++ codes " > 0.0100")
          []))

-- `"GO" if not blockers else "NO-GO"`
unfoldable pub decision_of : List Text → Text
decision_of [] = codes "GO"
decision_of (_ ∷ _) = codes "NO-GO"

-- The summary of the variables of the loop.
unfoldable pub summarize : Fixed → Tally → List (Text × List (Text × Json)) → Summary
summarize fixed t first_response =
    let total = at_least_one (length t.latencies) in
    let error_rate : Rate = record { over = t.error_count; under = total } in
    let unexpected : Rate = record {
      over = t.unexpected_fallback_count;
      under = at_least_one t.non_fallback_expected_total;
    } in
    let p95 = percentile t.latencies 95 in
    let blockers = blockers_of fixed unexpected error_rate p95 in
    record {
      total_requests = total;
      error_rate = error_rate;
      fallback_rate = record { over = t.fallback_count; under = total };
      unexpected_fallback_rate = unexpected;
      p50 = percentile t.latencies 50;
      p95 = p95;
      p99 = percentile t.latencies 99;
      verdict_matrix = t.verdict_matrix;
      sample_responses = first_response;
      decision = decision_of blockers;
      blockers = blockers;
    }

abbrev pub scenario_name : Scenario → Text
scenario_name scenario_allow = codes "allow"
scenario_name scenario_quarantine = codes "quarantine"
scenario_name scenario_block = codes "block"

-- A row of the table.
abbrev pub matrix_row : Summary → Scenario → Text
matrix_row s sc =
    codes "| "
    ++ scenario_name sc
    ++ codes " | "
    ++ str_ℕ (s.verdict_matrix sc allow)
    ++ codes " | "
    ++ str_ℕ (s.verdict_matrix sc quarantine)
    ++ codes " | "
    ++ str_ℕ (s.verdict_matrix sc block)
    ++ codes " |"

-- What stands under "## Blockers".
unfoldable pub blocker_lines : List Text → List Text
blocker_lines [] = codes "- none" ∷ []
blocker_lines (item ∷ blockers) = map (λ b. codes "- " ++ b) (item ∷ blockers)

-- `lines` of `_render_markdown`
unfoldable pub report_lines : Fixed → Summary → List Text
report_lines fixed s =
    (codes "# Qualification Report"
      ∷ []
      ∷ (codes "- Decision: **" ++ s.decision ++ codes "**")
      ∷ (codes "- Total requests: " ++ str_ℕ s.total_requests)
      ∷ (codes "- Error rate: " ++ shown_rate fixed s.error_rate)
      ∷ (codes "- Fallback rate (overall): " ++ shown_rate fixed s.fallback_rate)
      ∷ (codes "- Fallback rate (unexpected): " ++ shown_rate fixed s.unexpected_fallback_rate)
      ∷ (codes "- Latency p50/p95/p99 (ms): "
          ++ shown_ms fixed s.p50
          ++ codes " / "
          ++ shown_ms fixed s.p95
          ++ codes " / "
          ++ shown_ms fixed s.p99)
      ∷ []
      ∷ codes "## Verdict Matrix"
      ∷ []
      ∷ codes "| Scenario | allow | quarantine | block |"
      ∷ codes "| --- | ---: | ---: | ---: |"
      ∷ map (matrix_row s) (scenario_allow ∷ scenario_quarantine ∷ scenario_block ∷ []))
    ++ ([] ∷ codes "## Blockers" ∷ [] ∷ blocker_lines s.blockers)
    ++ [] ∷ []

-- `_render_markdown`
unfoldable pub render_markdown : Fixed → Summary → Text
render_markdown fixed s = join b'\n' (report_lines fixed s)
