-- ===== src/Scripts/Qualification.antt =====
-- scripts/generate_qualification_report.py: the counters over the samples, and the decision. Rates
-- and percentiles are compared as exact fractions; latencies are in microseconds.
pub mod Counts
pub mod Percentile
pub mod Clean
pub mod Report
pub mod Run
use sgraph_omega_connector.Base.{
  ℕ, zero, suc, ◌+◌, ◌-◌, ◌*◌, ◌/◌, ◌%◌, min, Bool, true, false, not, ◌&&◌, ◌||◌, List, [], ◌∷◌,
  Option, some, none, length, leb, ltb, ◌==◌, map, if◌then◌else◌,
}
use sgraph_omega_connector.Text.{Text, Unicode, codes, text_eq}
use sgraph_omega_connector.Dict.{lookup}
use sgraph_omega_connector.Json.{Json, text, object, fields}
use sgraph_omega_connector.App.{known_verdict}
use sgraph_omega_connector.SGraph.{stated_verdict}

-- SCENARIO_ALLOW, SCENARIO_QUARANTINE and SCENARIO_BLOCK
pub data Scenario : Type 0 where
  scenario_allow scenario_quarantine scenario_block : Scenario

abbrev pub expected_fallback : Scenario → Bool
expected_fallback scenario_quarantine = true
expected_fallback _ = false

abbrev pub same_scenario : Scenario → Scenario → Bool
same_scenario scenario_allow scenario_allow = true
same_scenario scenario_quarantine scenario_quarantine = true
same_scenario scenario_block scenario_block = true
same_scenario _ _ = false

-- A round of the loop: what was sent, and what `_post_signed` has returned.
pub record Sample : Type 0 where
  pub scenario : Scenario
  pub status : ℕ
  pub out : List (Text × Json)
  pub latency : ℕ

-- The variables of the loop.
pub record Tally : Type 0 where
  pub latencies : List ℕ
  pub error_count : ℕ
  pub fallback_count : ℕ
  pub unexpected_fallback_count : ℕ
  pub non_fallback_expected_total : ℕ
  pub verdict_matrix : Scenario → Text → ℕ

abbrev pub new_tally : Tally
new_tally = record {
  latencies = [];
  error_count = 0;
  fallback_count = 0;
  unexpected_fallback_count = 0;
  non_fallback_expected_total = 0;
  verdict_matrix = λ s v. 0;
}

abbrev pub is_text : Option Json → Text → Bool
is_text (some (text s)) t = text_eq s t
is_text _ t = false

-- `isinstance(trace, dict) and trace.get("source") == "connector_fallback"`
abbrev pub is_fallback_trace : Option Json → Bool
is_fallback_trace (some (object fs)) =
    is_text (lookup (codes "source") (fields fs)) (codes "connector_fallback")
is_fallback_trace _ = false

abbrev pub is_fallback : Sample → Bool
is_fallback x = is_fallback_trace (lookup (codes "policy_trace") x.out)

abbrev pub add_if : Bool → ℕ → ℕ
add_if true n = n + 1
add_if false n = n

module _ (u : Unicode) (repr : Json → Text) where
  unfoldable pub sample_verdict : Sample → Text
  sample_verdict x = known_verdict (stated_verdict u repr (lookup (codes "verdict") x.out))

  -- One round. The latencies are listed from the last to the first: they are only sorted.
  unfoldable pub count_sample : Sample → Tally → Tally
  count_sample x t = record {
    latencies = x.latency ∷ t.latencies;
    error_count = add_if (leb 400 x.status) t.error_count;
    fallback_count = add_if (is_fallback x) t.fallback_count;
    unexpected_fallback_count =
        add_if (not (expected_fallback x.scenario) && is_fallback x) t.unexpected_fallback_count;
    non_fallback_expected_total =
        add_if (not (expected_fallback x.scenario)) t.non_fallback_expected_total;
    verdict_matrix = λ s v.
        add_if (same_scenario x.scenario s && text_eq (sample_verdict x) v) (t.verdict_matrix s v);
  }

  unfoldable pub count_samples : List Sample → Tally → Tally
  count_samples [] t = t
  count_samples (x ∷ xs) t = count_samples xs (count_sample x t)

unfoldable pub insert_value : ℕ → List ℕ → List ℕ
insert_value n [] = n ∷ []
insert_value n (m ∷ ms) = let rest = insert_value n ms in if leb n m then n ∷ m ∷ ms else m ∷ rest

-- `sorted(values)`
unfoldable pub sorted : List ℕ → List ℕ
sorted [] = []
sorted (n ∷ ns) = insert_value n (sorted ns)

-- `data[i]`, on an index in range
unfoldable pub item : List ℕ → ℕ → ℕ
item [] i = 0
item (n ∷ ns) zero = n
item (n ∷ ns) (suc i) = item ns i

-- A hundred times `_percentile(values, q / 100)`
unfoldable pub percentile : List ℕ → ℕ → ℕ
percentile values q =
    let data_sorted = sorted values in
    let last = length data_sorted - 1 in
    let low = last * q / 100 in
    let high = min (low + 1) last in
    let frac = last * q % 100 in
    if low == high
    then item data_sorted low * 100
    else item data_sorted low * (100 - frac) + item data_sorted high * frac

abbrev pub at_least_one : ℕ → ℕ
at_least_one zero = 1
at_least_one (suc n) = suc n

pub data Decision : Type 0 where
  go no_go : Decision

-- The three tests for blockers: the rate of unexpected fallbacks is above 0.01, the error rate is at
-- least 0.01, and the 95th percentile is at least 1000 ms.
unfoldable pub decide_go : Tally → Decision
decide_go t =
    if ltb (at_least_one t.non_fallback_expected_total) (100 * t.unexpected_fallback_count)
    then no_go
    else if leb (at_least_one (length t.latencies)) (100 * t.error_count)
    then no_go
    else if leb 100000000 (percentile t.latencies 95)
    then no_go
    else go
