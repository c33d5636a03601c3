-- ===== src/Scripts/Qualification/Clean.antt =====
-- When the decision is GO.
use sgraph_omega_connector.Base.{
  ℕ, zero, suc, ◌≤◌, ◌<◌, false, not, ◌&&◌, List, [], ◌∷◌, length, ◌≡◌, refl, All, arith,
}
use sgraph_omega_connector.Text.{Text, Unicode}
use sgraph_omega_connector.Json.{Json}
use sgraph_omega_connector.Scripts.Qualification.{
  expected_fallback, Sample, Tally, new_tally, is_fallback, count_sample, count_samples,
  at_least_one, go, decide_go,
}
use sgraph_omega_connector.Scripts.Qualification.Percentile.{AtMost, percentile-le}

-- The sample has no HTTP error, took less than a second, and is no fallback unless one is expected.
pub record IsClean (x : Sample) : Type 0 where
  pub status : x.status < 400
  pub expected : not (expected_fallback x.scenario) && is_fallback x ≡ false
  pub latency : x.latency ≤ 999999

-- What the loop has counted so far gives no blocker.
record IsCleanTally (t : Tally) : Type 0 where
  errors : t.error_count ≡ 0
  unexpected : t.unexpected_fallback_count ≡ 0
  latencies : AtMost 999999 t.latencies

module _ (u : Unicode) (repr : Json → Text) where
  count_sample-IsCleanTally :
      (x : Sample) (t : Tally) → IsClean x → IsCleanTally t → IsCleanTally (count_sample u repr x t)
  unfolding count_sample
  count_sample-IsCleanTally x t c h = record {
    errors = ground (arith, h.errors, c.status);
    unexpected = rw c.expected h.unexpected;
    latencies = (c.latency, h.latencies);
  }

  count_samples-IsCleanTally :
      (xs : List Sample) (t : Tally)
      → All IsClean xs
      → IsCleanTally t
      → IsCleanTally (count_samples u repr xs t)
  unfolding count_samples
  count_samples-IsCleanTally [] t c h = h
  count_samples-IsCleanTally (x ∷ xs) t (c, cs) h =
      count_samples-IsCleanTally xs (count_sample u repr x t) cs (count_sample-IsCleanTally x t c h)

  at_least_one-pos : (n : ℕ) → 0 < at_least_one n
  at_least_one-pos zero = omega arith
  at_least_one-pos (suc n) = omega arith

  -- The decision is GO when every sample has a status below 400, took less than a second, and is a
  -- fallback only where one is expected.
  pub decide_go-IsClean :
      (xs : List Sample) → All IsClean xs → decide_go (count_samples u repr xs new_tally) ≡ go
  unfolding decide_go
  decide_go-IsClean xs cs =
      let t = count_samples u repr xs new_tally in
      let h =
        count_samples-IsCleanTally xs new_tally cs
          (record { errors = refl; unexpected = refl; latencies = tt }) in
      ground (
        arith,
        h.errors,
        h.unexpected,
        percentile-le 999999 t.latencies 95 h.latencies,
        at_least_one-pos (length t.latencies),
        at_least_one-pos t.non_fallback_expected_total,
      )
