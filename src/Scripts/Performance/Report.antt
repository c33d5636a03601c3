-- ===== src/Scripts/Performance/Report.antt =====
-- scripts/perf_report.py: the table, and `main` up to the files that it writes.
use sgraph_omega_connector.Base.{
  ℕ, List, [], ◌∷◌, ◌++◌, Option, some, none, Option-cases, Result, ok_injective, ok, raise, ◌>>=◌,
  ◌≡◌, ◌↔◌, sym, ap, ap₂, ◌∙◌, inl, inr, arith,
}
use sgraph_omega_connector.Text.{Text, codes, join}
use sgraph_omega_connector.Json.{Json, Float}
use sgraph_omega_connector.Errors.{Exception, unexpected}
use sgraph_omega_connector.Scripts.Answers.{get_dict}
use sgraph_omega_connector.Scripts.Performance.{Metrics, extract}

-- `f"{x:.nf}"`
abbrev pub Shown : Type 0
Shown = ℕ → Float → Text

-- The cells of the latencies, with the end of the row.
abbrev latency_cells : Shown → Metrics → Text
latency_cells shown m =
    shown 1 m.p50 ++ codes " | " ++ shown 1 m.p95 ++ codes " | " ++ shown 1 m.p99 ++ codes " |"

-- `_markdown`, on what `_extract` has made of the two summaries
unfoldable pub markdown : Shown → Metrics → Metrics → Text
markdown shown baseline stress = join b'\n' (
    codes "# Performance Report"
    ∷ []
    ∷ codes "| Profile | Error rate | Fallback rate | p50 ms | p95 ms | p99 ms |"
    ∷ codes "| --- | ---: | ---: | ---: | ---: | ---: |"
    ∷ (codes "| baseline | "
        ++ shown 4 baseline.http_req_failed_rate
        ++ codes " | "
        ++ shown 4 baseline.fallback_rate
        ++ codes " (unexpected "
        ++ shown 4 baseline.unexpected_fallback_rate
        ++ codes ") | "
        ++ latency_cells shown baseline)
    ∷ (codes "| stress | "
        ++ shown 4 stress.http_req_failed_rate
        ++ codes " | "
        ++ shown 4 stress.fallback_rate
        ++ codes " | "
        ++ latency_cells shown stress)
    ∷ []
    ∷ [])

-- How the script ends: it stops with the names of the files that are missing, or an exception ends
-- it, or it writes the two reports.
pub data Ended : Type 0 where
  missing : List Text → Ended
  failed : Exception → Ended
  written : Metrics → Metrics → Text → Ended

written_injective :
    (a a' b b' : Metrics) (md md' : Text)
    → written a b md ≡ written a' b' md'
    → (a ≡ a') × (b ≡ b') × (md ≡ md')
written_injective a a' b b' md md' h = (cc, cc, cc)

module _ (read : Text → Option (List ℕ)) (loads : List ℕ → Result Exception Json)
    (to_float : Json → Result Exception Float) (shown : Shown) where
  -- `[str(p) for p in paths if not p.exists()]`
  unfoldable pub missing_files : List Text → List Text
  missing_files [] = []
  missing_files (p ∷ ps) = elim (read p) [
    | none ↦ p ∷ missing_files ps
    | some raw ↦ missing_files ps
  ]

  -- `_extract(_load(path))`
  unfoldable pub load_metrics : Text → Result Exception Metrics
  load_metrics path = elim (read path) [
    | none ↦ raise (unexpected "FileNotFoundError")
    | some raw ↦ loads raw >>= λ j. get_dict j >>= λ summary. extract to_float summary
  ]

  abbrev ended : Result Exception (Metrics × Metrics) → Ended
  ended (ok (baseline, stress)) = written baseline stress (markdown shown baseline stress)
  ended (raise e) = failed e

  unfoldable pub perf_report : Text → Text → Ended
  perf_report baseline_path stress_path = elim (missing_files (baseline_path ∷ stress_path ∷ [])) [
    | p ∷ ps ↦ missing (p ∷ ps)
    | [] ↦ ended (
        load_metrics baseline_path >>= λ baseline.
        load_metrics stress_path >>= λ stress. ok (baseline, stress))
  ]

  abbrev both : Result Exception Metrics → Result Exception Metrics → Ended
  both a b = ended (a >>= λ baseline. b >>= λ stress. ok (baseline, stress))

  -- The state of the two files decides whether their names are reported.
  perf_report_there :
      (baseline_path stress_path : Text) (raw raw' : List ℕ)
      → read baseline_path ≡ some raw
      → read stress_path ≡ some raw'
      → perf_report baseline_path stress_path
        ≡ both (load_metrics baseline_path) (load_metrics stress_path)
  unfolding perf_report missing_files
  perf_report_there baseline_path stress_path raw raw' h h' = ground (arith, h, h')

  load_metrics_there :
      (path : Text) (m : Metrics)
      → load_metrics path ≡ ok m
      → (raw : List ℕ) × (read path ≡ some raw)
  unfolding load_metrics
  load_metrics_there path m h = elim (Option-cases (read path)) [
    | inl absent ↦ absurd (ground (arith, absent))
    | inr there ↦ there
  ]

  written_there :
      (baseline_path stress_path : Text) (baseline stress : Metrics) (md : Text)
      → perf_report baseline_path stress_path ≡ written baseline stress md
      → ((raw : List ℕ) × (read baseline_path ≡ some raw))
        × ((raw : List ℕ) × (read stress_path ≡ some raw))
  unfolding perf_report missing_files
  written_there baseline_path stress_path baseline stress md h =
      elim (Option-cases (read baseline_path)) [
        | inl absent ↦ absurd (ground (arith, absent))
        | inr there ↦ elim (Option-cases (read stress_path)) [
          | inl absent ↦ absurd (ground (arith, absent, there.1))
          | inr there' ↦ (there, there')
        ]
      ]

  both_iff :
      (a b : Result Exception Metrics) (baseline stress : Metrics) (md : Text)
      → (both a b ≡ written baseline stress md)
        ↔ ((a ≡ ok baseline) × (b ≡ ok stress) × (md ≡ markdown shown baseline stress))
  both_iff (ok x) (ok y) baseline stress md = (
    λ h.
        let (e, e', e'') = written_injective x baseline y stress _ md h in
        (ap ok e, ap ok e', sym e'' ∙ ap₂ (markdown shown) e e'),
    λ (e, e', e'').
        ap₂ (λ m n. written m n (markdown shown m n)) (ok_injective x baseline e)
          (ok_injective y stress e')
        ∙ ap (written baseline stress) (sym e''),
  )
  both_iff (ok x) (raise e) baseline stress md =
      ((λ h. absurd (ground (arith, h))), (λ (p, q, r). absurd (ground (arith, q))))
  both_iff (raise e) b baseline stress md =
      ((λ h. absurd (ground (arith, h))), (λ (p, q, r). absurd (ground (arith, p))))

  -- The reports are written exactly when both summaries are there and yield their metrics, and they
  -- are those of the two files, each in its own row.
  pub perf_report-written :
      (baseline_path stress_path : Text) (baseline stress : Metrics) (md : Text)
      → (perf_report baseline_path stress_path ≡ written baseline stress md) ↔ (
          (load_metrics baseline_path ≡ ok baseline)
          × (load_metrics stress_path ≡ ok stress)
          × (md ≡ markdown shown baseline stress))
  perf_report-written baseline_path stress_path baseline stress md =
      let iff =
        both_iff (load_metrics baseline_path) (load_metrics stress_path) baseline stress md in
      (
        λ h.
            let ((raw, there), (raw', there')) =
              written_there baseline_path stress_path baseline stress md h in
            iff.0 (sym (perf_report_there baseline_path stress_path raw raw' there there') ∙ h),
        λ (a, b, same).
            let (raw, there) = load_metrics_there baseline_path baseline a in
            let (raw', there') = load_metrics_there stress_path stress b in
            perf_report_there baseline_path stress_path raw raw' there there' ∙ iff.1 (a, b, same),
      )
