-- ===== src/Scripts/Qualification/Counts.antt =====
-- What the report counts, and what its decision means.
use sgraph_omega_connector.Base.{
  ℕ, zero, suc, ◌+◌, ◌≤◌, ◌<◌, Bool, true, false, ◌&&◌, List, [], ◌∷◌, length, leb, ◌≡◌, refl, ap,
  ◌∙◌, All, inl, inr, Bool-cases, arith,
}
use sgraph_omega_connector.Text.{Text, Unicode, text_eq}
use sgraph_omega_connector.Json.{Json}
use sgraph_omega_connector.App.{allow, quarantine, block, is_verdict}
use sgraph_omega_connector.App.Verdicts.{known_verdict-is_verdict}
use sgraph_omega_connector.SGraph.Enforce.{contract_cases}
use sgraph_omega_connector.Scripts.Qualification.{
  sample_verdict, Scenario, same_scenario, Sample, Tally, new_tally, add_if, count_sample,
  count_samples, at_least_one, go, decide_go,
}

-- How many elements pass the test.
pub count : {A : Type 0} → (A → Bool) → List A → ℕ
count p [] = 0
count p (x ∷ xs) = add_if (p x) (count p xs)

add_if-add : (b : Bool) (n m : ℕ) → add_if b n + m ≡ n + add_if b m
add_if-add true n m = omega arith
add_if-add false n m = refl

add_verdict :
    (b : Bool) (v : Text) (f : Text → ℕ)
    → is_verdict v ≡ true
    → add_if (b && text_eq v allow) (f allow)
        + add_if (b && text_eq v quarantine) (f quarantine)
        + add_if (b && text_eq v block) (f block)
      ≡ add_if b (f allow + f quarantine + f block)
unfolding text_eq
add_verdict true v f h = elim (contract_cases v h) [
  | inl e ↦ rw e (omega arith)
  | inr (inl e) ↦ rw e (omega arith)
  | inr (inr e) ↦ rw e (omega arith)
]
add_verdict false v f h = refl

no_errors : (xs : List Sample) → count (λ x. leb 400 x.status) xs ≡ 0 → All (λ x. x.status < 400) xs
unfolding count
no_errors [] h = tt
no_errors (x ∷ xs) h = elim (Bool-cases (leb 400 x.status)) [
  | inl bad ↦ absurd (ground arith)
  | inr good ↦ (ground arith, no_errors xs (ground arith))
]

at_least_one_bounds : (n : ℕ) → (n ≤ at_least_one n) × (at_least_one n ≤ n + 1)
at_least_one_bounds zero = (omega arith, omega arith)
at_least_one_bounds (suc n) = (omega arith, omega arith)

module _ (u : Unicode) (repr : Json → Text) where
  -- The row of a scenario in the verdict matrix, added up.
  abbrev pub row : Scenario → Tally → ℕ
  row s t = t.verdict_matrix s allow + t.verdict_matrix s quarantine + t.verdict_matrix s block

  error_count-count_samples :
      (xs : List Sample) (t : Tally)
      → (count_samples u repr xs t).error_count ≡ t.error_count + count (λ x. leb 400 x.status) xs
  unfolding count_samples count_sample count
  error_count-count_samples [] t = omega arith
  error_count-count_samples (x ∷ xs) t =
      error_count-count_samples xs (count_sample u repr x t)
      ∙ add_if-add (leb 400 x.status) t.error_count _

  length-count_samples :
      (xs : List Sample) (t : Tally)
      → length (count_samples u repr xs t).latencies ≡ length t.latencies + length xs
  unfolding count_samples count_sample
  length-count_samples [] t = omega arith
  length-count_samples (x ∷ xs) t = length-count_samples xs (count_sample u repr x t) ∙ omega arith

  row-count_sample :
      (s : Scenario) (x : Sample) (t : Tally)
      → row s (count_sample u repr x t) ≡ add_if (same_scenario x.scenario s) (row s t)
  unfolding count_sample sample_verdict
  row-count_sample s x t =
      add_verdict (same_scenario x.scenario s) _ (t.verdict_matrix s) (known_verdict-is_verdict _)

  row-count_samples_from :
      (s : Scenario) (xs : List Sample) (t : Tally)
      → row s (count_samples u repr xs t) ≡ row s t + count (λ x. same_scenario x.scenario s) xs
  unfolding count_samples count
  row-count_samples_from s [] t = omega arith
  row-count_samples_from s (x ∷ xs) t =
      row-count_samples_from s xs (count_sample u repr x t)
      ∙ ap (λ n. n + count (λ y. same_scenario y.scenario s) xs) (row-count_sample s x t)
      ∙ add_if-add (same_scenario x.scenario s) (row s t) _

  -- Each row of the verdict matrix adds up to the number of samples of its scenario, whatever the
  -- connector has answered.
  pub row-count_samples :
      (s : Scenario) (xs : List Sample)
      → row s (count_samples u repr xs new_tally) ≡ count (λ x. same_scenario x.scenario s) xs
  row-count_samples s xs = row-count_samples_from s xs new_tally ∙ omega arith

  -- On at most 100 samples, which is the default, the decision is GO only if no sample has an HTTP
  -- error: a single one is a rate of 0.01.
  pub decide_go-count_samples :
      (xs : List Sample)
      → length xs ≤ 100
      → decide_go (count_samples u repr xs new_tally) ≡ go
      → All (λ x. x.status < 400) xs
  unfolding decide_go
  decide_go-count_samples xs few decided =
      let errors = error_count-count_samples xs new_tally in
      let total = length-count_samples xs new_tally in
      let bounds = at_least_one_bounds (length (count_samples u repr xs new_tally).latencies) in
      no_errors xs (ground (arith, errors, total, bounds))
