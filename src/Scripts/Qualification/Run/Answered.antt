-- ===== src/Scripts/Qualification/Run/Answered.antt =====
-- What a run of the report that returns has sent and counted.
use mathlib.Core.Path.{subst}
use sgraph_omega_connector.Base.{
  ℕ, zero, suc, ◌+◌, ◌≤◌, ◌<◌, List, [], ◌∷◌, ok, ok_injective, length, All, ◌≡◌, refl, sym, ap,
  ◌∙◌, arith,
}
use sgraph_omega_connector.Base.Int.{ℤ}
use sgraph_omega_connector.Text.{Text, codes}
use sgraph_omega_connector.Json.{Json}
use sgraph_omega_connector.SGraph.{SignedHeaders}
use sgraph_omega_connector.Scripts.Flow.{Wire}
use sgraph_omega_connector.Scripts.Flow.Inversion.{resume-eq-ok}
use sgraph_omega_connector.Scripts.Transfer.{Libraries}
use sgraph_omega_connector.Scripts.Qualification.{
  Sample, Tally, new_tally, count_samples, decide_go, go,
}
use sgraph_omega_connector.Scripts.Qualification.Counts.{decide_go-count_samples}
use sgraph_omega_connector.Scripts.Qualification.Report.{Fixed, Summary, summarize, scenario_name}
use sgraph_omega_connector.Scripts.Qualification.Report.Decisions.{summarize-decide_go}
use sgraph_omega_connector.Scripts.Qualification.Run.{
  RoundDraw, QualificationArgs, keep_first, rounds_of, qualify_round, qualify_rounds, qualify,
}

module _ {S : Type 0} (l : Libraries)
    (send : SignedHeaders → List (Text × Json) → S → S × (Wire × ℕ)) (args : QualificationArgs)
    (draw : ℕ → RoundDraw) where
  -- From `s` to `s'` the rounds from `idx` on are answered, one after the other, as the samples say.
  abbrev pub Answered : ℕ → List Sample → S → S → Type 0
  Answered idx [] s s' = s ≡ s'
  Answered idx (x ∷ xs) s s' =
      (s₁ : S) × (qualify_round l send args (draw idx) idx s ≡ (s₁, ok x))
      × Answered (idx + 1) xs s₁ s'

  -- The first answer of each scenario.
  abbrev pub first_responses :
      List Sample → List (Text × List (Text × Json)) → List (Text × List (Text × Json))
  first_responses [] m = m
  first_responses (x ∷ xs) m = first_responses xs (keep_first (scenario_name x.scenario) x.out m)

  Answered-qualify_rounds :
      (n idx : ℕ) (t : Tally) (first : List (Text × List (Text × Json))) (s s' : S)
      (counted : Tally × List (Text × List (Text × Json)))
      → qualify_rounds l send args draw n idx t first s ≡ (s', ok counted)
      → (xs : List Sample) × (length xs ≡ n)
        × Answered idx xs s s'
        × (counted ≡ (count_samples l.unicode l.repr xs t, first_responses xs first))
  unfolding qualify_rounds count_samples
  Answered-qualify_rounds zero idx t first s s' counted h =
      ([], refl, ap (λ p. p.0) h, sym (ok_injective (t, first) counted (ap (λ p. p.1) h)))
  Answered-qualify_rounds (suc n) idx t first s s' counted h =
      let (s₁, x, sent, h₁) = resume-eq-ok _ _ s' counted h in
      let (xs, many, rest, same) = Answered-qualify_rounds n (idx + 1) _ _ s₁ s' counted h₁ in
      (x ∷ xs, ap suc many, (s₁, sent, rest), same)

  -- A run that returns has had an answer for each of the rounds that it was asked for, at least one,
  -- and its summary is that of these samples.
  pub qualify-Answered :
      (fixed : Fixed) (samples : ℤ) (s s' : S) (summary : Summary)
      → qualify l send args draw fixed samples s ≡ (s', ok summary)
      → (xs : List Sample) × (length xs ≡ rounds_of samples)
        × Answered 0 xs s s'
        × (summary
            ≡ summarize fixed (count_samples l.unicode l.repr xs new_tally) (first_responses xs []))
  unfolding qualify
  qualify-Answered fixed samples s s' summary h =
      let (s₁, counted, looped, h₁) = resume-eq-ok _ _ s' summary h in
      let (xs, many, rounds, same) =
        Answered-qualify_rounds (rounds_of samples) 0 new_tally [] s s₁ counted looped in
      (
        xs,
        many,
        subst (Answered 0 xs s) (ap (λ p. p.0) h₁) rounds,
        sym (ok_injective (summarize fixed counted.0 counted.1) summary (ap (λ p. p.1) h₁))
            ∙ ap (λ c. summarize fixed c.0 c.1) same,
      )

  -- A run of at most 100 rounds whose report says GO has had an answer with a status below 400 in
  -- each of its rounds.
  pub qualify-go :
      (fixed : Fixed) (samples : ℤ) (s s' : S) (summary : Summary)
      → rounds_of samples ≤ 100
      → qualify l send args draw fixed samples s ≡ (s', ok summary)
      → summary.decision ≡ codes "GO"
      → (xs : List Sample) × (length xs ≡ rounds_of samples)
        × Answered 0 xs s s'
        × All (λ x. x.status < 400) xs
  qualify-go fixed samples s s' summary few h says =
      let (xs, many, rounds, same) = qualify-Answered fixed samples s s' summary h in
      let t = count_samples l.unicode l.repr xs new_tally in
      let decided : decide_go t ≡ go =
        (summarize-decide_go fixed t (first_responses xs [])).0.0
          (sym (ap (λ x. x.decision) same) ∙ says) in
      (
        xs,
        many,
        rounds,
        decide_go-count_samples l.unicode l.repr xs (omega (arith, many, few)) decided,
      )
