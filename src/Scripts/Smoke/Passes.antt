-- ===== src/Scripts/Smoke/Passes.antt =====
-- The exit code of the smoke test says whether every scenario got the verdict that it expects.
use mathlib.Core.Path.{subst}
use sgraph_omega_connector.Base.{
  Bool, true, false, not, ◌&&◌, List, [], ◌∷◌, ◌++◌, Result, ok, ok_injective, ◌≡◌, refl, sym, ap,
  ◌∙◌, ◌↔◌, if◌then◌else◌, arith,
}
use sgraph_omega_connector.Text.{Text, codes, text_eq}
use sgraph_omega_connector.Dict.{lookup}
use sgraph_omega_connector.Json.{Json}
use sgraph_omega_connector.Errors.{Exception}
use sgraph_omega_connector.Scripts.Flow.{Flow, resume, lift}
use sgraph_omega_connector.Scripts.Flow.Inversion.{resume-eq-ok}
use sgraph_omega_connector.Scripts.Answers.{get_dict}
use sgraph_omega_connector.Scripts.Smoke.{
  SmokeScenario, shown_verdict, exit_code, smoke_failures, smoke,
}

kept-nil :
    (b : Bool) (fs : List Text) (f : Text)
    → (if b then fs ++ f ∷ [] else fs) ≡ []
    → (b ≡ false) × (fs ≡ [])
kept-nil false fs f h = (refl, h)
kept-nil true [] f h = absurd (ground (arith, h))
kept-nil true (g ∷ fs) f h = absurd (ground (arith, h))

module _ {S : Type 0} (repr : Json → Text) (post_json : List (Text × Json) → Flow S Json)
    (strict : Bool) where
  abbrev pub differs : SmokeScenario → List (Text × Json) → Bool
  differs sc body =
      strict && not (text_eq (shown_verdict repr (lookup (codes "verdict") body)) sc.expected)

  -- From `s` to `s'` every scenario is answered by a dictionary, with its verdict in a strict run.
  abbrev pub Passes : List SmokeScenario → S → S → Type 0
  Passes [] s s' = s ≡ s'
  Passes (sc ∷ scenarios) s s' =
      (s₁ : S) × (out : Json) × (body : List (Text × Json)) × (post_json sc.payload s
        ≡ (s₁, ok out))
      × (get_dict out ≡ ok body)
      × (differs sc body ≡ false)
      × Passes scenarios s₁ s'

  smoke_failures-nil :
      (scenarios : List SmokeScenario) (fs : List Text) (s s' : S)
      → smoke_failures repr post_json strict scenarios fs s ≡ (s', ok [])
      → fs ≡ []
  unfolding smoke_failures
  smoke_failures-nil [] fs s s' h = ok_injective fs [] (ap (λ p. p.1) h)
  smoke_failures-nil (sc ∷ scenarios) fs s s' h =
      let (s₁, out, posted, h₁) = resume-eq-ok _ _ s' [] h in
      let (s₂, body, read, h₂) = resume-eq-ok _ _ s' [] h₁ in
      let earlier = smoke_failures-nil scenarios _ s₂ s' h₂ in (kept-nil _ fs _ earlier).1

  Passes-smoke_failures :
      (scenarios : List SmokeScenario) (s s' : S)
      → smoke_failures repr post_json strict scenarios [] s ≡ (s', ok [])
      → Passes scenarios s s'
  unfolding smoke_failures
  Passes-smoke_failures [] s s' h = ap (λ p. p.0) h
  Passes-smoke_failures (sc ∷ scenarios) s s' h =
      let (s₁, out, posted, h₁) = resume-eq-ok _ _ s' [] h in
      let (s₂, body, read, h₂) = resume-eq-ok _ _ s' [] h₁ in
      let earlier = smoke_failures-nil scenarios _ s₂ s' h₂ in
      let same : s₁ ≡ s₂ = ap (λ p. p.0) read in
      let rest =
        subst (λ fs. smoke_failures repr post_json strict scenarios fs s₂ ≡ (s', ok [])) earlier
          h₂ in
      (
        s₁,
        out,
        body,
        posted,
        ap (λ p. p.1) read,
        (kept-nil _ [] _ earlier).0,
        Passes-smoke_failures scenarios s₁ s' (
            subst (λ s. smoke_failures repr post_json strict scenarios [] s ≡ (s', ok []))
              (sym same) rest),
      )

  smoke_failures-Passes :
      (scenarios : List SmokeScenario) (s s' : S)
      → Passes scenarios s s'
      → smoke_failures repr post_json strict scenarios [] s ≡ (s', ok [])
  unfolding smoke_failures resume
  smoke_failures-Passes [] s s' h = ap (λ s. (s, ok [])) h
  smoke_failures-Passes (sc ∷ scenarios) s s' (s₁, out, body, posted, read, same, h) =
      let rest = smoke_failures-Passes scenarios s₁ s' h in rw (posted) rw (read) rw (same) rest

  ends_clean :
      (fs : List Text) (s s' : S)
      → lift (ok (exit_code fs)) s ≡ (s', ok 0)
      → ◌≡◌ {A = S × Result Exception (List Text)} (s, ok fs) (s', ok [])
  ends_clean [] s s' h = ap (λ p. (p.0, ok [])) h
  ends_clean (f ∷ fs) s s' h = absurd (ground (arith, h))

  smoke-eq-zero :
      (scenarios : List SmokeScenario) (s s' : S)
      → Passes scenarios s s'
      → smoke repr post_json strict scenarios s ≡ (s', ok 0)
  unfolding smoke resume
  smoke-eq-zero scenarios s s' h = rw (smoke_failures-Passes scenarios s s' h) refl

  -- The smoke test exits with 0 in exactly the runs in which every scenario was answered by a
  -- dictionary, and in a strict run with the verdict that it expects.
  pub smoke-Passes :
      (scenarios : List SmokeScenario) (s s' : S)
      → (smoke repr post_json strict scenarios s ≡ (s', ok 0)) ↔ Passes scenarios s s'
  unfolding smoke
  smoke-Passes scenarios s s' = (
    λ h.
        let (s₁, fs, ended, h₁) = resume-eq-ok _ _ s' 0 h in
        Passes-smoke_failures scenarios s s' (ended ∙ ends_clean fs s₁ s' h₁),
    smoke-eq-zero scenarios s s',
  )
