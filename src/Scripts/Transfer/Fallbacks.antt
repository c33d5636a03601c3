-- ===== src/Scripts/Transfer/Fallbacks.antt =====
-- Which answers of the connector a strict run stops at.
use sgraph_omega_connector.Base.{
  ℕ, true, false, not, List, [], ◌∷◌, all, Option, Result-cases, ok, raise, ok_injective, inl, inr,
  ◌⊎◌, ◌≡◌, refl, sym, ap, ◌∙◌, ◌↔◌, arith,
}
use mathlib.Core.Path.{subst}
use sgraph_omega_connector.Text.{Text, codes, starts_with, text_eq}
use sgraph_omega_connector.Dict.{lookup}
use sgraph_omega_connector.Json.{Json, Fields, object, fields}
use sgraph_omega_connector.Models.{ScanAttachmentRequest, ScanAttachmentResponse, new_response}
use sgraph_omega_connector.OmegaClient.{
  OmegaError, client_error, circuit_open, timeout_error, unavailable, rejected,
}
use sgraph_omega_connector.App.{Runtime, respond, on_error, fallback_response}
use sgraph_omega_connector.Scripts.Flow.{Wire}
use sgraph_omega_connector.Scripts.Flow.Inversion.{resume-eq-ok}
use sgraph_omega_connector.Scripts.Answers.{
  get_dict, get_dict-eq-ok, listed_reasons, is_fallback_reason, is_tolerated, accept_answer,
}
use sgraph_omega_connector.Scripts.Transfer.{
  real_path, upstream_path, run_real_path, run_upstream_path, Scenario, Call, Draw, Libraries, Args,
  Route, Walked, call_json, scan_call, judge, walk, run,
}

-- The answer is a dictionary, and none of its reasons begins with `omega_`.
abbrev pub IsClean : (Json → Text) → Json → Type 0
IsClean repr j =
    (fs : Fields) × (rs : List Text) × (j ≡ object fs)
    × (listed_reasons repr (lookup (codes "reasons") (fields fs)) ≡ ok rs)
    × (all (λ r. not (starts_with (codes "omega_") r)) rs ≡ true)

is_tolerated-all :
    (rs : List Text)
    → is_tolerated true rs ≡ true
    → all (λ r. not (starts_with (codes "omega_") r)) rs ≡ true
unfolding is_fallback_reason
is_tolerated-all [] h = refl
is_tolerated-all (r ∷ rs) h = ground (arith, h, is_tolerated-all rs)

accept_answer-IsClean :
    (repr : Json → Text) (status : ℕ) (answer j : Json)
    → accept_answer repr true status answer ≡ ok j
    → IsClean repr j
unfolding accept_answer
accept_answer-IsClean repr status answer j h = elim (Result-cases (get_dict answer)) [
  | inl (e, failed) ↦ absurd (ground (arith, h, failed))
  | inr (body, is_body) ↦
      let (fs, is_object, is_fields) = get_dict-eq-ok answer body is_body in
      elim (Result-cases (listed_reasons repr (lookup (codes "reasons") body))) [
        | inl (e, failed) ↦ absurd (ground (arith, h, is_body, failed))
        | inr (rs, is_reasons) ↦ (
          fs,
          rs,
          ground (arith, h, is_body, is_reasons, is_object),
          rw (sym is_fields) is_reasons,
          is_tolerated-all rs (ground (arith, h, is_body, is_reasons)),
        )
      ]
]

-- One entry for each round, in order, with an answer that no fallback gave.
abbrev pub IsReport : (Json → Text) → List (Scenario × Draw) → List Walked → Type 0
IsReport repr [] [] = Unit
IsReport repr ((sc, _) ∷ rounds) (w ∷ results) =
    (w.scenario ≡ sc.name) × IsClean repr w.response × IsReport repr rounds results
IsReport repr _ _ = ⊥

module _ {S : Type 0} (l : Libraries) (send : Call → S → S × Wire) (route : Route) (args : Args)
    (strict : args.strict_no_fallback ≡ true) where
  judge-IsClean :
      (d : Draw) (payload : List (Text × Json)) (s s' : S) (j : Json)
      → judge l send route args d payload s ≡ (s', ok j)
      → IsClean l.repr j
  unfolding judge
  judge-IsClean d payload s s' j h =
      let (s₁, answer, sent, accepted) =
        resume-eq-ok (call_json l send (scan_call l send route args d payload) s) _ s' j h in
      accept_answer-IsClean l.repr answer.0 answer.1 j
        (ap (λ b. accept_answer l.repr b answer.0 answer.1) (sym strict) ∙ ap (λ p. p.1) accepted)

  walk-IsClean :
      (sc : Scenario) (d : Draw) (s s' : S) (w : Walked)
      → walk l send route args sc d s ≡ (s', ok w)
      → (w.scenario ≡ sc.name) × IsClean l.repr w.response
  unfolding walk
  walk-IsClean sc d s s' w h =
      let (s₁, packaged, made, h₁) = resume-eq-ok _ _ s' w h in
      let (s₂, fetched, moved, h₂) = resume-eq-ok _ _ s' w h₁ in
      let (s₃, decrypted, plain, h₃) = resume-eq-ok _ _ s' w h₂ in
      let (s₄, filename, named, h₄) = resume-eq-ok _ _ s' w h₃ in
      let (s₅, response, judged, h₅) = resume-eq-ok _ _ s' w h₄ in
      let is_w = ok_injective _ w (ap (λ p. p.1) h₅) in
      (
        ap (λ x. x.scenario) (sym is_w),
        subst (λ x. IsClean l.repr x.response) is_w (judge-IsClean d _ s₄ s₅ response judged),
      )

  run-IsReport :
      (rounds : List (Scenario × Draw)) (s s' : S) (results : List Walked)
      → run l send route args rounds s ≡ (s', ok results)
      → IsReport l.repr rounds results
  unfolding run
  run-IsReport [] s s' [] h = tt
  run-IsReport [] s s' (w ∷ ws) h = absurd (ground (arith, h))
  run-IsReport ((sc, d) ∷ rounds) s s' results h =
      let (s₁, w, walked, h₁) = resume-eq-ok (walk l send route args sc d s) _ s' results h in
      let (s₂, ws, rest, h₂) = resume-eq-ok (run l send route args rounds s₁) _ s' results h₁ in
      let is_results = ok_injective _ results (ap (λ p. p.1) h₂) in
      let (same, clean) = walk-IsClean sc d s s₁ w walked in
      subst (IsReport l.repr ((sc, d) ∷ rounds)) is_results
        (same, clean, run-IsReport rounds s₁ s₂ ws rest)

-- Of both scripts: a strict run that returns has gone through every scenario, and no answer that it
-- reports names a reason that begins with `omega_`, whatever the services do.
pub runs-IsReport :
    {S : Type 0} (l : Libraries) (send : Call → S → S × Wire) (args : Args)
    (rounds : List (Scenario × Draw)) (s s' : S) (results : List Walked)
    → args.strict_no_fallback ≡ true
    → (run_real_path l send args rounds s ≡ (s', ok results))
      ⊎ (run_upstream_path l send args rounds s ≡ (s', ok results))
    → IsReport l.repr rounds results
unfolding run_real_path run_upstream_path
runs-IsReport l send args rounds s s' results strict (inl h) =
    run-IsReport l send real_path args strict rounds s s' results h
runs-IsReport l send args rounds s s' results strict (inr h) =
    run-IsReport l send upstream_path args strict rounds s s' results h

fallback_response-reasons :
    (rt : Runtime) (payload : ScanAttachmentRequest) (reason fail_mode : Text)
    (detail_code : Option Text) (status : Option ℕ) (r : ScanAttachmentResponse)
    → fallback_response rt payload reason fail_mode detail_code status ≡ ok r
    → reason ∷ [] ≡ r.reasons
unfolding fallback_response new_response
fallback_response-reasons rt payload reason fail_mode detail_code status r h = ground (arith, h)

stops :
    (rs ts : List Text) → is_tolerated true rs ≡ false → rs ≡ ts → is_tolerated true ts ≡ true → ⊥
stops rs ts refused same passed = absurd (grind (arith, refused, same, passed))

-- Of the reasons that the connector gives for a fallback of its own, a strict run overlooks exactly
-- that of a client error, `invalid_response`: its answer is accepted, the others stop the run.
pub respond-is_tolerated :
    (rt : Runtime) (payload : ScanAttachmentRequest) (fail_mode : Text) (e : OmegaError)
    (r : ScanAttachmentResponse)
    → respond rt payload fail_mode (raise e) ≡ ok r
    → (is_tolerated true r.reasons ≡ true) ↔ (e ≡ client_error)
unfolding respond on_error is_fallback_reason starts_with text_eq
respond-is_tolerated rt payload fail_mode client_error r h =
    let named = fallback_response-reasons rt payload _ fail_mode _ _ r h in
    (λ _. refl, λ _. subst (λ rs. is_tolerated true rs ≡ true) named refl)
respond-is_tolerated rt payload fail_mode circuit_open r h =
    let named = fallback_response-reasons rt payload _ fail_mode _ _ r h in
    (λ clean. absurd (stops _ r.reasons refl named clean), λ same. absurd (ground (arith, same)))
respond-is_tolerated rt payload fail_mode timeout_error r h =
    let named = fallback_response-reasons rt payload _ fail_mode _ _ r h in
    (λ clean. absurd (stops _ r.reasons refl named clean), λ same. absurd (ground (arith, same)))
respond-is_tolerated rt payload fail_mode unavailable r h =
    let named = fallback_response-reasons rt payload _ fail_mode _ _ r h in
    (λ clean. absurd (stops _ r.reasons refl named clean), λ same. absurd (ground (arith, same)))
respond-is_tolerated rt payload fail_mode (rejected _ _ _) r h =
    let named = fallback_response-reasons rt payload _ fail_mode _ _ r h in
    (λ clean. absurd (stops _ r.reasons refl named clean), λ same. absurd (ground (arith, same)))
