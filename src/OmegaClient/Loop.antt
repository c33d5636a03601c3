-- ===== src/OmegaClient/Loop.antt =====
-- The loop over the attempts.
use sgraph_omega_connector.Base.{
  ℕ, zero, suc, ◌+◌, ◌<◌, Option, some, none, ◌≡◌, refl, sym, ap, ◌∙◌, ◌⊎◌, inl, inr, arith,
}
use mathlib.Core.Path.{subst}
use sgraph_omega_connector.OmegaClient.Posts.{
  Attempt, returned, refused, failed, LastError, foreign, run_attempts,
}

-- The attempt is a failure, after which the loop goes on.
abbrev pub Fails : Attempt → Type 0
Fails a = (e : LastError) × (a ≡ failed e)

-- The attempt ends the loop with a reply or with a rejection.
abbrev pub Decides : Attempt → Type 0
Decides (returned _) = Unit
Decides (refused _ _ _) = Unit
Decides (failed _) = ⊥

Attempt-cases : (a : Attempt) → Decides a ⊎ Fails a
Attempt-cases (returned j) = inl tt
Attempt-cases (refused status code body) = inl tt
Attempt-cases (failed e) = inr (e, refl)

-- Attempt `j` of those from `i` on is `a`, and all before it fail.
abbrev FirstFrom : (ℕ → Attempt) → ℕ → ℕ → Attempt → Type 0
FirstFrom at i n a = (j : ℕ) × (j < n) × (at (i + j) ≡ a) × ((m : ℕ) → m < j → Fails (at (i + m)))

module _ (at : ℕ → Attempt) where
  at_zero : (i : ℕ) → at (i + 0) ≡ at i
  at_zero i = ap at (omega arith)

  at_suc : (i j : ℕ) → at (i + suc j) ≡ at (i + 1 + j)
  at_suc i j = ap at (omega arith)

  Fails-from :
      (i j : ℕ)
      → Fails (at i)
      → ((m : ℕ) → m < j → Fails (at (i + 1 + m)))
      → (m : ℕ) → m < suc j
      → Fails (at (i + m))
  Fails-from i j h hs zero lt = rw (at_zero i) h
  Fails-from i j h hs (suc m) lt = rw (at_suc i m) (hs m (omega arith))

  run_attempts_decided :
      (i n : ℕ) (last : Option LastError) → Decides (at i) → run_attempts at i (suc n) last ≡ at i
  unfolding run_attempts
  run_attempts_decided i n last d = decided (at i) d
    where
      decided :
          (a : Attempt)
          → Decides a
          → elim a as (λ _. Attempt) [
            | returned j ↦ returned j
            | refused status code body ↦ refused status code body
            | failed e ↦ run_attempts at (i + 1) n (some e)
          ]
            ≡ a
      decided (returned j) d = refl
      decided (refused status code body) d = refl
      decided (failed e) d = absurd d

  run_attempts_failed :
      (i n : ℕ) (last : Option LastError) (e : LastError)
      → at i ≡ failed e
      → run_attempts at i (suc n) last ≡ run_attempts at (i + 1) n (some e)
  unfolding run_attempts
  run_attempts_failed i n last e h = rw (h, run_attempts) refl

  last_or_foreign : Option LastError → LastError
  last_or_foreign none = foreign
  last_or_foreign (some e) = e

  run_attempts_none :
      (i : ℕ) (last : Option LastError)
      → run_attempts at i zero last ≡ failed (last_or_foreign last)
  unfolding run_attempts last_or_foreign
  run_attempts_none i none = refl
  run_attempts_none i (some e) = refl

  pub run_attempts_sound :
      (i n : ℕ) (last : Option LastError) (a : Attempt)
      → Decides a
      → run_attempts at i n last ≡ a
      → FirstFrom at i n a
  run_attempts_sound i zero last a d h = absurd (subst Decides (sym h ∙ run_attempts_none i last) d)
  run_attempts_sound i (suc n) last a d h = elim (Attempt-cases (at i)) [
    | inl decides ↦ (
      zero,
      omega arith,
      at_zero i ∙ sym (run_attempts_decided i n last decides) ∙ h,
      λ m lt. absurd (omega arith),
    )
    | inr (e, fails) ↦
        let (j, lt, hit, before) =
          run_attempts_sound (i + 1) n (some e) a d
            (sym (run_attempts_failed i n last e fails) ∙ h) in
        (suc j, omega arith, at_suc i j ∙ hit, Fails-from i j (e, fails) before)
  ]

  pub run_attempts_complete :
      (i n : ℕ) (last : Option LastError) (a : Attempt) (j : ℕ)
      → Decides a
      → j < n
      → at (i + j) ≡ a
      → ((m : ℕ) → m < j → Fails (at (i + m)))
      → run_attempts at i n last ≡ a
  run_attempts_complete i zero last a j d lt hit before = absurd (omega arith)
  run_attempts_complete i (suc n) last a zero d lt hit before =
      let here : at i ≡ a = sym (at_zero i) ∙ hit in
      run_attempts_decided i n last (rw here d) ∙ here
  run_attempts_complete i (suc n) last a (suc j) d lt hit before =
      let (e, fails) = before zero (omega arith) in
      run_attempts_failed i n last e (sym (at_zero i) ∙ fails)
      ∙ run_attempts_complete (i + 1) n (some e) a j d (omega arith) (sym (at_suc i j) ∙ hit)
          (λ m h. rw (at_suc i m) at (before (suc m) (omega arith)))

  -- When every attempt fails, the loop ends with the error of the last one.
  pub run_attempts_exhausted :
      (i n : ℕ) (last : Option LastError) (e : LastError)
      → at (i + n) ≡ failed e
      → ((m : ℕ) → m < suc n → Fails (at (i + m)))
      → run_attempts at i (suc n) last ≡ failed e
  unfolding run_attempts
  run_attempts_exhausted i zero last e h all_fail =
      run_attempts_failed i zero last e (sym (at_zero i) ∙ h)
  run_attempts_exhausted i (suc n) last e h all_fail =
      let (first, fails) = all_fail zero (omega arith) in
      run_attempts_failed i (suc n) last first (sym (at_zero i) ∙ fails)
      ∙ run_attempts_exhausted (i + 1) n (some first) e (sym (at_suc i n) ∙ h)
          (λ m lt. rw (at_suc i m) at (all_fail (suc m) (omega arith)))
