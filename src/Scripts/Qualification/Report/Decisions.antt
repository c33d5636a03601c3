-- ===== src/Scripts/Qualification/Report/Decisions.antt =====
-- The decision that the report states is that of the tests.
use sgraph_omega_connector.Base.{
  ℕ, ◌*◌, Bool, true, false, List, [], ◌∷◌, length, leb, ltb, ◌≡◌, ◌↔◌, ◌≢◌, if◌then◌else◌, refl,
  arith,
}
use sgraph_omega_connector.Text.{Text, codes}
use sgraph_omega_connector.Json.{Json}
use sgraph_omega_connector.Scripts.Qualification.{
  Tally, at_least_one, percentile, Decision, go, no_go, decide_go,
}
use sgraph_omega_connector.Scripts.Qualification.Report.{
  Fixed, append_if, blockers_of, decision_of, summarize, blocker_lines,
}

-- A list of blockers is reported as the decision says.
abbrev Reports : List Text → Decision → Type 0
Reports blockers d =
    (decision_of blockers ≡ codes "GO" ↔ d ≡ go)
    × (blocker_lines blockers ≡ codes "- none" ∷ [] ↔ d ≡ go)

some_blocker :
    (c : ℕ) (item : Text) (blockers : List Text) → c ≢ b'n' → Reports ((c ∷ item) ∷ blockers) no_go
unfolding decision_of blocker_lines
some_blocker c item blockers n = (((λ h. cc), (λ h. cc)), ((λ h. absurd (n cc)), (λ h. cc)))

-- The three tests, for items that do not begin with the letter n.
tests :
    (unexpected errors slow : Bool) (x y z : Text)
    → Reports
        (append_if slow
          (b'l' ∷ z)
          (append_if errors (b'e' ∷ y) (append_if unexpected (b'u' ∷ x) [])))
        (if unexpected then no_go else if errors then no_go else if slow then no_go else go)
unfolding decision_of blocker_lines
tests true true true x y z =
    some_blocker b'u' x ((b'e' ∷ y) ∷ (b'l' ∷ z) ∷ []) (λ h. absurd (omega (arith, h)))
tests true true false x y z = some_blocker b'u' x ((b'e' ∷ y) ∷ []) (λ h. absurd (omega (arith, h)))
tests true false true x y z = some_blocker b'u' x ((b'l' ∷ z) ∷ []) (λ h. absurd (omega (arith, h)))
tests true false false x y z = some_blocker b'u' x [] (λ h. absurd (omega (arith, h)))
tests false true true x y z = some_blocker b'e' y ((b'l' ∷ z) ∷ []) (λ h. absurd (omega (arith, h)))
tests false true false x y z = some_blocker b'e' y [] (λ h. absurd (omega (arith, h)))
tests false false true x y z = some_blocker b'l' z [] (λ h. absurd (omega (arith, h)))
tests false false false x y z = (((λ h. refl), (λ h. refl)), ((λ h. refl), (λ h. refl)))

-- The report says GO exactly when none of the three tests finds a blocker, and then, and only then, its
-- list of blockers is "- none".
pub summarize-decide_go :
    (fixed : Fixed) (t : Tally) (first_response : List (Text × List (Text × Json)))
    → let s = summarize fixed t first_response in
      (s.decision ≡ codes "GO" ↔ decide_go t ≡ go)
      × (blocker_lines s.blockers ≡ codes "- none" ∷ [] ↔ decide_go t ≡ go)
unfolding summarize blockers_of decide_go
summarize-decide_go fixed t first_response =
    tests (ltb (at_least_one t.non_fallback_expected_total) (100 * t.unexpected_fallback_count))
      (leb (at_least_one (length t.latencies)) (100 * t.error_count))
      (leb 100000000 (percentile t.latencies 95)) _ _ _
