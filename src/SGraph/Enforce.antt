-- ===== src/SGraph/Enforce.antt =====
-- What the hook lets pass.
use sgraph_omega_connector.Base.{true, some, ok, raise, ◌≡◌, ◌↔◌, ◌⊎◌, refl, inl, inr, arith}
use sgraph_omega_connector.Text.{
  Text, Unicode, codes, strip, lower, lstrip_by, rstrip_by, is_space, ascii_lower, text_eq,
  text_eq_iff,
}
use sgraph_omega_connector.Dict.{lookup}
use sgraph_omega_connector.Json.{
  Json, Fields, null, boolean, integer, float, array, text, object, fields, str_json,
}
use sgraph_omega_connector.App.{is_verdict, allow, quarantine, block}
use sgraph_omega_connector.SGraph.{
  Exchange, answered, http_failed, broken, blocked, scan_result, stated_verdict,
  enforce_connector_verdict, run_hook,
}

pub contract_cases :
    (v : Text) → is_verdict v ≡ true → (v ≡ allow) ⊎ ((v ≡ quarantine) ⊎ (v ≡ block))
unfolding is_verdict
contract_cases v h =
    ground (arith, text_eq_iff v allow, text_eq_iff v quarantine, text_eq_iff v block)

pub stated_verdict_contract :
    (u : Unicode) (repr : Json → Text) (v : Text)
    → is_verdict v ≡ true
    → stated_verdict u repr (some (text v)) ≡ v
unfolding str_json lower strip lstrip_by rstrip_by is_space ascii_lower
stated_verdict_contract u repr v h = elim (contract_cases v h) [
  | inl e ↦ rw e refl
  | inr (inl e) ↦ rw e refl
  | inr (inr e) ↦ rw e refl
]

-- A response of the connector decides the hook: a file passes for "allow", is blocked by an exception
-- for "block" and held for "quarantine".
pub run_hook_served :
    (u : Unicode) (repr : Json → Text) (fs : Fields) (v : Text)
    → lookup (codes "verdict") (fields fs) ≡ some (text v)
    → is_verdict v ≡ true
    → (run_hook u repr (answered (object fs)) ≡ ok allow ↔ v ≡ allow)
      × ((run_hook u repr (answered (object fs)) ≡ raise blocked ↔ v ≡ block)
          × (run_hook u repr (answered (object fs)) ≡ ok quarantine ↔ v ≡ quarantine))
unfolding run_hook scan_result enforce_connector_verdict text_eq
run_hook_served u repr fs v stated known =
    let same = stated_verdict_contract u repr v known in
    elim (contract_cases v known) [
      | inl e ↦
          rw (stated, same, e)
            (
              ((λ h. refl), (λ h. refl)),
              (
                ((λ h. absurd (ground arith)), (λ h. absurd (ground arith))),
                ((λ h. absurd (ground arith)), (λ h. absurd (ground arith))),
              ),
            )
      | inr (inl e) ↦
          rw (stated, same, e)
            (
              ((λ h. absurd (ground arith)), (λ h. absurd (ground arith))),
              (
                ((λ h. absurd (ground arith)), (λ h. absurd (ground arith))),
                ((λ h. refl), (λ h. refl)),
              ),
            )
      | inr (inr e) ↦
          rw (stated, same, e)
            (
              ((λ h. absurd (ground arith)), (λ h. absurd (ground arith))),
              (
                ((λ h. refl), (λ h. refl)),
                ((λ h. absurd (ground arith)), (λ h. absurd (ground arith))),
              ),
            )
    ]

-- The hook lets a file pass only for an answer that is a JSON object whose verdict is "allow": a
-- failed exchange, an HTTP error or any other document never does.
pub run_hook-allow :
    (u : Unicode) (repr : Json → Text) (exchange : Exchange)
    → run_hook u repr exchange ≡ ok allow
    → (fs : Fields) × ((exchange ≡ answered (object fs))
        × (stated_verdict u repr (lookup (codes "verdict") (fields fs)) ≡ allow))
unfolding run_hook scan_result enforce_connector_verdict
run_hook-allow u repr (answered (object fs)) h =
    let verdict = stated_verdict u repr (lookup (codes "verdict") (fields fs)) in
    (fs, (refl, ground (arith, text_eq_iff verdict allow)))
run_hook-allow u repr (answered null) h = absurd (ground arith)
run_hook-allow u repr (answered (boolean b)) h = absurd (ground arith)
run_hook-allow u repr (answered (integer z)) h = absurd (ground arith)
run_hook-allow u repr (answered (float f)) h = absurd (ground arith)
run_hook-allow u repr (answered (text s)) h = absurd (ground arith)
run_hook-allow u repr (answered (array js)) h = absurd (ground arith)
run_hook-allow u repr (http_failed status raw) h = absurd (ground arith)
run_hook-allow u repr (broken exc) h = absurd (ground arith)
