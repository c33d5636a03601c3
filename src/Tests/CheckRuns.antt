-- ===== src/Tests/CheckRuns.antt =====
-- Runs of the preflight, of the smoke test and of the probe's bytes.
use sgraph_omega_connector.Base.{
  ℕ, ◌+◌, true, List, [], ◌∷◌, take, length, some, none, ok, ◌≡◌, ◌↔◌, refl, arith,
}
use sgraph_omega_connector.Text.{Text, codes, is_space}
use sgraph_omega_connector.Json.{Json, text, object, field, end}
use sgraph_omega_connector.Scripts.Flow.{Flow}
use sgraph_omega_connector.Scripts.Probe.{mk_bytes, probe_seed}
use sgraph_omega_connector.Scripts.Probe.Bytes.{repeat, mk_bytes-eq-some}
use sgraph_omega_connector.Scripts.Preflight.{preflight, preflight-omega_host}
use sgraph_omega_connector.Scripts.Smoke.{SmokeScenario, smoke}
use sgraph_omega_connector.Scripts.Smoke.Passes.{Passes, smoke-Passes}

mk_bytes-eq-some_example :
    (n : ℕ) × (mk_bytes probe_seed 40 ≡ some (take 40 (repeat probe_seed n)))
    × (length (take 40 (repeat probe_seed n)) ≡ 40)
mk_bytes-eq-some_example = mk_bytes-eq-some probe_seed 40 (omega arith)

preflight-omega_host_example :
    preflight none true (codes "/omega") (some (codes "https://omega-api:8080")) ≡ 0
unfolding is_space
preflight-omega_host_example =
    let p = refl in
    preflight-omega_host (codes "-api:8080") true (p, (p, (p, (p, (p, (p, (p, (p, (p, tt)))))))))

-- A connector that counts its requests and allows everything.
abbrev allow_all : List (Text × Json) → Flow ℕ Json
allow_all payload n = (n + 1, ok (object (field (codes "verdict") (text (codes "allow")) end)))

abbrev benign : SmokeScenario
benign = record { name = codes "allow_benign"; expected = codes "allow"; payload = [] }

smoke-Passes_example :
    (smoke (λ j. []) allow_all true (benign ∷ []) 3 ≡ (4, ok 0))
    ↔ Passes (λ j. []) allow_all true (benign ∷ []) 3 4
smoke-Passes_example = smoke-Passes (λ j. []) allow_all true (benign ∷ []) 3 4
