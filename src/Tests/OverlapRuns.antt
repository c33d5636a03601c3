-- ===== src/Tests/OverlapRuns.antt =====
-- Requests that overlap.
use sgraph_omega_connector.Base.{◌+◌, true, false, [], ◌∷◌, some, raise, ◌≡◌, refl, arith}
use sgraph_omega_connector.Base.Int.{◌+ℤ◌}
use sgraph_omega_connector.Text.{codes}
use sgraph_omega_connector.Json.{object}
use sgraph_omega_connector.Errors.{http_error}
use sgraph_omega_connector.Security.{expiry}
use sgraph_omega_connector.OmegaClient.{returned, can_attempt}
use sgraph_omega_connector.App.{State}
use sgraph_omega_connector.App.Admission.{admitted_state}
use sgraph_omega_connector.App.Concurrent.{
  answered, scanning, arrive, start_scan, conclude, Waiting, Server, Reach, here, next, wait,
  finish,
}
use sgraph_omega_connector.App.Concurrent.Cases.{arrive_admitted}
use sgraph_omega_connector.App.Concurrent.Nonces.{arrivals, arrive_again}
use sgraph_omega_connector.Tests.Data.{
  toy, toy-IsCrypto, payload, now, later, runtime, allowing, connector, state, environment,
}
use sgraph_omega_connector.Tests.AuthRuns.{request, signed_by-IsSigned}
use sgraph_omega_connector.Tests.AppRuns.{admitted, read_later}

abbrev waiting : Waiting
waiting = record { payload = payload; debug = false }

-- The request has been admitted, and waits for Omega.
abbrev entered : State
entered = admitted_state toy connector environment request state payload (codes "k1")

abbrev opened : Server
opened = record { now = now; state = state; scans = [] }

abbrev begun : Server
begun = record { now = now; state = entered; scans = waiting ∷ [] }

arrived : arrive toy connector environment false request state ≡ (scanning payload, entered)
unfolding start_scan can_attempt
arrived =
    rw (arrive_admitted toy connector environment false request state payload (codes "k1") admitted)
      refl

-- Omega replies, and a second passes.
abbrev replied_at : Server
replied_at = record {
  now = later;
  state = (conclude toy connector runtime false payload now (returned (object allowing)) entered).1;
  scans = [];
}

abbrev answered_path : Reach toy connector begun replied_at
answered_path =
    next (next here (finish runtime (returned (object allowing)) waiting [] [] refl)) (wait 1000000)

arrive_again_example :
    (arrive toy connector
      (record environment { request_uuid = codes "w"; now = later; marked_at = later + 1 })
      true
      request
      replied_at.state).0
    ≡ answered (raise (http_error 409 "replay_detected" "nonce already used" (some (codes "r")) []))
unfolding expiry ◌+ℤ◌ arrivals
arrive_again_example =
    arrive_again toy connector environment request state payload (codes "k1") answered_path true
      (codes "w") later (later + 1) toy-IsCrypto refl tt (omega arith) admitted refl refl
      (omega arith) refl read_later
      (signed_by-IsSigned toy toy-IsCrypto later payload payload refl refl)
