-- ===== src/Tests/ClientRuns.antt =====
-- Runs of the Omega client: a retry that helps, a rejection, and Omegas that never answer.
use sgraph_omega_connector.Base.{
  ◌+◌, ◌*◌, ◌≤◌, ℕ, zero, suc, false, [], ◌∷◌, ok, raise, ◌≡◌, ◌↔◌, refl, arith,
}
use sgraph_omega_connector.Json.{object}
use sgraph_omega_connector.OmegaClient.{
  CircuitState, failed, refused, closed, Posted, timed_out, returned, omega_error, timeout_error,
  circuit_open, attempt, can_attempt, record_failure, scan_attachment, settle,
}
use sgraph_omega_connector.Security.{ticks_per_sec}
use sgraph_omega_connector.OmegaClient.Attempts.{CanSend, FirstIs, scan_attachment-eq-ok_iff}
use sgraph_omega_connector.OmegaClient.Breaker.{
  IsClient, IsBreaker, closed-IsBreaker, Scan, run_scans, Exhausts, run_scans_trip,
  scan_attachment_reopens,
}
use sgraph_omega_connector.OmegaClient.Interleaving.{
  World, wait, start, finish, Reach, here, next, Any, NoReply, IsTimely, Reach-IsBreaker,
  in_flight-Reach,
}
use sgraph_omega_connector.Tests.Data.{
  unicode, toy, payload, upstream, omega_client, good, allowing, now,
}

-- The first post times out, the second is answered.
abbrev flaky : ℕ → Posted
flaky zero = timed_out
flaky (suc n) = good n

abbrev dead : ℕ → Posted
dead n = timed_out

abbrev scan : (ℕ → Posted) → Scan
scan post = record { upstream = upstream post; payload = payload; debug = false }

dead-Exhausts : Exhausts toy unicode omega_client (scan dead)
unfolding attempt
dead-Exhausts = (refl, λ m h. (omega_error timeout_error, refl))

scan_attachment-eq-ok_iff_example :
    ((scan_attachment toy unicode omega_client (upstream flaky) payload false closed).0
      ≡ ok (object allowing))
    ↔ (CanSend toy unicode omega_client (upstream flaky) payload false closed
        × FirstIs toy unicode omega_client
            (upstream flaky)
            payload
            false
            (returned (object allowing)))
scan_attachment-eq-ok_iff_example =
    scan_attachment-eq-ok_iff toy unicode omega_client (upstream flaky) payload false closed
      (object allowing)

omega_client-IsClient : IsClient omega_client
omega_client-IsClient = record { fails = omega arith; reset = omega arith }

run_scans_trip_example :
    scan_attachment toy unicode omega_client
      (upstream good)
      payload
      false
      (run_scans toy unicode omega_client (scan dead ∷ []) closed)
    ≡ (raise circuit_open, run_scans toy unicode omega_client (scan dead ∷ []) closed)
run_scans_trip_example =
    run_scans_trip toy unicode omega_client (scan dead ∷ []) (scan good) omega_client-IsClient refl
      (dead-Exhausts, tt) (omega arith)

-- Two scans overlap: both start, one fails and opens the circuit, then the other is rejected.
abbrev idle : World
idle = record { now = now; circuit = closed; in_flight = 0 }

abbrev opened : World
opened = record {
  now = now;
  circuit = record { failure_count = 1; opened_until_ts = 37000000 };
  in_flight = 1;
}

overlap : Reach omega_client Any idle opened
unfolding can_attempt settle record_failure
overlap =
    next (next (next here (start idle refl)) (start _ refl))
      (finish _ (failed (omega_error timeout_error)) tt (omega arith))

Reach-IsBreaker_example : IsBreaker omega_client opened.circuit × IsTimely omega_client opened
Reach-IsBreaker_example =
    Reach-IsBreaker omega_client omega_client-IsClient overlap
      (closed-IsBreaker omega_client omega_client-IsClient) (omega arith)

abbrev rejected_later : World
rejected_later = record opened { now = now + 5; in_flight = 0 }

late_rejection : Reach omega_client NoReply opened rejected_later
unfolding settle
late_rejection = next (next here (wait opened 5)) (finish _ (refused 422 [] []) tt (omega arith))

in_flight-Reach_example :
    (rejected_later.in_flight ≤ opened.in_flight)
    × (opened.circuit.opened_until_ts ≤ rejected_later.circuit.opened_until_ts)
in_flight-Reach_example = in_flight-Reach omega_client late_rejection (omega arith) (omega arith)

-- The circuit has been open until now.
abbrev over : CircuitState
over = record { failure_count = 1; opened_until_ts = now }

scan_attachment_reopens_example :
    (scan_attachment toy unicode omega_client (upstream dead) payload false over).1
    ≡ record { failure_count = 2; opened_until_ts = now + 30 * ticks_per_sec }
scan_attachment_reopens_example =
    scan_attachment_reopens toy unicode omega_client (scan dead) over (omega arith) (omega arith)
      dead-Exhausts
