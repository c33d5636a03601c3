-- ===== src/OmegaClient/Interleaving.antt =====
-- Scans that overlap: each begins by the check of the circuit and ends by its outcome, and in
-- between, at `await`, others begin and end. The steps are those of the event loop.
use sgraph_omega_connector.Base.{ℕ, ◌+◌, ◌-◌, ◌*◌, ◌<◌, ◌≤◌, true, ◌≡◌, arith}
use sgraph_omega_connector.Security.{ticks_per_sec}
use sgraph_omega_connector.OmegaClient.Client.{
  OmegaClient, CircuitState, can_attempt, record_failure,
}
use sgraph_omega_connector.OmegaClient.Posts.{Attempt, returned, refused, failed, settle}
use sgraph_omega_connector.OmegaClient.Breaker.{IsClient, IsBreaker, settle-IsBreaker}

-- The clock, the circuit, and the number of scans between their check and their outcome.
pub record World : Type 0 where
  pub now : ℕ
  pub circuit : CircuitState
  pub in_flight : ℕ

-- A step, where `P` says which outcomes can happen.
pub data Step (c : OmegaClient) (P : Attempt → Type 0) : World → World → Type 0 where
  -- time passes
  wait : (w : World) (n : ℕ) → Step c P w (record w { now = w.now + n })
  -- a scan passes `_can_attempt`
  start :
      (w : World)
      → can_attempt w.now w.circuit ≡ true
      → Step c P w (record w { in_flight = w.in_flight + 1 })
  -- the loop of a scan ends with `a`
  finish :
      (w : World) (a : Attempt)
      → P a
      → 0 < w.in_flight
      → Step c P w
          (record w { circuit = (settle c w.now w.circuit a).1; in_flight = w.in_flight - 1 })

pub data Reach (c : OmegaClient) (P : Attempt → Type 0) (v : World) : World → Type 0 where
  here : Reach c P v v
  next : {w x : World} → Reach c P v w → Step c P w x → Reach c P v x

-- Any outcome, and every outcome but a reply.
abbrev pub Any : Attempt → Type 0
Any a = Unit

abbrev pub NoReply : Attempt → Type 0
NoReply (returned j) = ⊥
NoReply (refused status code body) = Unit
NoReply (failed e) = Unit

-- The circuit never opens for longer than `breaker_reset_sec` seconds from now.
abbrev pub IsTimely : OmegaClient → World → Type 0
IsTimely c w = w.circuit.opened_until_ts ≤ w.now + c.breaker_reset_sec * ticks_per_sec

settle-timely :
    (c : OmegaClient) (now : ℕ) (s : CircuitState) (a : Attempt)
    → s.opened_until_ts ≤ now + c.breaker_reset_sec * ticks_per_sec
    → (settle c now s a).1.opened_until_ts ≤ now + c.breaker_reset_sec * ticks_per_sec
unfolding settle record_failure
settle-timely c now s (returned j) t = omega arith
settle-timely c now s (refused status code body) t = t
settle-timely c now s (failed e) t = ground arith

module _ (c : OmegaClient) {P : Attempt → Type 0} where
  Step-IsBreaker :
      {w x : World} → IsClient c → Step c P w x → IsBreaker c w.circuit → IsBreaker c x.circuit
  Step-IsBreaker v (wait w n) b = b
  Step-IsBreaker v (start w h) b = b
  Step-IsBreaker v (finish w a p h) b = settle-IsBreaker c w.now w.circuit a v b

  Step-IsTimely : {w x : World} → Step c P w x → IsTimely c w → IsTimely c x
  Step-IsTimely (wait w n) t = omega arith
  Step-IsTimely (start w h) t = t
  Step-IsTimely (finish w a p h) t = settle-timely c w.now w.circuit a t

  Reach-IsTimely : {v w : World} → Reach c P v w → IsTimely c v → IsTimely c w
  Reach-IsTimely here t = t
  Reach-IsTimely (next r s) t = Step-IsTimely s (Reach-IsTimely r t)

  -- Whatever scans overlap, the circuit has an opening time exactly when the failures in a row have
  -- reached `breaker_fails`, and it never lies more than `breaker_reset_sec` seconds ahead, if this
  -- holds at first.
  pub Reach-IsBreaker :
      {v w : World}
      → IsClient c
      → Reach c P v w
      → IsBreaker c v.circuit
      → IsTimely c v
      → IsBreaker c w.circuit × IsTimely c w
  Reach-IsBreaker k here b t = (b, t)
  Reach-IsBreaker k (next r s) b t =
      (Step-IsBreaker k s (Reach-IsBreaker k r b t).0, Step-IsTimely s (Reach-IsTimely r t))

  now-Step : {w x : World} → Step c P w x → w.now ≤ x.now
  now-Step (wait w n) = omega arith
  now-Step (start w h) = omega arith
  now-Step (finish w a p h) = omega arith

settle-later :
    (c : OmegaClient) (now : ℕ) (s : CircuitState) (a : Attempt)
    → NoReply a
    → s.opened_until_ts ≤ now + c.breaker_reset_sec * ticks_per_sec
    → s.opened_until_ts ≤ (settle c now s a).1.opened_until_ts
unfolding settle record_failure
settle-later c now s (returned j) p t = absurd p
settle-later c now s (refused status code body) p t = omega arith
settle-later c now s (failed e) p t = ground arith

Step-open :
    (c : OmegaClient) (until : ℕ) {w x : World}
    → Step c NoReply w x
    → IsTimely c w
    → until ≤ w.circuit.opened_until_ts
    → x.now < until
    → (x.in_flight ≤ w.in_flight) × (until ≤ x.circuit.opened_until_ts)
unfolding can_attempt
Step-open c until (wait w n) t h soon = (omega arith, h)
Step-open c until (start w free) t h soon = absurd (ground arith)
Step-open c until (finish w a p some_scan) t h soon =
    (omega arith, omega (arith, settle-later c w.now w.circuit a p t))

-- As long as no scan that is in flight gets a reply, no scan begins before the opening time is over,
-- however the others end: the number of scans in flight never grows, and the opening time never moves
-- back. (At first the opening time lies at most `breaker_reset_sec` seconds ahead.)
pub in_flight-Reach :
    (c : OmegaClient) {v w : World}
    → Reach c NoReply v w
    → IsTimely c v
    → w.now < v.circuit.opened_until_ts
    → (w.in_flight ≤ v.in_flight) × (v.circuit.opened_until_ts ≤ w.circuit.opened_until_ts)
in_flight-Reach c here t soon = (omega arith, omega arith)
in_flight-Reach c {v} (next r s) t soon =
    let before = now-Step c s in
    let (fewer, later) = in_flight-Reach c r t (omega arith) in
    let (fewer', later') =
      Step-open c v.circuit.opened_until_ts s (Reach-IsTimely c r t) later soon in
    (omega arith, omega arith)
