-- ===== src/OmegaClient/Breaker.antt =====
-- The circuit breaker over many scans.
use native.Mathlib.Nat.{zero-add}
use sgraph_omega_connector.Base.{
  ℕ, suc, ◌+◌, ◌*◌, ◌<◌, ◌≤◌, Bool, true, List, [], ◌∷◌, none, raise, ◌≡◌, ◌≢◌, refl, ap, ◌∙◌, inl,
  inr, Bool-cases, length, leb, if◌then◌else◌, arith, All,
}
use sgraph_omega_connector.Base.Int.{ℤ}
use sgraph_omega_connector.Codec.{Crypto}
use sgraph_omega_connector.Text.{Text, Unicode}
use sgraph_omega_connector.Security.{ticks_per_sec}
use sgraph_omega_connector.Models.{ScanAttachmentRequest}
use sgraph_omega_connector.OmegaClient.Client.{
  OmegaClient, new_client, CircuitState, closed, can_attempt, record_failure, circuit_open,
}
use sgraph_omega_connector.OmegaClient.Posts.{
  builds, Upstream, Attempt, returned, refused, failed, settle, scan_attachment, run_attempts,
}
use sgraph_omega_connector.OmegaClient.Attempts.{
  nth_attempt, scan_attachment_exhausted, scan_attachment_open,
}
use sgraph_omega_connector.OmegaClient.Loop.{Fails}

-- The ranges that the constructor brings the numbers into.
pub record IsClient (c : OmegaClient) : Type 0 where
  pub fails : 1 ≤ c.breaker_fails
  pub reset : 1 ≤ c.breaker_reset_sec

pub new_client-IsClient :
    (base_url api_key : Text) (require_hmac : Bool) (hmac_secret : Text) (tls_verify : Bool)
    (ca_cert_path : Text) (timeout_ms retry_count breaker_fails breaker_reset_sec : ℤ)
    → IsClient (
        new_client base_url api_key require_hmac hmac_secret tls_verify ca_cert_path timeout_ms
          retry_count breaker_fails breaker_reset_sec)
unfolding new_client
new_client-IsClient base_url api_key require_hmac hmac_secret tls_verify ca_cert_path timeout_ms
      retry_count breaker_fails breaker_reset_sec =
    record { fails = ground arith; reset = ground arith }

-- The circuit has an opening time exactly when the failures in a row have reached the limit.
pub record IsBreaker (c : OmegaClient) (s : CircuitState) : Type 0 where
  pub low : s.failure_count < c.breaker_fails → s.opened_until_ts ≡ 0
  pub high : c.breaker_fails ≤ s.failure_count → s.opened_until_ts ≢ 0

pub closed-IsBreaker : (c : OmegaClient) → IsClient c → IsBreaker c closed
closed-IsBreaker c v = record { low = λ h. refl; high = λ h. absurd (omega arith) }

record_failure-IsBreaker :
    (c : OmegaClient) (now : ℕ) (s : CircuitState)
    → IsClient c
    → IsBreaker c s
    → IsBreaker c (record_failure c now s)
unfolding record_failure
record_failure-IsBreaker c now s v b = record {
  low = λ h. ground (arith, b.low (omega arith));
  high = λ h. λ e. ground arith;
}

pub settle-IsBreaker :
    (c : OmegaClient) (ended : ℕ) (s : CircuitState) (a : Attempt)
    → IsClient c
    → IsBreaker c s
    → IsBreaker c (settle c ended s a).1
unfolding settle
settle-IsBreaker c ended s (returned j) v b = closed-IsBreaker c v
settle-IsBreaker c ended s (refused status code body) v b = b
settle-IsBreaker c ended s (failed e) v b = record_failure-IsBreaker c ended s v b

-- A scan, as the client meets it.
pub record Scan : Type 0 where
  pub upstream : Upstream
  pub payload : ScanAttachmentRequest
  pub debug : Bool

module _ (k : Crypto) (u : Unicode) (c : OmegaClient) where
  unfoldable pub run_scans : List Scan → CircuitState → CircuitState
  run_scans [] s = s
  run_scans (x ∷ xs) s = run_scans xs (scan_attachment k u c x.upstream x.payload x.debug s).1

  scan_attachment-IsBreaker :
      (x : Scan) (s : CircuitState)
      → IsClient c
      → IsBreaker c s
      → IsBreaker c (scan_attachment k u c x.upstream x.payload x.debug s).1
  unfolding scan_attachment
  scan_attachment-IsBreaker x s v b = elim (Bool-cases (can_attempt x.upstream.started s)) [
    | inl open_to ↦ elim (Bool-cases (builds c x.upstream x.payload x.debug)) [
      | inl built ↦
          rw (open_to, built)
            (settle-IsBreaker c x.upstream.ended s
              (run_attempts (nth_attempt k u c x.upstream x.payload x.debug) 0 (suc c.retry_count)
                none)
              v b)
      | inr unbuilt ↦ rw (open_to, unbuilt) b
    ]
    | inr shut ↦ rw shut b
  ]

  -- Whatever Omega answers, in any sequence of scans, the circuit has an opening time exactly when the
  -- failures in a row have reached `breaker_fails`, if it is so at first and the client's limits are at
  -- least 1.
  pub run_scans-IsBreaker :
      (xs : List Scan) (s : CircuitState)
      → IsClient c
      → IsBreaker c s
      → IsBreaker c (run_scans xs s)
  unfolding run_scans
  run_scans-IsBreaker [] s v b = b
  run_scans-IsBreaker (x ∷ xs) s v b =
      run_scans-IsBreaker xs (scan_attachment k u c x.upstream x.payload x.debug s).1 v
        (scan_attachment-IsBreaker x s v b)

  -- The request of the scan can be built, and every post of it fails.
  abbrev pub Exhausts : Scan → Type 0
  Exhausts x =
      (builds c x.upstream x.payload x.debug ≡ true)
      × ((m : ℕ) → m ≤ c.retry_count → Fails (nth_attempt k u c x.upstream x.payload x.debug m))

  abbrev pub last_end : ℕ → List Scan → ℕ
  last_end t [] = t
  last_end t (x ∷ xs) = last_end x.upstream.ended xs

  -- The state after `n` failed scans in a row, the last of which ended at `t`.
  abbrev pub after_failures : ℕ → ℕ → CircuitState
  after_failures n t = record {
    failure_count = n;
    opened_until_ts = if leb c.breaker_fails n then t + c.breaker_reset_sec * ticks_per_sec else 0;
  }

  failed_scan :
      (x : Scan) (n t : ℕ)
      → n < c.breaker_fails
      → Exhausts x
      → (scan_attachment k u c x.upstream x.payload x.debug (after_failures n t)).1
        ≡ after_failures (suc n) x.upstream.ended
  unfolding can_attempt record_failure
  failed_scan x n t h f =
      let (built, all_fail) = f in
      let (e, last_fails) = all_fail c.retry_count (omega arith) in
      let s = after_failures n t in
      ap (λ r. r.1)
        (scan_attachment_exhausted k u c x.upstream x.payload x.debug s e (ground arith, built)
          all_fail last_fails)
      ∙ ground arith

  run_scans_failures :
      (xs : List Scan) (n t : ℕ)
      → n + length xs ≤ c.breaker_fails
      → All Exhausts xs
      → run_scans xs (after_failures n t) ≡ after_failures (n + length xs) (last_end t xs)
  unfolding run_scans
  run_scans_failures [] n t h f = ap (λ m. after_failures m t) (omega arith)
  run_scans_failures (x ∷ xs) n t h (f, fs) =
      ap (run_scans xs) (failed_scan x n t (omega arith) f)
      ∙ run_scans_failures xs (suc n) x.upstream.ended (omega arith) fs
      ∙ ap (λ m. after_failures m (last_end x.upstream.ended xs)) (omega arith)

  -- Fewer than `breaker_fails` failed scans in a row leave the circuit closed.
  pub run_scans_below :
      (xs : List Scan)
      → length xs < c.breaker_fails
      → All Exhausts xs
      → run_scans xs closed ≡ record { failure_count = length xs; opened_until_ts = 0 }
  run_scans_below xs h f =
      ap (run_scans xs) (ground arith) ∙ run_scans_failures xs 0 0 (omega arith) f ∙ ground arith

  -- After `breaker_fails` failed scans in a row, each with a request that was built and posts that all
  -- failed, every scan that starts less than `breaker_reset_sec` seconds after the end of the last one
  -- raises at once, and changes nothing.
  pub run_scans_trip :
      (xs : List Scan) (next : Scan)
      → IsClient c
      → length xs ≡ c.breaker_fails
      → All Exhausts xs
      → next.upstream.started < last_end 0 xs + c.breaker_reset_sec * ticks_per_sec
      → scan_attachment k u c next.upstream next.payload next.debug (run_scans xs closed)
        ≡ (raise circuit_open, run_scans xs closed)
  run_scans_trip xs next v h f soon =
      let tripped : run_scans xs closed ≡ after_failures (length xs) (last_end 0 xs) =
        ap (run_scans xs) (ground arith)
        ∙ run_scans_failures xs 0 0 (omega arith) f
        ∙ ap (λ m. after_failures m (last_end 0 xs)) (zero-add (length xs)) in
      scan_attachment_open k u c next.upstream next.payload next.debug (run_scans xs closed)
        (rw tripped (ground arith))

  -- When the failures in a row have reached `breaker_fails` and the opening time is over, a scan is let
  -- through, and if its request is built and all its posts fail the circuit opens again at once, for
  -- another `breaker_reset_sec` seconds.
  pub scan_attachment_reopens :
      (x : Scan) (s : CircuitState)
      → c.breaker_fails ≤ s.failure_count
      → s.opened_until_ts ≤ x.upstream.started
      → Exhausts x
      → (scan_attachment k u c x.upstream x.payload x.debug s).1 ≡ record {
        failure_count = s.failure_count + 1;
        opened_until_ts = x.upstream.ended + c.breaker_reset_sec * ticks_per_sec;
      }
  unfolding can_attempt record_failure
  scan_attachment_reopens x s h over f =
      let (built, all_fail) = f in
      let (e, last_fails) = all_fail c.retry_count (omega arith) in
      ap (λ r. r.1)
        (scan_attachment_exhausted k u c x.upstream x.payload x.debug s e (ground arith, built)
          all_fail last_fails)
      ∙ ground arith
