-- ===== src/OmegaClient/Attempts.antt =====
-- Which of the attempts decides a scan.
use sgraph_omega_connector.Base.{
  ℕ, suc, ◌+◌, ◌<◌, ◌≤◌, none, ◌≡◌, refl, sym, ap, ◌∙◌, inl, inr, arith, ok, raise, Bool, true,
  Bool-cases, ◌↔◌,
}
use sgraph_omega_connector.Codec.{Crypto}
use sgraph_omega_connector.Text.{Text, Unicode}
use sgraph_omega_connector.Json.{Json}
use sgraph_omega_connector.Models.{ScanAttachmentRequest}
use sgraph_omega_connector.OmegaClient.Client.{
  OmegaClient, CircuitState, can_attempt, rejected, circuit_open, closed, record_failure,
}
use sgraph_omega_connector.OmegaClient.Posts.{
  Upstream, Attempt, returned, refused, failed, LastError, attempt, run_attempts, settle, outgoing,
  scan_attachment, to_client_error, builds,
}
use sgraph_omega_connector.OmegaClient.Loop.{
  Fails, Decides, run_attempts_sound, run_attempts_complete, run_attempts_exhausted,
}

-- The attempt's reply, rejection or failure, as the result and the state behind it.
module _ (k : Crypto) (u : Unicode) (c : OmegaClient) (up : Upstream)
    (payload : ScanAttachmentRequest) (debug : Bool) where
  -- What the n-th post comes to.
  abbrev pub nth_attempt : ℕ → Attempt
  nth_attempt i = attempt up.loads (up.post (outgoing k u c up payload debug) i)

  -- Attempt `n` is `a`, and every attempt before it fails.
  abbrev pub FirstIs : Attempt → Type 0
  FirstIs a =
      (n : ℕ) × (n ≤ c.retry_count)
      × (nth_attempt n ≡ a)
      × ((m : ℕ) → m < n → Fails (nth_attempt m))

  -- The circuit lets the scan try, and the request can be built.
  abbrev pub CanSend : CircuitState → Type 0
  CanSend s = (can_attempt up.started s ≡ true) × (builds c up payload debug ≡ true)

  -- What the loop ends with.
  abbrev loop_result : Attempt
  loop_result = run_attempts nth_attempt 0 (suc c.retry_count) none

  from_zero : (m : ℕ) → nth_attempt (0 + m) ≡ nth_attempt m
  from_zero m = ap nth_attempt (omega arith)

  loop_result-FirstIs : (a : Attempt) → Decides a → loop_result ≡ a → FirstIs a
  loop_result-FirstIs a d h =
      let (j, lt, hit, before) = run_attempts_sound nth_attempt 0 (suc c.retry_count) none a d h in
      (j, omega arith, sym (from_zero j) ∙ hit, λ m lt. rw (from_zero m) at (before m lt))

  FirstIs-loop_result : (a : Attempt) → Decides a → FirstIs a → loop_result ≡ a
  FirstIs-loop_result a d (j, le, hit, before) =
      run_attempts_complete nth_attempt 0 (suc c.retry_count) none a j d (omega arith)
        (from_zero j ∙ hit) (λ m lt. rw (from_zero m) (before m lt))

  module _ (s : CircuitState) where
    settle-eq-ok : (a : Attempt) (j : Json) → (settle c up.ended s a).0 ≡ ok j → a ≡ returned j
    unfolding settle
    settle-eq-ok (returned i) j h = ground arith
    settle-eq-ok (refused status code body) j h = cc
    settle-eq-ok (failed e) j h = cc

    scan_attachment_ok_sound :
        (j : Json)
        → (scan_attachment k u c up payload debug s).0 ≡ ok j
        → CanSend s × FirstIs (returned j)
    unfolding scan_attachment
    scan_attachment_ok_sound j h = elim (Bool-cases (can_attempt up.started s)) [
      | inl open_to ↦ elim (Bool-cases (builds c up payload debug)) [
        | inl built ↦ (
          (open_to, built),
          loop_result-FirstIs (returned j) tt
              (settle-eq-ok loop_result j (rw (open_to, built) at h)),
        )
        | inr unbuilt ↦ absurd (ground arith)
      ]
      | inr shut ↦ absurd (ground arith)
    ]

    -- When the circuit lets the scan try, its request can be built, and the first attempt that decides, of `retry_count` + 1, is
    -- a reply, the scan returns it and closes the circuit.
    pub scan_attachment_returned :
        (j : Json)
        → CanSend s
        → FirstIs (returned j)
        → scan_attachment k u c up payload debug s ≡ (ok j, closed)
    unfolding scan_attachment settle
    scan_attachment_returned j (open_to, built) f =
        rw (open_to, built, FirstIs-loop_result (returned j) tt f) refl

    -- When the circuit lets the scan try, its request can be built, and the first attempt that decides is a rejection, the scan
    -- raises it and leaves the circuit as it was.
    pub scan_attachment_refused :
        (status : ℕ) (code body : Text)
        → CanSend s
        → FirstIs (refused status code body)
        → scan_attachment k u c up payload debug s ≡ (raise (rejected status code body), s)
    unfolding scan_attachment settle
    scan_attachment_refused status code body (open_to, built) f =
        rw (open_to, built, FirstIs-loop_result (refused status code body) tt f) refl

    -- When the circuit lets the scan try, its request can be built and all `retry_count` + 1 attempts
    -- fail, the scan raises the error of the last one and counts one failure.
    pub scan_attachment_exhausted :
        (e : LastError)
        → CanSend s
        → ((m : ℕ) → m ≤ c.retry_count → Fails (nth_attempt m))
        → nth_attempt c.retry_count ≡ failed e
        → scan_attachment k u c up payload debug s
          ≡ (raise (to_client_error e), record_failure c up.ended s)
    unfolding scan_attachment settle
    scan_attachment_exhausted e (open_to, built) all_fail last_fails =
        rw
          (
            open_to,
            built,
            run_attempts_exhausted nth_attempt 0 c.retry_count none e
                (from_zero c.retry_count ∙ last_fails)
                (λ m lt. rw (from_zero m) (all_fail m (omega arith))),
          )
          refl

    -- A scan returns `j` exactly when the circuit lets it try, its request can be built, and some
    -- attempt, of the first one and `retry_count` more, returns `j` after only failures.
    pub scan_attachment-eq-ok_iff :
        (j : Json)
        → ((scan_attachment k u c up payload debug s).0 ≡ ok j) ↔ (CanSend s × FirstIs (returned j))
    scan_attachment-eq-ok_iff j =
        (scan_attachment_ok_sound j, λ h. rw (scan_attachment_returned j h.0 h.1) refl)

    -- While the circuit is open, the scan raises at once and changes nothing.
    pub scan_attachment_open :
        up.started < s.opened_until_ts
        → scan_attachment k u c up payload debug s ≡ (raise circuit_open, s)
    unfolding scan_attachment can_attempt
    scan_attachment_open h = ground arith
