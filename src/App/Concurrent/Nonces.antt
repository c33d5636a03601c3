-- ===== src/App/Concurrent/Nonces.antt =====
-- A request that is sent again, whatever else arrives in between.
use sgraph_omega_connector.Base.{
  ℕ, ◌+◌, ◌≤◌, Bool, true, false, [], ok, raise, length, ◌≡◌, sym, ap, ◌∙◌, inl, inr, arith,
}
use mathlib.Core.Path.{subst}
use sgraph_omega_connector.Base.Int.{pos, leb_ℤ}
use sgraph_omega_connector.Text.{Text}
use sgraph_omega_connector.Codec.{Crypto, IsCrypto}
use sgraph_omega_connector.Dict.{Distinct}
use sgraph_omega_connector.Security.{expiry}
use sgraph_omega_connector.Security.Replay.{Ordered}
use sgraph_omega_connector.Security.Survival.{last_time, serve}
use sgraph_omega_connector.Errors.{Exception, http_error}
use sgraph_omega_connector.Models.{ScanAttachmentRequest}
use sgraph_omega_connector.Auth.{Request, validate_api_key, validate_hmac}
use sgraph_omega_connector.Auth.Signature.{IsSigned}
use sgraph_omega_connector.Auth.Replays.{validate_hmac-serve}
use sgraph_omega_connector.App.Endpoint.{ConnectorRuntime, State, Environment, read_payload}
use sgraph_omega_connector.App.Admission.{hmac_check, IsAdmitted, admitted_state}
use sgraph_omega_connector.App.Concurrent.{
  Arrival, answered, scanning, arrive, check_request, start_scan, conclude, Server, wait, answer,
  start, finish, Reach, here, next,
}
use sgraph_omega_connector.App.Concurrent.Cases.{arrive-cases}
use sgraph_omega_connector.Security.Calls.{Looks, Called, Called-look, Called-none}

module _ (k : Crypto) (rt : ConnectorRuntime) where
  start_scan-replay_cache :
      (env : Environment) (debug : Bool) (payload : ScanAttachmentRequest) (s : State)
      → (start_scan k rt env debug payload s).1.replay_cache ≡ s.replay_cache
  unfolding start_scan
  start_scan-replay_cache env debug payload s = ground arith

  arrive-Looks :
      (env : Environment) (debug : Bool) (request : Request) (s s' : State) (x : Arrival)
      → arrive k rt env debug request s ≡ (x, s')
      → Looks env.marked_at s.replay_cache s'.replay_cache
  arrive-Looks env debug request s s' x e = elim (arrive-cases k rt env debug request s) [
    | inl (err, c', refused, looked) ↦
        subst (Looks env.marked_at s.replay_cache) (ap (λ p. p.1.replay_cache) (sym refused ∙ e))
          looked
    | inr (payload, api_key, a, admitted, looked) ↦
        let s₁ = admitted_state k rt env request s payload api_key in
        subst (Looks env.marked_at s.replay_cache)
          (sym (start_scan-replay_cache env debug payload s₁)
            ∙ ap (λ p. p.1.replay_cache) (sym admitted ∙ e))
          looked
  ]

  -- How many requests arrive on a path.
  unfoldable pub arrivals : {v w : Server} → Reach k rt v w → ℕ
  arrivals here = 0
  arrivals (next r (wait n)) = arrivals r
  arrivals (next r (answer env debug request x s later e)) = arrivals r + 1
  arrivals (next r (start env debug request payload s later e)) = arrivals r + 1
  arrivals (next r (finish run a x before after e)) = arrivals r

  Reach-Called :
      {v w : Server} (p : Reach k rt v w)
      → Called v.now w.now (arrivals p) v.state.replay_cache w.state.replay_cache
  unfolding arrivals conclude
  Reach-Called {v} here = Called-none v.now v.state.replay_cache
  Reach-Called (next r (wait n)) =
      let h = Reach-Called r in
      record {
        calls = h.calls;
        ordered = h.ordered;
        ended = omega (arith, h.ended);
        few = h.few;
        result = h.result;
      }
  Reach-Called {v} (next {w} r (answer env debug request x s later e)) =
      Called-look v.now w.now env.marked_at (arrivals r) v.state.replay_cache w.state.replay_cache
        s.replay_cache (Reach-Called r) later
        (arrive-Looks env debug request w.state s (answered x) e)
  Reach-Called {v} (next {w} r (start env debug request payload s later e)) =
      Called-look v.now w.now env.marked_at (arrivals r) v.state.replay_cache w.state.replay_cache
        s.replay_cache (Reach-Called r) later
        (arrive-Looks env debug request w.state s (scanning payload) e)
  Reach-Called (next r (finish run a x before after e)) = Reach-Called r

  arrive_refused :
      (env : Environment) (debug : Bool) (request : Request) (s : State)
      (payload : ScanAttachmentRequest) (api_key : Text) (e : Exception)
      → read_payload env request.body ≡ ok payload
      → validate_api_key k env.runtime.unicode rt.auth request.x_api_key payload.request_id
        ≡ ok api_key
      → (hmac_check k rt env request s payload api_key).0 ≡ raise e
      → (arrive k rt env debug request s).0 ≡ answered (raise e)
  unfolding arrive check_request
  arrive_refused env debug request s payload api_key e read key check = ground arith

  -- However requests overlap: a request that was admitted is refused by 409 when it arrives again
  -- before its nonce expires, still signed, whatever has arrived, waited and finished in between,
  -- while the cache has room for a nonce of each of them.
  pub arrive_again :
      (env : Environment) (request : Request) (s : State) (payload : ScanAttachmentRequest)
      (api_key : Text) {v w : Server} (p : Reach k rt v w) (again : Bool) (uuid : Text)
      (now marked_at : ℕ)
      → IsCrypto k
      → rt.auth.require_hmac ≡ true
      → Distinct s.replay_cache.entries
      → length s.replay_cache.entries + 1 + arrivals p ≤ s.replay_cache.max_entries
      → IsAdmitted k rt env request s payload api_key
      → v.state.replay_cache ≡ (hmac_check k rt env request s payload api_key).1
      → v.now ≡ env.marked_at
      → w.now ≤ marked_at
      → leb_ℤ (expiry s.replay_cache.ttl_sec env.marked_at) (pos marked_at) ≡ false
      → read_payload (record env { request_uuid = uuid }) request.body ≡ ok payload
      → IsSigned k env.runtime.unicode rt.auth now request payload
      → (arrive k rt
          (record env { request_uuid = uuid; now = now; marked_at = marked_at })
          again
          request
          w.state).0
        ≡ answered
            (raise (http_error 409 "replay_detected" "nonce already used" payload.request_id []))
  unfolding read_payload
  arrive_again env request s payload api_key {v} {w} p again uuid now marked_at c on d room a began
        at_once late ahead read signed =
      let h = Reach-Called p in
      let o : Ordered env.marked_at h.calls = rw (← at_once) h.ordered in
      let e : last_time env.marked_at h.calls ≤ marked_at =
        rw (← at_once) (omega (arith, h.ended)) in
      let refused =
        validate_hmac-serve k env.runtime.unicode rt.auth env.now env.marked_at request payload
          api_key s.replay_cache h.calls now marked_at c on d (omega (arith, h.few)) a.signed o e
          ahead signed in
      let cached = h.result ∙ ap (serve h.calls) began in
      arrive_refused (record env { request_uuid = uuid; now = now; marked_at = marked_at }) again
        request w.state payload api_key
        (http_error 409 "replay_detected" "nonce already used" payload.request_id []) read a.key
        (ap
            (λ x.
              (validate_hmac k env.runtime.unicode rt.auth now marked_at request payload api_key
                x).0)
            cached
          ∙ refused)
