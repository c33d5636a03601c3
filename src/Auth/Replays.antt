-- ===== src/Auth/Replays.antt =====
-- `validate_hmac`: what it accepts, what it leaves in the replay cache, and a request sent twice.
use sgraph_omega_connector.Base.{
  ℕ, ◌+◌, ◌≤◌, true, false, List, Result-cases, ok, raise, length, [], ◌≡◌, ◌≢◌, ◌↔◌, refl, inl,
  inr, arith,
}
use sgraph_omega_connector.Base.Int.{pos, leb_ℤ}
use sgraph_omega_connector.Text.{Text, Unicode, strip}
use sgraph_omega_connector.Codec.{Crypto, IsCrypto}
use sgraph_omega_connector.Dict.{Distinct}
use sgraph_omega_connector.Security.{NonceReplayCache, check_and_mark, expiry}
use sgraph_omega_connector.Security.Replay.{Call, Ordered}
use sgraph_omega_connector.Security.Survival.{last_time, serve, check_and_mark-serve}
use sgraph_omega_connector.Errors.{http_error}
use sgraph_omega_connector.Models.{ScanAttachmentRequest, or_empty}
use sgraph_omega_connector.Auth.{
  AuthConfig, Request, verify_signature, replay_key, mark_nonce, validate_hmac,
}
use sgraph_omega_connector.Auth.Signature.{
  IsSigned, verify_signature_sound, verify_signature_complete,
}

module _ (k : Crypto) (u : Unicode) where
  -- The key under which the cache remembers the nonce of a request.
  abbrev pub request_key : Request → ScanAttachmentRequest → Text → Text
  request_key request payload api_key =
      replay_key k payload.tenant_id api_key (strip (or_empty request.x_nonce))

  module _ (c : IsCrypto k) (config : AuthConfig) (on : config.require_hmac ≡ true)
      (now marked_at : ℕ) (request : Request) (payload : ScanAttachmentRequest) (api_key : Text)
      (cache : NonceReplayCache) where
    -- With HMAC required, a request passes exactly when it is signed as the server would sign it, its
    -- timestamp is near the server's clock, and the cache counts its nonce as new.
    pub validate_hmac_iff :
        ((validate_hmac k u config now marked_at request payload api_key cache).0 ≡ ok tt) ↔ (
          IsSigned k u config now request payload
          × ((check_and_mark marked_at (request_key request payload api_key) cache).1 ≡ true))
    unfolding validate_hmac mark_nonce
    validate_hmac_iff = (sound, complete)
      where
        sound :
            (validate_hmac k u config now marked_at request payload api_key cache).0 ≡ ok tt
            → IsSigned k u config now request payload
              × ((check_and_mark marked_at (request_key request payload api_key) cache).1 ≡ true)
        sound e = elim (Result-cases (verify_signature k u config now request payload)) [
          | inl (x, bad) ↦ absurd (ground arith)
          | inr (nonce, good) ↦
              let (signed, same) =
                verify_signature_sound k u config now request payload nonce good in
              (signed, ground arith)
        ]

        complete :
            IsSigned k u config now request payload
              × ((check_and_mark marked_at (request_key request payload api_key) cache).1 ≡ true)
            → (validate_hmac k u config now marked_at request payload api_key cache).0 ≡ ok tt
        complete (signed, fresh) =
            ground (arith, verify_signature_complete k u config now request payload c signed)

    -- A request that is not signed is refused, and burns no nonce: the cache is as before.
    pub validate_hmac_unsigned :
        ¬ IsSigned k u config now request payload
        → ((validate_hmac k u config now marked_at request payload api_key cache).0 ≢ ok tt)
          × ((validate_hmac k u config now marked_at request payload api_key cache).1 ≡ cache)
    unfolding validate_hmac
    validate_hmac_unsigned unsigned =
        elim (Result-cases (verify_signature k u config now request payload)) [
          | inl (x, bad) ↦ (ground arith, ground arith)
          | inr (nonce, good) ↦
              absurd (unsigned (verify_signature_sound k u config now request payload nonce good).0)
        ]

    signed_result :
        IsSigned k u config now request payload
        → validate_hmac k u config now marked_at request payload api_key cache
          ≡ mark_nonce payload.request_id
              (check_and_mark marked_at (request_key request payload api_key) cache)
    unfolding validate_hmac
    signed_result signed =
        ground (arith, verify_signature_complete k u config now request payload c signed)

-- A request that has passed is answered by 409 when it comes again before the nonce expires, whatever
-- other nonces are looked up in between, while the cache has room for all of them.
pub validate_hmac-serve :
    (k : Crypto) (u : Unicode) (config : AuthConfig) (now marked_at : ℕ) (request : Request)
    (payload : ScanAttachmentRequest) (api_key : Text) (cache : NonceReplayCache)
    (calls : List Call) (again marked_again : ℕ)
    → IsCrypto k
    → config.require_hmac ≡ true
    → Distinct cache.entries
    → length cache.entries + 1 + length calls ≤ cache.max_entries
    → (validate_hmac k u config now marked_at request payload api_key cache).0 ≡ ok tt
    → Ordered marked_at calls
    → last_time marked_at calls ≤ marked_again
    → leb_ℤ (expiry cache.ttl_sec marked_at) (pos marked_again) ≡ false
    → IsSigned k u config again request payload
    → (validate_hmac k u config again marked_again request payload api_key
        (serve calls (validate_hmac k u config now marked_at request payload api_key cache).1)).0
      ≡ raise (http_error 409 "replay_detected" "nonce already used" payload.request_id [])
unfolding mark_nonce
validate_hmac-serve k u config now marked_at request payload api_key cache calls again marked_again
      c on d room first o end ahead signed =
    let key = request_key k u request payload api_key in
    let (before, fresh) =
      (validate_hmac_iff k u c config on now marked_at request payload api_key cache).0 first in
    let one = signed_result k u c config on now marked_at request payload api_key cache before in
    let cache' = serve calls (check_and_mark marked_at key cache).0 in
    let two =
      signed_result k u c config on again marked_again request payload api_key cache' signed in
    let seen =
      check_and_mark-serve marked_at marked_again key calls cache d room fresh o end ahead in
    rw (one, two, seen) refl
