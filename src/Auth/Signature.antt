-- ===== src/Auth/Signature.antt =====
-- When a request's signature is accepted.
use sgraph_omega_connector.Base.{
  ℕ, ◌/◌, true, [], ◌∷◌, some, ok, all, length, ◌≡◌, ◌≢◌, refl, sym, ap, ◌∙◌, inl, inr,
  Option-cases, arith,
}
use sgraph_omega_connector.Base.Int.{ℤ, pos, dist_ℤ, ◌≤ℤ◌}
use sgraph_omega_connector.Text.{Text, Unicode, strip, truthy, text_eq_iff, is_ascii, int_of}
use sgraph_omega_connector.Codec.{Crypto, IsCrypto}
use sgraph_omega_connector.Codec.Base64.{b64url_encode-plain, b64url_encode-ne-nil}
use sgraph_omega_connector.Codec.Utf8.{encode}
use sgraph_omega_connector.Security.{sign_canonical, ticks_per_sec}
use sgraph_omega_connector.Models.{ScanAttachmentRequest, or_empty}
use sgraph_omega_connector.Auth.{
  AuthConfig, Request, compare_digest, request_canonical, verify_signature, parse_timestamp,
}

pub truthy_of_ne : (s : Text) → s ≢ [] → truthy s ≡ true
truthy_of_ne [] n = absurd (n refl)
truthy_of_ne (c ∷ s) n = refl

module _ (k : Crypto) (u : Unicode) where
  -- The signature that the server computes for the request.
  abbrev pub expected_signature : AuthConfig → Request → ScanAttachmentRequest → Text
  expected_signature config request payload =
      sign_canonical k
        (request_canonical k u request payload (strip (or_empty request.x_timestamp))
          (strip (or_empty request.x_nonce)))
        config.hmac_secret

  -- The request carries a timestamp near the server's clock, a nonce, and the server's own signature.
  pub record IsSigned (config : AuthConfig) (now : ℕ) (request : Request)
      (payload : ScanAttachmentRequest) : Type 0 where
    pub signature : strip (or_empty request.x_signature) ≡ expected_signature config request payload
    pub timestamp : ℤ
    pub parsed : int_of u (strip (or_empty request.x_timestamp)) ≡ some timestamp
    pub near : pos (dist_ℤ (now / ticks_per_sec) timestamp) ≤ℤ config.max_clock_skew_sec
    pub dated : strip (or_empty request.x_timestamp) ≢ []
    pub nonce : strip (or_empty request.x_nonce) ≢ []
    pub secret : config.hmac_secret ≢ []

  compare_digest-eq-ok : (a b : Text) → compare_digest a b ≡ ok true → b ≡ a
  unfolding compare_digest
  compare_digest-eq-ok a b e = ground (arith, text_eq_iff a b)

  compare_digest_self : (a b : Text) → all is_ascii a ≡ true → b ≡ a → compare_digest a b ≡ ok true
  unfolding compare_digest
  compare_digest_self a b h e = ground (arith, text_eq_iff a b)

  sign_canonical-plain :
      IsCrypto k
      → (canonical secret : Text)
      → (all is_ascii (sign_canonical k canonical secret) ≡ true)
        × (sign_canonical k canonical secret ≢ [])
  unfolding sign_canonical
  sign_canonical-plain c canonical secret =
      let digest = k.hmac_sha256 (encode secret) (encode canonical) in
      let bytes = c.hmac_bytes (encode secret) (encode canonical) in
      (
        (b64url_encode-plain digest bytes).0,
        b64url_encode-ne-nil digest bytes (λ e.
            absurd (omega (arith, c.hmac_length (encode secret) (encode canonical), ap length e))),
      )

  module _ (config : AuthConfig) (now : ℕ) (request : Request)
      (payload : ScanAttachmentRequest) where
    pub verify_signature_sound :
        (nonce : Text)
        → verify_signature k u config now request payload ≡ ok nonce
        → IsSigned config now request payload × (nonce ≡ strip (or_empty request.x_nonce))
    unfolding verify_signature parse_timestamp
    verify_signature_sound nonce e = elim (Option-cases (int_of u ts_raw)) [
      | inl unread ↦ absurd (ground arith)
      | inr (z, read) ↦ (
        record {
          signature = ground (arith, compare_digest-eq-ok expected sig);
          timestamp = z;
          parsed = read;
          near = ground arith;
          dated = ground arith;
          nonce = ground arith;
          secret = ground arith;
        },
        ground arith,
      )
    ]
      where
        ts_raw : Text
        ts_raw = strip (or_empty request.x_timestamp)

        sig : Text
        sig = strip (or_empty request.x_signature)

        expected : Text
        expected = expected_signature config request payload

    pub verify_signature_complete :
        IsCrypto k
        → IsSigned config now request payload
        → verify_signature k u config now request payload ≡ ok (strip (or_empty request.x_nonce))
    unfolding verify_signature parse_timestamp
    verify_signature_complete c s =
        let expected = expected_signature config request payload in
        let sig = strip (or_empty request.x_signature) in
        let (ascii, present) =
          sign_canonical-plain c
            (request_canonical k u request payload (strip (or_empty request.x_timestamp))
              (strip (or_empty request.x_nonce)))
            config.hmac_secret in
        ground (
          arith,
          compare_digest_self expected sig ascii s.signature,
          s.parsed,
          truthy_of_ne sig (λ e. present (sym s.signature ∙ e)),
          truthy_of_ne (strip (or_empty request.x_timestamp)) s.dated,
          truthy_of_ne (strip (or_empty request.x_nonce)) s.nonce,
          truthy_of_ne config.hmac_secret s.secret,
        )
