-- ===== src/Tests/AuthRuns.antt =====
-- Runs of the API key check and of the signature check.
use sgraph_omega_connector.Base.{
  ℕ, ◌/◌, true, false, [], ◌∷◌, some, none, ok, raise, All, ◌≡◌, ◌≢◌, ◌↔◌, ◌⊎◌, inr, refl, ◌∙◌,
  arith,
}
use sgraph_omega_connector.Base.Int.{pos, dist_ℤ, leb_ℤ}
use sgraph_omega_connector.Text.{
  codes, strip, strip-NoSpace, is_ascii_space, digit, magnitude, read_digits, signed, lstrip_by,
  rstrip_by, is_space, starts_with, int_of,
}
use sgraph_omega_connector.Codec.{Crypto, IsCrypto}
use sgraph_omega_connector.Codec.Base64.{b64url_encode-plain}
use sgraph_omega_connector.Security.{
  ticks_per_sec, check_and_mark, cleanup, shed, expire, expired_keys, pop_keys, sign_canonical,
  sha256_hex,
}
use sgraph_omega_connector.Dict.{lookup}
use sgraph_omega_connector.Models.{ScanAttachmentRequest}
use sgraph_omega_connector.Auth.{
  Request, unauthorized, validate_api_key, validate_hmac, request_canonical,
}
use sgraph_omega_connector.Auth.ApiKey.{Accepts, Exists, is_digest, validate_api_key_iff}
use sgraph_omega_connector.Auth.Signature.{IsSigned}
use sgraph_omega_connector.Auth.Replays.{request_key, validate_hmac_iff}
use sgraph_omega_connector.Security.Canonical.{Free}
use sgraph_omega_connector.Auth.{replay_key}
use sgraph_omega_connector.Auth.Separation.{Collides, message, replay_key-injective}
use sgraph_omega_connector.Codec.Utf8.{encode, IsCodePoint}
use sgraph_omega_connector.Tests.Data.{
  unicode, toy, flat, flat-IsCrypto, toy-IsCrypto, server, payload, signed_by, unsigned, cache, now,
}

-- A signature for `p` serves for `q` where the two have the same.
pub signed_by-IsSigned :
    (k : Crypto) (c : IsCrypto k) (t : ℕ) (p q : ScanAttachmentRequest)
    → sign_canonical k (request_canonical k unicode unsigned p (codes "7") (codes "n")) (codes "s")
      ≡ sign_canonical k
          (request_canonical k unicode unsigned q (codes "7") (codes "n"))
          (codes "s")
    → leb_ℤ (pos (dist_ℤ (t / ticks_per_sec) (pos 7))) (pos 300) ≡ true
    → IsSigned k unicode server t (signed_by k p) q
unfolding sign_canonical request_canonical strip lstrip_by rstrip_by is_space int_of is_ascii_space
    digit magnitude read_digits signed
signed_by-IsSigned k c t p q same near = record {
  signature = strip-NoSpace _ (b64url_encode-plain _ (c.hmac_bytes _ _)).1 ∙ same;
  timestamp = pos 7;
  parsed = refl;
  near = ground arith;
  dated = λ h. cc;
  nonce = λ h. cc;
  secret = λ h. cc;
}

abbrev pub request : Request
request = signed_by toy payload

-- The request passes with an empty cache.
pub accepted :
    (validate_hmac toy unicode server now now request payload (codes "k1") cache).0 ≡ ok tt
unfolding check_and_mark cleanup shed expire expired_keys pop_keys lookup
accepted =
    (validate_hmac_iff toy unicode toy-IsCrypto server refl now now request payload (codes "k1")
        cache).1
      (signed_by-IsSigned toy toy-IsCrypto now payload payload refl refl, refl)

validate_hmac_iff_example :
    ((validate_hmac toy unicode server now now request payload (codes "k1") cache).0 ≡ ok tt) ↔ (
      IsSigned toy unicode server now request payload
      × ((check_and_mark now (request_key toy unicode request payload (codes "k1")) cache).1
          ≡ true))
validate_hmac_iff_example =
    validate_hmac_iff toy unicode toy-IsCrypto server refl now now request payload (codes "k1")
      cache

abbrev nameless : Request
nameless = record (signed_by toy payload) { x_nonce = none }

nameless-unsigned : ¬ IsSigned toy unicode server now nameless payload
unfolding strip lstrip_by rstrip_by
nameless-unsigned s = s.nonce refl

plain_key : (strip (codes "k1") ≢ []) × (is_digest (codes "k1") ≡ false)
unfolding strip lstrip_by rstrip_by is_space starts_with
plain_key = (λ h. cc, refl)

validate_api_key_iff_example :
    ((validate_api_key toy unicode server (some (codes "k1")) none ≡ ok (strip (codes "k1")))
      × Exists (Accepts toy unicode (strip (codes "k1"))) (codes "k1" ∷ []))
    ⊎ ((validate_api_key toy unicode server (some (codes "k1")) none
          ≡ raise (unauthorized "invalid API key" none))
        × (¬ Exists (Accepts toy unicode (strip (codes "k1"))) (codes "k1" ∷ [])))
unfolding strip lstrip_by rstrip_by is_space
validate_api_key_iff_example =
    validate_api_key_iff toy unicode server (some (codes "k1")) none plain_key.0 refl (inr refl, tt)

-- All digests are the same here, so the keys of two nonces are.
replay_key-injective_example :
    ((codes "t" ≡ codes "t") × (codes "k1" ≡ codes "k1") × (codes "n" ≡ codes "m"))
    ⊎ (Collides flat
          (encode (message flat (codes "t") (codes "k1") (codes "n")))
          (encode (message flat (codes "t") (codes "k1") (codes "m")))
        ⊎ Collides flat (encode (codes "k1")) (encode (codes "k1")))
unfolding replay_key sha256_hex
replay_key-injective_example =
    let bar : Free b'|' (codes "t") = (λ e. absurd (omega (arith, e)), tt) in
    let t : All IsCodePoint (codes "t") = (omega arith, tt) in
    let key : All IsCodePoint (codes "k1") = (omega arith, (omega arith, tt)) in
    replay_key-injective flat flat-IsCrypto (codes "t") (codes "t") (codes "k1") (codes "k1")
      (codes "n") (codes "m") bar bar (t, key, (omega arith, tt)) (t, key, (omega arith, tt)) refl
