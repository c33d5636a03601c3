-- ===== src/Auth/Separation.antt =====
-- Nonces of different tenants, API keys or values are remembered under different keys.
use sgraph_omega_connector.Base.{
  ℕ, ◌<◌, List, [], ◌∷◌, ◌++◌, All, All-append, ◌≡◌, ◌≢◌, refl, sym, ◌∙◌, ◌⊎◌, inl, inr, Bool-cases,
  arith,
}
use mathlib.Core.List.{append_assoc}
use mathlib.Core.Path.{subst}
use sgraph_omega_connector.Text.{Text, text_eq, text_eq_iff}
use sgraph_omega_connector.Codec.{Crypto, IsCrypto}
use sgraph_omega_connector.Codec.Utf8.{encode, IsCodePoint, encode-injective}
use sgraph_omega_connector.Codec.Hex.{hex-injective, IsHexDigit, hex-IsHexDigit}
use sgraph_omega_connector.Security.{sha256_hex}
use sgraph_omega_connector.Security.Canonical.{Free}
use sgraph_omega_connector.Auth.{replay_key}

-- Two different messages with the same SHA-256 digest.
abbrev pub Collides : Crypto → List ℕ → List ℕ → Type 0
Collides k m n = (m ≢ n) × (k.sha256 m ≡ k.sha256 n)

-- The texts before and behind the first bar.
bar-injective :
    (s t x y : Text) → Free b'|' s → Free b'|' t → s ++ b'|' ∷ x ≡ t ++ b'|' ∷ y → (s ≡ t) × (x ≡ y)
bar-injective [] [] x y hs ht e = (refl, grind (arith, e))
bar-injective [] (d ∷ t) x y hs ht e = absurd (ht.0 (grind (arith, e)))
bar-injective (c ∷ s) [] x y hs ht e = absurd (hs.0 (grind (arith, e)))
bar-injective (c ∷ s) (d ∷ t) x y hs ht e =
    let tails : s ++ b'|' ∷ x ≡ t ++ b'|' ∷ y = grind (arith, e) in
    let (same, rest) = bar-injective s t x y hs.1 ht.1 tails in (grind (arith, e, same), rest)

IsHexDigit-Free : (s : Text) → All IsHexDigit s → Free b'|' s
IsHexDigit-Free [] h = tt
IsHexDigit-Free (c ∷ s) (d, h) = (λ e. absurd (ground (arith, d, e)), IsHexDigit-Free s h)

IsHexDigit-IsCodePoint : (s : Text) → All IsHexDigit s → All IsCodePoint s
IsHexDigit-IsCodePoint [] h = tt
IsHexDigit-IsCodePoint (c ∷ s) (d, h) = (ground (arith, d), IsHexDigit-IsCodePoint s h)

module _ (k : Crypto) where
  abbrev pub digest : Text → Text
  digest key = sha256_hex k (encode key)

  abbrev pub message : Text → Text → Text → Text
  message tenant key nonce = tenant ++ b'|' ∷ digest key ++ b'|' ∷ nonce

  -- What stands behind the bar after the tenant.
  abbrev behind : Text → Text → Text
  behind key nonce = digest key ++ (b'|' ∷ nonce)

  message-eq :
      (tenant key nonce : Text) → message tenant key nonce ≡ tenant ++ (b'|' ∷ behind key nonce)
  message-eq tenant key nonce = append_assoc tenant (b'|' ∷ digest key) (b'|' ∷ nonce)

module _ (k : Crypto) (c : IsCrypto k) where
  sha256_hex-injective : (m n : List ℕ) → sha256_hex k m ≡ sha256_hex k n → (m ≡ n) ⊎ Collides k m n
  unfolding sha256_hex
  sha256_hex-injective m n e =
      let same = hex-injective (k.sha256 m) (k.sha256 n) (c.sha256_bytes m) (c.sha256_bytes n) e in
      elim (Bool-cases (text_eq m n)) [
        | inl eq ↦ inl ((text_eq_iff m n).0 eq)
        | inr ne ↦ inr (λ q. absurd (grind (arith, ne, (text_eq_iff m n).1 q)), same)
      ]

  digest-IsHexDigit : (key : Text) → All IsHexDigit (digest k key)
  unfolding sha256_hex
  digest-IsHexDigit key = hex-IsHexDigit (k.sha256 (encode key)) (c.sha256_bytes (encode key))

  message-IsCodePoint :
      (tenant key nonce : Text)
      → All IsCodePoint tenant
      → All IsCodePoint nonce
      → All IsCodePoint (message k tenant key nonce)
  message-IsCodePoint tenant key nonce ht hn =
      let bar : b'|' < 0x110000 = omega arith in
      subst (All IsCodePoint) (sym (message-eq k tenant key nonce)) (
        All-append IsCodePoint tenant (b'|' ∷ behind k key nonce) ht (
          bar,
          All-append IsCodePoint (digest k key) (b'|' ∷ nonce)
              (IsHexDigit-IsCodePoint (digest k key) (digest-IsHexDigit key)) (bar, hn),
        ))

  messages-injective :
      (tenant tenant' key key' nonce nonce' : Text)
      → Free b'|' tenant
      → Free b'|' tenant'
      → All IsCodePoint key
      → All IsCodePoint key'
      → message k tenant key nonce ≡ message k tenant' key' nonce'
      → ((tenant ≡ tenant') × (key ≡ key') × (nonce ≡ nonce'))
        ⊎ Collides k (encode key) (encode key')
  messages-injective tenant tenant' key key' nonce nonce' free free' points points' e =
      let (tenants, rest) =
        bar-injective tenant tenant' (behind k key nonce) (behind k key' nonce') free free'
          (sym (message-eq k tenant key nonce) ∙ e ∙ message-eq k tenant' key' nonce') in
      let (digests, nonces) =
        bar-injective (digest k key) (digest k key') nonce nonce'
          (IsHexDigit-Free (digest k key) (digest-IsHexDigit key))
          (IsHexDigit-Free (digest k key') (digest-IsHexDigit key')) rest in
      elim (sha256_hex-injective (encode key) (encode key') digests) [
        | inl same ↦ inl (tenants, encode-injective key key' points points' same, nonces)
        | inr collision ↦ inr collision
      ]

  -- Two nonces are remembered under the same key only where the tenants, the API keys and the nonces
  -- are the same, or SHA-256 has the same digest for the two different messages that are hashed, or
  -- for the two different API keys, if no tenant id holds a bar and the texts are made of code points.
  pub replay_key-injective :
      (tenant tenant' key key' nonce nonce' : Text)
      → Free b'|' tenant
      → Free b'|' tenant'
      → All IsCodePoint tenant × All IsCodePoint key × All IsCodePoint nonce
      → All IsCodePoint tenant' × All IsCodePoint key' × All IsCodePoint nonce'
      → replay_key k tenant key nonce ≡ replay_key k tenant' key' nonce'
      → ((tenant ≡ tenant') × (key ≡ key') × (nonce ≡ nonce'))
        ⊎ (Collides k (encode (message k tenant key nonce)) (encode (message k tenant' key' nonce'))
            ⊎ Collides k (encode key) (encode key'))
  unfolding replay_key
  replay_key-injective tenant tenant' key key' nonce nonce' free free' (pt, pk, pn) (pt', pk', pn')
        e =
      let m = message k tenant key nonce in
      let m' = message k tenant' key' nonce' in
      elim (sha256_hex-injective (encode m) (encode m') e) [
        | inr collision ↦ inr (inl collision)
        | inl same ↦
            elim (messages-injective tenant tenant' key key' nonce nonce' free free' pk pk' (
              encode-injective m m' (message-IsCodePoint tenant key nonce pt pn)
                (message-IsCodePoint tenant' key' nonce' pt' pn') same)) [
                  | inl parts ↦ inl parts
                  | inr collision ↦ inr (inr collision)
                ]
      ]
