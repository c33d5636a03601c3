-- ===== src/Auth/ApiKey.antt =====
-- Which API keys are accepted.
use sgraph_omega_connector.Base.{
  Bool, true, false, List, [], ◌∷◌, Option, ok, raise, ◌≡◌, ◌≢◌, ◌⊎◌, refl, inl, inr, Bool-cases,
  All, all, arith,
}
use sgraph_omega_connector.Text.{
  Text, Unicode, codes, strip, lower, truthy, text_eq, text_eq_iff, starts_with, after_first,
  is_ascii,
}
use sgraph_omega_connector.Codec.{Crypto}
use sgraph_omega_connector.Codec.Utf8.{encode}
use sgraph_omega_connector.Security.{sha256_hex}
use sgraph_omega_connector.Errors.{unexpected}
use sgraph_omega_connector.Models.{or_empty}
use sgraph_omega_connector.Auth.Signature.{truthy_of_ne}
use sgraph_omega_connector.Auth.{
  AuthConfig, compare_digest, key_matches, match_key, validate_api_key, unauthorized,
}

-- Some element of the list satisfies the predicate.
abbrev pub Exists {ℓ} : {A : Type ℓ} → (A → Type 0) → List A → Type 0
Exists P [] = ⊥
Exists P (x ∷ xs) = P x ⊎ Exists P xs

-- The configured item is a digest, `sha256:<hex>`.
abbrev pub is_digest : Text → Bool
is_digest configured = starts_with (codes "sha256:") (strip configured)

abbrev pub IsAscii : Text → Type 0
IsAscii s = all is_ascii s ≡ true

-- `compare_digest` can compare the item: it is a digest, or plain ASCII.
abbrev pub IsComparable : Text → Type 0
IsComparable configured = (is_digest configured ≡ true) ⊎ IsAscii (strip configured)

starts_with_nil : (s : Text) → truthy s ≡ false → starts_with (codes "sha256:") s ≡ false
unfolding starts_with
starts_with_nil [] h = refl
starts_with_nil (c ∷ s) h = cc

module _ (k : Crypto) (u : Unicode) where
  -- The item is the key itself, or the digest of the key.
  abbrev pub Accepts : Text → Text → Type 0
  Accepts key configured =
      ((is_digest configured ≡ false) × (strip configured ≡ key))
      ⊎ ((is_digest configured ≡ true)
          × (sha256_hex k (encode key) ≡ lower u (strip (after_first b':' (strip configured)))))

  -- The digest that the item asks for.
  wanted : Text → Text
  wanted configured = lower u (strip (after_first b':' (strip configured)))

  module _ (key : Text) (present : truthy key ≡ true) (ascii : IsAscii key) where
    key_matches_iff :
        (configured : Text)
        → IsComparable configured
        → ((key_matches k u key configured ≡ ok true) × Accepts key configured)
          ⊎ ((key_matches k u key configured ≡ ok false) × (¬ Accepts key configured))
    unfolding key_matches compare_digest wanted
    key_matches_iff configured h = elim (Bool-cases (truthy (strip configured))) [
      | inr empty ↦ inr (ground arith, λ a. ground (arith, starts_with_nil (strip configured)))
      | inl there ↦ elim (Bool-cases (is_digest configured)) [
        | inl digest ↦ elim (Bool-cases (text_eq found (wanted configured))) [
          | inl same ↦ inl (ground arith, ground (arith, text_eq_iff found (wanted configured)))
          | inr other ↦
              inr (ground arith, λ a. ground (arith, text_eq_iff found (wanted configured)))
        ]
        | inr plain ↦ elim (Bool-cases (text_eq (strip configured) key)) [
          | inl same ↦ inl (ground arith, ground (arith, text_eq_iff (strip configured) key))
          | inr other ↦ inr (ground arith, λ a. ground (arith, text_eq_iff (strip configured) key))
        ]
      ]
    ]
      where
        found : Text
        found = sha256_hex k (encode key)

    match_key_iff :
        (id : Option Text) (keys : List Text)
        → All IsComparable keys
        → ((match_key k u key id keys ≡ ok key) × Exists (Accepts key) keys)
          ⊎ ((match_key k u key id keys ≡ raise (unauthorized "invalid API key" id))
              × (¬ Exists (Accepts key) keys))
    unfolding match_key
    match_key_iff id [] h = inr (refl, λ e. e)
    match_key_iff id (configured ∷ rest) (h, hs) = elim (key_matches_iff configured h) [
      | inl (found, accepts) ↦ inl (rw found refl, inl accepts)
      | inr (missed, refuses) ↦ elim (match_key_iff id rest hs) [
        | inl (later, accepts) ↦ inl (rw missed later, inr accepts)
        | inr (later, none_accepts) ↦
            inr (rw missed later, λ e. elim e [ inl a ↦ refuses a | inr b ↦ none_accepts b ])
      ]
    ]

  -- For an ASCII key and comparable items: the stripped key is returned when an item accepts it, and
  -- otherwise the answer is 401.
  pub validate_api_key_iff :
      (config : AuthConfig) (provided id : Option Text)
      → strip (or_empty provided) ≢ []
      → IsAscii (strip (or_empty provided))
      → All IsComparable config.api_keys
      → ((validate_api_key k u config provided id ≡ ok (strip (or_empty provided)))
          × Exists (Accepts (strip (or_empty provided))) config.api_keys)
        ⊎ ((validate_api_key k u config provided id ≡ raise (unauthorized "invalid API key" id))
            × (¬ Exists (Accepts (strip (or_empty provided))) config.api_keys))
  unfolding validate_api_key
  validate_api_key_iff config provided id n ascii h =
      let key = strip (or_empty provided) in
      let present = truthy_of_ne key n in
      rw present (match_key_iff key present ascii id config.api_keys h)

  -- A key that is not ASCII, against a first item that is neither empty nor a digest, is answered by
  -- an exception that is no HTTP error.
  pub validate_api_key_wide :
      (config : AuthConfig) (provided id : Option Text) (first : Text) (rest : List Text)
      → config.api_keys ≡ first ∷ rest
      → strip first ≢ []
      → is_digest first ≡ false
      → all is_ascii (strip (or_empty provided)) ≡ false
      → validate_api_key k u config provided id ≡ raise (unexpected "TypeError")
  unfolding validate_api_key match_key key_matches compare_digest
  validate_api_key_wide config provided id first rest keys n plain wide = ground (
    arith,
    truthy_of_ne (strip first) n,
    truthy_of_ne (strip (or_empty provided)) (λ e. absurd (ground arith)),
  )
