-- ===== src/Scripts/SgMeta/Laws.antt =====
-- What is packaged and encrypted is decrypted and unpacked.
use sgraph_omega_connector.Base.{
  ℕ, ◌+◌, ◌/◌, ◌%◌, ◌≤◌, true, List, [], ◌∷◌, ◌++◌, Option, some, Result-cases, ok, length,
  length-append, take, drop, take-append, drop-append, drop-add, ◌≡◌, refl, sym, ap, ◌∙◌, inl, inr,
  arith,
}
use mathlib.Core.Path.{subst}
use sgraph_omega_connector.Text.{Text, starts_with}
use sgraph_omega_connector.Json.{Json}
use sgraph_omega_connector.Scripts.SgMeta.{
  sgmeta_magic, to_bytes, from_bytes, sgmeta_fields, package_with_sgmeta, extract_sgmeta_or_raw,
  Aesgcm, IsAesgcm, encrypt_like_sgraph_ui, decrypt_like_sgraph_ui,
}

-- Four bytes hold every length below 2^32.
from_bytes-to_bytes :
    (n : ℕ) (bs : List ℕ)
    → to_bytes n ≡ ok bs
    → (a b c d : ℕ) × (bs ≡ a ∷ b ∷ c ∷ d ∷ []) × (from_bytes 0 (a ∷ b ∷ c ∷ d ∷ []) ≡ n)
unfolding to_bytes from_bytes
from_bytes-to_bytes n bs h =
    (n / 16777216, n / 65536 % 256, n / 256 % 256, n % 256, ground arith, ground arith)

-- The bytes that `_package_with_sgmeta` makes.
abbrev envelope : ℕ → ℕ → ℕ → ℕ → List ℕ → List ℕ
envelope a b c d rest = sgmeta_magic ++ (a ∷ b ∷ c ∷ d ∷ []) ++ rest

-- Bytes whose header announces `n` bytes of metadata that are there and decode.
extract-framed :
    (loads : List ℕ → Option Json) (d : List ℕ) (n : ℕ) (j : Json)
    → starts_with sgmeta_magic d ≡ true
    → from_bytes 0 (take 4 (drop 7 d)) ≡ n
    → 11 + n ≤ length d
    → loads (take n (drop 11 d)) ≡ some j
    → extract_sgmeta_or_raw loads d ≡ (some j, drop n (drop 11 d))
unfolding extract_sgmeta_or_raw
extract-framed loads d n j magic size enough read =
    ground (arith, magic, size, drop-add 11 n d, read)

-- A file that was packaged is unpacked to the same content, with the name that its JSON decodes to.
pub extract-package_with_sgmeta :
    (dump : List (Text × Json) → List ℕ) (loads : List ℕ → Option Json) (content packaged : List ℕ)
    (filename : Text) (j : Json)
    → package_with_sgmeta dump content filename ≡ ok packaged
    → loads (dump (sgmeta_fields filename)) ≡ some j
    → extract_sgmeta_or_raw loads packaged ≡ (some j, content)
unfolding package_with_sgmeta starts_with
extract-package_with_sgmeta dump loads content packaged filename j made read =
    let meta_bytes = dump (sgmeta_fields filename) in
    elim (Result-cases (to_bytes (length meta_bytes))) [
      | inl (e, failed) ↦ absurd (grind (arith, made, failed))
      | inr (size, encoded) ↦
          let (a, b, c, d, four, decoded) = from_bytes-to_bytes (length meta_bytes) size encoded in
          let rest = meta_bytes ++ content in
          let is_packaged : packaged ≡ envelope a b c d rest =
            ground (arith, made, encoded, four) in
          subst (λ p. extract_sgmeta_or_raw loads p ≡ (some j, content)) (sym is_packaged)
            (extract-framed loads (envelope a b c d rest) (length meta_bytes) j refl decoded
                (omega (arith, length-append meta_bytes content))
                (ap loads (take-append meta_bytes content) ∙ read)
              ∙ ap (λ c. (some j, c)) (drop-append meta_bytes content))
    ]

-- What is encrypted with a nonce of 12 bytes decrypts to the same bytes under the same key.
pub decrypt-encrypt_like_sgraph_ui :
    (a : Aesgcm) (key iv plaintext : List ℕ)
    → IsAesgcm a
    → length iv ≡ 12
    → decrypt_like_sgraph_ui a key (encrypt_like_sgraph_ui a key iv plaintext) ≡ ok plaintext
unfolding encrypt_like_sgraph_ui decrypt_like_sgraph_ui
decrypt-encrypt_like_sgraph_ui a key iv plaintext h twelve =
    let cipher = a.encrypt key iv plaintext in
    let tag = h.tag key iv plaintext in
    let seam₁ : take 12 (iv ++ cipher) ≡ iv =
      ap (λ n. take n (iv ++ cipher)) (sym twelve) ∙ take-append iv cipher in
    let seam₂ : drop 12 (iv ++ cipher) ≡ cipher =
      ap (λ n. drop n (iv ++ cipher)) (sym twelve) ∙ drop-append iv cipher in
    ground (arith, length-append iv cipher, tag, seam₁, seam₂, h.decrypts key iv plaintext, twelve)
