-- ===== src/Codec.antt =====
-- Bytes and their encodings: UTF-8, hexadecimal, and unpadded URL-safe base64.
pub mod Utf8
pub mod Hex
pub mod Base64
use Hex.{IsByte}
use sgraph_omega_connector.Base.{ℕ, List, All, length, ◌≡◌}

-- The digests that `hashlib` and `hmac` compute.
pub record Crypto : Type 0 where
  pub sha256 : List ℕ → List ℕ
  pub hmac_sha256 : List ℕ → List ℕ → List ℕ

-- Both digests are 32 bytes.
pub record IsCrypto (k : Crypto) : Type 0 where
  pub sha256_bytes : (m : List ℕ) → All IsByte (k.sha256 m)
  pub sha256_length : (m : List ℕ) → length (k.sha256 m) ≡ 32
  pub hmac_bytes : (key m : List ℕ) → All IsByte (k.hmac_sha256 key m)
  pub hmac_length : (key m : List ℕ) → length (k.hmac_sha256 key m) ≡ 32
