-- ===== src/Scripts/SgMeta.antt =====
-- scripts/e2e_sgraph_real_path.py: the envelope that carries a file's name, and its encryption.
pub mod Laws
use sgraph_omega_connector.Base.{
  ℕ, ◌+◌, ◌-◌, ◌*◌, ◌/◌, ◌%◌, Bool, true, false, not, List, [], ◌∷◌, ◌++◌, Option, some, none,
  Result, ok, raise, length, take, drop, ltb, leb, if◌then◌else◌, ◌≡◌,
}
use sgraph_omega_connector.Text.{Text, codes, starts_with}
use sgraph_omega_connector.Json.{Json, Fields, field, end, text, object}
use sgraph_omega_connector.Errors.{Exception, unexpected}

-- `SGMETA_MAGIC`
abbrev pub sgmeta_magic : List ℕ
sgmeta_magic = codes "SGMETA" ++ 0 ∷ []

-- `n.to_bytes(4, "big")`
unfoldable pub to_bytes : ℕ → Result Exception (List ℕ)
to_bytes n =
    if ltb n 4294967296
    then ok (n / 16777216 ∷ n / 65536 % 256 ∷ n / 256 % 256 ∷ n % 256 ∷ [])
    else raise (unexpected "OverflowError")

-- `int.from_bytes(bytes, "big")`, behind the bytes that were read so far
unfoldable pub from_bytes : ℕ → List ℕ → ℕ
from_bytes n [] = n
from_bytes n (b ∷ bs) = from_bytes (n * 256 + b) bs

abbrev pub sgmeta_fields : Text → List (Text × Json)
sgmeta_fields filename = (codes "filename", text filename) ∷ []

-- `_package_with_sgmeta`, for the JSON encoding `dump`
unfoldable pub package_with_sgmeta :
    (List (Text × Json) → List ℕ) → List ℕ → Text → Result Exception (List ℕ)
package_with_sgmeta dump content filename =
    let meta_bytes = dump (sgmeta_fields filename) in
    elim (to_bytes (length meta_bytes)) [
      | raise e ↦ raise e
      | ok size ↦ ok (sgmeta_magic ++ (size ++ (meta_bytes ++ content)))
    ]

-- `_extract_sgmeta_or_raw`, for a decoder `loads` of UTF-8 and JSON that fails by `none`
unfoldable pub extract_sgmeta_or_raw : (List ℕ → Option Json) → List ℕ → Option Json × List ℕ
extract_sgmeta_or_raw loads decrypted =
    let meta_len = from_bytes 0 (take 4 (drop 7 decrypted)) in
    let meta_end = 11 + meta_len in
    if ltb (length decrypted) 11
    then (none, decrypted)
    else if not (starts_with sgmeta_magic decrypted)
    then (none, decrypted)
    else if ltb (length decrypted) meta_end
    then (none, decrypted)
    else elim (loads (take meta_len (drop 11 decrypted))) [
      | none ↦ (none, decrypted)
      | some metadata ↦ (some metadata, drop meta_end decrypted)
    ]

-- AES-GCM of the package `cryptography`, on a key, a nonce and a text; a forged text is refused.
pub record Aesgcm : Type 0 where
  pub encrypt : List ℕ → List ℕ → List ℕ → List ℕ
  pub decrypt : List ℕ → List ℕ → List ℕ → Option (List ℕ)

-- What is encrypted is longer than its tag, and decrypts.
pub record IsAesgcm (a : Aesgcm) : Type 0 where
  pub tag : (key iv plaintext : List ℕ) → leb 16 (length (a.encrypt key iv plaintext)) ≡ true
  pub decrypts :
      (key iv plaintext : List ℕ) → a.decrypt key iv (a.encrypt key iv plaintext) ≡ some plaintext

-- `_encrypt_like_sgraph_ui`, for the bytes that `os.urandom` has given; the key is returned as it is
unfoldable pub encrypt_like_sgraph_ui : Aesgcm → List ℕ → List ℕ → List ℕ → List ℕ
encrypt_like_sgraph_ui a key iv plaintext = iv ++ a.encrypt key iv plaintext

unfoldable pub decrypt_like_sgraph_ui : Aesgcm → List ℕ → List ℕ → Result Exception (List ℕ)
decrypt_like_sgraph_ui a key encrypted =
    if ltb (length encrypted) 13
    then raise (unexpected "ValueError")
    else elim (a.decrypt key (take 12 encrypted) (drop 12 encrypted)) [
      | none ↦ raise (unexpected "InvalidTag")
      | some plaintext ↦ ok plaintext
    ]
