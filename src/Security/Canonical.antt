-- ===== src/Security/Canonical.antt =====
-- What the canonical string determines.
use sgraph_omega_connector.Base.{ℕ, List, [], ◌∷◌, ◌++◌, ◌≡◌, ◌≢◌, refl, All, arith}
use sgraph_omega_connector.Text.{Text, Unicode, join, split, strip, upper}
use sgraph_omega_connector.Security.{CanonicalFields, canonical_parts, build_canonical_string}

-- The character does not occur in the text.
abbrev pub Free : ℕ → Text → Type 0
Free c = All (λ d. d ≢ c)

module _ (c : ℕ) where
  split-Free : (s : Text) → Free c s → split c s ≡ s ∷ []
  unfolding split
  split-Free [] h = refl
  split-Free (d ∷ s) (p, h) = ground (arith, split-Free s h)

  split-append : (s t : Text) → Free c s → split c (s ++ c ∷ t) ≡ s ∷ split c t
  unfolding split
  split-append [] t h = ground arith
  split-append (d ∷ s) t (p, h) = ground (arith, split-append s t h)

  pub split-join :
      (s : Text) (r : List Text) → All (Free c) (s ∷ r) → split c (join c (s ∷ r)) ≡ s ∷ r
  unfolding join
  split-join s [] (h, _) = split-Free s h
  split-join s (t ∷ r) (h, k) = rw (split-append s (join c (t ∷ r)) h, split-join t r k) refl

-- Where no part of the canonical string holds a newline, it splits into its parts.
pub split-canonical_parts :
    (u : Unicode) (c : CanonicalFields)
    → All (Free b'\n') (canonical_parts u c)
    → split b'\n' (build_canonical_string u c) ≡ canonical_parts u c
unfolding build_canonical_string canonical_parts
split-canonical_parts u c h = split-join b'\n' _ _ h

-- What is signed: the method in upper case and the other six fields, each without the white space
-- around it.
abbrev pub signed_texts : Unicode → CanonicalFields → List Text
signed_texts u c =
    strip (upper u c.method)
    ∷ strip c.path
    ∷ strip c.body_sha256_hex
    ∷ strip c.tenant_id
    ∷ strip c.request_id
    ∷ strip c.timestamp
    ∷ strip c.nonce
    ∷ []

-- The canonical string splits at its newlines into the seven stripped fields (method, in upper case,
-- path, digest of the body, tenant, request id, timestamp and nonce), when none of them holds a
-- newline.
pub split-build_canonical_string :
    (u : Unicode) (c : CanonicalFields)
    → All (Free b'\n') (signed_texts u c)
    → split b'\n' (build_canonical_string u c) ≡ signed_texts u c
unfolding build_canonical_string canonical_parts
split-build_canonical_string u c h = split-join b'\n' _ _ h
