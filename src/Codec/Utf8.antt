-- ===== src/Codec/Utf8.antt =====
-- `s.encode("utf-8")`
use sgraph_omega_connector.Base.{
  ℕ, ◌+◌, ◌/◌, ◌%◌, ◌<◌, Bool, List, [], ◌∷◌, All, ltb, leb, ◌||◌, if◌then◌else◌, ◌≡◌, refl, sym,
  arith,
}
use sgraph_omega_connector.Text.{Text}

abbrev continuation : ℕ → ℕ
continuation n = 0x80 + n % 0x40

-- The bytes of a code point, in front of those of the rest.
unfoldable pub put_utf8 : ℕ → List ℕ → List ℕ
put_utf8 c rest =
    if ltb c 0x80
    then c ∷ rest
    else if ltb c 0x800
    then (0xc0 + c / 0x40) ∷ continuation c ∷ rest
    else if ltb c 0x10000
    then (0xe0 + c / 0x1000) ∷ continuation (c / 0x40) ∷ continuation c ∷ rest
    else (0xf0 + c / 0x40000)
      ∷ continuation (c / 0x1000)
      ∷ continuation (c / 0x40)
      ∷ continuation c
      ∷ rest

unfoldable pub encode : Text → List ℕ
unfolding put_utf8
encode [] = []
encode (c ∷ s) = put_utf8 c (encode s)

-- A code point that UTF-8 encodes, so no surrogate.
unfoldable pub is_scalar : ℕ → Bool
is_scalar c = ltb c 0xd800 || leb 0xe000 c

abbrev pub IsCodePoint : ℕ → Type 0
IsCodePoint c = c < 0x110000

put_utf8-injective :
    (c d : ℕ) (r q : List ℕ)
    → IsCodePoint c
    → IsCodePoint d
    → put_utf8 c r ≡ put_utf8 d q
    → (c ≡ d) × (r ≡ q)
unfolding put_utf8
put_utf8-injective c d r q hc hd e = (ground arith, ground arith)

put_utf8-ne-nil : (c : ℕ) (r : List ℕ) → put_utf8 c r ≡ [] → ⊥
unfolding put_utf8
put_utf8-ne-nil c r e = ground arith

-- Two texts with the same bytes are the same text.
pub encode-injective :
    (s t : Text) → All IsCodePoint s → All IsCodePoint t → encode s ≡ encode t → s ≡ t
unfolding encode
encode-injective [] [] hs ht e = refl
encode-injective [] (d ∷ t) hs ht e = absurd (put_utf8-ne-nil d (encode t) (sym e))
encode-injective (c ∷ s) [] hs ht e = absurd (put_utf8-ne-nil c (encode s) e)
encode-injective (c ∷ s) (d ∷ t) hs ht e =
    let (same, rest) = put_utf8-injective c d (encode s) (encode t) hs.0 ht.0 e in
    cc (same, encode-injective s t hs.1 ht.1 rest)
