-- ===== src/Codec/Base64.antt =====
-- `base64.urlsafe_b64encode(data).decode("ascii").rstrip("=")`
use sgraph_omega_connector.Base.{
  ℕ, ◌+◌, ◌-◌, ◌*◌, ◌/◌, ◌%◌, ◌<◌, Bool, true, false, List, [], ◌∷◌, All, all, ltb, ◌==◌,
  if◌then◌else◌, ◌≡◌, ◌≢◌, refl, sym, ◌∙◌, arith,
}
use sgraph_omega_connector.Text.{Text, NoSpace, is_space, is_ascii, rstrip_by, rstrip_by_kept}
use sgraph_omega_connector.Codec.Hex.{IsByte}

-- The alphabet of RFC 4648 with `-` and `_`.
unfoldable pub sextet : ℕ → ℕ
sextet n =
    if ltb n 26
    then b'A' + n
    else if ltb n 52
    then 71 + n
    else if ltb n 62
    then n - 4
    else if n == 62
    then b'-'
    else b'_'

abbrev pub is_pad : ℕ → Bool
is_pad c = c == b'='

-- `base64.urlsafe_b64encode`
unfoldable pub urlsafe_b64encode : List ℕ → Text
unfolding sextet
urlsafe_b64encode [] = []
urlsafe_b64encode (a ∷ []) = sextet (a / 4) ∷ sextet (a % 4 * 16) ∷ b'=' ∷ b'=' ∷ []
urlsafe_b64encode (a ∷ b ∷ []) =
    sextet (a / 4) ∷ sextet (a % 4 * 16 + b / 16) ∷ sextet (b % 16 * 4) ∷ b'=' ∷ []
urlsafe_b64encode (a ∷ b ∷ c ∷ r) =
    sextet (a / 4)
    ∷ sextet (a % 4 * 16 + b / 16)
    ∷ sextet (b % 16 * 4 + c / 64)
    ∷ sextet (c % 64)
    ∷ urlsafe_b64encode r

unfoldable pub b64url_encode : List ℕ → Text
unfolding urlsafe_b64encode
b64url_encode bs = rstrip_by is_pad (urlsafe_b64encode bs)

-- The encoding without the padding.
unpadded : List ℕ → Text
unpadded [] = []
unpadded (a ∷ []) = sextet (a / 4) ∷ sextet (a % 4 * 16) ∷ []
unpadded (a ∷ b ∷ []) = sextet (a / 4) ∷ sextet (a % 4 * 16 + b / 16) ∷ sextet (b % 16 * 4) ∷ []
unpadded (a ∷ b ∷ c ∷ r) =
    sextet (a / 4)
    ∷ sextet (a % 4 * 16 + b / 16)
    ∷ sextet (b % 16 * 4 + c / 64)
    ∷ sextet (c % 64)
    ∷ unpadded r

sextet-not_pad : (n : ℕ) → n < 64 → is_pad (sextet n) ≡ false
unfolding sextet
sextet-not_pad n h = ground arith

kept : (n : ℕ) (s : Text) → n < 64 → rstrip_by is_pad (sextet n ∷ s) ≡ sextet n ∷ rstrip_by is_pad s
kept n s h = rstrip_by_kept is_pad (sextet n) s (sextet-not_pad n h)

b64url_encode-eq-unpadded : (bs : List ℕ) → All IsByte bs → b64url_encode bs ≡ unpadded bs
unfolding b64url_encode unpadded rstrip_by
b64url_encode-eq-unpadded [] h = refl
b64url_encode-eq-unpadded (a ∷ []) (p, _) =
    let s₂ = sextet (a % 4 * 16) ∷ b'=' ∷ b'=' ∷ [] in
    cc (kept (a / 4) s₂ (omega arith), kept (a % 4 * 16) (b'=' ∷ b'=' ∷ []) (omega arith))
b64url_encode-eq-unpadded (a ∷ b ∷ []) (p, (q, _)) =
    let s₃ = sextet (b % 16 * 4) ∷ b'=' ∷ [] in
    let s₂ = sextet (a % 4 * 16 + b / 16) ∷ s₃ in
    cc (
      kept (a / 4) s₂ (omega arith),
      kept (a % 4 * 16 + b / 16) s₃ (omega arith),
      kept (b % 16 * 4) (b'=' ∷ []) (omega arith),
    )
b64url_encode-eq-unpadded (a ∷ b ∷ c ∷ r) (p, (q, (w, h))) =
    let s = urlsafe_b64encode r in
    let s₄ = sextet (c % 64) ∷ s in
    let s₃ = sextet (b % 16 * 4 + c / 64) ∷ s₄ in
    let s₂ = sextet (a % 4 * 16 + b / 16) ∷ s₃ in
    cc (
      kept (a / 4) s₂ (omega arith),
      kept (a % 4 * 16 + b / 16) s₃ (omega arith),
      kept (b % 16 * 4 + c / 64) s₄ (omega arith),
      kept (c % 64) s (omega arith),
      b64url_encode-eq-unpadded r h,
    )

sextet-injective : (m n : ℕ) → m < 64 → n < 64 → sextet m ≡ sextet n → m ≡ n
unfolding sextet
sextet-injective m n hm hn e = ground arith

unpadded-ne-nil : (b : ℕ) (bs : List ℕ) → unpadded (b ∷ bs) ≡ [] → ⊥
unfolding unpadded
unpadded-ne-nil a [] e = cc
unpadded-ne-nil a (b ∷ []) e = cc
unpadded-ne-nil a (b ∷ c ∷ r) e = cc

unpadded-injective :
    (bs cs : List ℕ) → All IsByte bs → All IsByte cs → unpadded bs ≡ unpadded cs → bs ≡ cs
unfolding unpadded
unpadded-injective [] [] hb hc e = refl
unpadded-injective [] (b ∷ bs) hb hc e = absurd (unpadded-ne-nil b bs (sym e))
unpadded-injective (b ∷ bs) [] hb hc e = absurd (unpadded-ne-nil b bs e)
unpadded-injective (a ∷ []) (a' ∷ []) (p, _) (p', _) e = ground (
  arith,
  sextet-injective (a / 4) (a' / 4) (omega arith) (omega arith),
  sextet-injective (a % 4 * 16) (a' % 4 * 16) (omega arith) (omega arith),
)
unpadded-injective (a ∷ b ∷ []) (a' ∷ b' ∷ []) (p, (q, _)) (p', (q', _)) e = ground (
  arith,
  sextet-injective (a / 4) (a' / 4) (omega arith) (omega arith),
  sextet-injective (a % 4 * 16 + b / 16) (a' % 4 * 16 + b' / 16) (omega arith) (omega arith),
  sextet-injective (b % 16 * 4) (b' % 16 * 4) (omega arith) (omega arith),
)
unpadded-injective (a ∷ b ∷ c ∷ r) (a' ∷ b' ∷ c' ∷ r') (p, (q, (w, h))) (p', (q', (w', h'))) e =
    ground (
      arith,
      sextet-injective (a / 4) (a' / 4) (omega arith) (omega arith),
      sextet-injective (a % 4 * 16 + b / 16) (a' % 4 * 16 + b' / 16) (omega arith) (omega arith),
      sextet-injective (b % 16 * 4 + c / 64) (b' % 16 * 4 + c' / 64) (omega arith) (omega arith),
      sextet-injective (c % 64) (c' % 64) (omega arith) (omega arith),
      unpadded-injective r r' h h',
    )
unpadded-injective (a ∷ []) (a' ∷ b' ∷ []) hb hc e = cc
unpadded-injective (a ∷ []) (a' ∷ b' ∷ c' ∷ r') hb hc e = cc
unpadded-injective (a ∷ b ∷ []) (a' ∷ []) hb hc e = cc
unpadded-injective (a ∷ b ∷ []) (a' ∷ b' ∷ c' ∷ r') hb hc e = cc
unpadded-injective (a ∷ b ∷ c ∷ r) (a' ∷ []) hb hc e = cc
unpadded-injective (a ∷ b ∷ c ∷ r) (a' ∷ b' ∷ []) hb hc e = cc

-- Two byte strings with the same encoding are the same, although the padding is gone.
pub b64url_encode-injective :
    (bs cs : List ℕ) → All IsByte bs → All IsByte cs → b64url_encode bs ≡ b64url_encode cs → bs ≡ cs
b64url_encode-injective bs cs hb hc e =
    unpadded-injective bs cs hb hc
      (sym (b64url_encode-eq-unpadded bs hb) ∙ e ∙ b64url_encode-eq-unpadded cs hc)

-- The characters of the encoding: letters, digits, `-` and `_`.
abbrev pub IsSextet : ℕ → Type 0
IsSextet c = (n : ℕ) × (n < 64) × (c ≡ sextet n)

sextet-IsSextet : (n : ℕ) → n < 64 → IsSextet (sextet n)
sextet-IsSextet n h = (n, h, refl)

unpadded-IsSextet : (bs : List ℕ) → All IsByte bs → All IsSextet (unpadded bs)
unfolding unpadded
unpadded-IsSextet [] h = tt
unpadded-IsSextet (a ∷ []) (p, _) =
    (sextet-IsSextet _ (omega arith), (sextet-IsSextet _ (omega arith), tt))
unpadded-IsSextet (a ∷ b ∷ []) (p, (q, _)) = (
  sextet-IsSextet _ (omega arith),
  (sextet-IsSextet _ (omega arith), (sextet-IsSextet _ (omega arith), tt)),
)
unpadded-IsSextet (a ∷ b ∷ c ∷ r) (p, (q, (w, h))) = (
  sextet-IsSextet _ (omega arith),
  (
    sextet-IsSextet _ (omega arith),
    (sextet-IsSextet _ (omega arith), (sextet-IsSextet _ (omega arith), unpadded-IsSextet r h)),
  ),
)

IsSextet-ascii : (n : ℕ) → n < 64 → (is_ascii (sextet n) ≡ true) × (is_space (sextet n) ≡ false)
unfolding sextet is_space
IsSextet-ascii n h = (ground arith, ground arith)

sextets-plain : (s : Text) → All IsSextet s → (all is_ascii s ≡ true) × NoSpace s
sextets-plain [] h = (refl, tt)
sextets-plain (c ∷ s) ((n, lt, e), h) =
    let (ascii, plain) = IsSextet-ascii n lt in
    let (later, none_later) = sextets-plain s h in (rw (e, ascii) later, (rw e plain, none_later))

-- The encoding is ASCII and holds no white space.
pub b64url_encode-plain :
    (bs : List ℕ)
    → All IsByte bs
    → (all is_ascii (b64url_encode bs) ≡ true) × NoSpace (b64url_encode bs)
b64url_encode-plain bs h =
    rw (b64url_encode-eq-unpadded bs h) (sextets-plain (unpadded bs) (unpadded-IsSextet bs h))

-- What encodes something is not empty.
pub b64url_encode-ne-nil : (bs : List ℕ) → All IsByte bs → bs ≢ [] → b64url_encode bs ≢ []
b64url_encode-ne-nil [] h n e = n refl
b64url_encode-ne-nil (b ∷ bs) h n e =
    unpadded-ne-nil b bs (sym (b64url_encode-eq-unpadded (b ∷ bs) h) ∙ e)
