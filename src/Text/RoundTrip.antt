-- ===== src/Text/RoundTrip.antt =====
-- `int(str(n))` is `n`.
use mathlib.Core.List.{map-append}
use sgraph_omega_connector.Base.{
  ℕ, zero, suc, ◌+◌, ◌-◌, ◌*◌, ◌/◌, ◌%◌, ◌≤◌, ◌<◌, true, false, List, [], ◌∷◌, ◌++◌, map, ◌≡◌, ◌≢◌,
  refl, ◌∙◌, ap, inl, inr, Bool-cases, some, ltb, all, All, length, arith,
}
use sgraph_omega_connector.Base.Int.{pos}
use sgraph_omega_connector.Text.Defs.{Text, Unicode, is_ascii, is_ascii_space, is_space}
use sgraph_omega_connector.Text.Strip.{NoSpace, lstrip_by-All-false, rstrip_by-All-false}
use sgraph_omega_connector.Text.Decimal.{
  show_digits, str_ℕ, digit, read_digits, value_from, max_str_digits, magnitude, signed, int_of,
  IsDigit, str_ℕ-IsDigit,
}

abbrev digit_value : ℕ → ℕ
digit_value c = c - b'0'

digit_of_IsDigit : (u : Unicode) (c : ℕ) → IsDigit c → digit u c ≡ some (digit_value c)
unfolding digit
digit_of_IsDigit u c h = ground arith

read_digits-All :
    (u : Unicode) (s : Text) → All IsDigit s → read_digits u true s ≡ some (map digit_value s)
unfolding read_digits
read_digits-All u [] h = refl
read_digits-All u (c ∷ s) (d, h) = ground (arith, digit_of_IsDigit u c d, read_digits-All u s h)

read_digits_first :
    (u : Unicode) (s : Text)
    → s ≢ []
    → All IsDigit s
    → read_digits u false s ≡ some (map digit_value s)
unfolding read_digits
read_digits_first u [] n h = absurd (n refl)
read_digits_first u (c ∷ s) n (d, h) = ground (arith, digit_of_IsDigit u c d, read_digits-All u s h)

value_from-append : (n d : ℕ) (ds : List ℕ) → value_from n (ds ++ d ∷ []) ≡ value_from n ds * 10 + d
value_from-append n d [] = refl
value_from-append n d (e ∷ ds) = value_from-append (n * 10 + e) d ds

value-show_digits : (f n : ℕ) → n < f → value_from 0 (map digit_value (show_digits f n)) ≡ n
unfolding show_digits
value-show_digits zero n h = elim h [ ]
value-show_digits (suc f) n h = elim (Bool-cases (ltb n 10)) [
  | inl small ↦ rw small (ground arith)
  | inr large ↦
      let s = show_digits f (n / 10) in
      let last = b'0' + n % 10 in
      rw large (
        ap (value_from 0) (map-append digit_value s (last ∷ []))
        ∙ value_from-append 0 (digit_value last) (map digit_value s)
        ∙ ground (arith, value-show_digits f (n / 10)))
]

append_singleton-ne-nil : (s : Text) (c : ℕ) → s ++ c ∷ [] ≢ []
append_singleton-ne-nil [] c e = cc
append_singleton-ne-nil (d ∷ s) c e = cc

pub str_ℕ-ne-nil : (n : ℕ) → str_ℕ n ≢ []
unfolding str_ℕ show_digits
str_ℕ-ne-nil n = ground (arith, append_singleton-ne-nil (show_digits n (n / 10)) (b'0' + n % 10))

length-map-digit : (s : Text) → length (map digit_value s) ≡ length s
length-map-digit [] = refl
length-map-digit (c ∷ s) = ap suc (length-map-digit s)

pub magnitude-str_ℕ :
    (u : Unicode) (n : ℕ) → length (str_ℕ n) ≤ max_str_digits → magnitude u (str_ℕ n) ≡ some n
unfolding magnitude str_ℕ
magnitude-str_ℕ u n h = ground (
  arith,
  read_digits_first u (show_digits (suc n) n) (str_ℕ-ne-nil n) (str_ℕ-IsDigit n),
  length-map-digit (show_digits (suc n) n),
  value-show_digits (suc n) n,
)

IsDigit-ascii : (s : Text) → All IsDigit s → all is_ascii s ≡ true
IsDigit-ascii [] h = refl
IsDigit-ascii (c ∷ s) (d, h) = ground (arith, IsDigit-ascii s h)

IsDigit-not_space : (s : Text) → All IsDigit s → All (λ c. is_ascii_space c ≡ false) s
unfolding is_ascii_space
IsDigit-not_space [] h = tt
IsDigit-not_space (c ∷ s) (d, h) = (ground arith, IsDigit-not_space s h)

magnitude_nil : (u : Unicode) {n : ℕ} → magnitude u [] ≢ some n
unfolding magnitude
magnitude_nil u e = cc

signed_of_IsDigit :
    (u : Unicode) (s : Text) {n : ℕ}
    → All IsDigit s
    → magnitude u s ≡ some n
    → signed u s ≡ some (pos n)
unfolding signed
signed_of_IsDigit u [] h e = absurd (magnitude_nil u e)
signed_of_IsDigit u (c ∷ s) h e = ground arith

-- A number written in decimal reads back, up to the interpreter's limit on digits.
pub int_of-str_ℕ :
    (u : Unicode) (n : ℕ) → length (str_ℕ n) ≤ max_str_digits → int_of u (str_ℕ n) ≡ some (pos n)
unfolding int_of
int_of-str_ℕ u n h =
    let s = str_ℕ n in
    let d = str_ℕ-IsDigit n in
    rw
      (
        IsDigit-ascii s d,
        lstrip_by-All-false is_ascii_space s (IsDigit-not_space s d),
        rstrip_by-All-false is_ascii_space s (IsDigit-not_space s d),
      )
      (signed_of_IsDigit u s d (magnitude-str_ℕ u n h))

IsDigit-NoSpace : (s : Text) → All IsDigit s → NoSpace s
unfolding is_space
IsDigit-NoSpace [] h = tt
IsDigit-NoSpace (c ∷ s) (d, h) = (ground arith, IsDigit-NoSpace s h)

pub str_ℕ-NoSpace : (n : ℕ) → NoSpace (str_ℕ n)
str_ℕ-NoSpace n = IsDigit-NoSpace (str_ℕ n) (str_ℕ-IsDigit n)
