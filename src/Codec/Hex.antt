-- ===== src/Codec/Hex.antt =====
-- `digest.hexdigest()`: two lower-case hexadecimal digits for each byte.
use sgraph_omega_connector.Base.{
  ℕ, ◌+◌, ◌/◌, ◌%◌, ◌<◌, ◌≤◌, List, [], ◌∷◌, All, ltb, if◌then◌else◌, ◌≡◌, ◌⊎◌, refl, false, arith,
}
use sgraph_omega_connector.Text.{Text, is_space, NoSpace}

unfoldable pub hex_digit : ℕ → ℕ
hex_digit n = if ltb n 10 then b'0' + n else 87 + n

unfoldable pub hex : List ℕ → Text
unfolding hex_digit
hex [] = []
hex (b ∷ bs) = hex_digit (b / 16) ∷ hex_digit (b % 16) ∷ hex bs

abbrev pub IsByte : ℕ → Type 0
IsByte b = b < 256

-- A digit of `hex` is one of 0-9 and a-f.
abbrev pub IsHexDigit : ℕ → Type 0
IsHexDigit c = ((b'0' ≤ c) × (c ≤ b'9')) ⊎ ((b'a' ≤ c) × (c ≤ b'f'))

hex_digit-IsHexDigit : (n : ℕ) → n < 16 → IsHexDigit (hex_digit n)
unfolding hex_digit
hex_digit-IsHexDigit n h = ground arith

pub hex-IsHexDigit : (bs : List ℕ) → All IsByte bs → All IsHexDigit (hex bs)
unfolding hex
hex-IsHexDigit [] h = tt
hex-IsHexDigit (b ∷ bs) (p, h) = (
  hex_digit-IsHexDigit (b / 16) (omega arith),
  (hex_digit-IsHexDigit (b % 16) (omega arith), hex-IsHexDigit bs h),
)

IsHexDigit-not_space : (c : ℕ) → IsHexDigit c → is_space c ≡ false
unfolding is_space
IsHexDigit-not_space c h = ground arith

hex_digit-injective : (m n : ℕ) → m < 16 → n < 16 → hex_digit m ≡ hex_digit n → m ≡ n
unfolding hex_digit
hex_digit-injective m n hm hn e = ground arith

byte_of_digits : (a b : ℕ) → a / 16 ≡ b / 16 → a % 16 ≡ b % 16 → a ≡ b
byte_of_digits a b p q = omega arith

-- Two byte strings with the same digits are the same.
pub hex-injective : (bs cs : List ℕ) → All IsByte bs → All IsByte cs → hex bs ≡ hex cs → bs ≡ cs
unfolding hex
hex-injective [] [] hb hc e = refl
hex-injective [] (c ∷ cs) hb hc e = cc
hex-injective (b ∷ bs) [] hb hc e = cc
hex-injective (b ∷ bs) (c ∷ cs) (hb, hbs) (hc, hcs) e = ground (
  arith,
  byte_of_digits b c
      (hex_digit-injective (b / 16) (c / 16) (omega arith) (omega arith) (ground arith))
      (hex_digit-injective (b % 16) (c % 16) (omega arith) (omega arith) (ground arith)),
  hex-injective bs cs hbs hcs,
)

pub IsHexDigit-NoSpace : (s : Text) → All IsHexDigit s → NoSpace s
IsHexDigit-NoSpace [] h = tt
IsHexDigit-NoSpace (c ∷ s) (d, h) = (IsHexDigit-not_space c d, IsHexDigit-NoSpace s h)
