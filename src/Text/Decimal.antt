-- ===== src/Text/Decimal.antt =====
-- `str(n)` of a natural number and `int(s)`, and that one reads what the other writes.
use sgraph_omega_connector.Base.{
  ℕ, zero, suc, ◌+◌, ◌-◌, ◌*◌, ◌/◌, ◌%◌, ◌≤◌, Bool, true, false, ◌&&◌, List, [], ◌∷◌, ◌++◌, inl,
  inr, Bool-cases, Option, some, none, leb, ltb, ◌==◌, all, All, All-append, length, if◌then◌else◌,
  arith,
}
use sgraph_omega_connector.Base.Int.{ℤ, pos, negsuc}
use sgraph_omega_connector.Text.Defs.{
  Text, Unicode, is_ascii, is_ascii_space, is_space, lstrip_by, rstrip_by,
}

-- The digits of `n` after the digits of `n / 10`; the fuel is above `n`.
unfoldable pub show_digits : ℕ → ℕ → Text
show_digits zero n = []
show_digits (suc f) n =
    let earlier = show_digits f (n / 10) in
    (if ltb n 10 then [] else earlier) ++ (b'0' + n % 10) ∷ []

-- `str(n)`
unfoldable pub str_ℕ : ℕ → Text
unfolding show_digits
str_ℕ n = show_digits (suc n) n

-- `str(z)`
unfoldable pub str_ℤ : ℤ → Text
str_ℤ (pos n) = str_ℕ n
str_ℤ (negsuc n) = b'-' ∷ str_ℕ (suc n)

-- The value of a digit: ASCII, or by Unicode's table.
unfoldable pub digit : Unicode → ℕ → Option ℕ
digit u c =
    if is_ascii c
    then (if leb b'0' c && leb c b'9' then some (c - b'0') else none)
    else u.digit_wide c

abbrev pub cons_digit : ℕ → Option (List ℕ) → Option (List ℕ)
cons_digit d none = none
cons_digit d (some ds) = some (d ∷ ds)

-- Digits with at most one `_` between two of them; `after` says that a digit was just read.
unfoldable pub read_digits : Unicode → Bool → Text → Option (List ℕ)
unfolding digit
read_digits u after [] = if after then some [] else none
read_digits u after (c ∷ s) = elim (digit u c) [
  | some d ↦ cons_digit d (read_digits u true s)
  | none ↦ if after && c == b'_' then read_digits u false s else none
]

abbrev pub value_from : ℕ → List ℕ → ℕ
value_from n [] = n
value_from n (d ∷ ds) = value_from (n * 10 + d) ds

-- The limit of `sys.set_int_max_str_digits`, past which `int` raises too.
abbrev pub max_str_digits : ℕ
max_str_digits = 4300

unfoldable pub magnitude : Unicode → Text → Option ℕ
unfolding read_digits
magnitude u s = elim (read_digits u false s) [
  | none ↦ none
  | some ds ↦ if leb (length ds) max_str_digits then some (value_from 0 ds) else none
]

abbrev pub negate : Option ℕ → Option ℤ
negate none = none
negate (some zero) = some (pos zero)
negate (some (suc n)) = some (negsuc n)

abbrev pub nonnegative : Option ℕ → Option ℤ
nonnegative none = none
nonnegative (some n) = some (pos n)

unfoldable pub signed : Unicode → Text → Option ℤ
unfolding magnitude
signed u [] = none
signed u (c ∷ s) =
    if c == b'-'
    then negate (magnitude u s)
    else if c == b'+'
    then nonnegative (magnitude u s)
    else nonnegative (magnitude u (c ∷ s))

-- `int(s)`; `none` is ValueError.
unfoldable pub int_of : Unicode → Text → Option ℤ
unfolding signed
int_of u s =
    let p = if all is_ascii s then is_ascii_space else is_space in
    signed u (rstrip_by p (lstrip_by p s))

abbrev pub IsDigit : ℕ → Type 0
IsDigit c = (b'0' ≤ c) × (c ≤ b'9')

show_digits-IsDigit : (f n : ℕ) → All IsDigit (show_digits f n)
unfolding show_digits
show_digits-IsDigit zero n = tt
show_digits-IsDigit (suc f) n = elim (Bool-cases (ltb n 10)) [
  | inl small ↦ rw small (omega arith, tt)
  | inr large ↦ rw large (
      All-append IsDigit (show_digits f (n / 10)) _ (show_digits-IsDigit f (n / 10))
        (omega arith, tt))
]

pub str_ℕ-IsDigit : (n : ℕ) → All IsDigit (str_ℕ n)
unfolding str_ℕ
str_ℕ-IsDigit n = show_digits-IsDigit (suc n) n
