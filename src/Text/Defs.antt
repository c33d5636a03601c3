-- ===== src/Text/Defs.antt =====
-- `strip`, `rstrip`, `lower`, `upper`, `join`, `split` and `startswith` of Python's `str`.
use Prim.Native.Char.{code}
use Prim.Native.String.{String}
use sgraph_omega_connector.Base.{
  ℕ, ◌+◌, ◌-◌, Bool, true, false, ◌&&◌, ◌||◌, List, [], ◌∷◌, ◌++◌, map, Option, leb, ltb, ◌==◌, all,
  if◌then◌else◌,
}

abbrev pub Text : Type 0
Text = List ℕ

-- The code points of a literal.
abbrev pub codes : String → Text
codes String.[] = []
codes (String.◌∷◌ c s) = code c ∷ codes s

-- `a == b`
unfoldable pub text_eq : Text → Text → Bool
text_eq [] [] = true
text_eq [] (_ ∷ _) = false
text_eq (_ ∷ _) [] = false
text_eq (a ∷ s) (b ∷ t) = (a == b) && text_eq s t

-- `bool(s)`
abbrev pub truthy : Text → Bool
truthy [] = false
truthy (_ ∷ _) = true

-- The Unicode tables behind `lower`, `upper` and `int` on texts that are not ASCII.
pub record Unicode : Type 0 where
  pub lower_wide : Text → Text
  pub upper_wide : Text → Text
  pub digit_wide : ℕ → Option ℕ

abbrev pub is_ascii : ℕ → Bool
is_ascii c = ltb c 128

-- The white space that `int` skips in an ASCII text.
unfoldable pub is_ascii_space : ℕ → Bool
is_ascii_space c = (leb 9 c && leb c 13) || c == 32

-- `str.isspace` of one character: the whole of Unicode's white space as Python counts it.
unfoldable pub is_space : ℕ → Bool
is_space c =
    (leb 9 c && leb c 13)
    || (leb 28 c && leb c 32)
    || c == 0x85
    || c == 0xa0
    || c == 0x1680
    || (leb 0x2000 c && leb c 0x200a)
    || c == 0x2028
    || c == 0x2029
    || c == 0x202f
    || c == 0x205f
    || c == 0x3000

unfoldable pub lstrip_by : (ℕ → Bool) → Text → Text
lstrip_by p [] = []
lstrip_by p (c ∷ s) = let rest = lstrip_by p s in if p c then rest else c ∷ s

-- Puts `c` before a text that is stripped on the right.
abbrev pub rstrip_cons : (ℕ → Bool) → ℕ → Text → Text
rstrip_cons p c [] = if p c then [] else c ∷ []
rstrip_cons p c (d ∷ s) = c ∷ d ∷ s

unfoldable pub rstrip_by : (ℕ → Bool) → Text → Text
rstrip_by p [] = []
rstrip_by p (c ∷ s) = rstrip_cons p c (rstrip_by p s)

-- `s.strip()`
unfoldable pub strip : Text → Text
strip s = rstrip_by is_space (lstrip_by is_space s)

unfoldable pub ascii_lower : ℕ → ℕ
ascii_lower c = if leb b'A' c && leb c b'Z' then c + 32 else c

unfoldable pub ascii_upper : ℕ → ℕ
ascii_upper c = if leb b'a' c && leb c b'z' then c - 32 else c

-- `s.lower()` and `s.upper()`
unfoldable pub lower : Unicode → Text → Text
lower u s = if all is_ascii s then map ascii_lower s else u.lower_wide s

unfoldable pub upper : Unicode → Text → Text
upper u s = if all is_ascii s then map ascii_upper s else u.upper_wide s

-- `s.startswith(prefix)`, for a prefix that comes first
unfoldable pub starts_with : Text → Text → Bool
starts_with [] s = true
starts_with (_ ∷ _) [] = false
starts_with (a ∷ p) (b ∷ s) = (a == b) && starts_with p s

-- `"c".join(items)`
unfoldable pub join : ℕ → List Text → Text
join c [] = []
join c (s ∷ []) = s
join c (s ∷ t ∷ r) = s ++ c ∷ join c (t ∷ r)

-- A character in front of the first part.
abbrev pub grow : ℕ → List Text → List Text
grow c [] = (c ∷ []) ∷ []
grow c (s ∷ r) = (c ∷ s) ∷ r

-- `s.split("c")`
unfoldable pub split : ℕ → Text → List Text
split c [] = [] ∷ []
split c (d ∷ s) = let rest = split c s in if d == c then [] ∷ rest else grow d rest

-- `s.split("c", 1)[1]`, on a text that holds the separator
unfoldable pub after_first : ℕ → Text → Text
after_first c [] = []
after_first c (d ∷ s) = let rest = after_first c s in if d == c then s else rest
