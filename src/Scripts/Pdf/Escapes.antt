-- ===== src/Scripts/Pdf/Escapes.antt =====
-- A text that is escaped for a PDF string is read back by a reader of such strings.
use sgraph_omega_connector.Base.{
  ℕ, Bool, true, false, ◌||◌, ◌==◌, [], ◌∷◌, ◌++◌, Option, some, none, ◌≡◌, refl, if◌then◌else◌,
  arith,
}
use sgraph_omega_connector.Text.{Text}
use sgraph_omega_connector.Scripts.Pdf.{replace, esc_pdf}

abbrev read_cons : ℕ → Option Text → Option Text
read_cons c none = none
read_cons c (some s) = some (c ∷ s)

-- What a reader of a PDF string makes of the text between its parentheses, of the escapes for the
-- backslash and the parentheses; `none` where a parenthesis stands without its escape. The flag
-- says that a backslash was just read.
unfoldable pub read_string : Bool → Text → Option Text
read_string true [] = none
read_string false [] = some []
read_string true (c ∷ s) = read_cons c (read_string false s)
read_string false (c ∷ s) =
    let escaped = read_string true s in
    let rest = read_string false s in
    if c == b'\\' then escaped else if c == b'(' || c == b')' then none else read_cons c rest

-- What a character is replaced by.
abbrev escape : ℕ → Text
escape c =
    if c == b'\\'
    then b'\\' ∷ b'\\' ∷ []
    else if c == b'('
    then b'\\' ∷ b'(' ∷ []
    else if c == b')'
    then b'\\' ∷ b')' ∷ []
    else c ∷ []

esc_pdf-cons : (c : ℕ) (s : Text) → esc_pdf (c ∷ s) ≡ escape c ++ esc_pdf s
unfolding esc_pdf replace
esc_pdf-cons c s = ground arith

-- The escaped text is read back as it was, so that it holds no parenthesis without its escape.
pub read_string-esc_pdf : (s : Text) → read_string false (esc_pdf s) ≡ some s
unfolding read_string esc_pdf replace
read_string-esc_pdf [] = refl
read_string-esc_pdf (c ∷ s) = rw (esc_pdf-cons c s) ground (arith, read_string-esc_pdf s)
