-- ===== src/Scripts/Pdf.antt =====
-- scripts/e2e_sgraph_real_path.py: the PDF and the HTML file that the scenarios send.
pub mod Escapes
pub mod Offsets
use sgraph_omega_connector.Base.{
  ℕ, zero, suc, ◌+◌, ◌-◌, Bool, true, false, ◌==◌, List, [], ◌∷◌, ◌++◌, map, length, ltb,
  if◌then◌else◌,
}
use sgraph_omega_connector.Text.{Text, codes, str_ℕ}
use sgraph_omega_connector.Codec.Utf8.{encode}

-- `s.replace(c, by)`, for one character `c`
unfoldable pub replace : ℕ → Text → Text → Text
replace c by [] = []
replace c by (d ∷ s) = let rest = replace c by s in if d == c then by ++ rest else d ∷ rest

unfoldable pub esc_pdf : Text → Text
esc_pdf s = replace b')' (codes "\\)") (replace b'(' (codes "\\(") (replace b'\\' (codes "\\\\") s))

-- `s.encode("latin-1", errors="replace")`
unfoldable pub encode_latin1 : Text → List ℕ
encode_latin1 s = map (λ c. if ltb c 256 then c else b'?') s

abbrev pub pdf_stream : Text → List ℕ
pdf_stream s = encode_latin1 (codes "BT /F1 14 Tf 72 720 Td (" ++ esc_pdf s ++ codes ") Tj ET")

abbrev pub pdf_objects : Text → List (List ℕ)
pdf_objects s =
    codes "<< /Type /Catalog /Pages 2 0 R >>"
    ∷ codes "<< /Type /Pages /Kids [3 0 R] /Count 1 >>"
    ∷ codes
        "<< /Type /Page /Parent 2 0 R /MediaBox [0 0 595 842] /Resources << /Font << /F1 5 0 R >> >> /Contents 4 0 R >>"
    ∷ (codes "<< /Length "
        ++ str_ℕ (length (pdf_stream s))
        ++ codes " >>\nstream\n"
        ++ pdf_stream s
        ++ codes "\nendstream")
    ∷ codes "<< /Type /Font /Subtype /Type1 /BaseFont /Helvetica >>"
    ∷ []

-- `obj.endswith(b"\n")`
unfoldable pub ends_with_newline : List ℕ → Bool
ends_with_newline [] = false
ends_with_newline (b ∷ []) = b == b'\n'
ends_with_newline (b ∷ c ∷ bs) = ends_with_newline (c ∷ bs)

-- What a round of the loop writes.
unfoldable pub numbered : ℕ → List ℕ → List ℕ
numbered idx obj =
    str_ℕ idx
    ++ codes " 0 obj\n"
    ++ obj
    ++ (if ends_with_newline obj then [] else b'\n' ∷ [])
    ++ codes "endobj\n"

-- The loop: what is written behind `out`, and the offsets.
unfoldable pub write_objects : ℕ → List (List ℕ) → List ℕ → List ℕ × List ℕ
write_objects idx [] out = (out, [])
write_objects idx (obj ∷ objects) out =
    let rest = write_objects (suc idx) objects (out ++ numbered idx obj) in
    (rest.0, length out ∷ rest.1)

-- `"0" * n`
unfoldable pub zeros : ℕ → Text
zeros zero = []
zeros (suc n) = b'0' ∷ zeros n

-- `f"{off:010d} 00000 n \n"`
unfoldable pub xref_entry : ℕ → List ℕ
xref_entry off = zeros (10 - length (str_ℕ off)) ++ str_ℕ off ++ codes " 00000 n \n"

unfoldable pub xref_entries : List ℕ → List ℕ
xref_entries [] = []
xref_entries (off ∷ offsets) = xref_entry off ++ xref_entries offsets

-- All that stands behind the objects, of which there are `n`.
abbrev pub pdf_tail : ℕ → List ℕ → ℕ → List ℕ
pdf_tail n offsets xref_pos =
    codes "xref\n0 "
    ++ str_ℕ (suc n)
    ++ codes "\n0000000000 65535 f \n"
    ++ xref_entries offsets
    ++ codes "trailer\n<< /Size "
    ++ str_ℕ (suc n)
    ++ codes " /Root 1 0 R >>\nstartxref\n"
    ++ str_ℕ xref_pos
    ++ codes "\n%%EOF\n"

abbrev pub pdf_header : List ℕ
pdf_header = codes "%PDF-1.4\n%" ++ 0xe2 ∷ 0xe3 ∷ 0xcf ∷ 0xd3 ∷ b'\n' ∷ []

-- `_build_pdf_bytes`
unfoldable pub build_pdf_bytes : Text → List ℕ
build_pdf_bytes s =
    let objects = pdf_objects s in
    let written = write_objects 1 objects pdf_header in
    written.0 ++ pdf_tail (length objects) written.1 (length written.0)

-- `_build_html_bytes`
unfoldable pub build_html_bytes : Text → List ℕ
build_html_bytes s = encode (
    codes
      "<!doctype html><html><head><meta charset='utf-8'><title>SGraph E2E</title></head><body><h1>Sample</h1><p>"
    ++ s
    ++ codes "</p></body></html>")
