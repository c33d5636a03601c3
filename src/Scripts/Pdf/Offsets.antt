-- ===== src/Scripts/Pdf/Offsets.antt =====
-- The cross references of the PDF point at its objects.
use mathlib.Core.List.{append-nil, append_assoc}
use sgraph_omega_connector.Base.{
  ℕ, suc, List, [], ◌∷◌, ◌++◌, length, drop, drop-append, ◌≡◌, sym, ap, ◌∙◌,
}
use sgraph_omega_connector.Text.{Text}
use sgraph_omega_connector.Scripts.Pdf.{
  numbered, write_objects, pdf_objects, pdf_header, pdf_tail, build_pdf_bytes,
}

-- Every offset is the position at which its object stands, under its number.
abbrev pub IsIndexed : ℕ → List (List ℕ) → List ℕ → List ℕ → Type 0
IsIndexed idx [] [] file = Unit
IsIndexed idx (obj ∷ objects) (off ∷ offsets) file =
    ((rest : List ℕ) × (drop off file ≡ numbered idx obj ++ rest))
    × IsIndexed (suc idx) objects offsets file
IsIndexed idx _ _ file = ⊥

write_objects_append :
    (idx : ℕ) (objects : List (List ℕ)) (out : List ℕ)
    → (written : List ℕ) × ((write_objects idx objects out).0 ≡ out ++ written)
unfolding write_objects
write_objects_append idx [] out = ([], sym (append-nil out))
write_objects_append idx (obj ∷ objects) out =
    let (written, ends) = write_objects_append (suc idx) objects (out ++ numbered idx obj) in
    (numbered idx obj ++ written, ends ∙ append_assoc out (numbered idx obj) written)

write_objects-IsIndexed :
    (idx : ℕ) (objects : List (List ℕ)) (out tail : List ℕ)
    → let written = write_objects idx objects out in
      IsIndexed idx objects written.1 (written.0 ++ tail)
unfolding write_objects
write_objects-IsIndexed idx [] out tail = tt
write_objects-IsIndexed idx (obj ∷ objects) out tail =
    let here = numbered idx obj in
    let (written, ends) = write_objects_append (suc idx) objects (out ++ here) in
    let file : (write_objects (suc idx) objects (out ++ here)).0 ++ tail
        ≡ out ++ (here ++ (written ++ tail)) =
      ap (λ l. l ++ tail) (ends ∙ append_assoc out here written)
      ∙ append_assoc out (here ++ written) tail
      ∙ ap (λ l. out ++ l) (append_assoc here written tail) in
    (
      (
        written ++ tail,
        ap (λ f. drop (length out) f) file ∙ drop-append out (here ++ (written ++ tail)),
      ),
      write_objects-IsIndexed (suc idx) objects (out ++ here) tail,
    )

-- In the file that `_build_pdf_bytes` makes there are offsets, one for each object, at which the
-- objects stand under their numbers, and behind the objects the table of these offsets and the
-- trailer, which names the position of the table.
pub build_pdf_bytes-IsIndexed :
    (s : Text)
    → (offsets : List ℕ) × (xref_pos : ℕ) × IsIndexed 1 (pdf_objects s) offsets (build_pdf_bytes s)
      × (drop xref_pos (build_pdf_bytes s) ≡ pdf_tail 5 offsets xref_pos)
unfolding build_pdf_bytes
build_pdf_bytes-IsIndexed s =
    let written = write_objects 1 (pdf_objects s) pdf_header in
    let tail = pdf_tail 5 written.1 (length written.0) in
    (
      written.1,
      length written.0,
      write_objects-IsIndexed 1 (pdf_objects s) pdf_header tail,
      drop-append written.0 tail,
    )
