-- ===== src/Scripts/Probing/Rows.antt =====
-- What the rows of the body limit probe say.
use mathlib.Core.Path.{subst}
use sgraph_omega_connector.Base.{
  ℕ, true, List, [], ◌∷◌, ok, ok_injective, ◌≡◌, refl, sym, ap, ◌∙◌, arith,
}
use sgraph_omega_connector.Base.Int.{ℤ}
use sgraph_omega_connector.Text.{Text}
use sgraph_omega_connector.Json.{Json, Fields, object, fields}
use sgraph_omega_connector.SGraph.{SignedHeaders}
use sgraph_omega_connector.Scripts.Flow.{Wire}
use sgraph_omega_connector.Scripts.Flow.Inversion.{resume-eq-ok}
use sgraph_omega_connector.Scripts.Answers.{get_dict}
use sgraph_omega_connector.Scripts.Transfer.{Libraries}
use sgraph_omega_connector.Scripts.Probe.{looks_like_nginx_413}
use sgraph_omega_connector.Scripts.Probing.{
  ProbeArgs, ProbeRow, ProbeDraw, flag_413, probe_size, probe_sizes,
}

-- A flag stands for a reply of nginx with the status 413.
abbrev pub IsFlagged : (Json → Text) → ProbeRow → Type 0
IsFlagged repr row =
    row.looks_like_413 ≡ true
    → (row.http_status ≡ 413)
      × ((fs : Fields) × (row.response ≡ object fs)
          × (looks_like_nginx_413 repr (fields fs) ≡ true))

-- One row for each size, in order, with its flag.
abbrev pub IsProbed : (Json → Text) → List (ProbeDraw × ℤ) → List ProbeRow → Type 0
IsProbed repr [] [] = Unit
IsProbed repr ((_, size) ∷ rounds) (row ∷ rows) =
    (row.file_size_bytes ≡ size) × IsFlagged repr row × IsProbed repr rounds rows
IsProbed repr _ _ = ⊥

flag_413-eq-true :
    (repr : Json → Text) (status : ℕ) (response : Json)
    → flag_413 repr status response ≡ ok true
    → (status ≡ 413)
      × ((fs : Fields) × (response ≡ object fs) × (looks_like_nginx_413 repr (fields fs) ≡ true))
unfolding flag_413 get_dict
flag_413-eq-true repr status (object fs) h = (ground (arith, h), (fs, refl, ground (arith, h)))
flag_413-eq-true repr status _ h = absurd (ground (arith, h))

module _ {S : Type 0} (l : Libraries) (send : SignedHeaders → List (Text × Json) → S → S × Wire)
    (args : ProbeArgs) where
  probe_size-IsFlagged :
      (d : ProbeDraw) (size : ℤ) (s s' : S) (row : ProbeRow)
      → probe_size l send args d size s ≡ (s', ok row)
      → (row.file_size_bytes ≡ size) × IsFlagged l.repr row
  unfolding probe_size
  probe_size-IsFlagged d size s s' row h =
      let (s₁, content, made, h₁) = resume-eq-ok _ _ s' row h in
      let (s₂, answer, posted, h₂) = resume-eq-ok _ _ s' row h₁ in
      let (s₃, flag, flagged, h₃) = resume-eq-ok _ _ s' row h₂ in
      let is_row = ok_injective _ row (ap (λ p. p.1) h₃) in
      (
        ap (λ r. r.file_size_bytes) (sym is_row),
        subst (IsFlagged l.repr) is_row (λ raised.
            flag_413-eq-true l.repr answer.0 answer.1 (ap (λ p. p.1) flagged ∙ ap ok raised)),
      )

  -- A probe that returns has one row for each size, in the order of the sizes, and flags only a
  -- reply of nginx with the status 413.
  pub probe_sizes-IsProbed :
      (rounds : List (ProbeDraw × ℤ)) (s s' : S) (rows : List ProbeRow)
      → probe_sizes l send args rounds s ≡ (s', ok rows)
      → IsProbed l.repr rounds rows
  unfolding probe_sizes
  probe_sizes-IsProbed [] s s' [] h = tt
  probe_sizes-IsProbed [] s s' (row ∷ rows) h = absurd (ground (arith, h))
  probe_sizes-IsProbed ((d, size) ∷ rounds) s s' rows h =
      let (s₁, row, probed, h₁) = resume-eq-ok _ _ s' rows h in
      let (s₂, rest, more, h₂) = resume-eq-ok _ _ s' rows h₁ in
      let is_rows = ok_injective _ rows (ap (λ p. p.1) h₂) in
      let (same, flagged) = probe_size-IsFlagged d size s s₁ row probed in
      subst (IsProbed l.repr ((d, size) ∷ rounds)) is_rows
        (same, flagged, probe_sizes-IsProbed rounds s₁ s₂ rest more)
