-- ===== src/Text/Strip.antt =====
-- Equality of texts, and what `strip` leaves.
use sgraph_omega_connector.Base.{
  ℕ, Bool, true, false, [], ◌∷◌, ◌++◌, ◌≡◌, refl, ap, ◌↔◌, ◌∙◌, inl, inr, Bool-cases, All, arith,
}
use sgraph_omega_connector.Text.Defs.{
  Text, text_eq, is_space, lstrip_by, rstrip_cons, rstrip_by, strip,
}

text_eq_sound : (s t : Text) → text_eq s t ≡ true → s ≡ t
unfolding text_eq
text_eq_sound [] [] h = refl
text_eq_sound (a ∷ s) (b ∷ t) h = ground (arith, text_eq_sound s t)
text_eq_sound _ _ h = cc

pub text_eq_refl : (s : Text) → text_eq s s ≡ true
unfolding text_eq
text_eq_refl [] = refl
text_eq_refl (a ∷ s) = ground (arith, text_eq_refl s)

pub text_eq_iff : (s t : Text) → (text_eq s t ≡ true) ↔ (s ≡ t)
text_eq_iff s t = (text_eq_sound s t, λ e. rw (← e) (text_eq_refl s))

-- No character of the text is white space.
abbrev pub NoSpace : Text → Type 0
NoSpace = All (λ c. is_space c ≡ false)

module _ (p : ℕ → Bool) where
  pub rstrip_by-append :
      (s t : Text) (c : ℕ) → rstrip_by p (c ∷ t) ≡ c ∷ t → rstrip_by p (s ++ c ∷ t) ≡ s ++ c ∷ t
  unfolding rstrip_by
  rstrip_by-append [] t c h = h
  rstrip_by-append (a ∷ []) t c h = rw (rstrip_by-append [] t c h) refl
  rstrip_by-append (a ∷ b ∷ s) t c h = rw (rstrip_by-append (b ∷ s) t c h) refl

  pub rstrip_by_kept : (c : ℕ) (s : Text) → p c ≡ false → rstrip_by p (c ∷ s) ≡ c ∷ rstrip_by p s
  unfolding rstrip_by
  rstrip_by_kept c s h = cons (rstrip_by p s)
    where
      cons : (r : Text) → rstrip_cons p c r ≡ c ∷ r
      cons [] = rw h
      cons (d ∷ r) = refl

  pub rstrip_by-All-false : (s : Text) → All (λ c. p c ≡ false) s → rstrip_by p s ≡ s
  unfolding rstrip_by
  rstrip_by-All-false [] h = refl
  rstrip_by-All-false (c ∷ []) h = rw h.0 refl
  rstrip_by-All-false (c ∷ d ∷ s) h = rw (rstrip_by-All-false (d ∷ s) h.1) refl

  pub lstrip_by-All-false : (s : Text) → All (λ c. p c ≡ false) s → lstrip_by p s ≡ s
  unfolding lstrip_by
  lstrip_by-All-false [] h = refl
  lstrip_by-All-false (c ∷ s) h = rw h.0 refl

  pub rstrip_by_idem : (s : Text) → rstrip_by p (rstrip_by p s) ≡ rstrip_by p s
  unfolding rstrip_by
  rstrip_by_idem [] = refl
  rstrip_by_idem (c ∷ s) = cons (rstrip_by p s) (rstrip_by_idem s)
    where
      cons : (r : Text) → rstrip_by p r ≡ r → rstrip_by p (rstrip_cons p c r) ≡ rstrip_cons p c r
      cons [] h = ground arith
      cons (d ∷ r) h = rw h refl

  -- The text is empty, or starts with a character that is kept.
  abbrev HeadKept : Text → Type 0
  HeadKept [] = Unit
  HeadKept (c ∷ _) = p c ≡ false

  lstrip_by-HeadKept : (s : Text) → HeadKept (lstrip_by p s)
  unfolding lstrip_by
  lstrip_by-HeadKept [] = tt
  lstrip_by-HeadKept (c ∷ s) = elim (Bool-cases (p c)) [
    | inl skipped ↦ rw skipped (lstrip_by-HeadKept s)
    | inr kept ↦ rw kept kept
  ]

  lstrip_by_of_HeadKept : (s : Text) → HeadKept s → lstrip_by p s ≡ s
  unfolding lstrip_by
  lstrip_by_of_HeadKept [] h = refl
  lstrip_by_of_HeadKept (c ∷ s) h = rw h refl

  rstrip_by-HeadKept : (s : Text) → HeadKept s → HeadKept (rstrip_by p s)
  unfolding rstrip_by
  rstrip_by-HeadKept [] h = tt
  rstrip_by-HeadKept (c ∷ s) h = cons (rstrip_by p s)
    where
      cons : (r : Text) → HeadKept (rstrip_cons p c r)
      cons [] = rw h h
      cons (d ∷ r) = h

  pub rstrip_by-lstrip_by_idem :
      (s : Text)
      → rstrip_by p (lstrip_by p (rstrip_by p (lstrip_by p s))) ≡ rstrip_by p (lstrip_by p s)
  rstrip_by-lstrip_by_idem s =
      let r = lstrip_by p s in
      ap (rstrip_by p)
        (lstrip_by_of_HeadKept (rstrip_by p r) (rstrip_by-HeadKept r (lstrip_by-HeadKept s)))
      ∙ rstrip_by_idem r

pub strip-NoSpace : (s : Text) → NoSpace s → strip s ≡ s
unfolding strip
strip-NoSpace s h = rw (lstrip_by-All-false is_space s h) (rstrip_by-All-false is_space s h)

-- Stripping a second time changes nothing.
pub strip_idem : (s : Text) → strip (strip s) ≡ strip s
unfolding strip
strip_idem s = rstrip_by-lstrip_by_idem is_space s

pub strip-nil : strip [] ≡ []
unfolding strip lstrip_by rstrip_by
strip-nil = refl
