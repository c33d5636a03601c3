-- ===== src/Scripts/Probe/Sizes.antt =====
-- The sizes on the command line are read the way they are written.
use sgraph_omega_connector.Base.{
  ℕ, ◌≤◌, true, List, [], ◌∷◌, map, All, ok, length, ◌≡◌, ◌≢◌, refl, arith,
}
use sgraph_omega_connector.Base.Int.{pos}
use sgraph_omega_connector.Text.{
  Text, Unicode, truthy, join, split, str_ℕ, max_str_digits, int_of-str_ℕ, strip-NoSpace,
  str_ℕ-NoSpace, str_ℕ-ne-nil, str_ℕ-IsDigit, IsDigit,
}
use sgraph_omega_connector.Security.Canonical.{Free, split-join}
use sgraph_omega_connector.Scripts.Probe.{size_values, parse_sizes}

IsDigit-Free : (s : Text) → All IsDigit s → Free b',' s
IsDigit-Free [] h = tt
IsDigit-Free (c ∷ s) (d, h) = (λ e. absurd (omega (arith, e, d)), IsDigit-Free s h)

map-str_ℕ-Free : (ns : List ℕ) → All (Free b',') (map str_ℕ ns)
map-str_ℕ-Free [] = tt
map-str_ℕ-Free (n ∷ ns) = (IsDigit-Free (str_ℕ n) (str_ℕ-IsDigit n), map-str_ℕ-Free ns)

ne-nil-truthy : (s : Text) → s ≢ [] → truthy s ≡ true
ne-nil-truthy [] h = absurd (h refl)
ne-nil-truthy (c ∷ s) h = refl

-- The limit of Python on the digits of a number.
abbrev pub Short : ℕ → Type 0
Short n = length (str_ℕ n) ≤ max_str_digits

size_values-map-str_ℕ :
    (u : Unicode) (ns : List ℕ) → All Short ns → size_values u (map str_ℕ ns) ≡ ok (map pos ns)
unfolding size_values
size_values-map-str_ℕ u [] h = refl
size_values-map-str_ℕ u (n ∷ ns) (short, h) =
    rw (strip-NoSpace (str_ℕ n) (str_ℕ-NoSpace n)) rw
      (ne-nil-truthy (str_ℕ n) (str_ℕ-ne-nil n), int_of-str_ℕ u n short) rw
      (size_values-map-str_ℕ u ns h) refl

-- `_parse_sizes` reads back every list of sizes, but the empty one, that is written in decimal with
-- commas between them.
pub parse_sizes-join :
    (u : Unicode) (n : ℕ) (ns : List ℕ)
    → All Short (n ∷ ns)
    → parse_sizes u (join b',' (map str_ℕ (n ∷ ns))) ≡ ok (map pos (n ∷ ns))
unfolding parse_sizes size_values split join
parse_sizes-join u n ns h =
    rw (split-join b',' (str_ℕ n) (map str_ℕ ns) (map-str_ℕ-Free (n ∷ ns))) rw
      (size_values-map-str_ℕ u (n ∷ ns) h) refl
