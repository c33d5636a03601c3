-- ===== src/Security/Sorting.antt =====
-- `sorted` keeps the entries, and puts the soonest expiry first.
use sgraph_omega_connector.Base.{
  ℕ, zero, suc, ◌+◌, true, false, [], ◌∷◌, some, none, ◌≡◌, refl, inl, inr, Bool-cases, length,
  take, All, if◌then◌else◌, arith,
}
use sgraph_omega_connector.Base.Int.{ℤ, leb_ℤ, ◌≤ℤ◌}
use sgraph_omega_connector.Text.{Text, text_eq, text_eq_iff}
use sgraph_omega_connector.Dict.{lookup, Distinct}
use sgraph_omega_connector.Security.{Entries, keys, insert_sorted, sort_by_expiry}
use sgraph_omega_connector.Security.Cleanup.{listed}

length-insert_sorted :
    (k : Text) (exp : ℤ) (m : Entries) → length (insert_sorted (k, exp) m) ≡ length m + 1
unfolding insert_sorted
length-insert_sorted k exp [] = omega arith
length-insert_sorted k exp ((j, other) ∷ m) = ground (arith, length-insert_sorted k exp m)

lookup-insert_sorted :
    (k : Text) (exp : ℤ) (j : Text) (m : Entries)
    → lookup k m ≡ none
    → lookup j (insert_sorted (k, exp) m) ≡ (if text_eq k j then some exp else lookup j m)
unfolding insert_sorted lookup
lookup-insert_sorted k exp j [] h = refl
lookup-insert_sorted k exp j ((i, other) ∷ m) h =
    ground
      (arith, lookup-insert_sorted k exp j m, text_eq_iff k j, text_eq_iff i j, text_eq_iff i k)

insert_sorted-Distinct :
    (k : Text) (exp : ℤ) (m : Entries)
    → lookup k m ≡ none
    → Distinct m
    → Distinct (insert_sorted (k, exp) m)
unfolding insert_sorted lookup
insert_sorted-Distinct k exp [] h d = (refl, tt)
insert_sorted-Distinct k exp ((i, other) ∷ m) h (fresh, d) = elim (Bool-cases (leb_ℤ exp other)) [
  | inl first ↦ rw first (h, (fresh, d))
  | inr after ↦ rw after (
    ground (arith, lookup-insert_sorted k exp i m, text_eq_iff i k, text_eq_iff k i),
    insert_sorted-Distinct k exp m (ground arith) d,
  )
]

pub length-sort_by_expiry : (m : Entries) → length (sort_by_expiry m) ≡ length m
unfolding sort_by_expiry
length-sort_by_expiry [] = refl
length-sort_by_expiry ((k, exp) ∷ m) =
    omega (arith, length-insert_sorted k exp (sort_by_expiry m), length-sort_by_expiry m)

pub lookup-sort_by_expiry :
    (j : Text) (m : Entries) → Distinct m → lookup j (sort_by_expiry m) ≡ lookup j m
unfolding sort_by_expiry lookup
lookup-sort_by_expiry j [] d = refl
lookup-sort_by_expiry j ((k, exp) ∷ m) (fresh, d) = ground (
  arith,
  lookup-insert_sorted k exp j (sort_by_expiry m),
  lookup-sort_by_expiry k m d,
  lookup-sort_by_expiry j m d,
)

pub sort_by_expiry-Distinct : (m : Entries) → Distinct m → Distinct (sort_by_expiry m)
unfolding sort_by_expiry
sort_by_expiry-Distinct [] d = tt
sort_by_expiry-Distinct ((k, exp) ∷ m) (fresh, d) =
    insert_sorted-Distinct k exp (sort_by_expiry m) (rw (lookup-sort_by_expiry k m d) fresh)
      (sort_by_expiry-Distinct m d)

lookup-take-none : (n : ℕ) (j : Text) (m : Entries) → lookup j m ≡ none → lookup j (take n m) ≡ none
unfolding lookup
lookup-take-none zero j m h = refl
lookup-take-none (suc n) j [] h = refl
lookup-take-none (suc n) j ((k, exp) ∷ m) h = ground (arith, lookup-take-none n j m)

pub take-Distinct : (n : ℕ) (m : Entries) → Distinct m → Distinct (take n m)
take-Distinct zero m d = tt
take-Distinct (suc n) [] d = tt
take-Distinct (suc n) ((k, exp) ∷ m) (fresh, d) =
    (lookup-take-none n k m fresh, take-Distinct n m d)

-- The soonest expiry comes first.
abbrev pub IsSorted : Entries → Type 0
IsSorted [] = Unit
IsSorted ((_, exp) ∷ m) = All (λ e. exp ≤ℤ e.1) m × IsSorted m

insert_sorted-All :
    (bound : ℤ) (k : Text) (exp : ℤ) (m : Entries)
    → bound ≤ℤ exp
    → All (λ e. bound ≤ℤ e.1) m
    → All (λ e. bound ≤ℤ e.1) (insert_sorted (k, exp) m)
unfolding insert_sorted
insert_sorted-All bound k exp [] h a = (h, tt)
insert_sorted-All bound k exp ((j, other) ∷ m) h (p, a) = elim (Bool-cases (leb_ℤ exp other)) [
  | inl first ↦ rw first (h, (p, a))
  | inr after ↦ rw after (p, insert_sorted-All bound k exp m h a)
]

All-of_le :
    (low high : ℤ) (m : Entries) → low ≤ℤ high → All (λ e. high ≤ℤ e.1) m → All (λ e. low ≤ℤ e.1) m
All-of_le low high [] h a = tt
All-of_le low high ((k, exp) ∷ m) h (p, a) = (omega arith, All-of_le low high m h a)

insert_sorted-IsSorted :
    (k : Text) (exp : ℤ) (m : Entries) → IsSorted m → IsSorted (insert_sorted (k, exp) m)
unfolding insert_sorted
insert_sorted-IsSorted k exp [] s = (tt, tt)
insert_sorted-IsSorted k exp ((j, other) ∷ m) (a, s) = elim (Bool-cases (leb_ℤ exp other)) [
  | inl first ↦
      let h : exp ≤ℤ other = ground arith in rw first ((h, All-of_le exp other m h a), (a, s))
  | inr after ↦
      let h : other ≤ℤ exp = ground arith in
      rw after (insert_sorted-All other k exp m h a, insert_sorted-IsSorted k exp m s)
]

pub sort_by_expiry-IsSorted : (m : Entries) → IsSorted (sort_by_expiry m)
unfolding sort_by_expiry
sort_by_expiry-IsSorted [] = tt
sort_by_expiry-IsSorted ((k, exp) ∷ m) =
    insert_sorted-IsSorted k exp (sort_by_expiry m) (sort_by_expiry-IsSorted m)

lookup_bound :
    (bound : ℤ) (k : Text) {exp : ℤ} (m : Entries)
    → All (λ e. bound ≤ℤ e.1) m
    → lookup k m ≡ some exp
    → bound ≤ℤ exp
unfolding lookup
lookup_bound bound k [] a h = cc
lookup_bound bound k ((j, other) ∷ m) (p, a) h = elim (Bool-cases (text_eq j k)) [
  | inl same ↦ ground arith
  | inr differs ↦ lookup_bound bound k m a (ground arith)
]

-- In a sorted list a key among the first `n` expires no later than a key that is not.
pub take-sorted-le :
    (n : ℕ) (m : Entries) (j k : Text) (a b : ℤ)
    → IsSorted m
    → listed j (keys (take n m)) ≡ true
    → listed k (keys (take n m)) ≡ false
    → lookup j m ≡ some a
    → lookup k m ≡ some b
    → a ≤ℤ b
unfolding lookup
take-sorted-le zero m j k a b s hj hk fj fk = cc
take-sorted-le (suc n) [] j k a b s hj hk fj fk = cc
take-sorted-le (suc n) ((i, exp) ∷ m) j k a b (low, s) hj hk fj fk =
    elim (Bool-cases (text_eq i j)) [
      | inl same ↦
          let found : lookup k m ≡ some b = ground arith in
          let first : exp ≤ℤ b = lookup_bound exp k m low found in ground arith
      | inr differs ↦
          take-sorted-le n m j k a b s (ground arith) (ground arith) (ground arith) (ground arith)
    ]
