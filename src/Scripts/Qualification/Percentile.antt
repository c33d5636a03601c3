-- ===== src/Scripts/Qualification/Percentile.antt =====
-- The percentile lies between the values.
use native.Mathlib.Nat.{mul-add, mul-le-mul_right}
use sgraph_omega_connector.Base.{
  ℕ, zero, suc, ◌+◌, ◌-◌, ◌*◌, ◌/◌, ◌%◌, ◌≤◌, min, List, [], ◌∷◌, length, leb, ◌==◌, ◌≡◌, sym, ap,
  ◌∙◌, All, inl, inr, Bool-cases, arith,
}
use sgraph_omega_connector.Scripts.Qualification.{insert_value, sorted, item, percentile}

module _ (m : ℕ) where
  abbrev pub AtMost : List ℕ → Type 0
  AtMost = All (λ n. n ≤ m)

  insert_value-AtMost : (n : ℕ) (ns : List ℕ) → n ≤ m → AtMost ns → AtMost (insert_value n ns)
  unfolding insert_value
  insert_value-AtMost n [] h hs = (h, tt)
  insert_value-AtMost n (k ∷ ns) h (g, gs) = elim (Bool-cases (leb n k)) [
    | inl low ↦ rw low (h, (g, gs))
    | inr high ↦ rw high (g, insert_value-AtMost n ns h gs)
  ]

  sorted-AtMost : (ns : List ℕ) → AtMost ns → AtMost (sorted ns)
  unfolding sorted
  sorted-AtMost [] hs = tt
  sorted-AtMost (n ∷ ns) (h, hs) = insert_value-AtMost n (sorted ns) h (sorted-AtMost ns hs)

  item-le : (ns : List ℕ) (i : ℕ) → AtMost ns → item ns i ≤ m
  unfolding item
  item-le [] i hs = omega arith
  item-le (n ∷ ns) zero (h, hs) = h
  item-le (n ∷ ns) (suc i) (h, hs) = item-le ns i hs

  mix-le : (a b r : ℕ) → a ≤ m → b ≤ m → r ≤ 100 → a * (100 - r) + b * r ≤ m * 100
  mix-le a b r ha hb hr =
      let whole : m * (100 - r) + m * r ≡ m * 100 =
        sym (mul-add m (100 - r) r) ∙ ap (λ n. m * n) (omega arith) in
      omega (arith, whole, mul-le-mul_right (100 - r) ha, mul-le-mul_right r hb)

  -- A percentile is at most the largest value, in hundredths.
  pub percentile-le : (values : List ℕ) (q : ℕ) → AtMost values → percentile values q ≤ m * 100
  unfolding percentile
  percentile-le values q hs =
      let data_sorted = sorted values in
      let last = length data_sorted - 1 in
      let low = last * q / 100 in
      let high = min (low + 1) last in
      let kept = sorted-AtMost values hs in
      elim (Bool-cases (low == high)) [
        | inl same ↦ rw same (omega (arith, item-le data_sorted low kept))
        | inr between ↦ rw between (
            mix-le (item data_sorted low) (item data_sorted high) (last * q % 100)
              (item-le data_sorted low kept) (item-le data_sorted high kept) (omega arith))
      ]
