-- ===== src/Dict.antt =====
-- Python's `dict` with text keys, in insertion order.
use sgraph_omega_connector.Base.{
  ◌+◌, ◌≤◌, Bool, true, false, List, [], ◌∷◌, Option, some, none, ◌≡◌, ◌≢◌, refl, inl, inr,
  Bool-cases, length, if◌then◌else◌, arith,
}
use sgraph_omega_connector.Text.{Text, text_eq, text_eq_iff}

abbrev pub is_none {ℓ} : {A : Type ℓ} → Option A → Bool
is_none none = true
is_none (some _) = false

module _ {ℓ} {V : Type ℓ} where
  -- `d.get(k)`
  unfoldable pub lookup : Text → List (Text × V) → Option V
  lookup k [] = none
  lookup k ((j, v) ∷ m) = if text_eq j k then some v else lookup k m

  -- `d[k] = v`
  unfoldable pub set : Text → V → List (Text × V) → List (Text × V)
  set k v [] = (k, v) ∷ []
  set k v ((j, w) ∷ m) = if text_eq j k then (j, v) ∷ m else (j, w) ∷ set k v m

  -- `d.pop(k, None)`
  unfoldable pub pop : Text → List (Text × V) → List (Text × V)
  pop k [] = []
  pop k ((j, v) ∷ m) = if text_eq j k then m else (j, v) ∷ pop k m

  -- No key stands twice, as in every `dict`.
  abbrev pub Distinct : List (Text × V) → Type ℓ
  Distinct [] = Unit
  Distinct ((k, v) ∷ m) = (lookup k m ≡ none) × Distinct m

  pub lookup-set :
      (k j : Text) (v : V) (m : List (Text × V))
      → lookup j (set k v m) ≡ (if text_eq k j then some v else lookup j m)
  unfolding lookup set
  lookup-set k j v [] = refl
  lookup-set k j v ((i, w) ∷ m) =
      ground (arith, text_eq_iff k j, text_eq_iff i k, text_eq_iff i j, lookup-set k j v m)

  pub lookup-set_ne :
      (k j : Text) (v : V) (m : List (Text × V)) → k ≢ j → lookup j (set k v m) ≡ lookup j m
  lookup-set_ne k j v m h = ground (arith, lookup-set k j v m, text_eq_iff k j)

  pub lookup-pop_ne : (k j : Text) (m : List (Text × V)) → k ≢ j → lookup j (pop k m) ≡ lookup j m
  unfolding lookup pop
  lookup-pop_ne k j [] h = refl
  lookup-pop_ne k j ((i, w) ∷ m) h =
      ground (arith, text_eq_iff i k, text_eq_iff i j, lookup-pop_ne k j m h)

  pub lookup-pop_self : (k : Text) (m : List (Text × V)) → Distinct m → lookup k (pop k m) ≡ none
  unfolding lookup pop
  lookup-pop_self k [] d = refl
  lookup-pop_self k ((i, w) ∷ m) (fresh, d) = ground (arith, text_eq_iff i k, lookup-pop_self k m d)

  pub lookup-pop :
      (k j : Text) (m : List (Text × V))
      → Distinct m
      → lookup j (pop k m) ≡ (if text_eq k j then none else lookup j m)
  lookup-pop k j m d = elim (Bool-cases (text_eq k j)) [
    | inl same ↦ rw (same, ← (text_eq_iff k j).0 same) (lookup-pop_self k m d)
    | inr other ↦ rw other (lookup-pop_ne k j m (ground (arith, text_eq_iff k j)))
  ]

  pub set-Distinct : (k : Text) (v : V) (m : List (Text × V)) → Distinct m → Distinct (set k v m)
  unfolding set lookup
  set-Distinct k v [] d = (refl, tt)
  set-Distinct k v ((i, w) ∷ m) (fresh, d) = elim (Bool-cases (text_eq i k)) [
    | inl same ↦ rw same (fresh, d)
    | inr other ↦
        rw other (
          ground (arith, lookup-set k i v m, text_eq_iff k i, text_eq_iff i k),
          set-Distinct k v m d,
        )
  ]

  pub pop-Distinct : (k : Text) (m : List (Text × V)) → Distinct m → Distinct (pop k m)
  unfolding pop lookup
  pop-Distinct k [] d = tt
  pop-Distinct k ((i, w) ∷ m) (fresh, d) = elim (Bool-cases (text_eq i k)) [
    | inl same ↦ rw same d
    | inr other ↦
        rw other (ground (arith, lookup-pop_ne k i m, text_eq_iff i k), pop-Distinct k m d)
  ]

  pub length-pop-le : (k : Text) (m : List (Text × V)) → length (pop k m) ≤ length m
  unfolding pop
  length-pop-le k [] = omega arith
  length-pop-le k ((i, w) ∷ m) = ground (arith, length-pop-le k m)

  pub length-pop :
      (k : Text) (m : List (Text × V)) → lookup k m ≢ none → length (pop k m) + 1 ≡ length m
  unfolding pop lookup
  length-pop k [] h = absurd (h refl)
  length-pop k ((i, w) ∷ m) h = ground (arith, length-pop k m)

  pub length-set_new :
      (k : Text) (v : V) (m : List (Text × V))
      → lookup k m ≡ none
      → length (set k v m) ≡ length m + 1
  unfolding set lookup
  length-set_new k v [] h = omega arith
  length-set_new k v ((i, w) ∷ m) h = ground (arith, length-set_new k v m)
