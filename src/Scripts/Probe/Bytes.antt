-- ===== src/Scripts/Probe/Bytes.antt =====
-- The bytes of a probe: there are as many as were asked for, and they repeat the seed.
use mathlib.Core.List.{append-nil, append_assoc}
use sgraph_omega_connector.Base.{
  ℕ, zero, suc, ◌+◌, ◌≤◌, ◌<◌, inl, inr, Bool-cases, List, [], ◌++◌, some, none, length,
  length-append, take, length-take_le, ltb, ◌≡◌, refl, sym, ap, ◌∙◌, arith,
}
use sgraph_omega_connector.Scripts.Probe.{extend_to, mk_bytes}

-- `seed * n`
unfoldable pub repeat : List ℕ → ℕ → List ℕ
repeat seed zero = []
repeat seed (suc n) = seed ++ repeat seed n

repeat_snoc : (seed : List ℕ) (n : ℕ) → repeat seed n ++ seed ≡ repeat seed (suc n)
unfolding repeat
repeat_snoc seed zero = sym (append-nil seed)
repeat_snoc seed (suc n) =
    append_assoc seed (repeat seed n) seed ∙ ap (λ l. seed ++ l) (repeat_snoc seed n)

-- The loop ends when it has as much fuel as bytes are missing.
extend_to-eq-some :
    (fuel : ℕ) (seed : List ℕ) (size n : ℕ)
    → 0 < length seed
    → size ≤ length (repeat seed n) + fuel
    → (m : ℕ) × (extend_to fuel seed size (repeat seed n) ≡ some (repeat seed m))
      × (size ≤ length (repeat seed m))
unfolding extend_to repeat
extend_to-eq-some zero seed size n long enough = (n, ground arith, ground arith)
extend_to-eq-some (suc fuel) seed size n long enough =
    elim (Bool-cases (ltb (length (repeat seed n)) size)) [
      | inl below ↦
          let grown : length (repeat seed (suc n)) ≡ length seed + length (repeat seed n) =
            length-append seed (repeat seed n) in
          let (m, ends, reached) =
            extend_to-eq-some fuel seed size (suc n) long (omega (arith, enough, long, grown)) in
          (m, rw (below) rw (repeat_snoc seed n) ends, reached)
      | inr done ↦ (n, rw (done) refl, ground arith)
    ]

-- For a seed that is not empty the loop ends, and gives the first `size` bytes of the seed repeated.
pub mk_bytes-eq-some :
    (seed : List ℕ) (size : ℕ)
    → 0 < length seed
    → (n : ℕ) × (mk_bytes seed size ≡ some (take size (repeat seed n)))
      × (length (take size (repeat seed n)) ≡ size)
unfolding mk_bytes repeat
mk_bytes-eq-some seed size long =
    let (m, ends, reached) = extend_to-eq-some size seed size 0 long (omega arith) in
    (
      m,
      ap (λ r. elim r [ none ↦ none | some out ↦ some (take size out) ]) ends,
      length-take_le size (repeat seed m) reached,
    )
