-- ===== src/Security/Overflow.antt =====
-- A cache that is past its limit: how many entries `_cleanup` drops, and which.
use sgraph_omega_connector.Base.{
  ℕ, zero, suc, ◌+◌, ◌-◌, ◌≤◌, [], ◌∷◌, some, none, ◌≡◌, ◌≢◌, ◌∙◌, inl, inr, Bool-cases, length,
  take, leb, min, length-take, All, arith,
}
use sgraph_omega_connector.Base.Int.{ℤ, ◌≤ℤ◌}
use sgraph_omega_connector.Text.{Text, text_eq_iff, text_eq_refl}
use sgraph_omega_connector.Dict.{
  lookup, pop, Distinct, lookup-pop_ne, set-Distinct, length-pop, length-set_new, is_none,
}
use sgraph_omega_connector.Security.{
  Entries, keys, NonceReplayCache, sort_by_expiry, pop_keys, shed, cleanup, check_and_mark, expire,
  expiry,
}
use sgraph_omega_connector.Security.Sorting.{
  length-sort_by_expiry, lookup-sort_by_expiry, sort_by_expiry-Distinct, take-Distinct,
  sort_by_expiry-IsSorted, take-sorted-le,
}
use sgraph_omega_connector.Security.Cleanup.{lookup-pop_keys, expire-Distinct, shed-Distinct}

-- Every key of `p` is a key of `m`.
abbrev Within : Entries → Entries → Type 0
Within p m = All (λ e. lookup e.0 m ≢ none) p

Within-pop : (k : Text) (p m : Entries) → lookup k p ≡ none → Within p m → Within p (pop k m)
unfolding lookup
Within-pop k [] m h w = tt
Within-pop k ((j, exp) ∷ p) m h (w, ws) =
    (ground (arith, lookup-pop_ne k j m, text_eq_iff j k), Within-pop k p m (ground arith) ws)

-- Popping keys that are there makes the dictionary shorter by their number.
length-pop_keys :
    (p m : Entries) → Distinct p → Within p m → length (pop_keys (keys p) m) + length p ≡ length m
unfolding pop_keys
length-pop_keys [] m d w = omega arith
length-pop_keys ((k, exp) ∷ p) m (fresh, d) (w, ws) =
    omega (arith, length-pop k m w, length-pop_keys p (pop k m) d (Within-pop k p m fresh ws))

Within-cons :
    (k : Text) (exp : ℤ) (p m : Entries) → lookup k p ≡ none → Within p m → Within p ((k, exp) ∷ m)
unfolding lookup
Within-cons k exp [] m h w = tt
Within-cons k exp ((j, other) ∷ p) m h (w, ws) =
    (ground arith, Within-cons k exp p m (ground arith) ws)

Within-self : (m : Entries) → Distinct m → Within m m
unfolding lookup
Within-self [] d = tt
Within-self ((k, exp) ∷ m) (fresh, d) =
    (ground (arith, text_eq_refl k), Within-cons k exp m m fresh (Within-self m d))

Within-take : (n : ℕ) (p m : Entries) → Within p m → Within (take n p) m
Within-take zero p m w = tt
Within-take (suc n) [] m w = tt
Within-take (suc n) (e ∷ p) m (w, ws) = (w, Within-take n p m ws)

Within-lookup : (p m s : Entries) → ((j : Text) → lookup j s ≡ lookup j m) → Within p s → Within p m
Within-lookup [] m s same w = tt
Within-lookup (e ∷ p) m s same (w, ws) =
    (λ absent. w (same e.0 ∙ absent), Within-lookup p m s same ws)

-- However many entries there are, `max_entries` are left, or all of them.
pub length-shed : (n : ℕ) (m : Entries) → Distinct m → length (shed n m) ≡ min (length m) n
unfolding shed
length-shed n m d =
    let s = sort_by_expiry m in
    let q = length m - n in
    let ds = sort_by_expiry-Distinct m d in
    let w =
      Within-lookup (take q s) m s (λ j. lookup-sort_by_expiry j m d)
        (Within-take q s s (Within-self s ds)) in
    elim (Bool-cases (leb (length m) n)) [
      | inl fits ↦ rw fits (ground arith)
      | inr full ↦ rw full (
          ground (
            arith,
            length-pop_keys (take q s) m (take-Distinct q s ds) w,
            length-take q s,
            length-sort_by_expiry m,
          ))
    ]

-- In a cache without a double key, whatever is dropped for room expires no later than whatever is
-- kept.
pub shed-le :
    (n : ℕ) (m : Entries) (dropped kept : Text) {a b : ℤ}
    → Distinct m
    → lookup dropped m ≡ some a
    → lookup dropped (shed n m) ≡ none
    → lookup kept (shed n m) ≡ some b
    → a ≤ℤ b
unfolding shed
shed-le n m dropped kept {a} {b} d found gone stays = elim (Bool-cases (leb (length m) n)) [
  | inl fits ↦ absurd (ground arith)
  | inr full ↦
      let s = sort_by_expiry m in
      let q = length m - n in
      let ks = keys (take q s) in
      let at_dropped = lookup-pop_keys ks dropped m d in
      let at_kept = lookup-pop_keys ks kept m d in
      let gone' : lookup dropped (pop_keys ks m) ≡ none = rw full at gone in
      let stays' : lookup kept (pop_keys ks m) ≡ some b = rw full at stays in
      take-sorted-le q s dropped kept a b (sort_by_expiry-IsSorted m) (ground arith) (ground arith)
        (lookup-sort_by_expiry dropped m d ∙ found) (lookup-sort_by_expiry kept m d ∙ ground arith)
]

-- A call on a cache without a double key leaves one without a double key, which holds at most one
-- entry above `max_entries`.
pub check_and_mark_bounds :
    (now : ℕ) (key : Text) (c : NonceReplayCache)
    → Distinct c.entries
    → Distinct (check_and_mark now key c).0.entries
      × (length (check_and_mark now key c).0.entries ≤ c.max_entries + 1)
unfolding check_and_mark cleanup
check_and_mark_bounds now key c d =
    let m = expire now c.entries in
    let kept = shed-Distinct c.max_entries m (expire-Distinct now c.entries d) in
    let bound = length-shed c.max_entries m (expire-Distinct now c.entries d) in
    elim (Bool-cases (is_none (lookup key (shed c.max_entries m)))) [
      | inl fresh ↦ rw fresh (
        set-Distinct key (expiry c.ttl_sec now) (shed c.max_entries m) kept,
        ground (arith, length-set_new key (expiry c.ttl_sec now) (shed c.max_entries m)),
      )
      | inr seen ↦ rw seen (kept, omega arith)
    ]
