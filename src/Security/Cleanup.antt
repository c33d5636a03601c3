-- ===== src/Security/Cleanup.antt =====
-- What `_cleanup` leaves in the cache while it holds no more than `max_entries` nonces.
use sgraph_omega_connector.Base.{
  ℕ, ◌≤◌, ◌-◌, take, Bool, true, false, ◌∙◌, List, [], ◌∷◌, Option, some, none, ◌≡◌, refl, inl, inr,
  Bool-cases, any, length, leb, if◌then◌else◌, arith,
}
use sgraph_omega_connector.Base.Int.{ℤ, pos, leb_ℤ}
use sgraph_omega_connector.Text.{Text, text_eq, text_eq_iff}
use sgraph_omega_connector.Dict.{lookup, pop, Distinct, lookup-pop, pop-Distinct, length-pop-le}
use sgraph_omega_connector.Security.{
  NonceReplayCache, cleanup, check_and_mark, Entries, expired_keys, pop_keys, expire, shed, keys,
  sort_by_expiry,
}

abbrev pub listed : Text → List Text → Bool
listed j = any (λ k. text_eq k j)

pub pop_keys-Distinct : (ks : List Text) (m : Entries) → Distinct m → Distinct (pop_keys ks m)
unfolding pop_keys
pop_keys-Distinct [] m d = d
pop_keys-Distinct (k ∷ ks) m d = pop_keys-Distinct ks (pop k m) (pop-Distinct k m d)

pub lookup-pop_keys :
    (ks : List Text) (j : Text) (m : Entries)
    → Distinct m
    → lookup j (pop_keys ks m) ≡ (if listed j ks then none else lookup j m)
unfolding pop_keys
lookup-pop_keys [] j m d = refl
lookup-pop_keys (k ∷ ks) j m d =
    ground (arith, lookup-pop_keys ks j (pop k m) (pop-Distinct k m d), lookup-pop k j m d)

pub length-pop_keys-le : (ks : List Text) (m : Entries) → length (pop_keys ks m) ≤ length m
unfolding pop_keys
length-pop_keys-le [] m = omega arith
length-pop_keys-le (k ∷ ks) m = omega (arith, length-pop_keys-le ks (pop k m), length-pop-le k m)

-- An entry that `now` has reached.
abbrev pub is_expired : ℕ → Option ℤ → Bool
is_expired now none = false
is_expired now (some exp) = leb_ℤ exp (pos now)

-- What a reader at `now` may still see of an entry.
abbrev pub live : ℕ → Option ℤ → Option ℤ
live now o = if is_expired now o then none else o

listed-expired_keys :
    (now : ℕ) (j : Text) (m : Entries)
    → Distinct m
    → listed j (expired_keys now m) ≡ is_expired now (lookup j m)
unfolding expired_keys lookup
listed-expired_keys now j [] d = refl
listed-expired_keys now j ((k, exp) ∷ m) (fresh, d) =
    let later = listed-expired_keys now j m d in
    elim (Bool-cases (text_eq k j)) [
      | inl same ↦
          let absent : lookup j m ≡ none = rw (← (text_eq_iff k j).0 same) fresh in ground arith
      | inr other ↦ ground arith
    ]

-- After the first half of the cleanup a key has its entry if that has not expired, and no other.
pub lookup-expire :
    (now : ℕ) (j : Text) (m : Entries)
    → Distinct m
    → lookup j (expire now m) ≡ live now (lookup j m)
unfolding expire
lookup-expire now j m d =
    ground (arith, lookup-pop_keys (expired_keys now m) j m d, listed-expired_keys now j m d)

pub expire-Distinct : (now : ℕ) (m : Entries) → Distinct m → Distinct (expire now m)
unfolding expire
expire-Distinct now m d = pop_keys-Distinct (expired_keys now m) m d

pub length-expire-le : (now : ℕ) (m : Entries) → length (expire now m) ≤ length m
unfolding expire
length-expire-le now m = length-pop_keys-le (expired_keys now m) m

pub shed_of_length-le : (n : ℕ) (m : Entries) → length m ≤ n → shed n m ≡ m
unfolding shed
shed_of_length-le n m h = ground arith

pub shed-Distinct : (n : ℕ) (m : Entries) → Distinct m → Distinct (shed n m)
unfolding shed
shed-Distinct n m d = elim (Bool-cases (leb (length m) n)) [
  | inl fits ↦ rw fits d
  | inr full ↦ rw full (pop_keys-Distinct (keys (take (length m - n) (sort_by_expiry m))) m d)
]

-- A key that the first half does not leave is not there after the second half either.
lookup-shed-none :
    (n : ℕ) (j : Text) (m : Entries) → Distinct m → lookup j m ≡ none → lookup j (shed n m) ≡ none
unfolding shed
lookup-shed-none n j m d h =
    ground (arith, lookup-pop_keys (keys (take (length m - n) (sort_by_expiry m))) j m d)

-- A key counts as new where the cache has no entry for it, or one that has expired.
pub check_and_mark_fresh :
    (now : ℕ) (j : Text) (c : NonceReplayCache)
    → Distinct c.entries
    → live now (lookup j c.entries) ≡ none
    → (check_and_mark now j c).1 ≡ true
unfolding check_and_mark cleanup
check_and_mark_fresh now j c d h =
    let absent =
      lookup-shed-none c.max_entries j (expire now c.entries) (expire-Distinct now c.entries d)
        (lookup-expire now j c.entries d ∙ h) in
    rw absent refl
