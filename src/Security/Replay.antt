-- ===== src/Security/Replay.antt =====
-- The cache against an ideal one that keeps every accepted nonce and drops nothing.
use sgraph_omega_connector.Base.{
  ℕ, ◌+◌, ◌≤◌, Bool, true, false, List, [], ◌∷◌, Option, some, none, ◌≡◌, refl, inl, inr, ap₂,
  Bool-cases, length, if◌then◌else◌, arith,
}
use sgraph_omega_connector.Base.Int.{ℤ}
use sgraph_omega_connector.Text.{Text, text_eq}
use sgraph_omega_connector.Dict.{
  lookup, is_none, Distinct, lookup-set, set-Distinct, length-set_new,
}
use sgraph_omega_connector.Security.{NonceReplayCache, expiry, expire, cleanup, check_and_mark}
use sgraph_omega_connector.Security.Cleanup.{
  live, lookup-expire, expire-Distinct, length-expire-le, shed_of_length-le,
}

-- When each nonce that was ever accepted stops being a replay.
abbrev pub Seen : Type 0
Seen = Text → Option ℤ

-- The ideal check: a nonce is new unless it was accepted and its time has not run out.
abbrev pub seen_step : ℤ → ℕ → Text → Seen → Seen × Bool
seen_step ttl_sec now key s =
    if is_none (live now (s key))
    then ((λ j. if text_eq key j then some (expiry ttl_sec now) else s j), true)
    else (s, false)

-- A call of `check_and_mark`: the clock and the key.
abbrev pub Call : Type 0
Call = ℕ × Text

pub run_cache : List Call → NonceReplayCache → List Bool
run_cache [] c = []
run_cache ((now, key) ∷ calls) c =
    let (c', fresh) = check_and_mark now key c in fresh ∷ run_cache calls c'

unfoldable pub run_seen : ℤ → List Call → Seen → List Bool
run_seen ttl_sec [] s = []
run_seen ttl_sec ((now, key) ∷ calls) s =
    let (s', fresh) = seen_step ttl_sec now key s in fresh ∷ run_seen ttl_sec calls s'

-- The clock does not run backwards.
abbrev pub Ordered : ℕ → List Call → Type 0
Ordered t [] = Unit
Ordered t ((now, _) ∷ calls) = (t ≤ now) × Ordered now calls

-- From `t` on, the cache and the ideal one show the same.
pub record Agrees (t : ℕ) (c : NonceReplayCache) (s : Seen) : Type 0 where
  pub distinct : Distinct c.entries
  pub same : (j : Text) (later : ℕ) → t ≤ later → live later (lookup j c.entries) ≡ live later (s j)

live-live : (now later : ℕ) (o : Option ℤ) → now ≤ later → live later (live now o) ≡ live later o
live-live now later none h = refl
live-live now later (some exp) h = ground arith

module _ (now : ℕ) (key : Text) (c : NonceReplayCache)
    (room : length c.entries ≤ c.max_entries) where
  pub cleaned : (cleanup now c).entries ≡ expire now c.entries
  unfolding cleanup
  cleaned =
      shed_of_length-le c.max_entries (expire now c.entries)
        (omega (arith, length-expire-le now c.entries))

  module _ {t : ℕ} {s : Seen} (order : t ≤ now) (a : Agrees t c s) where
    fresh-eq : (check_and_mark now key c).1 ≡ (seen_step c.ttl_sec now key s).1
    unfolding check_and_mark
    fresh-eq =
        ground (arith, cleaned, lookup-expire now key c.entries a.distinct, a.same key now order)

    lookup-after :
        (j : Text)
        → lookup j (check_and_mark now key c).0.entries ≡ (
            if is_none (live now (s key))
            then (if text_eq key j
                then some (expiry c.ttl_sec now)
                else live now (lookup j c.entries))
            else live now (lookup j c.entries))
    unfolding check_and_mark
    lookup-after j = ground (
      arith,
      cleaned,
      lookup-expire now key c.entries a.distinct,
      lookup-expire now j c.entries a.distinct,
      a.same key now order,
      lookup-set key j (expiry c.ttl_sec now) (expire now c.entries),
    )

    pub after-Distinct : Distinct (check_and_mark now key c).0.entries
    unfolding check_and_mark
    after-Distinct =
        let kept = expire-Distinct now c.entries a.distinct in
        elim (Bool-cases (is_none (lookup key (cleanup now c).entries))) [
          | inl fresh ↦
              rw (fresh, cleaned)
                (set-Distinct key (expiry c.ttl_sec now) (expire now c.entries) kept)
          | inr seen ↦ rw (seen, cleaned) kept
        ]

    after-Agrees : Agrees now (check_and_mark now key c).0 (seen_step c.ttl_sec now key s).0
    after-Agrees = record {
      distinct = after-Distinct;
      same = λ j later h. ground (
        arith,
        lookup-after j,
        live-live now later (lookup j c.entries) h,
        a.same j later (omega arith),
      );
    }

    pub length-after : length (check_and_mark now key c).0.entries ≤ length c.entries + 1
    unfolding check_and_mark
    length-after = ground (
      arith,
      cleaned,
      length-expire-le now c.entries,
      length-set_new key (expiry c.ttl_sec now) (expire now c.entries),
    )

pub check_and_mark-ttl_sec :
    (now : ℕ) (key : Text) (c : NonceReplayCache)
    → ((check_and_mark now key c).0.ttl_sec ≡ c.ttl_sec)
      × ((check_and_mark now key c).0.max_entries ≡ c.max_entries)
unfolding check_and_mark
check_and_mark-ttl_sec now key c = ground arith

-- On calls in the order of time, and while the cache has room for them all, it answers each call as
-- the ideal cache does.
pub run_cache-eq-run_seen :
    (calls : List Call) {t : ℕ} {c : NonceReplayCache} {s : Seen}
    → Agrees t c s
    → Ordered t calls
    → length c.entries + length calls ≤ c.max_entries
    → run_cache calls c ≡ run_seen c.ttl_sec calls s
unfolding run_cache run_seen
run_cache-eq-run_seen [] a o room = refl
run_cache-eq-run_seen ((now, key) ∷ calls) {t} {c} {s} a (le, o) room =
    let fits : length c.entries ≤ c.max_entries = omega arith in
    let (c', fresh) = check_and_mark now key c in
    let (ttl, most) = check_and_mark-ttl_sec now key c in
    let grown = length-after now key c fits le a in
    let rest = run_cache-eq-run_seen calls (after-Agrees now key c fits le a) o (omega arith) in
    ap₂ ◌∷◌ (fresh-eq now key c fits le a) (rw ttl at rest)
