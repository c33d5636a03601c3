-- ===== src/Security/Survival.antt =====
-- How long an accepted nonce stays in the cache.
use sgraph_omega_connector.Base.{
  ℕ, ◌+◌, ◌≤◌, ◌<◌, true, false, List, [], ◌∷◌, some, ◌≡◌, refl, length, arith,
}
use sgraph_omega_connector.Base.Int.{ℤ, pos, leb_ℤ}
use sgraph_omega_connector.Text.{Text, text_eq_iff, text_eq_refl}
use sgraph_omega_connector.Dict.{lookup, Distinct, lookup-set}
use sgraph_omega_connector.Security.{NonceReplayCache, expiry, expire, cleanup, check_and_mark}
use sgraph_omega_connector.Security.Cleanup.{lookup-expire}
use sgraph_omega_connector.Security.Replay.{
  Call, Ordered, Agrees, cleaned, after-Distinct, length-after, check_and_mark-ttl_sec,
}

-- The cache after a list of calls.
unfoldable pub serve : List Call → NonceReplayCache → NonceReplayCache
serve [] c = c
serve ((now, key) ∷ calls) c = serve calls (check_and_mark now key c).0

-- The time of the last call.
abbrev pub last_time : ℕ → List Call → ℕ
last_time t [] = t
last_time t ((now, _) ∷ calls) = last_time now calls

last_time-le : (t : ℕ) (calls : List Call) → Ordered t calls → t ≤ last_time t calls
last_time-le t [] o = omega arith
last_time-le t ((now, key) ∷ calls) (le, o) = omega (arith, last_time-le now calls o)

-- An entry survives a call that comes before its expiry.
entry_kept :
    (now : ℕ) (other key : Text) (c : NonceReplayCache) {exp : ℤ}
    → length c.entries ≤ c.max_entries
    → Distinct c.entries
    → lookup key c.entries ≡ some exp
    → leb_ℤ exp (pos now) ≡ false
    → lookup key (check_and_mark now other c).0.entries ≡ some exp
unfolding check_and_mark
entry_kept now other key c {exp} room d found ahead = ground (
  arith,
  cleaned now other c room,
  lookup-expire now key c.entries d,
  lookup-expire now other c.entries d,
  lookup-set other key (expiry c.ttl_sec now) (expire now c.entries),
  text_eq_iff other key,
)

Agrees-self :
    (t : ℕ) (c : NonceReplayCache) → Distinct c.entries → Agrees t c (λ j. lookup j c.entries)
Agrees-self t c d = record { distinct = d; same = λ j later h. refl }

-- The cache holds the key until `exp`, and has room for `more` calls.
record Holds (key : Text) (exp : ℤ) (more : ℕ) (c : NonceReplayCache) : Type 0 where
  distinct : Distinct c.entries
  found : lookup key c.entries ≡ some exp
  room : length c.entries + more ≤ c.max_entries

step-Holds :
    (now : ℕ) (other key : Text) (exp : ℤ) (more : ℕ) (c : NonceReplayCache)
    → Holds key exp (more + 1) c
    → leb_ℤ exp (pos now) ≡ false
    → Holds key exp more (check_and_mark now other c).0
step-Holds now other key exp more c h ahead =
    let fits : length c.entries ≤ c.max_entries = omega arith in
    let a = Agrees-self now c h.distinct in
    let self : now ≤ now = omega arith in
    record {
      distinct = after-Distinct now other c fits self a;
      found = entry_kept now other key c fits h.distinct h.found ahead;
      room =
          omega
            (arith, length-after now other c fits self a, (check_and_mark-ttl_sec now other c).1);
    }

serve-Holds :
    (calls : List Call) (t : ℕ) (key : Text) (exp : ℤ) (c : NonceReplayCache)
    → Holds key exp (length calls) c
    → Ordered t calls
    → leb_ℤ exp (pos (last_time t calls)) ≡ false
    → Holds key exp 0 (serve calls c)
unfolding serve
serve-Holds [] t key exp c h o ahead = h
serve-Holds ((now, other) ∷ calls) t key exp c h (le, o) ahead =
    let before : leb_ℤ exp (pos now) ≡ false = ground (arith, last_time-le now calls o) in
    serve-Holds calls now key exp (check_and_mark now other c).0
      (step-Holds now other key exp (length calls) c
        (record { distinct = h.distinct; found = h.found; room = omega (arith, h.room) }) before)
      o ahead

held_refused :
    (later : ℕ) (key : Text) (exp : ℤ) (c : NonceReplayCache)
    → Holds key exp 0 c
    → leb_ℤ exp (pos later) ≡ false
    → (check_and_mark later key c).1 ≡ false
unfolding check_and_mark
held_refused later key exp c h ahead =
    let fits : length c.entries ≤ c.max_entries = omega arith in
    ground (arith, cleaned later key c fits, lookup-expire later key c.entries h.distinct, h.found)

accepted_entry :
    (now : ℕ) (key : Text) (c : NonceReplayCache)
    → Distinct c.entries
    → length c.entries < c.max_entries
    → (check_and_mark now key c).1 ≡ true
    → lookup key (check_and_mark now key c).0.entries ≡ some (expiry c.ttl_sec now)
unfolding check_and_mark
accepted_entry now key c d room e =
    ground
      (arith, lookup-set key key (expiry c.ttl_sec now) (cleanup now c).entries, text_eq_refl key)

-- A nonce accepted at `now` is refused at `later`, before its expiry, whatever other calls come in
-- between in the order of time, while the cache has room for all of them.
pub check_and_mark-serve :
    (now later : ℕ) (key : Text) (calls : List Call) (c : NonceReplayCache)
    → Distinct c.entries
    → length c.entries + 1 + length calls ≤ c.max_entries
    → (check_and_mark now key c).1 ≡ true
    → Ordered now calls
    → last_time now calls ≤ later
    → leb_ℤ (expiry c.ttl_sec now) (pos later) ≡ false
    → (check_and_mark later key (serve calls (check_and_mark now key c).0)).1 ≡ false
check_and_mark-serve now later key calls c d room accepted o end ahead =
    let exp = expiry c.ttl_sec now in
    let fits : length c.entries ≤ c.max_entries = omega arith in
    let a = Agrees-self now c d in
    let self : now ≤ now = omega arith in
    let c' = (check_and_mark now key c).0 in
    let early : leb_ℤ exp (pos (last_time now calls)) ≡ false = ground arith in
    held_refused later key exp (serve calls c')
      (serve-Holds calls now key exp c'
        (record {
          distinct = after-Distinct now key c fits self a;
          found = accepted_entry now key c d (omega arith) accepted;
          room =
              omega
                (arith, length-after now key c fits self a, (check_and_mark-ttl_sec now key c).1);
        })
        o early)
      ahead
