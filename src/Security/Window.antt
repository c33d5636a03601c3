-- ===== src/Security/Window.antt =====
-- The cache against a window of time: when was a nonce last accepted?
use sgraph_omega_connector.Base.{
  ℕ, ◌+◌, ◌*◌, ◌≤◌, Bool, true, false, not, List, [], ◌∷◌, Option, some, none, ◌≡◌, refl, ◌∙◌, ap,
  inl, inr, Bool-cases, length, ltb, if◌then◌else◌, arith,
}
use sgraph_omega_connector.Base.Int.{ℤ, pos, ◌+ℤ◌}
use sgraph_omega_connector.Text.{Text, text_eq}
use sgraph_omega_connector.Dict.{lookup, is_none}
use sgraph_omega_connector.Security.{NonceReplayCache, ticks_per_sec, expiry}
use sgraph_omega_connector.Security.Cleanup.{live}
use sgraph_omega_connector.Security.Replay.{
  Seen, Call, Agrees, Ordered, run_cache, run_seen, run_cache-eq-run_seen,
}

-- When each nonce was last accepted.
abbrev pub Times : Type 0
Times = Text → Option ℕ

-- The time lies less than `n` seconds back.
abbrev pub within : ℕ → ℕ → Option ℕ → Bool
within n now none = false
within n now (some t) = ltb now (t + n * ticks_per_sec)

abbrev window_step : ℕ → ℕ → Text → Times → Times × Bool
window_step n now key w =
    if within n now (w key)
    then (w, false)
    else ((λ j. if text_eq key j then some now else w j), true)

-- The ideal check: a nonce is accepted unless it was accepted less than `n` seconds before.
pub run_window : ℕ → List Call → Times → List Bool
run_window n [] w = []
run_window n ((now, key) ∷ calls) w =
    let (w', fresh) = window_step n now key w in fresh ∷ run_window n calls w'

module _ (n : ℕ) where
  end_of : Option ℕ → Option ℤ
  end_of none = none
  end_of (some t) = some (expiry (pos n) t)

  live-end_of : (now : ℕ) (o : Option ℕ) → is_none (live now (end_of o)) ≡ not (within n now o)
  unfolding end_of expiry ◌+ℤ◌
  live-end_of now none = refl
  live-end_of now (some t) = ground arith

  end_of-if :
      (b : Bool) (now : ℕ) (o : Option ℕ)
      → (if b then some (expiry (pos n) now) else end_of o) ≡ end_of (if b then some now else o)
  unfolding end_of
  end_of-if true now o = refl
  end_of-if false now o = refl

  run_seen-eq-run_window :
      (calls : List Call) (s : Seen) (w : Times)
      → ((j : Text) → s j ≡ end_of (w j))
      → run_seen (pos n) calls s ≡ run_window n calls w
  unfolding run_seen run_window
  run_seen-eq-run_window [] s w same = refl
  run_seen-eq-run_window ((now, key) ∷ calls) s w same =
      let fresh : is_none (live now (s key)) ≡ not (within n now (w key)) =
        ap (λ o. is_none (live now o)) (same key) ∙ live-end_of now (w key) in
      elim (Bool-cases (within n now (w key))) [
        | inl seen ↦
            let old : is_none (live now (s key)) ≡ false = fresh ∙ ap not seen in
            rw (seen, old) (ap (λ r. false ∷ r) (run_seen-eq-run_window calls s w same))
        | inr unseen ↦
            let new : is_none (live now (s key)) ≡ true = fresh ∙ ap not unseen in
            rw (unseen, new)
              (ap (λ r. true ∷ r)
                (run_seen-eq-run_window calls
                  (λ j. if text_eq key j then some (expiry (pos n) now) else s j)
                  (λ j. if text_eq key j then some now else w j)
                  (λ j.
                    ap (λ o. if text_eq key j then some (expiry (pos n) now) else o) (same j)
                    ∙ end_of-if (text_eq key j) now (w j))))
      ]

empty-Agrees : (c : NonceReplayCache) → c.entries ≡ [] → Agrees 0 c (λ j. none)
unfolding lookup
empty-Agrees c e = record {
  distinct = rw e tt;
  same = λ j later h. ap (λ m. live later (lookup j m)) e;
}

-- A cache that is empty at first, and has room for a nonce of each call, accepts a nonce exactly when it
-- was not accepted less than `ttl_sec` seconds before, on calls in the order of time. (`ttl_sec` is
-- not negative.)
pub run_cache-eq-run_window :
    (n : ℕ) (calls : List Call) (c : NonceReplayCache)
    → c.entries ≡ []
    → c.ttl_sec ≡ pos n
    → Ordered 0 calls
    → length calls ≤ c.max_entries
    → run_cache calls c ≡ run_window n calls (λ j. none)
unfolding end_of
run_cache-eq-run_window n calls c empty ttl ordered room =
    run_cache-eq-run_seen calls (empty-Agrees c empty) ordered
      (omega (arith, ap length empty, room))
    ∙ ap (λ t. run_seen t calls (λ j. none)) ttl
    ∙ run_seen-eq-run_window n calls (λ j. none) (λ j. none) (λ j. refl)
