-- ===== src/Security/Calls.antt =====
-- Runs of calls of `check_and_mark`, in the order of time.
use sgraph_omega_connector.Base.{
  ℕ, ◌+◌, ◌≤◌, List, [], ◌∷◌, ◌++◌, length, length-append, ◌≡◌, refl, sym, ap, ◌∙◌, ◌⊎◌, inl, inr,
  arith,
}
use sgraph_omega_connector.Text.{Text}
use sgraph_omega_connector.Security.{NonceReplayCache, check_and_mark}
use sgraph_omega_connector.Security.Replay.{Call, Ordered}
use sgraph_omega_connector.Security.Survival.{last_time, serve}

serve-append :
    (calls : List Call) (now : ℕ) (key : Text) (c : NonceReplayCache)
    → serve (calls ++ (now, key) ∷ []) c ≡ (check_and_mark now key (serve calls c)).0
unfolding serve
serve-append [] now key c = refl
serve-append ((t, other) ∷ calls) now key c =
    serve-append calls now key (check_and_mark t other c).0

Ordered-append :
    (t : ℕ) (calls : List Call) (now : ℕ) (key : Text)
    → Ordered t calls
    → last_time t calls ≤ now
    → Ordered t (calls ++ (now, key) ∷ []) × (last_time t (calls ++ (now, key) ∷ []) ≡ now)
Ordered-append t [] now key o h = ((h, tt), refl)
Ordered-append t ((now', other) ∷ calls) now key (le, o) h =
    let (o', same) = Ordered-append now' calls now key o h in ((le, o'), same)

-- The cache is as it was, or one key has been looked up at `t`.
abbrev pub Looks : ℕ → NonceReplayCache → NonceReplayCache → Type 0
Looks t c c' = (c' ≡ c) ⊎ ((key : Text) × (c' ≡ (check_and_mark t key c).0))

-- The cache `c` becomes `c'` between `t` and `t'` by at most `n` calls in the order of time.
pub record Called (t t' n : ℕ) (c c' : NonceReplayCache) : Type 0 where
  pub calls : List Call
  pub ordered : Ordered t calls
  pub ended : last_time t calls ≤ t'
  pub few : length calls ≤ n
  pub result : c' ≡ serve calls c

pub Called-look :
    (t t' now n : ℕ) (c c' c'' : NonceReplayCache)
    → Called t t' n c c'
    → t' ≤ now
    → Looks now c' c''
    → Called t now (n + 1) c c''
Called-look t t' now n c c' c'' h le (inl same) = record {
  calls = h.calls;
  ordered = h.ordered;
  ended = omega (arith, h.ended);
  few = omega (arith, h.few);
  result = same ∙ h.result;
}
Called-look t t' now n c c' c'' h le (inr (key, looked)) =
    let (o, e) = Ordered-append t h.calls now key h.ordered (omega (arith, h.ended)) in
    record {
      calls = h.calls ++ (now, key) ∷ [];
      ordered = o;
      ended = omega (arith, e);
      few = omega (arith, h.few, length-append h.calls ((now, key) ∷ []));
      result =
          looked
          ∙ ap (λ x. (check_and_mark now key x).0) h.result
          ∙ sym (serve-append h.calls now key c);
    }

pub Called-none : (t : ℕ) (c : NonceReplayCache) → Called t t 0 c c
unfolding serve
Called-none t c = record {
  calls = [];
  ordered = tt;
  ended = omega arith;
  few = omega arith;
  result = refl;
}
