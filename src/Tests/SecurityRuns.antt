-- ===== src/Tests/SecurityRuns.antt =====
-- Runs of the canonical string, the encoding and the replay cache.
use sgraph_omega_connector.Base.{◌+◌, ◌≤◌, List, [], ◌∷◌, none, length, All, ◌≡◌, refl, arith}
use sgraph_omega_connector.Base.Int.{pos}
use sgraph_omega_connector.Text.{
  codes, text_eq, split, strip, lstrip_by, rstrip_by, is_space, upper, ascii_upper,
}
use sgraph_omega_connector.Dict.{lookup, Distinct}
use sgraph_omega_connector.Security.{
  Entries, NonceReplayCache, CanonicalFields, build_canonical_string, check_and_mark,
}
use sgraph_omega_connector.Security.Canonical.{Free, signed_texts, split-build_canonical_string}
use sgraph_omega_connector.Security.Replay.{Call, run_cache}
use sgraph_omega_connector.Security.Window.{run_window, run_cache-eq-run_window}
use sgraph_omega_connector.Security.Overflow.{check_and_mark_bounds}
use sgraph_omega_connector.Tests.Data.{unicode, cache, now, later}

abbrev two : Entries
two = (codes "a", pos 9000000) ∷ (codes "b", pos 8000000) ∷ []

two-Distinct : Distinct two
unfolding lookup text_eq
two-Distinct = (refl, (refl, tt))

abbrev full : NonceReplayCache
full = record { ttl_sec = pos 600; max_entries = 2; entries = two }

check_and_mark_bounds_example :
    Distinct (check_and_mark now (codes "c") full).0.entries
    × (length (check_and_mark now (codes "c") full).0.entries ≤ 3)
check_and_mark_bounds_example = check_and_mark_bounds now (codes "c") full two-Distinct

abbrev calls : List Call
calls = (now, codes "n") ∷ (later, codes "n") ∷ (later + 600000000, codes "n") ∷ []

run_cache-eq-run_window_example : run_cache calls cache ≡ run_window 600 calls (λ j. none)
run_cache-eq-run_window_example =
    run_cache-eq-run_window 600 calls cache refl refl
      (omega arith, (omega arith, (omega arith, tt))) (omega arith)

abbrev fields : CanonicalFields
fields = record {
  method = codes "post";
  path = codes " /v";
  body_sha256_hex = codes "0a";
  tenant_id = codes "t ";
  request_id = [];
  timestamp = codes "7";
  nonce = codes "n";
}

fields-Free : All (Free b'\n') (signed_texts unicode fields)
unfolding strip lstrip_by rstrip_by is_space upper ascii_upper
fields-Free = ground arith

split-build_canonical_string_example :
    split b'\n' (build_canonical_string unicode fields) ≡ signed_texts unicode fields
split-build_canonical_string_example = split-build_canonical_string unicode fields fields-Free
