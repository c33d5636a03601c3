-- ===== src/Security.antt =====
-- connector/security.py: digests, the canonical string and its signature, and the cache of nonces.
-- The clock is read in microseconds, so `float` times and their sums are exact integers.
pub mod Canonical
pub mod Cleanup
pub mod Replay
pub mod Window
pub mod Survival
pub mod Calls
pub mod Sorting
pub mod Overflow
use sgraph_omega_connector.Base.{
  ℕ, zero, suc, ◌+◌, ◌-◌, ◌*◌, Bool, true, false, List, [], ◌∷◌, map, Option, some, none, length,
  take, leb, if◌then◌else◌,
}
use sgraph_omega_connector.Base.Int.{ℤ, pos, negsuc, ◌+ℤ◌, leb_ℤ}
use sgraph_omega_connector.Text.{Text, Unicode, codes, strip, upper, join}
use sgraph_omega_connector.Codec.{Crypto}
use sgraph_omega_connector.Codec.Utf8.{encode}
use sgraph_omega_connector.Codec.Hex.{hex}
use sgraph_omega_connector.Codec.Base64.{b64url_encode}
use sgraph_omega_connector.Dict.{lookup, set, pop, is_none}

unfoldable pub sha256_hex : Crypto → List ℕ → Text
sha256_hex k bytes = hex (k.sha256 bytes)

-- The arguments of `build_canonical_string`.
pub record CanonicalFields : Type 0 where
  pub method : Text
  pub path : Text
  pub body_sha256_hex : Text
  pub tenant_id : Text
  pub request_id : Text
  pub timestamp : Text
  pub nonce : Text

unfoldable pub canonical_parts : Unicode → CanonicalFields → List Text
canonical_parts u c =
    strip (upper u c.method)
    ∷ strip c.path
    ∷ strip c.body_sha256_hex
    ∷ strip c.tenant_id
    ∷ strip c.request_id
    ∷ strip c.timestamp
    ∷ strip c.nonce
    ∷ []

unfoldable pub build_canonical_string : Unicode → CanonicalFields → Text
unfolding canonical_parts
build_canonical_string u c = join b'\n' (canonical_parts u c)

unfoldable pub sign_canonical : Crypto → Text → Text → Text
sign_canonical k canonical secret = b64url_encode (k.hmac_sha256 (encode secret) (encode canonical))

abbrev pub Entries : Type 0
Entries = List (Text × ℤ)

pub record NonceReplayCache : Type 0 where
  pub ttl_sec : ℤ
  pub max_entries : ℕ
  pub entries : Entries

-- Clock ticks in a second.
abbrev pub ticks_per_sec : ℕ
ticks_per_sec = 1000000

-- `float(seconds)`, in ticks
abbrev pub ticks : ℤ → ℤ
ticks (pos n) = pos (n * ticks_per_sec)
ticks (negsuc n) = negsuc (suc n * ticks_per_sec - 1)

-- `now_ts + float(self.ttl_sec)`
unfoldable pub expiry : ℤ → ℕ → ℤ
expiry ttl_sec now = pos now +ℤ ticks ttl_sec

-- `[k for k, exp in self._entries.items() if exp <= now_ts]`
unfoldable pub expired_keys : ℕ → Entries → List Text
expired_keys now [] = []
expired_keys now ((k, exp) ∷ m) =
    let rest = expired_keys now m in if leb_ℤ exp (pos now) then k ∷ rest else rest

-- `for key in keys: self._entries.pop(key, None)`
unfoldable pub pop_keys : List Text → Entries → Entries
pop_keys [] m = m
pop_keys (k ∷ ks) m = pop_keys ks (pop k m)

-- `sorted(items, key=lambda x: x[1])`, which is stable
unfoldable pub insert_sorted : Text × ℤ → Entries → Entries
insert_sorted e [] = e ∷ []
insert_sorted (k, exp) ((j, other) ∷ m) =
    let rest = insert_sorted (k, exp) m in
    if leb_ℤ exp other then (k, exp) ∷ (j, other) ∷ m else (j, other) ∷ rest

unfoldable pub sort_by_expiry : Entries → Entries
unfolding insert_sorted
sort_by_expiry [] = []
sort_by_expiry (e ∷ m) = insert_sorted e (sort_by_expiry m)

abbrev pub keys : Entries → List Text
keys = map (λ e. e.0)

-- The second half of `_cleanup`.
unfoldable pub shed : ℕ → Entries → Entries
unfolding pop_keys sort_by_expiry
shed max_entries m =
    if leb (length m) max_entries
    then m
    else pop_keys (keys (take (length m - max_entries) (sort_by_expiry m))) m

-- The first half of `_cleanup`.
unfoldable pub expire : ℕ → Entries → Entries
unfolding expired_keys pop_keys
expire now m = pop_keys (expired_keys now m) m

unfoldable pub cleanup : ℕ → NonceReplayCache → NonceReplayCache
unfolding shed expire
cleanup now c = record c { entries = shed c.max_entries (expire now c.entries) }

-- Returns the cache and the result; `now` is the reading of `time.time()`.
unfoldable pub check_and_mark : ℕ → Text → NonceReplayCache → NonceReplayCache × Bool
unfolding cleanup expiry
check_and_mark now key c =
    let cleaned = cleanup now c in
    if is_none (lookup key cleaned.entries)
    then (record cleaned { entries = set key (expiry c.ttl_sec now) cleaned.entries }, true)
    else (cleaned, false)
