-- ===== src/NonceCache.antt =====
-- homelink/crypto/nonce_cache.py: nonces in the order of their arrival, with the tick at which
-- each arrived. `ts >= now - ttl` is written `now <= ts + ttl`.
pub mod Fresh
pub mod Replay
use homelink.Common.{ℕ, ◌+◌, String, [], ◌∷◌, leb, if◌then◌else◌, length}
use homelink.Common.Dict
use homelink.Common.Dict.{Dict}
use homelink.Common.Exc.{Result, ok, raise, value_error, key_error, raise_if, ◌>>=◌, ◌>>◌}

pub record NonceCache : Type 0 where
  pub cache : Dict ℕ
  pub max_size : ℕ
  pub ttl : ℕ

-- `NonceCache()`, at one tick to the millisecond.
abbrev pub new : NonceCache
new = record { cache = []; max_size = 10_000; ttl = 120_000 }

-- `while self._cache: ... popitem(last=False)`, until the oldest entry is not expired.
unfoldable pub evict_expired : ℕ → ℕ → Dict ℕ → Dict ℕ
evict_expired ttl now [] = []
evict_expired ttl now ((nonce, ts) ∷ cache) =
    let rest = evict_expired ttl now cache in
    if leb now (ts + ttl) then (nonce, ts) ∷ cache else rest

-- `while len(self._cache) >= self._max: popitem(last=False)`. `popitem` of an empty cache
-- raises, which only a cache of size 0 can meet.
unfoldable pub evict_full : ℕ → Dict ℕ → Result (Dict ℕ)
evict_full max_size [] = if leb max_size 0 then raise key_error else ok []
evict_full max_size ((nonce, ts) ∷ cache) =
    let rest = evict_full max_size cache in
    if leb max_size (length ((nonce, ts) ∷ cache)) then rest else ok ((nonce, ts) ∷ cache)

-- The new cache. A replay raises before anything is changed.
unfoldable pub check_and_add : NonceCache → String → ℕ → Result NonceCache
unfolding evict_expired evict_full
check_and_add c nonce now = do
  raise_if (Dict.has_key nonce c.cache) value_error
  kept ← evict_full c.max_size (evict_expired c.ttl now c.cache)
  ok (record c { cache = Dict.insert nonce now kept })
