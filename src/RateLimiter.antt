-- ===== src/RateLimiter.antt =====
-- homelink/core/rate_limiter.py: the per-key sliding window. A point in time is a number of
-- ticks of the monotonic clock, so `t < now - window` is written `t + window < now`.
pub mod Window
pub mod Refinement
pub mod Remaining
use homelink.Common.{
  ℕ, ◌+◌, ◌-◌, String, Bool, true, false, Option, none, some, List, [], ◌∷◌, ◌++◌, ltb, leb,
  if◌then◌else◌, length,
}
use homelink.Common.Dict
use homelink.Common.Dict.{Dict}

pub record RateLimiter : Type 0 where
  pub max_calls : ℕ
  pub window : ℕ
  pub buckets : Dict (List ℕ)

abbrev pub new : ℕ → ℕ → RateLimiter
new max_calls window = record { max_calls = max_calls; window = window; buckets = [] }

-- `while bucket and bucket[0] < cutoff: bucket.popleft()`
unfoldable pub expire : ℕ → ℕ → List ℕ → List ℕ
expire window now [] = []
expire window now (t ∷ bucket) =
    let rest = expire window now bucket in if ltb (t + window) now then rest else t ∷ bucket

abbrev or_empty : Option (List ℕ) → List ℕ
or_empty none = []
or_empty (some bucket) = bucket

-- `self._buckets[key]`, of a `defaultdict(deque)`.
abbrev pub bucket : RateLimiter → String → List ℕ
bucket l key = or_empty (Dict.lookup key l.buckets)

unfoldable pub put_bucket : RateLimiter → String → List ℕ → RateLimiter
put_bucket l key b = record l { buckets = Dict.insert key b l.buckets }

-- The answer, and the limiter afterwards. The expired calls are gone on both branches.
unfoldable pub is_allowed : RateLimiter → String → ℕ → Bool × RateLimiter
unfolding expire put_bucket
is_allowed l key now =
    let live = expire l.window now (bucket l key) in
    if leb l.max_calls (length live)
    then (false, put_bucket l key live)
    else (true, put_bucket l key (live ++ now ∷ []))

-- `max(0, self._max - len(bucket))`: subtraction of numbers stops at 0.
unfoldable pub remaining : RateLimiter → String → ℕ → ℕ × RateLimiter
unfolding expire put_bucket
remaining l key now =
    let live = expire l.window now (bucket l key) in
    (l.max_calls - length live, put_bucket l key live)

-- The shared limiters, at one tick to the millisecond.
abbrev pub exec_limiter : RateLimiter
exec_limiter = new 10 60_000

abbrev pub offer_limiter : RateLimiter
offer_limiter = new 5 60_000

abbrev pub pair_limiter : RateLimiter
pair_limiter = new 3 300_000

abbrev pub msg_limiter : RateLimiter
msg_limiter = new 60 60_000
