-- ===== src/RateLimiter/Remaining.antt =====
-- `remaining` of homelink/core/rate_limiter.py, against the calls that `is_allowed` then grants.
use homelink.Common.{
  ℕ, zero, suc, ◌+◌, ◌-◌, min, String, ◌≡◌, refl, ap, inl, inr, List, [], ◌∷◌, ◌++◌, arith, eq_refl,
  leb, if◌then◌else◌, leb→le, leb-false, Bool-cases, length, length-append,
}
use homelink.RateLimiter.{RateLimiter, expire, bucket, put_bucket, is_allowed, remaining}
use homelink.RateLimiter.Refinement.{bucket-put_bucket}

-- How many of `n` calls at one moment are granted.
unfoldable pub grants : RateLimiter → String → ℕ → ℕ → ℕ
grants l key now zero = 0
grants l key now (suc n) =
    let (answer, l') = is_allowed l key now in (if answer then 1 else 0) + grants l' key now n

expire-expire : (w now : ℕ) (b : List ℕ) → expire w now (expire w now b) ≡ expire w now b
unfolding expire
expire-expire w now [] = refl
expire-expire w now (t ∷ b) = ground (arith, expire-expire w now b)

-- A call made now does not expire now.
expire-snoc : (w now : ℕ) (b : List ℕ) → expire w now (b ++ now ∷ []) ≡ expire w now b ++ now ∷ []
unfolding expire
expire-snoc w now [] = ground arith
expire-snoc w now (t ∷ b) = ground (arith, expire-snoc w now b)

bucket-put_bucket_self :
    (l : RateLimiter) (key : String) (b : List ℕ) → bucket (put_bucket l key b) key ≡ b
bucket-put_bucket_self l key b = rw (bucket-put_bucket l key key b, eq_refl key)

abbrev room : RateLimiter → String → ℕ → ℕ
room l key now = l.max_calls - length (expire l.window now (bucket l key))

grants-room :
    (n : ℕ) (l : RateLimiter) (key : String) (now : ℕ) → grants l key now n ≡ min n (room l key now)
unfolding grants is_allowed
grants-room zero l key now = omega arith
grants-room (suc n) l key now = elim (Bool-cases (leb l.max_calls (length live))) [
  | inl full ↦
      rw (full, grants-room n (put_bucket l key live) key now, stays live, expire-expire)
        (omega (arith, leb→le _ _ full))
  | inr free ↦
      rw
        (
          free,
          grants-room n (put_bucket l key (live ++ now ∷ [])) key now,
          stays (live ++ now ∷ []),
          expire-snoc,
          expire-expire,
          length-append,
        )
        (omega (arith, leb-false _ _ free))
]
  where
    live : List ℕ
    live = expire l.window now (bucket l key)

    stays :
        (b : List ℕ)
        → room (put_bucket l key b) key now ≡ l.max_calls - length (expire l.window now b)
    stays b =
        ap (λ c. l.max_calls - length (expire l.window now c)) (bucket-put_bucket_self l key b)

-- Of any number of calls made at one moment for one key, as many are granted as `remaining` says,
-- and no more.
pub grants-remaining :
    (n : ℕ) (l : RateLimiter) (key : String) (now : ℕ)
    → grants l key now n ≡ min n (remaining l key now).0
unfolding remaining
grants-remaining n l key now = grants-room n l key now
