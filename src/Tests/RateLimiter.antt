-- ===== src/Tests/RateLimiter.antt =====
-- Runs of the limiter of homelink/core/rate_limiter.py.
use homelink.Common.Dict
use homelink.Common.{◌≡◌, refl, true, false, List, [], ◌∷◌, arith}
use homelink.RateLimiter.{new, is_allowed}
use homelink.RateLimiter.Refinement.{Call, answers, promised, answers-new}

abbrev calls : List Call
calls = ("a", 0) ∷ ("a", 10) ∷ ("b", 10) ∷ ("a", 20) ∷ ("a", 61) ∷ []

-- Two calls a minute: the third call of `a` is refused, the fourth comes when the first is old.
answers_run : answers (new 2 60) calls ≡ true ∷ true ∷ true ∷ false ∷ true ∷ []
unfolding answers is_allowed Dict.lookup Dict.insert
answers_run = refl

answers-new_example : answers (new 2 60) calls ≡ promised 2 60 (λ _. []) calls
answers-new_example = answers-new 2 60 calls (omega arith)
