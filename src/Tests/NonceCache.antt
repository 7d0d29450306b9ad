-- ===== src/Tests/NonceCache.antt =====
-- Runs of the cache of homelink/crypto/nonce_cache.py.
use homelink.Common.Dict
use homelink.Common.{◌≤◌, ◌≡◌, refl, List, [], ◌∷◌, arith, eq_iff, length}
use homelink.Common.Exc.{ok, raise, value_error}
use homelink.NonceCache.{NonceCache, new, check_and_add}
use homelink.NonceCache.Replay.{Arrival, run, check_and_add-replay}
use homelink.NonceCache.Fresh.{check_and_add_fresh}

abbrev once : NonceCache
once = record new { cache = ("n1", 5) ∷ [] }

accepted : check_and_add new "n1" 5 ≡ ok once
unfolding check_and_add Dict.has_key Dict.insert
accepted = refl

abbrev arrivals : List Arrival
arrivals = ("n2", 6) ∷ ("n1", 7) ∷ ("n3", 9) ∷ []

check_and_add-replay_example : check_and_add (run once arrivals) "n1" 100 ≡ raise value_error
check_and_add-replay_example =
    check_and_add-replay new once "n1" 5 100 arrivals accepted (omega arith) (omega arith)

abbrev others : List Arrival
others = ("n2", 6) ∷ ("n3", 7) ∷ []

check_and_add_fresh_example :
    (c' : NonceCache) × (check_and_add (run new others) "n1" 9 ≡ ok c') × (length c'.cache ≤ 10_000)
check_and_add_fresh_example =
    check_and_add_fresh new "n1" 9 others refl (omega arith)
      (ground (arith, eq_iff "n2" "n1"), (ground (arith, eq_iff "n3" "n1"), tt))
