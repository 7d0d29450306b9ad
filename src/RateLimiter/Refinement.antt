-- ===== src/RateLimiter/Refinement.antt =====
-- The limiter of homelink/core/rate_limiter.py beside the log of granted calls, of every key.
use homelink.RateLimiter.{new, RateLimiter, expire, bucket, put_bucket, is_allowed}
use homelink.Common.{
  ℕ, ◌≤◌, String, ◌≡◌, refl, ap, ◌∙◌, ◌⊎◌, inl, inr, Bool, true, false, List, [], ◌∷◌, ◌++◌, arith,
  str_eq, eq_iff, ltb, leb, if◌then◌else◌, Bool-cases, length,
}
use homelink.Common.Dict
use homelink.RateLimiter.Window.{
  recent, Ascends, Ascends-upper, Ascends-snoc, expire-eq-recent, recent-append, recent-recent,
  expire-Ascends,
}

-- The granted calls of each key, all of them.
abbrev pub Log : Type 0
Log = String → List ℕ

abbrev pub grant : Log → String → ℕ → Log
grant log key now j = if str_eq key j then log j ++ now ∷ [] else log j

-- What the limiter promises: a call is granted when fewer than `max_calls` granted calls of
-- its key are recent.
abbrev pub may_call : ℕ → ℕ → Log → String → ℕ → Bool
may_call max_calls window log key now = ltb (length (recent window now (log key))) max_calls

abbrev pub Call : Type 0
Call = String × ℕ

unfoldable pub answers : RateLimiter → List Call → List Bool
answers l [] = []
answers l ((key, now) ∷ calls) =
    let (answer, l') = is_allowed l key now in answer ∷ answers l' calls

unfoldable pub promised : ℕ → ℕ → Log → List Call → List Bool
promised max_calls window log [] = []
promised max_calls window log ((key, now) ∷ calls) =
    let answer = may_call max_calls window log key now in
    answer ∷ promised max_calls window (if answer then grant log key now else log) calls

abbrev pub InOrder : ℕ → List Call → Type 0
InOrder now [] = Unit
InOrder now ((key, t) ∷ calls) = (now ≤ t) × InOrder t calls

-- The bucket of a key shows the log of the key, up to calls that are no longer recent.
pub record Shows (w now : ℕ) (b log : List ℕ) : Type 0 where
  pub sorted : Ascends 0 b now
  pub same : (later : ℕ) → now ≤ later → recent w later b ≡ recent w later log

Shows-later :
    (w now later : ℕ) (b log : List ℕ) → now ≤ later → Shows w now b log → Shows w later b log
Shows-later w now later b log le s = record {
  sorted = Ascends-upper 0 now later b le s.sorted;
  same = λ n h. s.same n (omega arith);
}

Shows-expire : (w now : ℕ) (b log : List ℕ) → Shows w now b log → expire w now b ≡ recent w now log
Shows-expire w now b log s = expire-eq-recent w now 0 now b s.sorted ∙ s.same now (omega arith)

expire-Shows : (w now : ℕ) (b log : List ℕ) → Shows w now b log → Shows w now (expire w now b) log
expire-Shows w now b log s = record {
  sorted = expire-Ascends w now 0 now b s.sorted;
  same = λ later h. rw (Shows-expire w now b log s) (recent-recent w now later log h);
}

snoc-Shows :
    (w now : ℕ) (b log : List ℕ) → Shows w now b log → Shows w now (b ++ now ∷ []) (log ++ now ∷ [])
snoc-Shows w now b log s = record {
  sorted = Ascends-snoc 0 now b s.sorted;
  same = λ later h.
      rw (recent-append w later b, recent-append w later log)
        (ap (λ l. l ++ recent w later (now ∷ [])) (s.same later h));
}

pub record Refines (max_calls w now : ℕ) (l : RateLimiter) (log : Log) : Type 0 where
  pub max_same : l.max_calls ≡ max_calls
  pub window_same : l.window ≡ w
  pub shows : (key : String) → Shows w now (bucket l key) (log key)

pub bucket-put_bucket :
    (l : RateLimiter) (key j : String) (b : List ℕ)
    → bucket (put_bucket l key b) j ≡ (if str_eq key j then b else bucket l j)
unfolding put_bucket
bucket-put_bucket l key j b = rw Dict.lookup-insert (ground arith)

module _ (max_calls w now : ℕ) (l : RateLimiter) (log : Log) (key : String) where
  abbrev live : List ℕ
  live = expire l.window now (bucket l key)

  refused : Refines max_calls w now l log → Refines max_calls w now (put_bucket l key live) log
  unfolding put_bucket
  refused r = record {
    max_same = r.max_same;
    window_same = r.window_same;
    shows = λ j. shows_at j (Bool-cases (str_eq key j));
  }
    where
      shows_at :
          (j : String)
          → ((str_eq key j ≡ true) ⊎ (str_eq key j ≡ false))
          → Shows w now (bucket (put_bucket l key live) j) (log j)
      shows_at j (inl e) =
          rw (bucket-put_bucket l key j live, e, r.window_same, ← (eq_iff key j).0 e)
            (expire-Shows w now (bucket l key) (log key) (r.shows key))
      shows_at j (inr e) = rw (bucket-put_bucket l key j live, e) (r.shows j)

  granted :
      Refines max_calls w now l log
      → Refines max_calls w now (put_bucket l key (live ++ now ∷ [])) (grant log key now)
  unfolding put_bucket
  granted r = record {
    max_same = r.max_same;
    window_same = r.window_same;
    shows = λ j. shows_at j (Bool-cases (str_eq key j));
  }
    where
      shows_at :
          (j : String)
          → ((str_eq key j ≡ true) ⊎ (str_eq key j ≡ false))
          → Shows w now (bucket (put_bucket l key (live ++ now ∷ [])) j) (grant log key now j)
      shows_at j (inl e) =
          rw (bucket-put_bucket l key j (live ++ now ∷ []), e, r.window_same, ← (eq_iff key j).0 e)
            (snoc-Shows w now _ (log key)
              (expire-Shows w now (bucket l key) (log key) (r.shows key)))
      shows_at j (inr e) = rw (bucket-put_bucket l key j (live ++ now ∷ []), e) (r.shows j)

  is_allowed-may_call :
      Refines max_calls w now l log → (is_allowed l key now).0 ≡ may_call max_calls w log key now
  unfolding is_allowed
  is_allowed-may_call r =
      rw (r.max_same, r.window_same, Shows-expire w now (bucket l key) (log key) (r.shows key))
        (ground arith)

  is_allowed-Refines :
      Refines max_calls w now l log
      → Refines max_calls w now
          (is_allowed l key now).1
          (if (is_allowed l key now).0 then grant log key now else log)
  unfolding is_allowed
  is_allowed-Refines r = elim (Bool-cases (leb l.max_calls (length live))) [
    | inl full ↦ rw full (refused r)
    | inr room ↦ rw room (granted r)
  ]

Refines-later :
    (max_calls w now later : ℕ) (l : RateLimiter) (log : Log)
    → now ≤ later
    → Refines max_calls w now l log
    → Refines max_calls w later l log
Refines-later max_calls w now later l log le r = record {
  max_same = r.max_same;
  window_same = r.window_same;
  shows = λ j. Shows-later w now later (bucket l j) (log j) le (r.shows j);
}

answers-promised :
    (max_calls w now : ℕ) (calls : List Call) (l : RateLimiter) (log : Log)
    → Refines max_calls w now l log
    → InOrder now calls
    → answers l calls ≡ promised max_calls w log calls
unfolding answers promised
answers-promised max_calls w now [] l log r h = refl
answers-promised max_calls w now ((key, t) ∷ calls) l log r h =
    let r' = Refines-later max_calls w now t l log h.0 r in
    let here = is_allowed-may_call max_calls w t l log key r' in
    let there = is_allowed-Refines max_calls w t l log key r' in
    let rest = answers-promised max_calls w t calls _ _ there h.1 in rw (rest, here) refl

new-Refines : (max_calls w : ℕ) → Refines max_calls w 0 (new max_calls w) (λ _. [])
unfolding Dict.lookup
new-Refines max_calls w = record {
  max_same = refl;
  window_same = refl;
  shows = λ key. record { sorted = omega arith; same = λ later h. refl };
}

-- A fresh limiter, called for any keys at times that never decrease, answers each call as the log
-- of granted calls does: yes exactly when fewer than `max_calls` granted calls of that key are at
-- most `window` old.
pub answers-new :
    (max_calls w : ℕ) (calls : List Call)
    → InOrder 0 calls
    → answers (new max_calls w) calls ≡ promised max_calls w (λ _. []) calls
answers-new max_calls w calls h =
    answers-promised max_calls w 0 calls (new max_calls w) (λ _. []) (new-Refines max_calls w) h
