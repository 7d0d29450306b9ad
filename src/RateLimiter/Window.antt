-- ===== src/RateLimiter/Window.antt =====
-- The limiter against a specification that keeps every granted call and forgets nothing.
use homelink.Common.{
  ℕ, ◌+◌, ◌≤◌, ◌≡◌, refl, sym, ap, inl, inr, true, List, [], ◌∷◌, ◌++◌, arith, ltb, if◌then◌else◌,
  Bool-cases,
}
use homelink.RateLimiter.{expire}

-- The calls of a log that are at most `window` old.
unfoldable pub recent : ℕ → ℕ → List ℕ → List ℕ
recent window now [] = []
recent window now (t ∷ log) =
    let rest = recent window now log in if ltb (t + window) now then rest else t ∷ rest

-- Times that ascend from `lo` to `hi`.
abbrev pub Ascends : ℕ → List ℕ → ℕ → Type 0
Ascends lo [] hi = lo ≤ hi
Ascends lo (t ∷ l) hi = (lo ≤ t) × Ascends t l hi

Ascends-ends : (lo hi : ℕ) (l : List ℕ) → Ascends lo l hi → lo ≤ hi
Ascends-ends lo hi [] h = h
Ascends-ends lo hi (t ∷ l) h = omega (arith, Ascends-ends t hi l h.1)

Ascends-lower : (lo lo' hi : ℕ) (l : List ℕ) → lo' ≤ lo → Ascends lo l hi → Ascends lo' l hi
Ascends-lower lo lo' hi [] le h = omega arith
Ascends-lower lo lo' hi (t ∷ l) le h = (omega arith, h.1)

pub Ascends-upper : (lo hi hi' : ℕ) (l : List ℕ) → hi ≤ hi' → Ascends lo l hi → Ascends lo l hi'
Ascends-upper lo hi hi' [] le h = omega arith
Ascends-upper lo hi hi' (t ∷ l) le h = (h.0, Ascends-upper t hi hi' l le h.1)

pub Ascends-snoc : (lo hi : ℕ) (l : List ℕ) → Ascends lo l hi → Ascends lo (l ++ hi ∷ []) hi
Ascends-snoc lo hi [] h = omega arith
Ascends-snoc lo hi (t ∷ l) h = (h.0, Ascends-snoc t hi l h.1)

pub expire-Ascends :
    (w now lo hi : ℕ) (l : List ℕ) → Ascends lo l hi → Ascends lo (expire w now l) hi
unfolding expire
expire-Ascends w now lo hi [] h = h
expire-Ascends w now lo hi (t ∷ l) h = elim (Bool-cases (ltb (t + w) now)) [
  | inl old ↦ rw old (expire-Ascends w now lo hi l (Ascends-lower t lo hi l h.0 h.1))
  | inr live ↦ rw live h
]

recent-live : (w now lo hi : ℕ) (l : List ℕ) → Ascends lo l hi → now ≤ lo + w → recent w now l ≡ l
unfolding recent
recent-live w now lo hi [] h live = refl
recent-live w now lo hi (t ∷ l) h live = ground (arith, recent-live w now t hi l h.1 (omega arith))

-- On times that ascend, dropping the expired ones in front drops all of them.
pub expire-eq-recent :
    (w now lo hi : ℕ) (l : List ℕ) → Ascends lo l hi → expire w now l ≡ recent w now l
unfolding expire recent
expire-eq-recent w now lo hi [] h = refl
expire-eq-recent w now lo hi (t ∷ l) h = elim (Bool-cases (ltb (t + w) now)) [
  | inl old ↦ rw old (expire-eq-recent w now t hi l h.1)
  | inr live ↦ rw live (ap (λ m. t ∷ m) (sym (recent-live w now t hi l h.1 (ground arith))))
]

pub recent-append :
    (w now : ℕ) (l m : List ℕ) → recent w now (l ++ m) ≡ recent w now l ++ recent w now m
unfolding recent
recent-append w now [] m = refl
recent-append w now (t ∷ l) m = ground (arith, recent-append w now l m)

-- What was forgotten earlier would be forgotten now.
pub recent-recent :
    (w now later : ℕ) (l : List ℕ)
    → now ≤ later
    → recent w later (recent w now l) ≡ recent w later l
unfolding recent
recent-recent w now later [] h = refl
recent-recent w now later (t ∷ l) h = elim (Bool-cases (ltb (t + w) now)) [
  | inl old ↦
      let gone : ltb (t + w) later ≡ true = ground arith in
      rw (old, gone) (recent-recent w now later l h)
  | inr live ↦ rw live (ground (arith, recent-recent w now later l h))
]
