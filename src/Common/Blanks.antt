-- ===== src/Common/Blanks.antt =====
-- `strip` on texts as lists of code points.
use homelink.Common.Text.{Text}
use homelink.Common.{
  ℕ, ◌≡◌, refl, Bool, true, false, inl, inr, [], ◌∷◌, ◌++◌, if◌then◌else◌, Bool-cases, ap, ◌∙◌,
}

module _ (is_space : ℕ → Bool) where
  -- `s.lstrip()`
  abbrev pub lstrip : Text → Text
  lstrip [] = []
  lstrip (c ∷ s) = let rest = lstrip s in if is_space c then rest else c ∷ s

  abbrev keep : Bool → Text → Text → Text
  keep true [] s = []
  keep _ _ s = s

  -- `s.rstrip()`
  abbrev pub rstrip : Text → Text
  rstrip [] = []
  rstrip (c ∷ s) = let rest = rstrip s in keep (is_space c) rest (c ∷ rest)

  -- `s.strip()`
  abbrev pub strip : Text → Text
  strip s = lstrip (rstrip s)

  rstrip-append : (s : Text) (c : ℕ) → is_space c ≡ true → rstrip (s ++ c ∷ []) ≡ rstrip s
  rstrip-append [] c blank = rw blank refl
  rstrip-append (d ∷ s) c blank = rw (rstrip-append s c blank) refl

  -- A blank at the end is removed.
  pub strip-append : (s : Text) (c : ℕ) → is_space c ≡ true → strip (s ++ c ∷ []) ≡ strip s
  strip-append s c blank = ap lstrip (rstrip-append s c blank)

  rstrip-keep :
      (c : ℕ) (t : Text)
      → rstrip t ≡ t
      → rstrip (keep (is_space c) t (c ∷ t)) ≡ keep (is_space c) t (c ∷ t)
  rstrip-keep c [] same = elim (Bool-cases (is_space c)) [
    | inl blank ↦ rw blank refl
    | inr kept ↦ rw kept (rw kept refl)
  ]
  rstrip-keep c (d ∷ t) same = elim (Bool-cases (is_space c)) [
    | inl blank ↦ rw blank (rw (same, blank) refl)
    | inr kept ↦ rw kept (rw (same, kept) refl)
  ]

  rstrip-rstrip : (s : Text) → rstrip (rstrip s) ≡ rstrip s
  rstrip-rstrip [] = refl
  rstrip-rstrip (c ∷ s) = rstrip-keep c (rstrip s) (rstrip-rstrip s)

  tail_kept :
      {c : ℕ} {s : Text} (blank : Bool) (rest : Text)
      → keep blank rest (c ∷ rest) ≡ c ∷ s
      → rest ≡ s
  tail_kept true [] same = cc
  tail_kept true (d ∷ rest) same = cc
  tail_kept false [] same = cc
  tail_kept false (d ∷ rest) same = cc

  tail_same : (c : ℕ) (s : Text) → rstrip (c ∷ s) ≡ c ∷ s → rstrip s ≡ s
  tail_same c s same = tail_kept (is_space c) (rstrip s) same

  rstrip-lstrip : (s : Text) → rstrip s ≡ s → rstrip (lstrip s) ≡ lstrip s
  rstrip-lstrip [] same = refl
  rstrip-lstrip (c ∷ s) same = elim (Bool-cases (is_space c)) [
    | inl blank ↦ rw blank (rstrip-lstrip s (tail_same c s same))
    | inr kept ↦ rw kept same
  ]

  lstrip-lstrip : (s : Text) → lstrip (lstrip s) ≡ lstrip s
  lstrip-lstrip [] = refl
  lstrip-lstrip (c ∷ s) = elim (Bool-cases (is_space c)) [
    | inl blank ↦ rw blank (lstrip-lstrip s)
    | inr kept ↦ rw kept (rw kept refl)
  ]

  -- What was stripped is not stripped further.
  pub strip-strip : (s : Text) → strip (strip s) ≡ strip s
  strip-strip s = ap lstrip (rstrip-lstrip (rstrip s) (rstrip-rstrip s)) ∙ lstrip-lstrip (rstrip s)
