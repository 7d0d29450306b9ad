-- ===== src/NonceCache/Replay.antt =====
-- Replays of nonces of homelink/crypto/nonce_cache.py: they are refused.
use homelink.Common.Exc.{value_error, raise, after-eq-ok, ◌>>=◌, Result, ok, ok_or}
use homelink.Common.Dict
use homelink.Common.{
  ℕ, suc, ◌+◌, ◌≤◌, ◌<◌, String, ◌≡◌, refl, inl, inr, true, false, List, [], ◌∷◌, ◌++◌, arith,
  str_eq, eq_iff, eq_refl, leb, le→leb, lt→leb-false, Bool-cases, length, drop,
}
use homelink.Common.Dict.{Dict}
use homelink.NonceCache.{NonceCache, evict_expired, evict_full, check_and_add}

abbrev pub Arrival : Type 0
Arrival = String × ℕ

-- The cache after some arrivals; a refused one leaves it as it is.
unfoldable pub run : NonceCache → List Arrival → NonceCache
run c [] = c
run c ((nonce, now) ∷ arrivals) = run (ok_or c (check_and_add c nonce now)) arrivals

-- No arrival is later than `last`.
abbrev pub Until : ℕ → List Arrival → Type 0
Until last [] = Unit
Until last ((nonce, now) ∷ arrivals) = (now ≤ last) × Until last arrivals

-- The entry `(nonce, ts)` has at most `n` entries behind it.
abbrev pub HeldBack : String → ℕ → ℕ → Dict ℕ → Type 0
HeldBack nonce ts n d =
    (before : Dict ℕ) × (after : Dict ℕ) × (d ≡ before ++ (nonce, ts) ∷ after) × (length after ≤ n)

evict_expired-HeldBack :
    (nonce : String) (ts n ttl now : ℕ) (before after : Dict ℕ)
    → now ≤ ts + ttl
    → length after ≤ n
    → HeldBack nonce ts n (evict_expired ttl now (before ++ (nonce, ts) ∷ after))
unfolding evict_expired
evict_expired-HeldBack nonce ts n ttl now [] after live h =
    ([], after, rw (le→leb now (ts + ttl) live), h)
evict_expired-HeldBack nonce ts n ttl now ((j, t) ∷ before) after live h =
    elim (Bool-cases (leb now (t + ttl))) [
      | inl keep ↦ ((j, t) ∷ before, after, rw keep, h)
      | inr drop ↦ rw drop (evict_expired-HeldBack nonce ts n ttl now before after live h)
    ]

evict_full-HeldBack :
    (nonce : String) (ts n max_size : ℕ) (before after : Dict ℕ)
    → suc n < max_size
    → length after ≤ n
    → (d : Dict ℕ) × (evict_full max_size (before ++ (nonce, ts) ∷ after) ≡ ok d)
      × HeldBack nonce ts n d
unfolding evict_full
evict_full-HeldBack nonce ts n max_size [] after room h = (
  (nonce, ts) ∷ after,
  rw (lt→leb-false max_size (suc (length after)) (omega arith)),
  ([], after, refl, h),
)
evict_full-HeldBack nonce ts n max_size ((j, t) ∷ before) after room h =
    let all = (j, t) ∷ before ++ (nonce, ts) ∷ after in
    elim (Bool-cases (leb max_size (length all))) [
      | inl full ↦ rw full (evict_full-HeldBack nonce ts n max_size before after room h)
      | inr fits ↦ (all, rw fits, ((j, t) ∷ before, after, refl, h))
    ]

HeldBack-has_key :
    (nonce : String) (ts n : ℕ) (d : Dict ℕ) → HeldBack nonce ts n d → Dict.has_key nonce d ≡ true
HeldBack-has_key nonce ts n d (before, after, e, _) =
    rw (e, Dict.has_key-append)
      (ground (arith, Dict.has_key-cons nonce nonce ts after, eq_refl nonce))

insert-HeldBack :
    (nonce j : String) (ts t n : ℕ) (before after : Dict ℕ)
    → str_eq nonce j ≡ false
    → length after ≤ n
    → HeldBack nonce ts (suc n) (Dict.insert j t (before ++ (nonce, ts) ∷ after))
unfolding Dict.insert
insert-HeldBack nonce j ts t n [] after other h =
    ([], Dict.insert j t after, rw other, omega (arith, Dict.length-insert j t after))
insert-HeldBack nonce j ts t n ((i, s) ∷ before) after other h = elim (Bool-cases (str_eq i j)) [
  | inl same ↦ ((i, t) ∷ before, after, rw same, omega arith)
  | inr differ ↦
      let (b, a, e, le) = insert-HeldBack nonce j ts t n before after other h in
      ((i, s) ∷ b, a, rw (differ, e), le)
]

evicted-HeldBack :
    (c : NonceCache) (nonce : String) (ts n now : ℕ)
    → HeldBack nonce ts n c.cache
    → now ≤ ts + c.ttl
    → suc n < c.max_size
    → (d : Dict ℕ) × (evict_full c.max_size (evict_expired c.ttl now c.cache) ≡ ok d)
      × HeldBack nonce ts n d
evicted-HeldBack c nonce ts n now (before, after, e, le) live room =
    let (b, a, e', le') = evict_expired-HeldBack nonce ts n c.ttl now before after live le in
    rw (e, e') (evict_full-HeldBack nonce ts n c.max_size b a room le')

HeldBack-suc :
    (nonce : String) (ts n : ℕ) (d : Dict ℕ) → HeldBack nonce ts n d → HeldBack nonce ts (suc n) d
HeldBack-suc nonce ts n d (before, after, e, le) = (before, after, e, omega arith)

-- One arrival pushes the entry back by at most one place, while it is within its time.
check_and_add-HeldBack :
    (c : NonceCache) (nonce j : String) (ts n now : ℕ)
    → HeldBack nonce ts n c.cache
    → now ≤ ts + c.ttl
    → suc n < c.max_size
    → HeldBack nonce ts (suc n) (ok_or c (check_and_add c j now)).cache
unfolding check_and_add
check_and_add-HeldBack c nonce j ts n now held live room =
    elim (Bool-cases (Dict.has_key j c.cache)) [
      | inl seen ↦ rw seen (HeldBack-suc nonce ts n c.cache held)
      | inr absent ↦
          let (d, e, (before, after, e', le)) = evicted-HeldBack c nonce ts n now held live room in
          let known = HeldBack-has_key nonce ts n c.cache held in
          let other : str_eq nonce j ≡ false = ground (arith, eq_iff nonce j) in
          rw (absent, e, e') (insert-HeldBack nonce j ts now n before after other le)
    ]

pub check_and_add-limits :
    (c : NonceCache) (j : String) (now : ℕ)
    → ((ok_or c (check_and_add c j now)).max_size ≡ c.max_size)
      × ((ok_or c (check_and_add c j now)).ttl ≡ c.ttl)
unfolding check_and_add
check_and_add-limits c j now = elim (Bool-cases (Dict.has_key j c.cache)) [
  | inl seen ↦ rw seen (refl, refl)
  | inr absent ↦ rw absent (kept-limits (evict_full c.max_size (evict_expired c.ttl now c.cache)))
]
  where
    kept-limits :
        (kept : Result (Dict ℕ))
        → let c' = ok_or c (kept >>= λ d. ok (record c { cache = Dict.insert j now d })) in
          (c'.max_size ≡ c.max_size) × (c'.ttl ≡ c.ttl)
    kept-limits (ok d) = (refl, refl)
    kept-limits (raise e) = (refl, refl)

run-has_key :
    (nonce : String) (ts n last : ℕ) (arrivals : List Arrival) (c : NonceCache)
    → HeldBack nonce ts n c.cache
    → last ≤ ts + c.ttl
    → Until last arrivals
    → n + length arrivals < c.max_size
    → Dict.has_key nonce (run c arrivals).cache ≡ true
unfolding run
run-has_key nonce ts n last [] c held live h room = HeldBack-has_key nonce ts n c.cache held
run-has_key nonce ts n last ((j, now) ∷ arrivals) c held live h room =
    let same = check_and_add-limits c j now in
    run-has_key nonce ts (suc n) last arrivals _
      (check_and_add-HeldBack c nonce j ts n now held (omega arith) (omega arith)) (omega arith) h.1
      (omega arith)

pub evict_expired-absent :
    (nonce : String) (ttl now : ℕ) (d : Dict ℕ)
    → Dict.has_key nonce d ≡ false
    → Dict.has_key nonce (evict_expired ttl now d) ≡ false
unfolding evict_expired
evict_expired-absent nonce ttl now [] h = h
evict_expired-absent nonce ttl now ((j, t) ∷ d) h =
    ground (arith, Dict.has_key-cons nonce j t d, evict_expired-absent nonce ttl now d)

pub evict_full-absent :
    (nonce : String) (max_size : ℕ) (d kept : Dict ℕ)
    → Dict.has_key nonce d ≡ false
    → evict_full max_size d ≡ ok kept
    → Dict.has_key nonce kept ≡ false
unfolding evict_full
evict_full-absent nonce max_size [] kept h e = ground arith
evict_full-absent nonce max_size ((j, t) ∷ d) kept h e =
    ground (arith, Dict.has_key-cons nonce j t d, evict_full-absent nonce max_size d kept)

-- What an accepted arrival leaves.
check_and_add-eq-ok :
    (c c' : NonceCache) (nonce : String) (now : ℕ)
    → check_and_add c nonce now ≡ ok c'
    → HeldBack nonce now 0 c'.cache × (c'.max_size ≡ c.max_size) × (c'.ttl ≡ c.ttl)
unfolding check_and_add
check_and_add-eq-ok c c' nonce now e = elim (Bool-cases (Dict.has_key nonce c.cache)) [
  | inl seen ↦ cc (rw seen at e)
  | inr absent ↦
      let (kept, e', last) =
        after-eq-ok _ (evict_full c.max_size (evict_expired c.ttl now c.cache)) (rw absent at e) in
      let new : Dict.has_key nonce kept ≡ false =
        evict_full-absent nonce c.max_size _ kept
          (evict_expired-absent nonce c.ttl now c.cache absent) e' in
      let entries : c'.cache ≡ kept ++ (nonce, now) ∷ [] =
        cc (Dict.insert-eq-append nonce now kept new) in
      ((kept, [], entries, omega arith), cc, cc)
]

-- An accepted nonce is refused when it comes again, whenever that is, provided that the arrivals
-- in between came within the time to live and were fewer than the cache holds.
pub check_and_add-replay :
    (c c' : NonceCache) (nonce : String) (now later : ℕ) (arrivals : List Arrival)
    → check_and_add c nonce now ≡ ok c'
    → Until (now + c.ttl) arrivals
    → length arrivals < c.max_size
    → check_and_add (run c' arrivals) nonce later ≡ raise value_error
unfolding check_and_add
check_and_add-replay c c' nonce now later arrivals e h room =
    let (held, max_same, ttl_same) = check_and_add-eq-ok c c' nonce now e in
    rw (run-has_key nonce now 0 (now + c.ttl) arrivals c' held (omega arith) h (omega arith))
