-- ===== src/NonceCache/Fresh.antt =====
-- New nonces of homelink/crypto/nonce_cache.py: they are accepted.
use homelink.Common.Exc.{Result-cases, ok, ok_or}
use homelink.Common.Dict
use homelink.Common.{
  ℕ, ◌≤◌, ◌<◌, String, ◌≡◌, refl, ◌∙◌, ◌≢◌, inl, inr, false, List, [], ◌∷◌, arith, eq_iff, leb,
  leb-false, lt→leb-false, Bool-cases, length,
}
use homelink.Common.Dict.{Dict}
use homelink.NonceCache.{NonceCache, evict_expired, evict_full, check_and_add}
use homelink.NonceCache.Replay.{
  Arrival, run, evict_expired-absent, evict_full-absent, check_and_add-limits,
}

-- The nonces of the arrivals are all other than `nonce`.
abbrev pub Others : String → List Arrival → Type 0
Others nonce [] = Unit
Others nonce ((j, now) ∷ arrivals) = (j ≢ nonce) × Others nonce arrivals

evict_full-total :
    (max_size : ℕ) (d : Dict ℕ)
    → 0 < max_size
    → (kept : Dict ℕ) × (evict_full max_size d ≡ ok kept) × (length kept < max_size)
unfolding evict_full
evict_full-total max_size [] h = ([], rw (lt→leb-false max_size 0 h), h)
evict_full-total max_size (x ∷ d) h = elim (Bool-cases (leb max_size (length (x ∷ d)))) [
  | inl full ↦ rw full (evict_full-total max_size d h)
  | inr fits ↦ (x ∷ d, rw fits, leb-false _ _ fits)
]

check_and_add-absent :
    (c : NonceCache) (nonce j : String) (now : ℕ)
    → j ≢ nonce
    → Dict.has_key nonce c.cache ≡ false
    → Dict.has_key nonce (ok_or c (check_and_add c j now)).cache ≡ false
unfolding check_and_add
check_and_add-absent c nonce j now other absent = elim (Bool-cases (Dict.has_key j c.cache)) [
  | inl seen ↦ rw seen absent
  | inr new ↦ elim (Result-cases (evict_full c.max_size (evict_expired c.ttl now c.cache))) [
    | inl (kept, e) ↦
        let gone =
          evict_full-absent nonce c.max_size _ kept
            (evict_expired-absent nonce c.ttl now c.cache absent) e in
        rw (new, e, Dict.has_key-insert) (ground (arith, eq_iff j nonce))
    | inr (x, e) ↦ rw (new, e) absent
  ]
]

run-absent :
    (nonce : String) (arrivals : List Arrival) (c : NonceCache)
    → Others nonce arrivals
    → Dict.has_key nonce c.cache ≡ false
    → (Dict.has_key nonce (run c arrivals).cache ≡ false) × ((run c arrivals).max_size ≡ c.max_size)
unfolding run
run-absent nonce [] c h absent = (absent, refl)
run-absent nonce ((j, now) ∷ arrivals) c h absent =
    let (gone, same) =
      run-absent nonce arrivals (ok_or c (check_and_add c j now)) h.1
        (check_and_add-absent c nonce j now h.0 absent) in
    (gone, same ∙ (check_and_add-limits c j now).0)

-- Starting from an empty cache that may hold something, a nonce that has not arrived before is
-- accepted, whatever came before it, and the cache then holds at most `max_size` nonces.
pub check_and_add_fresh :
    (c : NonceCache) (nonce : String) (now : ℕ) (arrivals : List Arrival)
    → c.cache ≡ []
    → 0 < c.max_size
    → Others nonce arrivals
    → (c' : NonceCache) × (check_and_add (run c arrivals) nonce now ≡ ok c')
      × (length c'.cache ≤ c.max_size)
unfolding check_and_add
check_and_add_fresh c nonce now arrivals empty h others =
    let (absent, same) =
      run-absent nonce arrivals c others (rw empty (unfold Dict.has_key in refl)) in
    let d = run c arrivals in
    let (kept, e, le) =
      evict_full-total d.max_size (evict_expired d.ttl now d.cache) (omega arith) in
    (
      record d { cache = Dict.insert nonce now kept },
      rw (absent, e) refl,
      omega (arith, Dict.length-insert nonce now kept),
    )
