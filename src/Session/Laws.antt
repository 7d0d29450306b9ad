-- ===== src/Session/Laws.antt =====
-- Laws of the cipher of homelink/crypto/session.py.
use homelink.Common.{
  ℕ, ◌+◌, ◌≤◌, ◌<◌, ◌≡◌, refl, sym, ap, ◌∙◌, ◌≢◌, inl, inr, true, false, some, List, [], ◌∷◌, ◌++◌,
  arith, ltb, leb, le→ltb-false, Bool-cases, Option-cases, length, take, drop, length-append,
  take-append, drop-append, drop-drop,
}
use homelink.Common.Exc.{ok, raise, replay_error}
use homelink.Common.Text.{elem}
use homelink.Signing.{big_endian}
use homelink.Session.{
  Aead, SessionCipher, make_nonce, from_bytes, encrypt, decrypt, encrypt_private_key,
  decrypt_private_key, key_purpose,
}

-- The counter can be read from the nonce.
pub counter_of_nonce :
    (counter : ℕ) (rest : List ℕ)
    → counter < 4_294_967_296
    → from_bytes 0 (take 4 (big_endian 4 counter ++ rest)) ≡ counter
unfolding big_endian
counter_of_nonce counter rest h = omega (arith, h)

make_nonce-injective :
    (c c' : SessionCipher) (i j : ℕ)
    → i < 4_294_967_296
    → j < 4_294_967_296
    → make_nonce c i ≡ make_nonce c' j
    → i ≡ j
unfolding make_nonce
make_nonce-injective c c' i j hi hj e =
    sym (counter_of_nonce i c.nonce_prefix hi)
    ∙ (ap (λ x. from_bytes 0 (take 4 x)) e ∙ counter_of_nonce j c'.nonce_prefix hj)

pub length-make_nonce :
    (c : SessionCipher) (i : ℕ) → length c.nonce_prefix ≡ 8 → length (make_nonce c i) ≡ 12
unfolding make_nonce big_endian
length-make_nonce c i e = omega (arith, e)

module _ (aead : Aead) where
  -- The messages that a cipher encrypts, each with its associated data.
  abbrev pub encrypt_all : SessionCipher → List (List ℕ × List ℕ) → SessionCipher
  encrypt_all c [] = c
  encrypt_all c ((plaintext, ad) ∷ rest) = encrypt_all (encrypt aead c plaintext ad).1 rest

  encrypt-grows :
      (c : SessionCipher) (plaintext ad : List ℕ)
      → (c.send_counter ≤ (encrypt aead c plaintext ad).1.send_counter)
        × ((encrypt aead c plaintext ad).1.nonce_prefix ≡ c.nonce_prefix)
  unfolding encrypt
  encrypt-grows c plaintext ad = elim (Bool-cases (leb 4_294_967_296 c.send_counter)) [
    | inl full ↦ rw full (omega arith, refl)
    | inr room ↦ rw room (omega arith, refl)
  ]

  encrypt_all-grows :
      (rest : List (List ℕ × List ℕ)) (c : SessionCipher)
      → (c.send_counter ≤ (encrypt_all c rest).send_counter)
        × ((encrypt_all c rest).nonce_prefix ≡ c.nonce_prefix)
  encrypt_all-grows [] c = (omega arith, refl)
  encrypt_all-grows ((plaintext, ad) ∷ rest) c =
      let (up, same) = encrypt-grows c plaintext ad in
      let (further, kept) = encrypt_all-grows rest (encrypt aead c plaintext ad).1 in
      (omega (arith, up, further), kept ∙ same)

  -- What a cipher returns begins with the nonce of its counter, which has moved on.
  record Sealed (c : SessionCipher) (plaintext ad ciphertext : List ℕ) : Type 0 where
    room : c.send_counter < 4_294_967_296
    sealed :
        ciphertext
        ≡ make_nonce c c.send_counter ++ aead.seal c.key (make_nonce c c.send_counter) plaintext ad
    next : (encrypt aead c plaintext ad).1.send_counter ≡ c.send_counter + 1

  encrypt-Sealed :
      (c : SessionCipher) (plaintext ad ciphertext : List ℕ)
      → (encrypt aead c plaintext ad).0 ≡ ok ciphertext
      → Sealed c plaintext ad ciphertext
  unfolding encrypt
  encrypt-Sealed c plaintext ad ciphertext h =
      elim (Bool-cases (leb 4_294_967_296 c.send_counter)) [
        | inl full ↦ cc (rw full at h)
        | inr room ↦
            let same : ok (
                  make_nonce c c.send_counter
                  ++ aead.seal c.key (make_nonce c c.send_counter) plaintext ad)
                ≡ ok ciphertext =
              rw room at h in
            record { room = ground arith; sealed = cc; next = rw room refl }
      ]

  -- Two messages that one cipher encrypts, with any messages in between, begin with different
  -- nonces, if the prefix has eight bytes.
  pub encrypt-nonces :
      (c : SessionCipher) (plaintext ad plaintext' ad' ciphertext ciphertext' : List ℕ)
      (between : List (List ℕ × List ℕ))
      → length c.nonce_prefix ≡ 8
      → (encrypt aead c plaintext ad).0 ≡ ok ciphertext
      → (encrypt aead (encrypt_all (encrypt aead c plaintext ad).1 between) plaintext' ad').0
        ≡ ok ciphertext'
      → take 12 ciphertext ≢ take 12 ciphertext'
  encrypt-nonces c plaintext ad plaintext' ad' ciphertext ciphertext' between eight h h' same =
      let c1 = (encrypt aead c plaintext ad).1 in
      let c2 = encrypt_all c1 between in
      let (_, kept) = encrypt-grows c plaintext ad in
      let (up, kept') = encrypt_all-grows between c1 in
      let one = encrypt-Sealed c plaintext ad ciphertext h in
      let two = encrypt-Sealed c2 plaintext' ad' ciphertext' h' in
      let eight' : length c2.nonce_prefix ≡ 8 = ap length (kept' ∙ kept) ∙ eight in
      let nonce : take 12 ciphertext ≡ make_nonce c c.send_counter =
        ap (take 12) one.sealed
        ∙ take-append 12 (make_nonce c c.send_counter) _
            (length-make_nonce c c.send_counter eight) in
      let nonce' : take 12 ciphertext' ≡ make_nonce c2 c2.send_counter =
        ap (take 12) two.sealed
        ∙ take-append 12 (make_nonce c2 c2.send_counter) _
            (length-make_nonce c2 c2.send_counter eight') in
      let equal : c.send_counter ≡ c2.send_counter =
        make_nonce-injective c c2 c.send_counter c2.send_counter one.room two.room
          (sym nonce ∙ (same ∙ nonce')) in
      omega (arith, equal, up, one.next)

  seen-refused :
      (c : SessionCipher) (ciphertext ad : List ℕ)
      → ltb (length ciphertext) 28 ≡ false
      → elem (from_bytes 0 (take 4 (take 12 ciphertext))) c.seen_nonces ≡ true
      → (decrypt aead c ciphertext ad).0 ≡ raise replay_error
  unfolding decrypt
  seen-refused c ciphertext ad long seen = rw (long, seen, decrypt) refl

  decrypt-seen :
      (c : SessionCipher) (ciphertext ad : List ℕ)
      → ltb (length ciphertext) 28 ≡ false
      → elem
          (from_bytes 0 (take 4 (take 12 ciphertext)))
          (decrypt aead c ciphertext ad).1.seen_nonces
        ≡ true
  unfolding decrypt
  decrypt-seen c ciphertext ad long =
      let k = from_bytes 0 (take 4 (take 12 ciphertext)) in
      elim (Bool-cases (elem k c.seen_nonces)) [
        | inl seen ↦ rw (long, seen, decrypt) seen
        | inr new ↦
            elim (Option-cases (aead.unseal c.key (take 12 ciphertext) (drop 12 ciphertext) ad)) [
              | inl forged ↦ rw (long, new, forged, decrypt) (ground arith)
              | inr (plaintext, opened) ↦ rw (long, new, opened, decrypt) (ground arith)
            ]
      ]

  -- A ciphertext of at least 28 bytes that was once given to `decrypt`, whether or not it was
  -- authentic, is refused as a replay the next time.
  pub decrypt-replay :
      (c : SessionCipher) (ciphertext ad ad' : List ℕ)
      → 28 ≤ length ciphertext
      → (decrypt aead (decrypt aead c ciphertext ad).1 ciphertext ad').0 ≡ raise replay_error
  decrypt-replay c ciphertext ad ad' long =
      let enough = le→ltb-false (length ciphertext) 28 long in
      seen-refused (decrypt aead c ciphertext ad).1 ciphertext ad' enough
        (decrypt-seen c ciphertext ad enough)

  decrypt-opens :
      (c : SessionCipher) (ciphertext ad plaintext : List ℕ)
      → 28 ≤ length ciphertext
      → elem (from_bytes 0 (take 4 (take 12 ciphertext))) c.seen_nonces ≡ false
      → aead.unseal c.key (take 12 ciphertext) (drop 12 ciphertext) ad ≡ some plaintext
      → (decrypt aead c ciphertext ad).0 ≡ ok plaintext
  unfolding decrypt
  decrypt-opens c ciphertext ad plaintext long new opened =
      rw (le→ltb-false (length ciphertext) 28 long, new, opened, decrypt) refl

  read_counter :
      (c : SessionCipher)
      → c.send_counter < 4_294_967_296
      → from_bytes 0 (take 4 (make_nonce c c.send_counter)) ≡ c.send_counter
  unfolding make_nonce
  read_counter c room = counter_of_nonce c.send_counter c.nonce_prefix room

  -- What a cipher encrypts, a receiver with the same key that has not seen the counter decrypts,
  -- for an authenticated encryption that can be undone and adds at least 16 bytes, and a prefix
  -- of eight bytes.
  pub decrypt-encrypt :
      (c receiver : SessionCipher) (plaintext ad ciphertext : List ℕ)
      → ((key nonce p a : List ℕ) → aead.unseal key nonce (aead.seal key nonce p a) a ≡ some p)
      → ((key nonce p a : List ℕ) → 16 ≤ length (aead.seal key nonce p a))
      → length c.nonce_prefix ≡ 8
      → receiver.key ≡ c.key
      → elem c.send_counter receiver.seen_nonces ≡ false
      → (encrypt aead c plaintext ad).0 ≡ ok ciphertext
      → (decrypt aead receiver ciphertext ad).0 ≡ ok plaintext
  decrypt-encrypt c receiver plaintext ad ciphertext opens tagged eight keys new h =
      let nonce = make_nonce c c.send_counter in
      let box = aead.seal c.key nonce plaintext ad in
      let one = encrypt-Sealed c plaintext ad ciphertext h in
      let sized = length-make_nonce c c.send_counter eight in
      let front : take 12 ciphertext ≡ nonce =
        ap (take 12) one.sealed ∙ take-append 12 nonce box sized in
      let back : drop 12 ciphertext ≡ box =
        ap (drop 12) one.sealed ∙ drop-append 12 nonce box sized in
      let total : length ciphertext ≡ length nonce + length box =
        ap length one.sealed ∙ length-append nonce box in
      decrypt-opens receiver ciphertext ad plaintext
        (omega (arith, total, sized, tagged c.key nonce plaintext ad))
        (rw (front, read_counter c one.room) new)
        (rw (front, back, keys) (opens c.key nonce plaintext ad))

  decrypt_private_key-opens :
      (encrypted password private_key : List ℕ)
      → 44 ≤ length encrypted
      → aead.unseal
          (aead.derive_key password (take 16 encrypted))
          (take 12 (drop 16 encrypted))
          (drop 28 encrypted)
          key_purpose
        ≡ some private_key
      → decrypt_private_key aead encrypted password ≡ ok private_key
  unfolding decrypt_private_key
  decrypt_private_key-opens encrypted password private_key long opened =
      rw (le→ltb-false (length encrypted) 44 long, opened, decrypt_private_key) refl

  -- An encrypted private key is read back with the same password, for a salt of 16 and a nonce of
  -- 12 bytes, and an authenticated encryption that can be undone and adds at least 16 bytes.
  pub decrypt_private_key-encrypt_private_key :
      (private_key password salt nonce : List ℕ)
      → ((key nonce p a : List ℕ) → aead.unseal key nonce (aead.seal key nonce p a) a ≡ some p)
      → ((key nonce p a : List ℕ) → 16 ≤ length (aead.seal key nonce p a))
      → length salt ≡ 16
      → length nonce ≡ 12
      → decrypt_private_key aead (encrypt_private_key aead private_key password salt nonce) password
        ≡ ok private_key
  unfolding encrypt_private_key
  decrypt_private_key-encrypt_private_key private_key password salt nonce opens tagged salted
        sized =
      let key = aead.derive_key password salt in
      let box = aead.seal key nonce private_key key_purpose in
      let whole = salt ++ (nonce ++ box) in
      let front : take 16 whole ≡ salt = take-append 16 salt (nonce ++ box) salted in
      let rest : drop 16 whole ≡ nonce ++ box = drop-append 16 salt (nonce ++ box) salted in
      let middle : take 12 (drop 16 whole) ≡ nonce =
        ap (take 12) rest ∙ take-append 12 nonce box sized in
      let back : drop 28 whole ≡ box =
        sym (drop-drop 16 12 28 whole (omega arith))
        ∙ (ap (drop 12) rest ∙ drop-append 12 nonce box sized) in
      decrypt_private_key-opens whole password private_key
        (omega (
          arith,
          length-append salt (nonce ++ box),
          length-append nonce box,
          salted,
          sized,
          tagged key nonce private_key key_purpose,
        ))
        (rw (front, middle, back) (opens key nonce private_key key_purpose))
