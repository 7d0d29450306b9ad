-- ===== src/Signing/Shift.antt =====
-- What the signed bytes of homelink/crypto/signing.py do not tell apart: where the nonce ends and
-- the device ID begins.
use homelink.Common.Json.{to_str, Value, num, str, Message, Python, get, item, key_of}
use homelink.Common.Exc.{after, ◌>>◌, ok, value_error, raise_if, Result-cases}
use homelink.Common.Dict
use homelink.Common.{
  ℕ, String, ◌<>◌, ◌≡◌, refl, ap, ◌∙◌, inl, inr, not, List, [], ◌∷◌, ◌++◌, append_assoc,
}
use homelink.Common.Int.{ℤ, pos}
use homelink.NonceCache.{NonceCache, check_and_add}
use homelink.Signing.{
  Crypto, canonical_bytes, check_signature, check_signed, check_envelope, check_version,
  check_timestamp, verify_signature, encode, as_time, to_bytes, version_bytes,
}

-- An envelope, from its fields.
abbrev pub envelope_of : String → String → String → ℤ → String → Message
envelope_of payload signature device_id timestamp nonce =
    ("payload", str payload)
    ∷ ("signature", str signature)
    ∷ ("device_id", str device_id)
    ∷ ("timestamp", num timestamp)
    ∷ ("nonce", str nonce)
    ∷ ("version", num (pos 1))
    ∷ []

-- The encoder takes the pieces of two texts one by one.
pub record Encodes (cr : Crypto) (nonce piece device_id : String) : Type 0 where
  pub nonce_bytes : List ℕ
  pub piece_bytes : List ℕ
  pub device_bytes : List ℕ
  pub of_nonce : cr.utf8 nonce ≡ ok nonce_bytes
  pub of_device_id : cr.utf8 device_id ≡ ok device_bytes
  pub of_longer_nonce : cr.utf8 (nonce <> piece) ≡ ok (nonce_bytes ++ piece_bytes)
  pub of_longer_device_id : cr.utf8 (piece <> device_id) ≡ ok (piece_bytes ++ device_bytes)

module _ (cr : Crypto) (nonce piece device_id : String)
    (enc : Encodes cr nonce piece device_id) where
  regroup :
      (front back : List ℕ)
      → front ++ ((enc.nonce_bytes ++ enc.piece_bytes) ++ (enc.device_bytes ++ back))
        ≡ front ++ (enc.nonce_bytes ++ ((enc.piece_bytes ++ enc.device_bytes) ++ back))
  regroup front back = rw (append_assoc, append_assoc) refl

  canonical_bytes-shift :
      (payload : List ℕ) (timestamp version : Value)
      → canonical_bytes cr payload timestamp (str (nonce <> piece)) (str device_id) version
        ≡ canonical_bytes cr payload timestamp (str nonce) (str (piece <> device_id)) version
  unfolding canonical_bytes encode
  canonical_bytes-shift payload timestamp version = elim (Result-cases (as_time timestamp)) [
    | inr (e, q) ↦ rw (q, canonical_bytes) refl
    | inl (ts, q) ↦ elim (Result-cases (to_bytes 8 ts)) [
      | inr (e, r) ↦ rw (q, r, canonical_bytes) refl
      | inl (ts_bytes, r) ↦ elim (Result-cases (version_bytes version)) [
        | inr (e, t) ↦ rw (q, r, t, canonical_bytes) refl
        | inl (ver_bytes, t) ↦
            let same : cr.digest payload
                  ++ (ts_bytes
                      ++ ((enc.nonce_bytes ++ enc.piece_bytes) ++ (enc.device_bytes ++ ver_bytes)))
                ≡ cr.digest payload
                  ++ (ts_bytes
                      ++ (enc.nonce_bytes
                          ++ ((enc.piece_bytes ++ enc.device_bytes) ++ ver_bytes))) =
              ap (λ x. cr.digest payload ++ x) (regroup ts_bytes ver_bytes) in
            rw
              (
                q, r, t, enc.of_longer_nonce, enc.of_device_id, enc.of_nonce,
                enc.of_longer_device_id, encode, canonical_bytes,
              )
              (ap ok same)
      ]
    ]
  ]

  module _ (py : Python) (payload signature : String) (timestamp : ℤ) where
    abbrev sent : Message
    sent = envelope_of payload signature (piece <> device_id) timestamp nonce

    abbrev moved : Message
    moved = envelope_of payload signature device_id timestamp (nonce <> piece)

    check_signed-shift :
        (verify_key content sig : List ℕ)
        → check_signed py cr moved verify_key content sig
          ≡ check_signed py cr sent verify_key content sig
    unfolding check_signed get item Dict.lookup
    check_signed-shift verify_key content sig =
        ap
          (after (λ to_sign.
            raise_if (not (cr.verify verify_key to_sign sig)) value_error >> ok content))
          (canonical_bytes-shift content (num timestamp) (num (pos 1)))

    check_signature-shift :
        (verify_key : List ℕ)
        → check_signature py cr moved verify_key ≡ check_signature py cr sent verify_key
    unfolding check_signature item Dict.lookup
    check_signature-shift verify_key = elim (Result-cases (cr.b64decode (str payload))) [
      | inr (e, q) ↦ rw (q, check_signature) refl
      | inl (content, q) ↦ elim (Result-cases (cr.b64decode (str signature))) [
        | inr (e, r) ↦ rw (q, r, check_signature) refl
        | inl (sig, r) ↦ rw (q, r, check_signature) (check_signed-shift verify_key content sig)
      ]
    ]

    check_envelope-shift :
        (now : ℕ) (key : String)
        → check_envelope py cr sent now ≡ ok key
        → check_envelope py cr moved now ≡ ok (nonce <> piece)
    unfolding check_envelope check_version get item Dict.lookup key_of to_str
    check_envelope-shift now key h = elim (Result-cases (check_timestamp (num timestamp) now)) [
      | inr (e, q) ↦ cc (rw (q, check_envelope) at h)
      | inl (u, q) ↦ rw (q, check_envelope) refl
    ]

-- After an envelope was accepted, an envelope with the same payload, signature and timestamp is
-- accepted again for the same key when a first part of its device ID is moved to the end of its
-- nonce, if the cache takes the longer nonce and UTF-8 encodes the pieces one by one.
pub verify_signature-shift :
    (py : Python) (cr : Crypto) (nonce piece device_id payload signature : String) (timestamp : ℤ)
    (verify_key content : List ℕ) (cache cache' later later' : NonceCache) (now tick tick' : ℕ)
    → Encodes cr nonce piece device_id
    → verify_signature py cr
        (envelope_of payload signature (piece <> device_id) timestamp nonce)
        verify_key
        cache
        now
        tick
      ≡ (ok content, cache')
    → check_and_add later (nonce <> piece) tick' ≡ ok later'
    → verify_signature py cr
        (envelope_of payload signature device_id timestamp (nonce <> piece))
        verify_key
        later
        now
        tick'
      ≡ (ok content, later')
unfolding verify_signature
verify_signature-shift py cr nonce piece device_id payload signature timestamp verify_key content
      cache cache' later later' now tick tick' enc h fresh =
    let sent = envelope_of payload signature (piece <> device_id) timestamp nonce in
    let moved = envelope_of payload signature device_id timestamp (nonce <> piece) in
    elim (Result-cases (check_envelope py cr sent now)) [
      | inr (e, early) ↦ cc (rw (early, verify_signature) at h)
      | inl (key, passed) ↦ elim (Result-cases (check_and_add cache key tick)) [
        | inr (e, seen) ↦ cc (rw (passed, seen, verify_signature) at h)
        | inl (c, unseen) ↦
            let signed : check_signature py cr sent verify_key ≡ ok content =
              ap (λ p. p.0) (rw (passed, unseen, verify_signature) at h) in
            let passed' : check_envelope py cr moved now ≡ ok (nonce <> piece) =
              check_envelope-shift cr nonce piece device_id enc py payload signature timestamp now
                key passed in
            let signed' : check_signature py cr moved verify_key ≡ ok content =
              check_signature-shift cr nonce piece device_id enc py payload signature timestamp
                verify_key
              ∙ signed in
            rw (passed', fresh, signed', verify_signature) refl
      ]
    ]
