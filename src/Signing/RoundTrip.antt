-- ===== src/Signing/RoundTrip.antt =====
-- `sign_message`, and then `verify_signature`, of homelink/crypto/signing.py.
use homelink.Common.Dict
use homelink.Common.{ℕ, ◌≤◌, String, ◌≡◌, refl, sym, ap, ◌∙◌, true, false, List, ltb, le→ltb-false}
use homelink.Common.Int.{pos}
use homelink.Common.Exc.{ok, after-eq-ok}
use homelink.Common.Json.{num, str, Message, Python, get, item, key_of, to_str}
use homelink.NonceCache.{NonceCache, check_and_add}
use homelink.Signing.{
  Crypto, canonical_bytes, sign_message, check_signature, check_signed, check_envelope,
  check_version, check_timestamp, verify_signature, as_time, distance, timestamp_tolerance,
}
use homelink.Signing.Shift.{envelope_of}

module _ (py : Python) (cr : Crypto) (payload signing_key verify_key signed : List ℕ)
    (device_id nonce : String) (now : ℕ) where
  abbrev made : Message
  made =
      envelope_of (cr.b64encode payload) (cr.b64encode (cr.sign signing_key signed)) device_id
        (pos now) nonce

  check_envelope-made :
      (now' : ℕ)
      → distance now' (pos now) ≤ timestamp_tolerance
      → check_envelope py cr made now' ≡ ok nonce
  unfolding check_envelope check_version check_timestamp as_time get item key_of to_str Dict.lookup
  check_envelope-made now' near =
      let fine : ltb timestamp_tolerance (distance now' (pos now)) ≡ false =
        le→ltb-false timestamp_tolerance (distance now' (pos now)) near in
      rw fine refl

  check_signature-made :
      canonical_bytes cr payload (num (pos now)) (str nonce) (str device_id) (num (pos 1))
        ≡ ok signed
      → cr.b64decode (str (cr.b64encode payload)) ≡ ok payload
      → cr.b64decode (str (cr.b64encode (cr.sign signing_key signed)))
        ≡ ok (cr.sign signing_key signed)
      → cr.verify verify_key signed (cr.sign signing_key signed) ≡ true
      → check_signature py cr made verify_key ≡ ok payload
  unfolding check_signature check_signed get item Dict.lookup
  check_signature-made e d d' v = rw (d, d', e, v, check_signature, check_signed) refl

  verify_signature-made :
      (cache cache' : NonceCache) (now' tick : ℕ)
      → check_envelope py cr made now' ≡ ok nonce
      → check_and_add cache nonce tick ≡ ok cache'
      → check_signature py cr made verify_key ≡ ok payload
      → verify_signature py cr made verify_key cache now' tick ≡ (ok payload, cache')
  unfolding verify_signature
  verify_signature-made cache cache' now' tick passed fresh checked =
      rw (passed, fresh, checked, verify_signature) refl

-- An envelope that `sign_message` makes is accepted within the tolerance, gives back its payload
-- and uses up its nonce, if Base64 can be undone on the payload and the signatures, the verify
-- key fits the signing key, and the cache takes the nonce.
pub verify_signature-sign_message :
    (py : Python) (cr : Crypto) (payload signing_key verify_key : List ℕ) (device_id nonce : String)
    (envelope : Message) (cache cache' : NonceCache) (now now' tick : ℕ)
    → cr.b64decode (str (cr.b64encode payload)) ≡ ok payload
    → ((m : List ℕ)
        → cr.b64decode (str (cr.b64encode (cr.sign signing_key m))) ≡ ok (cr.sign signing_key m))
    → ((m : List ℕ) → cr.verify verify_key m (cr.sign signing_key m) ≡ true)
    → sign_message py cr payload signing_key device_id now nonce ≡ ok envelope
    → distance now' (pos now) ≤ timestamp_tolerance
    → check_and_add cache nonce tick ≡ ok cache'
    → verify_signature py cr envelope verify_key cache now' tick ≡ (ok payload, cache')
unfolding sign_message
verify_signature-sign_message py cr payload signing_key verify_key device_id nonce envelope cache
      cache' now now' tick decodes decodes_sig accepts h near fresh =
    let (signed, e, made_ok) =
      after-eq-ok
        (λ to_sign. ok (made py cr payload signing_key verify_key to_sign device_id nonce now))
        (canonical_bytes cr payload (num (pos now)) (str nonce) (str device_id) (num (pos 1))) h in
    let same : made py cr payload signing_key verify_key signed device_id nonce now ≡ envelope =
      cc in
    let passed =
      check_envelope-made py cr payload signing_key verify_key signed device_id nonce now now'
        near in
    let checked =
      check_signature-made py cr payload signing_key verify_key signed device_id nonce now e decodes
        (decodes_sig signed) (accepts signed) in
    ap (λ x. verify_signature py cr x verify_key cache now' tick) (sym same)
    ∙ verify_signature-made py cr payload signing_key verify_key signed device_id nonce now cache
        cache' now' tick passed fresh checked
