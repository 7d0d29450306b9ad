-- ===== src/Signing/Authentic.antt =====
-- What an accepted envelope of homelink/crypto/signing.py has passed.
use homelink.Signing.{
  check_signed, Crypto, canonical_bytes, check_signature, check_envelope, check_version,
  check_timestamp, verify_signature, as_time, distance, timestamp_tolerance, is_version,
}
use homelink.Common.Dict
use homelink.Common.Int.{pos, ℤ}
use homelink.Common.Json.{num, Value, str, Message, Python, get, item, key_of}
use homelink.Common.Exc.{Exc, ok, value_error, after-eq-ok, raise_if, Result-cases}
use homelink.Common.{
  ℕ, ◌≤◌, String, ◌≡◌, refl, sym, ap, ◌∙◌, inl, inr, Bool, true, false, not, List, ltb, ltb-false,
  Option-cases,
}
use homelink.NonceCache.{NonceCache, check_and_add}

raise_if-not : (b : Bool) (e : Exc) {u : Unit {0}} → raise_if (not b) e ≡ ok u → b ≡ true
raise_if-not true e h = refl
raise_if-not false e h = cc

raise_if-ok : (b : Bool) (e : Exc) {u : Unit {0}} → raise_if b e ≡ ok u → b ≡ false
raise_if-ok true e h = cc
raise_if-ok false e h = refl

-- The parts of an envelope whose signature was checked, as they stand in its fields.
pub record Checked (cr : Crypto) (envelope : Message) (verify_key payload : List ℕ) : Type 0 where
  pub encoded : Value
  pub encoded_sig : Value
  pub timestamp : Value
  pub nonce : Value
  pub version : Value
  pub signed : List ℕ
  pub sig : List ℕ
  pub has_timestamp : item envelope "timestamp" ≡ ok timestamp
  pub has_payload : item envelope "payload" ≡ ok encoded
  pub decoded : cr.b64decode encoded ≡ ok payload
  pub has_signature : item envelope "signature" ≡ ok encoded_sig
  pub decoded_sig : cr.b64decode encoded_sig ≡ ok sig
  pub has_version : item envelope "version" ≡ ok version
  pub current : is_version version ≡ true
  pub has_nonce : item envelope "nonce" ≡ ok nonce
  pub canonical :
      canonical_bytes cr payload timestamp nonce (get envelope "device_id" (str "")) version
      ≡ ok signed
  pub verified : cr.verify verify_key signed sig ≡ true

-- The parts of an envelope that passed the checks before the signature.
pub record Timely (py : Python) (envelope : Message) (now : ℕ) (key : String) : Type 0 where
  pub versioned : is_version (get envelope "version" (num (pos 0))) ≡ true
  pub timestamp : Value
  pub sent : ℤ
  pub has_timestamp : item envelope "timestamp" ≡ ok timestamp
  pub time : as_time timestamp ≡ ok sent
  pub recent : distance now sent ≤ timestamp_tolerance
  pub nonce : Value
  pub has_nonce : item envelope "nonce" ≡ ok nonce
  pub keyed : key_of py nonce ≡ ok key

-- An envelope that was accepted for a key, at a time, by a cache.
pub record Accepted (py : Python) (cr : Crypto) (envelope : Message) (verify_key : List ℕ)
    (cache : NonceCache) (now tick : ℕ) (payload : List ℕ) : Type 0 where
  pub key : String
  pub cache_after : NonceCache
  pub unseen : check_and_add cache key tick ≡ ok cache_after
  pub timely : Timely py envelope now key
  pub checked : Checked cr envelope verify_key payload

version-item :
    (envelope : Message) (version : Value)
    → item envelope "version" ≡ ok version
    → get envelope "version" (num (pos 0)) ≡ version
unfolding item get
version-item envelope version h = elim (Option-cases (Dict.lookup "version" envelope)) [
  | inl missing ↦ cc (rw (missing, item) at h)
  | inr (v, there) ↦ let same : v ≡ version = cc (rw (there, item) at h) in rw (there, get) same
]

module _ (py : Python) (cr : Crypto) where
  check_signed-Checked :
      (envelope : Message) (verify_key payload' sig payload : List ℕ) (encoded encoded_sig : Value)
      → is_version (get envelope "version" (num (pos 0))) ≡ true
      → item envelope "payload" ≡ ok encoded
      → cr.b64decode encoded ≡ ok payload'
      → item envelope "signature" ≡ ok encoded_sig
      → cr.b64decode encoded_sig ≡ ok sig
      → check_signed py cr envelope verify_key payload' sig ≡ ok payload
      → Checked cr envelope verify_key payload
  unfolding check_signed
  check_signed-Checked envelope verify_key payload' sig payload encoded encoded_sig versioned
        e_payload e_decoded e_signature e_sig h =
      let (version, e_version, h5) = after-eq-ok _ (item envelope "version") h in
      let (timestamp, e_timestamp, h6) = after-eq-ok _ (item envelope "timestamp") h5 in
      let (nonce, e_nonce, h7) = after-eq-ok _ (item envelope "nonce") h6 in
      let (signed, e_signed, h8) =
        after-eq-ok _
          (canonical_bytes cr payload' timestamp nonce (get envelope "device_id" (str "")) version)
          h7 in
      let (_, e_verified, h9) =
        after-eq-ok (λ _. ok payload')
          (raise_if (not (cr.verify verify_key signed sig)) value_error) h8 in
      let same : payload' ≡ payload = cc in
      record {
        encoded = encoded;
        encoded_sig = encoded_sig;
        timestamp = timestamp;
        nonce = nonce;
        version = version;
        signed = signed;
        sig = sig;
        has_timestamp = e_timestamp;
        has_payload = e_payload;
        decoded = e_decoded ∙ ap ok same;
        has_signature = e_signature;
        decoded_sig = e_sig;
        has_version = e_version;
        current = ap is_version (sym (version-item envelope version e_version)) ∙ versioned;
        has_nonce = e_nonce;
        canonical =
            ap
              (λ x.
                canonical_bytes cr x timestamp nonce (get envelope "device_id" (str "")) version)
              (sym same)
            ∙ e_signed;
        verified = raise_if-not (cr.verify verify_key signed sig) value_error e_verified;
      }

  check_signature-Checked :
      (envelope : Message) (verify_key payload : List ℕ)
      → is_version (get envelope "version" (num (pos 0))) ≡ true
      → check_signature py cr envelope verify_key ≡ ok payload
      → Checked cr envelope verify_key payload
  unfolding check_signature
  check_signature-Checked envelope verify_key payload versioned h =
      let (encoded, e1, h1) = after-eq-ok _ (item envelope "payload") h in
      let (payload', e2, h2) = after-eq-ok _ (cr.b64decode encoded) h1 in
      let (encoded_sig, e3, h3) = after-eq-ok _ (item envelope "signature") h2 in
      let (sig, e4, h4) = after-eq-ok _ (cr.b64decode encoded_sig) h3 in
      check_signed-Checked envelope verify_key payload' sig payload encoded encoded_sig versioned e1
        e2 e3 e4 h4

  not_late : (n : ℕ) → ltb timestamp_tolerance n ≡ false → n ≤ timestamp_tolerance
  not_late n h = ltb-false timestamp_tolerance n h

  check_envelope-Timely :
      (envelope : Message) (now : ℕ) (key : String)
      → check_envelope py cr envelope now ≡ ok key
      → Timely py envelope now key
  unfolding check_envelope check_timestamp check_version
  check_envelope-Timely envelope now key h =
      let (_, e_version, h1) = after-eq-ok _ (check_version envelope) h in
      let (timestamp, e_timestamp, h2) = after-eq-ok _ (item envelope "timestamp") h1 in
      let (_, e_recent, h3) = after-eq-ok _ (check_timestamp timestamp now) h2 in
      let (nonce, e_nonce, keyed) = after-eq-ok _ (item envelope "nonce") h3 in
      let (sent, e_sent, h4) = after-eq-ok _ (as_time timestamp) e_recent in
      record {
        versioned =
            raise_if-not (is_version (get envelope "version" (num (pos 0)))) value_error e_version;
        timestamp = timestamp;
        sent = sent;
        has_timestamp = e_timestamp;
        time = e_sent;
        recent = not_late (distance now sent) (raise_if-ok _ value_error h4);
        nonce = nonce;
        has_nonce = e_nonce;
        keyed = keyed;
      }

-- An envelope that is accepted is of the current version and carries a timestamp within the
-- tolerance and a nonce that the cache takes, and the signature in its field fits, under the
-- given key, the canonical bytes of the payload, timestamp, nonce, device ID and version in its
-- fields, the payload being the one that is returned.
pub verify_signature-Accepted :
    (py : Python) (cr : Crypto) (envelope : Message) (verify_key : List ℕ) (cache : NonceCache)
    (now tick : ℕ) (payload : List ℕ)
    → (verify_signature py cr envelope verify_key cache now tick).0 ≡ ok payload
    → Accepted py cr envelope verify_key cache now tick payload
unfolding verify_signature
verify_signature-Accepted py cr envelope verify_key cache now tick payload h =
    elim (Result-cases (check_envelope py cr envelope now)) [
      | inr (e, early) ↦ cc (rw (early, verify_signature) at h)
      | inl (key, passed) ↦ elim (Result-cases (check_and_add cache key tick)) [
        | inr (e, seen) ↦ cc (rw (passed, seen, verify_signature) at h)
        | inl (cache', unseen) ↦ record {
          key = key;
          cache_after = cache';
          unseen = unseen;
          timely = check_envelope-Timely py cr envelope now key passed;
          checked =
              check_signature-Checked py cr envelope verify_key payload
                (check_envelope-Timely py cr envelope now key passed).versioned
                (rw (passed, unseen, verify_signature) at h);
        }
      ]
    ]
