-- ===== src/Signing.antt =====
-- homelink/crypto/signing.py: signed envelopes. A timestamp counts milliseconds. SHA-256, Ed25519,
-- Base64 and UTF-8 are parameters; the random nonce is an argument.
pub mod Authentic
pub mod Shift
pub mod RoundTrip
use homelink.Common.{
  ℕ, zero, suc, ◌+◌, ◌-◌, ◌/◌, ◌%◌, ◌^◌, String, Bool, true, false, not, List, [], ◌∷◌, ◌++◌, ltb,
  ◌==◌, if◌then◌else◌,
}
use homelink.Common.Int.{ℤ, pos, negsuc}
use homelink.Common.Exc.{
  Result, ok, raise, value_error, overflow_error, attribute_error, type_error, ◌>>=◌, ◌>>◌,
  raise_if,
}
use homelink.Common.Json.{Value, num, str, bool, Message, Python, get, item, key_of}
use homelink.NonceCache.{NonceCache, check_and_add}

pub record Crypto : Type 0 where
  -- `hashlib.sha256(b).digest()`
  pub digest : List ℕ → List ℕ
  -- `s.encode("utf-8")`, which raises for a lone surrogate
  pub utf8 : String → Result (List ℕ)
  pub b64encode : List ℕ → String
  pub b64decode : Value → Result (List ℕ)
  -- the Ed25519 signature by a signing key, and whether a verify key accepts one
  pub sign : List ℕ → List ℕ → List ℕ
  pub verify : List ℕ → List ℕ → List ℕ → Bool

abbrev pub timestamp_tolerance : ℕ
timestamp_tolerance = 30_000

abbrev pub envelope_version : ℕ
envelope_version = 1

-- `n.to_bytes(width, "big")` of a number that fits.
unfoldable pub big_endian : ℕ → ℕ → List ℕ
big_endian zero n = []
big_endian (suc width) n = big_endian width (n / 256) ++ n % 256 ∷ []

-- `n.to_bytes(width, "big")`
unfoldable pub to_bytes : ℕ → ℤ → Result (List ℕ)
unfolding big_endian
to_bytes width (negsuc n) = raise overflow_error
to_bytes width (pos n) =
    if ltb n (256 ^ width) then ok (big_endian width n) else raise overflow_error

-- A timestamp in a subtraction; `True` is one second.
unfoldable pub as_time : Value → Result ℤ
as_time (num z) = ok z
as_time (bool true) = ok (pos 1000)
as_time (bool false) = ok (pos 0)
as_time v = raise type_error

-- `v.encode("utf-8")`
unfoldable pub encode : Crypto → Value → Result (List ℕ)
encode cr (str s) = cr.utf8 s
encode cr v = raise attribute_error

-- `version.to_bytes(2, "big")`
unfoldable pub version_bytes : Value → Result (List ℕ)
unfolding to_bytes
version_bytes (num z) = to_bytes 2 z
version_bytes (bool true) = to_bytes 2 (pos 1)
version_bytes (bool false) = to_bytes 2 (pos 0)
version_bytes v = raise attribute_error

-- `_canonical_bytes`
unfoldable pub canonical_bytes : Crypto → List ℕ → Value → Value → Value → Value → Result (List ℕ)
unfolding as_time to_bytes encode version_bytes
canonical_bytes cr payload timestamp nonce device_id version = do
  ts ← as_time timestamp
  ts_bytes ← to_bytes 8 ts
  ver_bytes ← version_bytes version
  nonce_bytes ← encode cr nonce
  device_bytes ← encode cr device_id
  ok (cr.digest payload ++ (ts_bytes ++ (nonce_bytes ++ (device_bytes ++ ver_bytes))))

-- `v != ENVELOPE_VERSION`: `True` equals 1.
abbrev pub is_version : Value → Bool
is_version (num (pos n)) = n == envelope_version
is_version (bool b) = b
is_version v = false

-- `_check_version`
unfoldable pub check_version : Message → Result (Unit {0})
unfolding get
check_version envelope =
    raise_if (not (is_version (get envelope "version" (num (pos 0))))) value_error

-- `abs(now - ts)`
abbrev pub distance : ℕ → ℤ → ℕ
distance now (pos ts) = (now - ts) + (ts - now)
distance now (negsuc n) = now + suc n

-- `_check_timestamp`
unfoldable pub check_timestamp : Value → ℕ → Result (Unit {0})
unfolding as_time
check_timestamp timestamp now = do
  ts ← as_time timestamp
  raise_if (ltb timestamp_tolerance (distance now ts)) value_error

module _ (py : Python) (cr : Crypto) where
  -- `sign_message`: the fields in their order.
  unfoldable pub sign_message : List ℕ → List ℕ → String → ℕ → String → Result Message
  unfolding canonical_bytes
  sign_message payload signing_key device_id now nonce = do
    to_sign ←
        canonical_bytes cr payload (num (pos now)) (str nonce) (str device_id)
          (num (pos envelope_version))
    ok (
        ("payload", str (cr.b64encode payload))
        ∷ ("signature", str (cr.b64encode (cr.sign signing_key to_sign)))
        ∷ ("device_id", str device_id)
        ∷ ("timestamp", num (pos now))
        ∷ ("nonce", str nonce)
        ∷ ("version", num (pos envelope_version))
        ∷ [])

  -- The end of `verify_signature`, from the signed bytes on.
  unfoldable pub check_signed : Message → List ℕ → List ℕ → List ℕ → Result (List ℕ)
  unfolding canonical_bytes get item
  check_signed envelope verify_key payload sig = do
    version ← item envelope "version"
    timestamp ← item envelope "timestamp"
    nonce ← item envelope "nonce"
    to_sign ← canonical_bytes cr payload timestamp nonce (get envelope "device_id" (str "")) version
    raise_if (not (cr.verify verify_key to_sign sig)) value_error
    ok payload

  -- `verify_signature` after the nonce has been recorded.
  unfoldable pub check_signature : Message → List ℕ → Result (List ℕ)
  unfolding check_signed item
  check_signature envelope verify_key = do
    encoded ← item envelope "payload"
    payload ← cr.b64decode encoded
    encoded_sig ← item envelope "signature"
    sig ← cr.b64decode encoded_sig
    check_signed envelope verify_key payload sig

  -- The checks before the nonce is recorded: the nonce, as a key.
  unfoldable pub check_envelope : Message → ℕ → Result String
  unfolding check_version check_timestamp item key_of
  check_envelope envelope now = do
    check_version envelope
    timestamp ← item envelope "timestamp"
    check_timestamp timestamp now
    nonce ← item envelope "nonce"
    key_of py nonce

  -- `verify_signature`, at a time of the wall clock and one of the monotonic clock. The nonce is
  -- recorded before the signature is checked.
  unfoldable pub verify_signature :
      Message → List ℕ → NonceCache → ℕ → ℕ → Result (List ℕ) × NonceCache
  unfolding check_envelope check_signature check_and_add
  verify_signature envelope verify_key cache now tick = elim (check_envelope envelope now) [
    | raise e ↦ (raise e, cache)
    | ok nonce ↦ elim (check_and_add cache nonce tick) [
      | raise e ↦ (raise e, cache)
      | ok cache' ↦ (check_signature envelope verify_key, cache')
    ]
  ]
