-- ===== src/Session.antt =====
-- homelink/crypto/session.py: the cipher of one direction of a session. ChaCha20-Poly1305 and
-- Argon2id are parameters; the monotonic clock and the random bytes are arguments.
pub mod Laws
use homelink.Common.{
  ℕ, ◌+◌, ◌-◌, ◌*◌, Bool, ◌||◌, Option, none, some, List, [], ◌∷◌, ◌++◌, ltb, leb, ◌==◌,
  if◌then◌else◌, length, take, drop,
}
use homelink.Common.Text.{codes, elem}
use homelink.Common.Exc.{Result, ok, raise, value_error, nonce_exhausted, replay_error}
use homelink.Signing.{big_endian}

pub record Aead : Type 0 where
  -- key, nonce, plaintext and associated data
  pub seal : List ℕ → List ℕ → List ℕ → List ℕ → List ℕ
  -- `none` where the tag does not fit
  pub unseal : List ℕ → List ℕ → List ℕ → List ℕ → Option (List ℕ)
  -- `derive_key(password, salt)[0]`
  pub derive_key : List ℕ → List ℕ → List ℕ

pub record SessionCipher : Type 0 where
  pub key : List ℕ
  pub send_counter : ℕ
  pub seen_nonces : List ℕ
  pub message_count : ℕ
  pub created_at : ℕ
  pub nonce_prefix : List ℕ

abbrev pub max_messages : ℕ
max_messages = 1000

-- `MAX_AGE_SECONDS`, in milliseconds
abbrev pub max_age : ℕ
max_age = 3_600_000

-- `SessionCipher(key)` with its `__post_init__`, from the eight random bytes.
unfoldable pub new_cipher : List ℕ → List ℕ → ℕ → Result SessionCipher
new_cipher key prefix now =
    if length key == 32
    then ok (record {
      key = key;
      send_counter = 0;
      seen_nonces = [];
      message_count = 0;
      created_at = now;
      nonce_prefix = prefix;
    })
    else raise value_error

-- `_make_nonce`
unfoldable pub make_nonce : SessionCipher → ℕ → List ℕ
unfolding big_endian
make_nonce c counter = big_endian 4 counter ++ c.nonce_prefix

-- `int.from_bytes(b, "big")`, after the number read so far.
abbrev pub from_bytes : ℕ → List ℕ → ℕ
from_bytes n [] = n
from_bytes n (b ∷ bs) = from_bytes (n * 256 + b) bs

abbrev pub key_purpose : List ℕ
key_purpose = codes "homelink-private-key"

module _ (aead : Aead) where
  unfoldable pub encrypt : SessionCipher → List ℕ → List ℕ → Result (List ℕ) × SessionCipher
  unfolding make_nonce
  encrypt c plaintext associated_data =
      if leb 4_294_967_296 c.send_counter
      then (raise nonce_exhausted, c)
      else let nonce = make_nonce c c.send_counter in
        (
          ok (nonce ++ aead.seal c.key nonce plaintext associated_data),
          record c { send_counter = c.send_counter + 1; message_count = c.message_count + 1 },
        )

  -- The counter is recorded before the tag is checked.
  unfoldable pub decrypt : SessionCipher → List ℕ → List ℕ → Result (List ℕ) × SessionCipher
  decrypt c ciphertext associated_data =
      let nonce = take 12 ciphertext in
      let nonce_int = from_bytes 0 (take 4 nonce) in
      if ltb (length ciphertext) 28
      then (raise value_error, c)
      else if elem nonce_int c.seen_nonces
      then (raise replay_error, c)
      else let c' = record c { seen_nonces = nonce_int ∷ c.seen_nonces } in
        elim (aead.unseal c.key nonce (drop 12 ciphertext) associated_data) [
          | none ↦ (raise replay_error, c')
          | some plaintext ↦ (ok plaintext, c')
        ]

  -- `needs_rotation`
  unfoldable pub needs_rotation : SessionCipher → ℕ → Bool
  needs_rotation c now = leb max_messages c.message_count || leb max_age (now - c.created_at)

  unfoldable pub encrypt_private_key : List ℕ → List ℕ → List ℕ → List ℕ → List ℕ
  encrypt_private_key private_key password salt nonce =
      salt ++ (nonce ++ aead.seal (aead.derive_key password salt) nonce private_key key_purpose)

  unfoldable pub decrypt_private_key : List ℕ → List ℕ → Result (List ℕ)
  decrypt_private_key encrypted password =
      let salt = take 16 encrypted in
      let nonce = take 12 (drop 16 encrypted) in
      if ltb (length encrypted) 44
      then raise value_error
      else elim (aead.unseal (aead.derive_key password salt) nonce (drop 28 encrypted)
          key_purpose) [ none ↦ raise value_error | some private_key ↦ ok private_key ]
