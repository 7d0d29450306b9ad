-- ===== src/Tests/Sessions.antt =====
-- Runs of homelink/crypto/session.py.
use homelink.Common.{ℕ, ◌≡◌, refl, ◌≢◌, some, List, [], ◌∷◌, ◌++◌, arith, take, drop, replicate}
use homelink.Common.Text.{codes}
use homelink.Common.Exc.{ok, raise, replay_error}
use homelink.Signing.{big_endian}
use homelink.Session.{Aead, SessionCipher, encrypt, decrypt, make_nonce}
use homelink.Session.Laws.{encrypt_all, encrypt-nonces, decrypt-replay}

abbrev pub aead : Aead
aead = record {
  seal = λ key nonce p a. replicate 16 0 ++ p;
  unseal = λ key nonce c a. some (drop 16 c);
  derive_key = λ password salt. password;
}

abbrev cipher : SessionCipher
cipher = record {
  key = replicate 32 1;
  send_counter = 0;
  seen_nonces = [];
  message_count = 0;
  created_at = 0;
  nonce_prefix = replicate 8 9;
}

abbrev first : List ℕ
first = replicate 4 0 ++ (replicate 8 9 ++ (replicate 16 0 ++ codes "hi"))

abbrev second : List ℕ
second = (0 ∷ 0 ∷ 0 ∷ 2 ∷ []) ++ (replicate 8 9 ++ (replicate 16 0 ++ codes "yo"))

first_run : (encrypt aead cipher (codes "hi") []).0 ≡ ok first
unfolding encrypt make_nonce big_endian
first_run = refl

second_run :
    (encrypt aead
      (encrypt_all aead (encrypt aead cipher (codes "hi") []).1 ((codes "x", []) ∷ []))
      (codes "yo")
      []).0
    ≡ ok second
unfolding encrypt make_nonce big_endian
second_run = refl

encrypt-nonces_example : take 12 first ≢ take 12 second
encrypt-nonces_example =
    encrypt-nonces aead cipher (codes "hi") [] (codes "yo") [] first second ((codes "x", []) ∷ [])
      refl first_run second_run

decrypt-replay_example :
    (decrypt aead (decrypt aead cipher first []).1 first (codes "ad")).0 ≡ raise replay_error
decrypt-replay_example = decrypt-replay aead cipher first [] (codes "ad") (omega arith)
