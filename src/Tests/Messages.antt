-- ===== src/Tests/Messages.antt =====
-- Runs of homelink/crypto/signing.py and homelink/transport/telegram/transport.py.
use homelink.Common.Json.{
  key_of, to_str, item, Value, num, str, bool, obj, done, entry, Message, Python, to_fields, get,
}
use homelink.Common.Dict
use homelink.Common.{ℕ, ◌+◌, String, ◌≡◌, refl, ap, true, none, some, List, [], ◌∷◌, arith, ◌==◌}
use homelink.Common.Text.{codes}
use homelink.Common.Int.{pos}
use homelink.Common.Exc.{Result, ok, raise, type_error}
use homelink.RateLimiter
use homelink.NonceCache
use homelink.NonceCache.{NonceCache, check_and_add}
use homelink.Signing.{
  Crypto, canonical_bytes, sign_message, verify_signature, check_envelope, check_signature,
  check_signed, check_version, check_timestamp, as_time, big_endian, to_bytes, version_bytes,
  encode,
}
use homelink.Signing.Authentic.{Accepted, verify_signature-Accepted}
use homelink.Signing.RoundTrip.{verify_signature-sign_message}
use homelink.Signing.Shift.{envelope_of, Encodes, verify_signature-shift}
use homelink.Telegram.{
  Platform, Telegram, handle_update, read_update, dispatched, attribute_get, handle_from,
  handle_value, handle_text, handle_wrapper, accept_sender, open_envelope, deliver_bytes, deliver,
}
use homelink.Telegram.Trusted.{Adds}
use homelink.Telegram.Updates.{handle_update-Adds}

abbrev seven : Value → Result (List ℕ)
seven (str s) = ok (7 ∷ [])
seven v = raise type_error

abbrev crypto : Crypto
crypto = record {
  digest = λ b. b;
  utf8 = λ s. ok (codes s);
  b64encode = λ b. "Bw==";
  b64decode = seven;
  sign = λ key m. 7 ∷ [];
  verify = λ key m sig. true;
}

abbrev pub python : Python
python = record { repr = λ v. "?"; parse_int = λ s. none }

abbrev pub sent_at : ℕ
sent_at = 1_700_000_000_000

abbrev pub envelope : Message
envelope = envelope_of "Bw==" "Bw==" "AB" (pos sent_at) "n1"

signed_run : sign_message python crypto (7 ∷ []) [] "AB" sent_at "n1" ≡ ok envelope
unfolding sign_message canonical_bytes as_time to_bytes version_bytes encode big_endian
signed_run = refl

abbrev pub after_n1 : NonceCache
after_n1 = record NonceCache.new { cache = ("n1", 5) ∷ [] }

pub cache_run : check_and_add NonceCache.new "n1" 5 ≡ ok after_n1
unfolding check_and_add Dict.has_key Dict.insert
cache_run = refl

first_accepted :
    verify_signature python crypto envelope [] NonceCache.new (sent_at + 20) 5
    ≡ (ok (7 ∷ []), after_n1)
first_accepted =
    verify_signature-sign_message python crypto (7 ∷ []) [] [] "AB" "n1" envelope NonceCache.new
      after_n1 sent_at (sent_at + 20) 5 refl (λ m. refl) (λ m. refl) signed_run (omega arith)
      cache_run

verify_signature-Accepted_example :
    Accepted python crypto envelope [] NonceCache.new (sent_at + 20) 5 (7 ∷ [])
verify_signature-Accepted_example =
    verify_signature-Accepted python crypto envelope [] NonceCache.new (sent_at + 20) 5 (7 ∷ [])
      (ap (λ p. p.0) first_accepted)

abbrev encoded_pieces : Encodes crypto "n1" "A" "B"
encoded_pieces = record {
  nonce_bytes = codes "n1";
  piece_bytes = codes "A";
  device_bytes = codes "B";
  of_nonce = refl;
  of_device_id = refl;
  of_longer_nonce = refl;
  of_longer_device_id = refl;
}

abbrev after_n1a : NonceCache
after_n1a = record NonceCache.new { cache = ("n1", 5) ∷ ("n1A", 9) ∷ [] }

longer_run : check_and_add after_n1 "n1A" 9 ≡ ok after_n1a
unfolding check_and_add Dict.has_key Dict.insert
longer_run = refl

verify_signature-shift_example :
    verify_signature python crypto
      (envelope_of "Bw==" "Bw==" "B" (pos sent_at) "n1A")
      []
      after_n1
      (sent_at + 20)
      9
    ≡ (ok (7 ∷ []), after_n1a)
verify_signature-shift_example =
    verify_signature-shift python crypto "n1" "A" "B" "Bw==" "Bw==" (pos sent_at) [] (7 ∷ [])
      NonceCache.new after_n1 after_n1 after_n1a (sent_at + 20) 5 9 encoded_pieces first_accepted
      longer_run

abbrev pub platform : Platform
platform = record {
  py = python;
  crypto = crypto;
  is_space = λ c. c == 32;
  upper = λ s. s;
  loads = λ s. some (
      obj (
        to_fields (
          ("hl", num (pos 1))
          ∷ ("to", str "ME")
          ∷ ("from", str "AB")
          ∷ ("envelope", obj (to_fields envelope))
          ∷ [])));
  loads_bytes = λ b. ok (some (obj (entry "type" (str "heartbeat") done)));
}

abbrev pub bot : Telegram
bot = record {
  chat_id = "42";
  device_id = "ME";
  device_mgr =
      some (("AB", record { verify_key = []; approved = bool true; role = str "viewer" }) ∷ []);
  peer_nonce_caches = [];
  limiter = RateLimiter.new 60 60_000;
  receives = true;
  effects = [];
}

abbrev update_from : String → Value
update_from chat = obj (
    entry "message"
      (obj (entry "text" (str "{}") (entry "chat" (obj (entry "id" (str chat) done)) done))) done)

-- A signed message of an approved peer is passed on, with its origin.
update_run :
    (handle_update platform bot (update_from "42") (sent_at + 20) 5).1.effects
    ≡ dispatched
        (("type", str "heartbeat") ∷ ("from_device", str "AB") ∷ ("transport", str "telegram") ∷ [])
      ∷ []
unfolding handle_update read_update attribute_get handle_from handle_value handle_text
    handle_wrapper accept_sender open_envelope deliver_bytes deliver verify_signature check_envelope
    check_version check_timestamp check_signature check_signed canonical_bytes as_time to_bytes
    version_bytes encode big_endian check_and_add Dict.has_key Dict.lookup Dict.insert get item
    key_of to_str RateLimiter.is_allowed
update_run = refl

handle_update-Adds_example :
    Adds platform bot
      (update_from "42")
      (sent_at + 20)
      5
      (handle_update platform bot (update_from "42") (sent_at + 20) 5).1.effects
handle_update-Adds_example = handle_update-Adds platform bot (update_from "42") (sent_at + 20) 5
