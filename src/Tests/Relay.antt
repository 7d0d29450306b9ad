-- ===== src/Tests/Relay.antt =====
-- A message on its way, of homelink/transport/telegram/transport.py.
use homelink.RateLimiter
use homelink.Common.Exc.{ok_or, Result, ok, raise, type_error, index_error}
use homelink.Common.{ℕ, ◌+◌, ◌≤◌, ◌≡◌, refl, ap, true, none, some, List, [], ◌∷◌, arith, ◌==◌}
use homelink.Common.Dict
use homelink.Common.Int.{pos}
use homelink.Common.Json.{
  Value, str, num, bool, obj, entry, done, Message, to_fields, get, to_str, item, as_number,
}
use homelink.Signing.{
  Crypto, sign_message, canonical_bytes, as_time, to_bytes, version_bytes, encode, big_endian,
}
use homelink.Signing.Shift.{envelope_of}
use homelink.Telegram.{
  Platform, Telegram, handle_update, handle_from, handle_value, handle_text, handle_command,
  dispatched, read_update, attribute_get,
}
use homelink.Telegram.Sending.{
  Sender, Encoder, send, compose, check_chunk, post, send_text, wrapper,
}
use homelink.Telegram.Relay.{Agree, arrived, handle_update-send}
use homelink.Telegram.Polling.{
  Poller, poll_loop, poll_loop-bounds, poll_once, poll_once-lost, handle_all, offset, last_id,
  update_id,
}
use homelink.Tests.Messages.{python, sent_at, after_n1, bot, cache_run}

abbrev seven : Value → Result (List ℕ)
seven (str s) = ok (7 ∷ [])
seven v = raise type_error

abbrev crypto : Crypto
crypto = record {
  digest = λ b. b;
  utf8 = λ s. ok (7 ∷ []);
  b64encode = λ b. "Bw==";
  b64decode = seven;
  sign = λ key m. 7 ∷ [];
  verify = λ key m sig. true;
}

abbrev pub encoder : Encoder
encoder = record { py = python; crypto = crypto; dumps = λ v. "{}" }

abbrev beat : Message
beat = ("type", str "heartbeat") ∷ []

abbrev envelope : Message
envelope = envelope_of "Bw==" "Bw==" "AB" (pos sent_at) "n1"

abbrev platform : Platform
platform = record {
  py = python;
  crypto = crypto;
  is_space = λ c. c == 32;
  upper = λ s. s;
  loads = λ s. some (wrapper encoder "ME" "AB" envelope);
  loads_bytes = λ b. ok (some (obj (to_fields beat)));
}

abbrev sender : Sender
sender = record {
  token = "t";
  chat_id = "42";
  device_id = "AB";
  signing_key = some [];
  available = true;
  posted = [];
}

signed_run : sign_message python crypto (7 ∷ []) [] "AB" sent_at "n1" ≡ ok envelope
unfolding sign_message canonical_bytes as_time to_bytes version_bytes encode big_endian
signed_run = refl

reads_wrapper :
    (payload : List ℕ) (made : Message)
    → sign_message python crypto payload [] "AB" sent_at "n1" ≡ ok made
    → platform.loads "{}" ≡ some (wrapper encoder "ME" "AB" made)
unfolding sign_message canonical_bytes as_time to_bytes version_bytes encode big_endian
reads_wrapper payload made h =
    ap (λ (r : Result Message). some (wrapper encoder "ME" "AB" (ok_or [] r))) h

agree : Agree encoder platform sender [] "ME" beat sent_at "n1"
agree = record {
  same_crypto = refl;
  same_py = refl;
  reads_payload = λ b h. refl;
  reads_wrapper = reads_wrapper;
  braced = λ envelope. (b'}' ∷ [], refl);
}

abbrev answer : Message
answer = ("ok", bool true) ∷ []

abbrev update : Value
update = obj (
    entry "message"
      (obj (entry "text" (str "{}") (entry "chat" (obj (entry "id" (str "42") done)) done))) done)

sent_run : (send encoder sender "ME" beat sent_at "n1" (ok answer)).1.posted ≡ "{}" ∷ []
unfolding send compose check_chunk post send_text sign_message canonical_bytes as_time to_bytes
    version_bytes encode big_endian get Dict.lookup
sent_run = refl

read_run : read_update platform update ≡ ok (str "{}", str "42")
unfolding read_update attribute_get get Dict.lookup
read_run = refl

handle_update-send_example :
    ((handle_update platform bot update (sent_at + 20) 5).0 ≡ ok tt)
    × ((handle_update platform bot update (sent_at + 20) 5).1.effects
        ≡ dispatched (arrived "AB" beat) ∷ [])
unfolding to_str RateLimiter.is_allowed Dict.lookup
handle_update-send_example =
    handle_update-send encoder platform sender bot
      (record { verify_key = []; approved = bool true; role = str "viewer" }) [] beat "n1" "{}"
      (ok answer) update (str "42") after_n1 sent_at (sent_at + 20) 5 agree (λ b h. ap (λ r. r) h)
      (λ b. refl) (λ b. refl) refl refl sent_run read_run refl refl refl refl refl (omega arith)
      cache_run

-- An update of another chat, then one whose text is a command without an argument, which raises.
abbrev stray : Value
stray = obj (entry "update_id" (num (pos 7)) done)

abbrev bare : Value
bare = obj (
    entry "message"
      (obj (entry "text" (str "/approve  ") (entry "chat" (obj (entry "id" (str "42") done)) done)))
      done)

abbrev last : Value
last = obj (entry "update_id" (num (pos 9)) done)

abbrev poller : Poller
poller = record { telegram = bot; last_update_id = num (pos 0); backoff = 1000; slept = [] }

abbrev clock : Value → ℕ × ℕ
clock u = (sent_at, 5)

poll_loop-bounds_example :
    (1000 ≤ (poll_loop platform clock poller (raise type_error ∷ ok none ∷ [])).backoff)
    × ((poll_loop platform clock poller (raise type_error ∷ ok none ∷ [])).backoff ≤ 60_000)
poll_loop-bounds_example =
    poll_loop-bounds platform clock poller (raise type_error ∷ ok none ∷ []) (omega arith)
      (omega arith)

abbrev after_bare : Telegram
after_bare = record bot { limiter = (RateLimiter.is_allowed bot.limiter "42" 5).1 }

bare_run : handle_update platform bot bare sent_at 5 ≡ (raise index_error, after_bare)
unfolding handle_update read_update attribute_get handle_from handle_value handle_text
    handle_command get Dict.lookup to_str RateLimiter.is_allowed
bare_run = refl

stray_run : handle_all platform clock bot (stray ∷ []) ≡ (ok tt, bot)
unfolding handle_all handle_update read_update attribute_get handle_from get Dict.lookup to_str
stray_run = refl

poll_once-lost_example :
    let p' = poll_once platform clock poller (ok (some (stray ∷ bare ∷ last ∷ []))) in
    (p'.telegram ≡ after_bare) × (p'.last_update_id ≡ num (pos 9))
unfolding offset last_id update_id item as_number Dict.lookup
poll_once-lost_example =
    poll_once-lost platform clock poller bot after_bare (stray ∷ []) (last ∷ []) bare (num (pos 9))
      index_error (pos 1) refl refl stray_run bare_run
