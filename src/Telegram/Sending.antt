-- ===== src/Telegram/Sending.antt =====
-- homelink/transport/telegram/transport.py, the sending side: `start`, `send` and the texts that
-- are posted. The answers of the bot API are arguments; `json.dumps` is a parameter.
use homelink.Common.{
  ℕ, ◌*◌, String, ◌<>◌, Bool, false, not, ◌||◌, Option, none, some, List, [], ◌∷◌, ◌++◌, ltb,
  if◌then◌else◌, length,
}
use homelink.Common.Exc.{
  Result, ok, raise, transport_error, attribute_error, ◌>>=◌, ◌>>◌, raise_if, is_ok,
}
use homelink.Common.Int.{pos}
use homelink.Common.Text.{truthy}
use homelink.Common.Json.{
  Value, null, num, str, obj, entry, done, Message, Python, get, item, to_fields, is_true,
}
use homelink.Signing.{Crypto, sign_message}
use homelink.Telegram.{is_string}

pub record Sender : Type 0 where
  pub token : String
  pub chat_id : String
  pub device_id : String
  pub signing_key : Option (List ℕ)
  pub available : Bool
  -- what was posted to the chat, in order
  pub posted : List String

pub record Encoder : Type 0 where
  pub py : Python
  pub crypto : Crypto
  -- `json.dumps(v)`
  pub dumps : Value → String

abbrev pub Outcome : Type 0
Outcome = Result (Unit {0}) × Sender

abbrev pub telegram_max_msg_bytes : ℕ
telegram_max_msg_bytes = 4096

-- in megabytes
abbrev pub large_file_threshold : ℕ
large_file_threshold = 50

-- `_api_url`
abbrev pub api_url : Sender → String → String
api_url s endpoint = "https://api.telegram.org/bot" <> (s.token <> ("/" <> endpoint))

-- The answer to `getMe`, in `_test_connection`.
unfoldable pub test_connection : Result Message → Result (Unit {0})
unfolding get item
test_connection answer = do
  response ← answer
  raise_if (not (is_true (get response "ok" null))) transport_error
  result ← item response "result"
  elim result [ obj fields ↦ ok tt | _ ↦ raise attribute_error ]

-- `start`, up to the poll loop.
unfoldable pub start : Sender → Result Message → Sender
unfolding test_connection
start s answer =
    if not (truthy s.token) || not (truthy s.chat_id)
    then s
    else record s { available = is_ok (test_connection answer) }

abbrev pub stop : Sender → Sender
stop s = record s { available = false }

-- `_send_text`: the text is posted, and the answer read.
unfoldable pub send_text : Sender → String → Result Message → Outcome
unfolding get
send_text s text answer =
    let s' = record s { posted = s.posted ++ text ∷ [] } in
    elim answer [
      | raise e ↦ (raise e, s')
      | ok response ↦ (raise_if (not (is_true (get response "ok" null))) transport_error, s')
    ]

-- What was composed is posted.
unfoldable pub post : Sender → Result String → Result Message → Outcome
unfolding send_text
post s (raise e) answer = (raise e, s)
post s (ok text) answer = send_text s text answer

module _ (enc : Encoder) where
  unfoldable pub chunk_fits : Message → Result (Unit {0})
  unfolding get
  chunk_fits m = do
    content ← enc.crypto.b64decode (get m "data" (str ""))
    raise_if (ltb (large_file_threshold * 1_048_576) (length content)) transport_error

  -- A file chunk of more than the threshold is refused.
  unfoldable pub check_chunk : Message → Result (Unit {0})
  unfolding get chunk_fits
  check_chunk m = if is_string "file_chunk" (get m "type" null) then chunk_fits m else ok tt

  abbrev pub wrapper : String → String → Message → Value
  wrapper to own envelope = obj (
      entry "hl" (num (pos 1)) (
        entry "to" (str to)
          (entry "from" (str own) (entry "envelope" (obj (to_fields envelope)) done))))

  -- The signed wrapper as a text, which must not be too long.
  unfoldable pub compose : Sender → List ℕ → String → Message → ℕ → String → Result String
  compose s key to m now nonce = do
    payload ← enc.crypto.utf8 (enc.dumps (obj (to_fields m)))
    envelope ← sign_message enc.py enc.crypto payload key s.device_id now nonce
    encoded ← enc.crypto.utf8 (enc.dumps (wrapper to s.device_id envelope))
    raise_if (ltb telegram_max_msg_bytes (length encoded)) transport_error
    ok (enc.dumps (wrapper to s.device_id envelope))

  -- `send`, at a time and with a random nonce.
  unfoldable pub send : Sender → String → Message → ℕ → String → Result Message → Outcome
  unfolding check_chunk compose post
  send s to m now nonce answer =
      if not s.available then (raise transport_error, s) else elim s.signing_key [
        | none ↦ (raise transport_error, s)
        | some key ↦ post s (check_chunk m >> compose s key to m now nonce) answer
      ]

  -- `send_signaling`
  abbrev pub send_signaling :
      Sender → String → String → Value → ℕ → String → Result Message → Outcome
  send_signaling s to signal_type content now nonce answer =
      send s to (("type", str ("signal:" <> signal_type)) ∷ ("data", content) ∷ []) now nonce answer

-- `send_pairing_notification`
abbrev pub send_pairing_notification : Sender → String → String → String → Result Message → Outcome
send_pairing_notification s id code name answer =
    send_text s
      ("🔗 *HomeLink Pairing Request*\n\nDevice: `"
        <> (name
            <> ("`\nID: `"
                <> (id
                    <> ("`\nCode: `"
                        <> (code
                            <> ("`\n\nReply `/approve "
                                <> (id
                                    <> ("` to approve or `/deny " <> (id <> "` to reject."))))))))))
      answer
