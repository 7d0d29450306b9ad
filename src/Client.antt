-- ===== src/Client.antt =====
-- homelink/cli/client.py: a request to another device over Telegram, and the wait for its response.
-- The configuration that is loaded, the answers of the bot API and the messages that the transport
-- passes on before the timeout are arguments.
pub mod Waiting
pub mod Requests
use homelink.Common.Dict
use homelink.Common.Dict.{Dict}
use homelink.Common.{
  ℕ, String, ◌<>◌, Bool, true, false, ◌&&◌, Option, none, some, List, [], ◌∷◌, if◌then◌else◌,
}
use homelink.Common.Exc.{
  Result, ok, raise, type_error, attribute_error, connection_error, ok_or, ◌>>=◌,
}
use homelink.Common.Json.{Value, null, str, arr, obj, Message, Python, get, to_str, is_true}
use homelink.Telegram.{is_string}
use homelink.Telegram.Sending
use homelink.Telegram.Sending.{Sender, Encoder}
use homelink.Config.{HomeLinkConfig, is_valid}

-- The types of responses, by the types of requests.
abbrev pub response_types : Dict String
response_types =
    ("ls_request", "ls_result")
    ∷ ("exec_request", "exec_result")
    ∷ ("status_request", "status_result")
    ∷ ("rm_request", "rm_result")
    ∷ ("mkdir_request", "mkdir_result")
    ∷ ("tree_request", "tree_result")
    ∷ []

-- `mapping.get(request_type)`, where a list or a dict cannot be looked up.
unfoldable pub response_type : Value → Result (Option String)
unfolding Dict.lookup
response_type (str kind) = ok (Dict.lookup kind response_types)
response_type (arr parts) = raise type_error
response_type (obj fields) = raise type_error
response_type v = ok none

abbrev pub is_null : Value → Bool
is_null null = true
is_null v = false

-- `mapping.get(...) == response_type`
abbrev pub is_same : Option String → Value → Bool
is_same none v = is_null v
is_same (some kind) v = is_string kind v

-- `_is_response_for`
unfoldable pub is_response_for : Value → Value → Result Bool
unfolding response_type
is_response_for request response = do
  expected ← response_type request
  ok (is_same expected response)

-- Is a message taken by `capture_response`? Where the test raises, it is not.
unfoldable pub captures : Value → Message → Bool
unfolding is_response_for get
captures request m = ok_or false (is_response_for request (get m "type" (str "")))

-- The wait for the response: the first message that is captured, if there is one.
unfoldable pub await_response : Value → List Message → Option Message
unfolding captures
await_response request [] = none
await_response request (m ∷ arrivals) =
    let rest = await_response request arrivals in if captures request m then some m else rest

-- How `send_request` ends: with a response, or with a message for the user.
pub data Answer : Type 0 where
  response : Message → Answer
  no_transport : Answer
  timeout : Value → Answer

-- The text of the errors.
abbrev pub answer_message : Python → Answer → Message
answer_message py (response m) = m
answer_message py no_transport =
    ("error", str "No transport available. Is the daemon running?") ∷ []
answer_message py (timeout kind) =
    ("error", str ("Timeout waiting for response to " <> to_str py kind)) ∷ []

abbrev pub answer_of : Value → Option Message → Answer
answer_of kind none = timeout kind
answer_of kind (some m) = response m

module _ (enc : Encoder) where
  -- `_get_transport`: a transport without a signing key.
  unfoldable pub get_transport : HomeLinkConfig → Result Message → Option Sender
  unfolding to_str Sending.start
  get_transport cfg answer =
      if is_true cfg.telegram.enabled && is_valid cfg.telegram
      then some (
          Sending.start
            (record {
              token = to_str enc.py cfg.telegram.bot_token;
              chat_id = to_str enc.py cfg.telegram.chat_id;
              device_id = cfg.device_id;
              signing_key = none;
              available = false;
              posted = [];
            })
            answer)
      else none

  -- From the sending on, over a transport.
  unfoldable pub request_over :
      Sender → String → Message → ℕ → String → Result Message → List Message → Result Answer
  unfolding Sending.send await_response get
  request_over t target m now nonce posted arrivals =
      let kind = get m "type" (str "") in
      do
        _ ← (Sending.send enc t target m now nonce posted).0
        ok (answer_of kind (await_response kind arrivals))

  -- `send_request`, from the loaded configuration on.
  unfoldable pub request_with :
      HomeLinkConfig
      → String
      → Message
      → ℕ
      → String
      → Result Message
      → Result Message
      → List Message
      → Result Answer
  unfolding get_transport request_over Dict.insert
  request_with cfg target m now nonce started posted arrivals =
      let m' = Dict.insert "from_device" (str cfg.device_id) m in
      elim (get_transport cfg started) [
        | none ↦ ok no_transport
        | some t ↦ request_over t target m' now nonce posted arrivals
      ]

  unfoldable pub send_request :
      Result HomeLinkConfig
      → String
      → Message
      → ℕ
      → String
      → Result Message
      → Result Message
      → List Message
      → Result Answer
  unfolding request_with
  send_request loaded target m now nonce started posted arrivals = do
    cfg ← loaded
    request_with cfg target m now nonce started posted arrivals

  unfoldable pub download_with : Option Sender → Result (Unit {0})
  download_with none = raise connection_error
  download_with (some t) = raise attribute_error

  -- `download_file`: the file transfer has no `_handle_download_message`.
  unfoldable pub download_file : Result HomeLinkConfig → Result Message → Result (Unit {0})
  unfolding get_transport download_with
  download_file loaded started = do cfg ← loaded; download_with (get_transport cfg started)
