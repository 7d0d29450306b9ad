-- ===== src/Telegram.antt =====
-- homelink/transport/telegram/transport.py, the receiving side: what `_handle_update` does with an
-- update of the bot API. What it sends and what it passes on are recorded in order. `json.loads`
-- and what Unicode says of characters are parameters.
pub mod Polling
pub mod Relay
pub mod Sending
pub mod Trusted
pub mod Updates
use homelink.Common.Dict.{Dict}
use homelink.Common.Dict
use homelink.Common.{
  ℕ, String, Bool, true, false, not, ◌&&◌, ◌||◌, Option, none, some, List, [], ◌∷◌, ◌++◌, str_eq,
  ◌==◌, if◌then◌else◌, length,
}
use homelink.Common.Text.{
  codes, starts_with, all, between, chop_newline, truthy, strip, second_part,
}
use homelink.Common.Int.{pos}
use homelink.Common.Exc.{
  ◌>>=◌, Exc, Result, ok, raise, value_error, attribute_error, type_error, index_error,
}
use homelink.Common.Json.{
  Value, num, str, null, bool, obj, done, Message, Python, get, to_str, to_dict, is_true,
}
use homelink.RateLimiter
use homelink.RateLimiter.{RateLimiter}
use homelink.NonceCache
use homelink.NonceCache.{NonceCache}
use homelink.Signing.{Crypto, verify_signature}

-- `DeviceIdentity` of a peer, of homelink/crypto/keys.py: its verify key, and the values of
-- `approved` and `role`.
pub record Peer : Type 0 where
  pub verify_key : List ℕ
  pub approved : Value
  pub role : Value

pub record Platform : Type 0 where
  pub py : Python
  pub crypto : Crypto
  -- `str.isspace` of a character, and `s.upper()`
  pub is_space : ℕ → Bool
  pub upper : String → String
  -- `json.loads` of a text; `none` is a `JSONDecodeError`
  pub loads : String → Option Value
  -- `json.loads` of bytes, which may raise another error for bytes that are no Unicode
  pub loads_bytes : List ℕ → Result (Option Value)

-- What is sent to the chat.
pub data Reply : Type 0 where
  invalid_format no_pending already_approved approval denial : String → Reply
  own_device : Reply

pub data Effect : Type 0 where
  dispatched : Message → Effect
  replied : Reply → Effect

pub record Telegram : Type 0 where
  pub chat_id : String
  pub device_id : String
  -- the peers of `device_mgr`, where there is one
  pub device_mgr : Option (Dict Peer)
  pub peer_nonce_caches : Dict NonceCache
  -- the shared `MSG_LIMITER`
  pub limiter : RateLimiter
  -- is a receive callback set?
  pub receives : Bool
  pub effects : List Effect

abbrev pub Outcome : Type 0
Outcome = Result (Unit {0}) × Telegram

abbrev pub perform : Telegram → Effect → Telegram
perform t e = record t { effects = t.effects ++ e ∷ [] }

-- `if self._on_receive: await self._on_receive(message)`
abbrev pub pass_on : Telegram → Message → Telegram
pass_on t m = if t.receives then perform t (dispatched m) else t

-- `_DEVICE_ID_RE.match(s)`, for the pattern `^[0-9A-F]{16}$`.
unfoldable pub is_device_id : String → Bool
is_device_id s =
    let t = chop_newline (codes s) in
    length t == 16 && all (λ c. between b'0' b'9' c || between b'A' b'F' c) t

abbrev pub lookup_peer : Option (Dict Peer) → String → Option Peer
lookup_peer none id = none
lookup_peer (some peers) id = Dict.lookup id peers

abbrev pub or_new : Option NonceCache → NonceCache
or_new none = NonceCache.new
or_new (some cache) = cache

abbrev pub admin_approval : String → Bool → Message
admin_approval id approved =
    ("type", str "admin_approval") ∷ ("device_id", str id) ∷ ("approved", bool approved) ∷ []

-- `v == 1`
abbrev pub is_one : Value → Bool
is_one (num (pos n)) = n == 1
is_one (bool b) = b
is_one v = false

-- `v == s`
abbrev pub is_string : String → Value → Bool
is_string s (str t) = str_eq t s
is_string s v = false

abbrev pub status_request : Message
status_request = ("type", str "status_request") ∷ []

-- The end of `_handle_approve`.
abbrev pub decide : Telegram → String → Bool → Outcome
decide t id approved = (
  ok tt,
  perform (pass_on t (admin_approval id approved))
      (replied (if approved then approval id else denial id)),
)

-- Step 3 of `_handle_approve`, for the peers of `device_mgr`.
unfoldable pub check_pending : Option (Dict Peer) → Telegram → String → Bool → Outcome
check_pending none t id approved = decide t id approved
check_pending (some peers) t id approved = elim (Dict.lookup id peers) [
  | none ↦ (ok tt, perform t (replied (no_pending id)))
  | some peer ↦
      if is_true peer.approved && approved
      then (ok tt, perform t (replied (already_approved id)))
      else decide t id approved
]

module _ (pf : Platform) where
  unfoldable pub handle_approve : Telegram → String → Bool → Outcome
  unfolding is_device_id check_pending
  handle_approve t device_id approved =
      let id = pf.upper (strip pf.is_space device_id) in
      if not (is_device_id id)
      then (ok tt, perform t (replied (invalid_format id)))
      else if str_eq id t.device_id
      then (ok tt, perform t (replied own_device))
      else check_pending t.device_mgr t id approved

  -- `text.split(None, 1)[1].strip()` and the approval.
  unfoldable pub handle_command : Telegram → String → Bool → Outcome
  unfolding handle_approve
  handle_command t text approved = elim (second_part pf.is_space text) [
    | none ↦ (raise index_error, t)
    | some id ↦ handle_approve t (strip pf.is_space id) approved
  ]

  -- The verified message gets its origin and is passed on.
  unfoldable pub deliver : Telegram → String → Value → Outcome
  deliver t from_id (obj fields) = (
    ok tt,
    pass_on t (
        Dict.insert "transport" (str "telegram")
          (Dict.insert "from_device" (str from_id) (to_dict fields))),
  )
  deliver t from_id v = (raise type_error, t)

  unfoldable pub deliver_bytes : Telegram → String → List ℕ → Outcome
  unfolding deliver
  deliver_bytes t from_id payload = elim (pf.loads_bytes payload) [
    | raise e ↦ (raise e, t)
    | ok none ↦ (ok tt, t)
    | ok (some v) ↦ deliver t from_id v
  ]

  -- `except ValueError: return`
  abbrev pub swallow_value_error : Exc → Result (Unit {0})
  swallow_value_error value_error = ok tt
  swallow_value_error e = raise e

  abbrev pub cache_of : Telegram → String → NonceCache
  cache_of t from_id = or_new (Dict.lookup from_id t.peer_nonce_caches)

  -- From the look up of the nonce cache on. An envelope that is no object has no `get`.
  unfoldable pub open_envelope : Telegram → String → Peer → Value → ℕ → ℕ → Outcome
  unfolding deliver_bytes
  open_envelope t from_id peer (obj fields) now tick =
      let (result, cache) =
        verify_signature pf.py pf.crypto (to_dict fields) peer.verify_key (cache_of t from_id) now
          tick in
      let t' = record t { peer_nonce_caches = Dict.insert from_id cache t.peer_nonce_caches } in
      elim result [
        | raise e ↦ (swallow_value_error e, t')
        | ok payload ↦ deliver_bytes t' from_id payload
      ]
  open_envelope t from_id peer v now tick = (
    raise attribute_error,
    record t { peer_nonce_caches = Dict.insert from_id (cache_of t from_id) t.peer_nonce_caches },
  )

  -- The sender must be a peer that is approved.
  unfoldable pub accept_sender : Telegram → String → Value → ℕ → ℕ → Outcome
  unfolding open_envelope
  accept_sender t from_id envelope now tick = elim (lookup_peer t.device_mgr from_id) [
    | none ↦ (ok tt, t)
    | some peer ↦
        if is_true peer.approved then open_envelope t from_id peer envelope now tick else (ok tt, t)
  ]

  -- A protocol message, from the parsed wrapper on.
  unfoldable pub handle_wrapper : Telegram → Value → ℕ → ℕ → Outcome
  unfolding accept_sender get to_str
  handle_wrapper t (obj fields) now tick =
      let wrapper = to_dict fields in
      let from_id = to_str pf.py (get wrapper "from" (str "")) in
      let envelope = get wrapper "envelope" null in
      if not (is_one (get wrapper "hl" null))
      then (ok tt, t)
      else if not (is_string t.device_id (get wrapper "to" null))
      then (ok tt, t)
      else if not (truthy from_id) || not (is_true envelope)
      then (ok tt, t)
      else accept_sender t from_id envelope now tick
  handle_wrapper t v now tick = (raise attribute_error, t)

  -- The text of a message from the chat, once the limiter has let it through.
  unfoldable pub handle_text : Telegram → String → ℕ → ℕ → Outcome
  unfolding handle_command handle_wrapper
  handle_text t text now tick =
      if starts_with (codes "/approve ") (codes text)
      then handle_command t text true
      else if starts_with (codes "/deny ") (codes text)
      then handle_command t text false
      else if starts_with (codes "/status") (codes text)
      then (ok tt, pass_on t status_request)
      else elim (pf.loads text) [
        | none ↦ (ok tt, t)
        | some wrapper ↦ handle_wrapper t wrapper now tick
      ]

  unfoldable pub handle_value : Telegram → Value → ℕ → ℕ → Outcome
  unfolding handle_text
  handle_value t (str text) now tick = handle_text t text now tick
  handle_value t v now tick = (raise attribute_error, t)

  -- From the chat ID on.
  unfoldable pub handle_from : Telegram → String → Value → ℕ → ℕ → Outcome
  unfolding handle_value
  handle_from t chat_id text now tick =
      if not (str_eq chat_id t.chat_id)
      then (ok tt, t)
      else let (allowed, limiter) = RateLimiter.is_allowed t.limiter chat_id tick in
        let t' = record t { limiter = limiter } in
        if not allowed then (ok tt, t') else handle_value t' text now tick

  -- `v.get(key, default)` of what should be an object
  unfoldable pub attribute_get : Value → String → Value → Result Value
  unfolding get
  attribute_get (obj fields) key default = ok (get (to_dict fields) key default)
  attribute_get v key default = raise attribute_error

  abbrev pub empty : Value
  empty = obj done

  -- The text of an update and the ID of its chat.
  unfoldable pub read_update : Value → Result (Value × Value)
  unfolding attribute_get
  read_update update = do
    msg ← attribute_get update "message" empty
    text ← attribute_get msg "text" (str "")
    chat ← attribute_get msg "chat" empty
    id ← attribute_get chat "id" (str "")
    ok (text, id)

  -- `_handle_update`, at a time of the wall clock and one of the monotonic clock.
  unfoldable pub handle_update : Telegram → Value → ℕ → ℕ → Outcome
  unfolding read_update handle_from to_str
  handle_update t update now tick = elim (read_update update) [
    | raise e ↦ (raise e, t)
    | ok (text, id) ↦ handle_from t (to_str pf.py id) text now tick
  ]
