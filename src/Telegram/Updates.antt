-- ===== src/Telegram/Updates.antt =====
-- What `_handle_update` of homelink/transport/telegram/transport.py passes on, branch by branch.
use homelink.RateLimiter.{RateLimiter}
use homelink.Common.Dict.{Dict}
use homelink.Common.Dict
use homelink.Common.{
  ℕ, String, ◌≡◌, refl, ap, ◌∙◌, inl, inr, Bool, true, false, not, ◌||◌, Option, none, some, List,
  str_eq, if◌then◌else◌, Bool-cases, Option-cases,
}
use homelink.Common.Text.{codes, starts_with, truthy}
use homelink.Common.Exc.{ok, Result-cases}
use homelink.Common.Json.{Fields, Value, str, null, obj, get, to_str, to_dict, is_true}
use homelink.RateLimiter
use homelink.Signing.{verify_signature}
use homelink.Signing.Authentic.{Accepted, verify_signature-Accepted}
use homelink.Telegram.{
  Peer, Platform, Telegram, Outcome, lookup_peer, status_request, deliver, deliver_bytes, cache_of,
  open_envelope, accept_sender, handle_wrapper, handle_text, handle_value, handle_from,
  handle_update, read_update, is_one, is_string,
}
use homelink.Telegram.Trusted.{Wrapped, messages, Adds, pass_on-Adds, handle_command-Adds, quiet}

module _ (pf : Platform) (t : Telegram) (update : Value) (now tick : ℕ) where
  module _ (from_id : String) (peer : Peer) (known : lookup_peer t.device_mgr from_id ≡ some peer)
      (approved : is_true peer.approved ≡ true) where
    deliver-Adds :
        (s : Telegram) (fields : Fields) (payload : List ℕ) (v : Value)
        → s.effects ≡ t.effects
        → Wrapped pf t.chat_id t.device_id update from_id (obj fields)
        → Accepted pf.py pf.crypto
            (to_dict fields)
            peer.verify_key
            (cache_of pf t from_id)
            now
            tick
            payload
        → pf.loads_bytes payload ≡ ok (some v)
        → Adds pf t update now tick (deliver pf s from_id v).1.effects
    unfolding deliver
    deliver-Adds s fields payload (obj content) same wrapped accepted parsed =
        pass_on-Adds pf t update now tick s _ same (
          inr (
            inr (record {
              from_id = from_id;
              peer = peer;
              known = known;
              approved = approved;
              fields = fields;
              wrapped = wrapped;
              payload = payload;
              accepted = accepted;
              content = content;
              parsed = parsed;
              message = refl;
            })))
    deliver-Adds s fields payload _ same wrapped accepted parsed = inl (ap messages same)

    deliver_bytes-Adds :
        (s : Telegram) (fields : Fields) (payload : List ℕ)
        → s.effects ≡ t.effects
        → Wrapped pf t.chat_id t.device_id update from_id (obj fields)
        → Accepted pf.py pf.crypto
            (to_dict fields)
            peer.verify_key
            (cache_of pf t from_id)
            now
            tick
            payload
        → Adds pf t update now tick (deliver_bytes pf s from_id payload).1.effects
    unfolding deliver_bytes
    deliver_bytes-Adds s fields payload same wrapped accepted =
        elim (Result-cases (pf.loads_bytes payload)) [
          | inr (e, q) ↦ rw (q, deliver_bytes) (inl (ap messages same))
          | inl (parsed, q) ↦ elim (Option-cases parsed) [
            | inl nothing ↦ rw (q, nothing, deliver_bytes) (inl (ap messages same))
            | inr (v, r) ↦
                rw (q, r, deliver_bytes)
                  (deliver-Adds s fields payload v same wrapped accepted (q ∙ ap ok r))
          ]
        ]

    open_envelope-Adds :
        (envelope : Value)
        → Wrapped pf t.chat_id t.device_id update from_id envelope
        → Adds pf t update now tick (open_envelope pf t from_id peer envelope now tick).1.effects
    unfolding open_envelope
    open_envelope-Adds (obj fields) wrapped =
        let checked =
          verify_signature pf.py pf.crypto (to_dict fields) peer.verify_key (cache_of pf t from_id)
            now tick in
        elim (Result-cases checked.0) [
          | inr (e, q) ↦ rw (q, open_envelope) (quiet pf t update now tick)
          | inl (payload, q) ↦
              rw (q, open_envelope)
                (deliver_bytes-Adds
                  (record t {
                    peer_nonce_caches = Dict.insert from_id checked.1 t.peer_nonce_caches;
                  })
                  fields payload refl wrapped
                  (verify_signature-Accepted pf.py pf.crypto (to_dict fields) peer.verify_key
                    (cache_of pf t from_id) now tick payload q))
        ]
    open_envelope-Adds _ wrapped = (quiet pf t update now tick)

  accept_sender-Adds :
      (from_id : String) (envelope : Value)
      → Wrapped pf t.chat_id t.device_id update from_id envelope
      → Adds pf t update now tick (accept_sender pf t from_id envelope now tick).1.effects
  unfolding accept_sender
  accept_sender-Adds from_id envelope wrapped = go (lookup_peer t.device_mgr from_id) refl
    where
      go :
          (found : Option Peer)
          → lookup_peer t.device_mgr from_id ≡ found
          → Adds pf t update now tick
              (elim found as (λ _. Outcome) [
                | none ↦ (ok tt, t)
                | some peer ↦
                    if is_true peer.approved
                    then open_envelope pf t from_id peer envelope now tick
                    else (ok tt, t)
              ]).1.effects
      go none q = (quiet pf t update now tick)
      go (some peer) q = elim (Bool-cases (is_true peer.approved)) [
        | inl approved ↦ rw approved (open_envelope-Adds from_id peer q approved envelope wrapped)
        | inr pending ↦ rw pending (quiet pf t update now tick)
      ]

  handle_wrapper-Adds :
      (text : String) (id wrapper : Value)
      → read_update pf update ≡ ok (str text, id)
      → str_eq (to_str pf.py id) t.chat_id ≡ true
      → pf.loads text ≡ some wrapper
      → Adds pf t update now tick (handle_wrapper pf t wrapper now tick).1.effects
  unfolding handle_wrapper
  handle_wrapper-Adds text id (obj fields) has_text in_chat loaded =
      let wrapper = to_dict fields in
      let from_id = to_str pf.py (get wrapper "from" (str "")) in
      let envelope = get wrapper "envelope" null in
      elim (Bool-cases (is_one (get wrapper "hl" null))) [
        | inr other ↦ rw (other, handle_wrapper) (quiet pf t update now tick)
        | inl ours ↦ elim (Bool-cases (is_string t.device_id (get wrapper "to" null))) [
          | inr other ↦ rw (ours, other, handle_wrapper) (quiet pf t update now tick)
          | inl to_us ↦ elim (Bool-cases (not (truthy from_id) || not (is_true envelope))) [
            | inl bare ↦ rw (ours, to_us, bare, handle_wrapper) (quiet pf t update now tick)
            | inr whole ↦
                rw (ours, to_us, whole, handle_wrapper)
                  (accept_sender-Adds from_id envelope (record {
                    text = text;
                    id = id;
                    has_text = has_text;
                    in_chat = in_chat;
                    wrapper = fields;
                    loaded = loaded;
                    versioned = ours;
                    addressed = to_us;
                    sender = refl;
                    enveloped = refl;
                  }))
          ]
        ]
      ]
  handle_wrapper-Adds text id _ has_text in_chat loaded = (quiet pf t update now tick)

  handle_text-Adds :
      (text : String) (id : Value)
      → read_update pf update ≡ ok (str text, id)
      → str_eq (to_str pf.py id) t.chat_id ≡ true
      → Adds pf t update now tick (handle_text pf t text now tick).1.effects
  unfolding handle_text
  handle_text-Adds text id has_text in_chat =
      elim (Bool-cases (starts_with (codes "/approve ") (codes text))) [
        | inl approves ↦
            rw (approves, handle_text) (handle_command-Adds pf t update now tick text true)
        | inr a ↦ elim (Bool-cases (starts_with (codes "/deny ") (codes text))) [
          | inl denies ↦
              rw (a, denies, handle_text) (handle_command-Adds pf t update now tick text false)
          | inr d ↦ elim (Bool-cases (starts_with (codes "/status") (codes text))) [
            | inl asks ↦
                rw (a, d, asks, handle_text)
                  (pass_on-Adds pf t update now tick t status_request refl (inl refl))
            | inr other ↦ elim (Option-cases (pf.loads text)) [
              | inl broken ↦ rw (a, d, other, broken, handle_text) (quiet pf t update now tick)
              | inr (wrapper, q) ↦
                  rw (a, d, other, q, handle_text)
                    (handle_wrapper-Adds text id wrapper has_text in_chat q)
            ]
          ]
        ]
      ]

  handle_value-Adds :
      (text id : Value)
      → read_update pf update ≡ ok (text, id)
      → str_eq (to_str pf.py id) t.chat_id ≡ true
      → Adds pf t update now tick (handle_value pf t text now tick).1.effects
  unfolding handle_value
  handle_value-Adds (str text) id has_text in_chat = handle_text-Adds text id has_text in_chat
  handle_value-Adds _ id has_text in_chat = (quiet pf t update now tick)

-- The same transport, with the limiter of another moment.
limited-Adds :
    (pf : Platform) (t : Telegram) (update : Value) (limiter : RateLimiter) (allowed : Bool)
    (text id : Value) (now tick : ℕ)
    → read_update pf update ≡ ok (text, id)
    → str_eq (to_str pf.py id) t.chat_id ≡ true
    → let t' = record t { limiter = limiter } in
      Adds pf t update now tick
        (if not allowed then (ok tt, t') else handle_value pf t' text now tick).1.effects
limited-Adds pf t update limiter false text id now tick has_text in_chat = inl refl
limited-Adds pf t update limiter true text id now tick has_text in_chat =
    handle_value-Adds pf (record t { limiter = limiter }) update now tick text id has_text in_chat

handle_from-Adds :
    (pf : Platform) (t : Telegram) (update text id : Value) (now tick : ℕ)
    → read_update pf update ≡ ok (text, id)
    → Adds pf t update now tick (handle_from pf t (to_str pf.py id) text now tick).1.effects
unfolding handle_from
handle_from-Adds pf t update text id now tick has_text =
    elim (Bool-cases (str_eq (to_str pf.py id) t.chat_id)) [
      | inr stranger ↦ rw (stranger, handle_from) (inl refl)
      | inl ours ↦
          let (allowed, limiter) = RateLimiter.is_allowed t.limiter (to_str pf.py id) tick in
          rw (ours, handle_from)
            (limited-Adds pf t update limiter allowed text id now tick has_text ours)
    ]

-- Whatever update arrives, at most one message is passed on to the receive callback, and it is a
-- request for the status, a decision about a well-formed device ID other than this device, or the
-- message of an approved peer: the text of the update, from the configured chat, is a wrapper of
-- the right version for this device that names the peer and holds the envelope, the signature in
-- the envelope was accepted for the key of that peer, and the message is what the payload of the
-- envelope says, with the peer as its origin.
pub handle_update-Adds :
    (pf : Platform) (t : Telegram) (update : Value) (now tick : ℕ)
    → Adds pf t update now tick (handle_update pf t update now tick).1.effects
unfolding handle_update
handle_update-Adds pf t update now tick = elim (Result-cases (read_update pf update)) [
  | inr (e, q) ↦ rw (q, handle_update) (inl refl)
  | inl ((text, id), q) ↦ rw (q, handle_update) (handle_from-Adds pf t update text id now tick q)
]

-- An update from another chat changes nothing, not even the rate limit.
handle_update-stranger :
    (pf : Platform) (t : Telegram) (update text id : Value) (now tick : ℕ)
    → read_update pf update ≡ ok (text, id)
    → str_eq (to_str pf.py id) t.chat_id ≡ false
    → handle_update pf t update now tick ≡ (ok tt, t)
unfolding handle_update handle_from
handle_update-stranger pf t update text id now tick q stranger =
    rw (q, stranger, handle_update, handle_from) refl
