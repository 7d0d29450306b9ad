-- ===== src/Telegram/Relay.antt =====
-- homelink/transport/telegram/transport.py: from `send` of one device to `_handle_update` of
-- another.
use homelink.Common.{
  ℕ, ◌≤◌, String, ◌≡◌, refl, ap, inl, inr, true, some, List, [], ◌∷◌, ◌++◌, arith, str_eq, eq_refl,
  ltb, Bool-cases, length, ne-append_one, append_one-injective,
}
use homelink.Telegram.Sending.{
  send_text, telegram_max_msg_bytes, Sender, Encoder, compose, wrapper, check_chunk, post, send,
}
use homelink.Signing.{
  envelope_version, canonical_bytes, sign_message, verify_signature, distance, timestamp_tolerance,
}
use homelink.Common.Json.{
  to_dict-to_fields, to_str, Value, num, str, obj, Message, to_fields, to_dict, get, is_true,
}
use homelink.Common.Dict
use homelink.Common.Exc.{Result, ok, raise, after-eq-ok, ◌>>◌, raise_if, transport_error}
use homelink.Common.Int.{pos}
use homelink.Common.Text.{codes, truthy}
use homelink.RateLimiter
use homelink.NonceCache.{NonceCache, check_and_add}
use homelink.Signing.RoundTrip.{verify_signature-sign_message}
use homelink.Telegram.{
  Platform, Telegram, Peer, dispatched, lookup_peer, cache_of, handle_update, handle_from,
  handle_value, handle_text, handle_wrapper, accept_sender, open_envelope, deliver_bytes, deliver,
  read_update,
}

-- The other device reads the texts of a message as they were written: its payload, and the
-- wrapper of an envelope that holds it, which begins with a brace.
pub record Agree (enc : Encoder) (pf : Platform) (s : Sender) (key : List ℕ) (to : String)
    (m : Message) (now : ℕ) (nonce : String) : Type 0 where
  pub same_crypto : pf.crypto ≡ enc.crypto
  pub same_py : pf.py ≡ enc.py
  pub reads_payload :
      (b : List ℕ)
      → enc.crypto.utf8 (enc.dumps (obj (to_fields m))) ≡ ok b
      → pf.loads_bytes b ≡ ok (some (obj (to_fields m)))
  pub reads_wrapper :
      (payload : List ℕ) (envelope : Message)
      → sign_message enc.py enc.crypto payload key s.device_id now nonce ≡ ok envelope
      → pf.loads (enc.dumps (wrapper enc to s.device_id envelope))
        ≡ some (wrapper enc to s.device_id envelope)
  pub braced :
      (envelope : Message)
      → (rest : List ℕ) × (codes (enc.dumps (wrapper enc to s.device_id envelope)) ≡ b'{' ∷ rest)

-- The text of an envelope that was made.
record Composed (enc : Encoder) (s : Sender) (key : List ℕ) (to : String) (m : Message) (now : ℕ)
    (nonce text : String) : Type 0 where
  payload : List ℕ
  envelope : Message
  written : enc.crypto.utf8 (enc.dumps (obj (to_fields m))) ≡ ok payload
  signed : sign_message enc.py enc.crypto payload key s.device_id now nonce ≡ ok envelope
  posted : text ≡ enc.dumps (wrapper enc to s.device_id envelope)

compose-Composed :
    (enc : Encoder) (s : Sender) (key : List ℕ) (to : String) (m : Message) (now : ℕ)
    (nonce text : String)
    → compose enc s key to m now nonce ≡ ok text
    → Composed enc s key to m now nonce text
unfolding compose
compose-Composed enc s key to m now nonce text h =
    let (payload, written, h1) =
      after-eq-ok _ (enc.crypto.utf8 (enc.dumps (obj (to_fields m)))) h in
    let (envelope, signed, h2) =
      after-eq-ok _ (sign_message enc.py enc.crypto payload key s.device_id now nonce) h1 in
    let (encoded, e, h3) =
      after-eq-ok _ (enc.crypto.utf8 (enc.dumps (wrapper enc to s.device_id envelope))) h2 in
    let (_, _, h4) =
      after-eq-ok (λ (_ : Unit {0}). ok (enc.dumps (wrapper enc to s.device_id envelope)))
        (raise_if (ltb telegram_max_msg_bytes (length encoded)) transport_error) h3 in
    record {
      payload = payload;
      envelope = envelope;
      written = written;
      signed = signed;
      posted = cc;
    }

sign_message-nonempty :
    (enc : Encoder) (payload key : List ℕ) (device_id nonce : String) (now : ℕ) (envelope : Message)
    → sign_message enc.py enc.crypto payload key device_id now nonce ≡ ok envelope
    → is_true (obj (to_fields envelope)) ≡ true
unfolding sign_message
sign_message-nonempty enc payload key device_id nonce now envelope h =
    let (to_sign, _, made) =
      after-eq-ok _
        (canonical_bytes enc.crypto payload (num (pos now)) (str nonce) (str device_id)
          (num (pos envelope_version)))
        h in
    ground (arith, made)

-- The message as it arrives.
abbrev pub arrived : String → Message → Message
arrived from m = Dict.insert "transport" (str "telegram") (Dict.insert "from_device" (str from) m)

module _ (pf : Platform) (t : Telegram) (peer : Peer) (from : String) (m envelope : Message)
    (payload : List ℕ) (cache' : NonceCache) (now tick : ℕ) where
  abbrev after_nonce : Telegram
  after_nonce = record t { peer_nonce_caches = Dict.insert from cache' t.peer_nonce_caches }

  abbrev pub delivered : Telegram
  delivered = record after_nonce { effects = t.effects ++ dispatched (arrived from m) ∷ [] }

  deliver_bytes-arrived :
      t.receives ≡ true
      → pf.loads_bytes payload ≡ ok (some (obj (to_fields m)))
      → deliver_bytes pf after_nonce from payload ≡ (ok tt, delivered)
  unfolding deliver_bytes deliver
  deliver_bytes-arrived receives parsed =
      rw (parsed, deliver_bytes, receives, to_dict-to_fields m) refl

  open_envelope-arrived :
      t.receives ≡ true
      → pf.loads_bytes payload ≡ ok (some (obj (to_fields m)))
      → verify_signature pf.py pf.crypto envelope peer.verify_key (cache_of pf t from) now tick
        ≡ (ok payload, cache')
      → open_envelope pf t from peer (obj (to_fields envelope)) now tick ≡ (ok tt, delivered)
  unfolding open_envelope
  open_envelope-arrived receives parsed verified =
      let whole : verify_signature pf.py pf.crypto (to_dict (to_fields envelope)) peer.verify_key
            (cache_of pf t from) now tick
          ≡ (ok payload, cache') =
        rw (to_dict-to_fields envelope) verified in
      let opened = ap (λ (r : Result (List ℕ) × NonceCache). r.0) whole in
      let kept = ap (λ (r : Result (List ℕ) × NonceCache). r.1) whole in
      rw (opened, open_envelope, kept) (deliver_bytes-arrived receives parsed)

  accept_sender-arrived :
      lookup_peer t.device_mgr from ≡ some peer
      → is_true peer.approved ≡ true
      → open_envelope pf t from peer (obj (to_fields envelope)) now tick ≡ (ok tt, delivered)
      → accept_sender pf t from (obj (to_fields envelope)) now tick ≡ (ok tt, delivered)
  unfolding accept_sender
  accept_sender-arrived known approved opened = rw (known, approved, accept_sender) opened

  handle_wrapper-arrived :
      (enc : Encoder)
      → truthy from ≡ true
      → is_true (obj (to_fields envelope)) ≡ true
      → accept_sender pf t from (obj (to_fields envelope)) now tick ≡ (ok tt, delivered)
      → handle_wrapper pf t (wrapper enc t.device_id from envelope) now tick ≡ (ok tt, delivered)
  unfolding handle_wrapper get Dict.lookup to_str
  handle_wrapper-arrived enc named full accepted = rw (named, full, eq_refl t.device_id) accepted

  handle_text-arrived :
      (text : String) (v : Value) (rest : List ℕ)
      → codes text ≡ b'{' ∷ rest
      → pf.loads text ≡ some v
      → handle_wrapper pf t v now tick ≡ (ok tt, delivered)
      → handle_text pf t text now tick ≡ (ok tt, delivered)
  unfolding handle_text
  handle_text-arrived text v rest brace parsed handled = rw (brace, parsed, handle_text) handled

  handle_update-arrived :
      (update id : Value) (text : String)
      → read_update pf update ≡ ok (str text, id)
      → str_eq (to_str pf.py id) t.chat_id ≡ true
      → (RateLimiter.is_allowed t.limiter (to_str pf.py id) tick).0 ≡ true
      → let limiter = (RateLimiter.is_allowed t.limiter (to_str pf.py id) tick).1 in
        handle_text pf (record t { limiter = limiter }) text now tick
          ≡ (ok tt, record delivered { limiter = limiter })
        → handle_update pf t update now tick ≡ (ok tt, record delivered { limiter = limiter })
  unfolding handle_update handle_from handle_value
  handle_update-arrived update id text read ours allowed handled =
      rw (read, ours, allowed, handle_update, handle_from) handled

post-text :
    (s : Sender) (made : Result String) (text : String) (answer : Result Message)
    → (post s made answer).1.posted ≡ s.posted ++ text ∷ []
    → made ≡ ok text
unfolding post send_text
post-text s (raise e) text answer posted = absurd (ne-append_one s.posted text posted)
post-text s (ok text') text (raise e) posted =
    ap ok (append_one-injective s.posted text' text posted)
post-text s (ok text') text (ok response) posted =
    ap ok (append_one-injective s.posted text' text posted)

-- What was posted was composed.
send-posted :
    (enc : Encoder) (s : Sender) (key : List ℕ) (to : String) (m : Message) (now : ℕ)
    (nonce text : String) (answer : Result Message)
    → s.signing_key ≡ some key
    → (send enc s to m now nonce answer).1.posted ≡ s.posted ++ text ∷ []
    → compose enc s key to m now nonce ≡ ok text
unfolding send
send-posted enc s key to m now nonce text answer keyed posted = elim (Bool-cases s.available) [
  | inr off ↦ absurd (ne-append_one s.posted text (rw off at posted))
  | inl on ↦
      let sent : (post s (check_chunk enc m >> compose enc s key to m now nonce) answer).1.posted
          ≡ s.posted ++ text ∷ [] =
        rw (on, keyed, send) at posted in
      let made =
        post-text s (check_chunk enc m >> compose enc s key to m now nonce) text answer sent in
      let (_, _, composed) =
        after-eq-ok (λ (_ : Unit {0}). compose enc s key to m now nonce) (check_chunk enc m) made in
      composed
]

-- A message that `send` of one device posted, and that the update of the chat carries to another
-- device, is passed on there, once and with the sender as its origin, if the sender is an
-- approved peer there whose verify key accepts the signatures, the rate limit and the nonce cache
-- let it through, the clocks differ by the tolerance at most, and the texts are read as they were
-- written.
pub handle_update-send :
    (enc : Encoder) (pf : Platform) (s : Sender) (t : Telegram) (peer : Peer) (key : List ℕ)
    (m : Message) (nonce text : String) (answer : Result Message) (update id : Value)
    (cache' : NonceCache) (now now' tick : ℕ)
    → Agree enc pf s key t.device_id m now nonce
    → ((b : List ℕ)
        → enc.crypto.utf8 (enc.dumps (obj (to_fields m))) ≡ ok b
        → enc.crypto.b64decode (str (enc.crypto.b64encode b)) ≡ ok b)
    → ((b : List ℕ)
        → enc.crypto.b64decode (str (enc.crypto.b64encode (enc.crypto.sign key b)))
          ≡ ok (enc.crypto.sign key b))
    → ((b : List ℕ) → enc.crypto.verify peer.verify_key b (enc.crypto.sign key b) ≡ true)
    → s.signing_key ≡ some key
    → truthy s.device_id ≡ true
    → (send enc s t.device_id m now nonce answer).1.posted ≡ s.posted ++ text ∷ []
    → read_update pf update ≡ ok (str text, id)
    → str_eq (to_str pf.py id) t.chat_id ≡ true
    → (RateLimiter.is_allowed t.limiter (to_str pf.py id) tick).0 ≡ true
    → lookup_peer t.device_mgr s.device_id ≡ some peer
    → is_true peer.approved ≡ true
    → t.receives ≡ true
    → distance now' (pos now) ≤ timestamp_tolerance
    → check_and_add (cache_of pf t s.device_id) nonce tick ≡ ok cache'
    → ((handle_update pf t update now' tick).0 ≡ ok tt)
      × ((handle_update pf t update now' tick).1.effects
          ≡ t.effects ++ dispatched (arrived s.device_id m) ∷ [])
handle_update-send enc pf s t peer key m nonce text answer update id cache' now now' tick agree
      decodes decodes_sig accepts keyed named posted read ours allowed known approved receives near
      fresh =
    let made =
      compose-Composed enc s key t.device_id m now nonce text
        (send-posted enc s key t.device_id m now nonce text answer keyed posted) in
    let limiter = (RateLimiter.is_allowed t.limiter (to_str pf.py id) tick).1 in
    let t' = record t { limiter = limiter } in
    let verified : verify_signature pf.py pf.crypto made.envelope peer.verify_key
          (cache_of pf t s.device_id) now' tick
        ≡ (ok made.payload, cache') =
      rw (agree.same_crypto, agree.same_py)
        (verify_signature-sign_message enc.py enc.crypto made.payload key peer.verify_key
          s.device_id nonce made.envelope (cache_of pf t s.device_id) cache' now now' tick
          (decodes made.payload made.written) decodes_sig accepts made.signed near fresh) in
    let opened =
      open_envelope-arrived pf t' peer s.device_id m made.envelope made.payload cache' now' tick
        receives (agree.reads_payload made.payload made.written) verified in
    let accepted =
      accept_sender-arrived pf t' peer s.device_id m made.envelope made.payload cache' now' tick
        known approved opened in
    let unwrapped =
      handle_wrapper-arrived pf t' peer s.device_id m made.envelope made.payload cache' now' tick
        enc named
        (sign_message-nonempty enc made.payload key s.device_id nonce now made.envelope made.signed)
        accepted in
    let (rest, brace) = agree.braced made.envelope in
    let w = wrapper enc t.device_id s.device_id made.envelope in
    let whole =
      handle_text-arrived pf t' peer s.device_id m made.envelope made.payload cache' now' tick text
        w rest (rw made.posted brace)
        (rw made.posted (agree.reads_wrapper made.payload made.envelope made.signed)) unwrapped in
    let handled =
      handle_update-arrived pf t peer s.device_id m made.envelope made.payload cache' now' tick
        update id text read ours allowed whole in
    rw handled (refl, refl)
