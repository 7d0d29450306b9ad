-- ===== src/P2p/Packets.antt =====
-- homelink/transport/p2p/transport.py: from `send` of one peer to `_handle_packet` of the other.
use homelink.Common.Dict
use homelink.Common.{
  ℕ, ◌+◌, ◌≤◌, ◌<◌, String, ◌≡◌, refl, ap, ◌∙◌, inl, inr, true, false, none, some, List, [], ◌∷◌,
  ◌++◌, arith, ltb, leb, le→ltb-false, leb-false, Bool-cases, length, take, drop, length-append,
  take-eq_self, drop-append, ne-append_one, append_one-injective,
}
use homelink.P2p.{
  drop, none, [], take, length, String, ℕ, List, P2p, P2pSession, Platform, Addr, frame, transmit,
  send_to_session, send, take_payload, open_packet, handle_packet, find_session_by_addr, is_alive,
  max_packet_size,
}
use homelink.Common.Exc.{Result, ok, raise, Result-cases}
use homelink.Common.Text.{elem}
use homelink.Common.Json.{Value, Message}
use homelink.Signing.{big_endian}
use homelink.Session.{encrypt, decrypt, from_bytes}
use homelink.Session.Laws.{decrypt-encrypt, counter_of_nonce}

-- A frame as it was made.
record Framed (encrypted packet : List ℕ) : Type 0 where
  room : length encrypted < 4_294_967_296
  made : packet ≡ big_endian 4 (length encrypted) ++ encrypted

frame-Framed : (encrypted packet : List ℕ) → frame encrypted ≡ ok packet → Framed encrypted packet
unfolding frame
frame-Framed encrypted packet h = elim (Bool-cases (leb 4_294_967_296 (length encrypted))) [
  | inl huge ↦ cc (rw huge at h)
  | inr room ↦
      elim (Bool-cases
        (ltb max_packet_size (length (big_endian 4 (length encrypted) ++ encrypted)))) [
          | inl large ↦ cc (rw (room, large) at h)
          | inr fits ↦ record {
            room = leb-false 4_294_967_296 (length encrypted) room;
            made = cc (rw (room, fits) at h);
          }
        ]
]

length-big_endian_four : (n : ℕ) → length (big_endian 4 n) ≡ 4
unfolding big_endian
length-big_endian_four n = omega arith

-- The receiver cuts the ciphertext out of the packet.
unframe :
    (encrypted packet : List ℕ)
    → Framed encrypted packet
    → take (from_bytes 0 (take 4 packet)) (drop 4 packet) ≡ encrypted
unframe encrypted packet f =
    let size = counter_of_nonce (length encrypted) encrypted f.room in
    let four = length-big_endian_four (length encrypted) in
    rw (f.made, size, drop-append 4 (big_endian 4 (length encrypted)) encrypted four)
      (take-eq_self (length encrypted) encrypted (omega arith))

module _ (pf : Platform) where
  -- A packet of the sender.
  record Sent (session : P2pSession) (m : Message) (packet : List ℕ) : Type 0 where
    encrypted : List ℕ
    sealed : (encrypt pf.aead session.cipher_send (pf.dumps m) []).0 ≡ ok encrypted
    framed : Framed encrypted packet

  transmit-frame :
      (p : P2p) (id : String) (session : P2pSession) (framed : Result (List ℕ)) (packet : List ℕ)
      (now : ℕ)
      → (transmit pf p id session framed now none).1.sent ≡ p.sent ++ (session.addr, packet) ∷ []
      → framed ≡ ok packet
  unfolding transmit
  transmit-frame p id session (raise e) packet now sent = absurd (ne-append_one p.sent _ sent)
  transmit-frame p id session (ok made) packet now sent =
      ap (λ (x : Addr × List ℕ). ok x.1) (append_one-injective p.sent _ _ sent)

  send_to_session-Sent :
      (p : P2p) (id : String) (session : P2pSession) (m : Message) (packet : List ℕ) (now : ℕ)
      → (send_to_session pf p id session m now none).1.sent ≡ p.sent ++ (session.addr, packet) ∷ []
      → Sent session m packet
  unfolding send_to_session
  send_to_session-Sent p id session m packet now sent =
      let (result, cipher) = encrypt pf.aead session.cipher_send (pf.dumps m) [] in
      elim (Result-cases result) [
        | inr (e, q) ↦ absurd (ne-append_one p.sent _ (rw (q, send_to_session) at sent))
        | inl (encrypted, q) ↦
            let session' = record session { cipher_send = cipher } in
            record {
              encrypted = encrypted;
              sealed = q;
              framed = frame-Framed encrypted packet (
                  transmit-frame (record p { sessions = Dict.insert id session' p.sessions }) id
                    session' (frame encrypted) packet now (rw (q, send_to_session) at sent));
            }
      ]

  send-Sent :
      (p : P2p) (id : String) (session : P2pSession) (m : Message) (packet : List ℕ) (now : ℕ)
      → Dict.lookup id p.sessions ≡ some session
      → (send pf p id m now none).1.sent ≡ p.sent ++ (session.addr, packet) ∷ []
      → Sent session m packet
  unfolding send
  send-Sent p id session m packet now known sent = elim (Bool-cases (is_alive 60_000 now session)) [
    | inl alive ↦ send_to_session-Sent p id session m packet now (rw (known, alive, send) at sent)
    | inr dead ↦ absurd (ne-append_one p.sent _ (rw (known, dead, send) at sent))
  ]

  open_packet-received :
      (q : P2p) (id : String) (session : P2pSession) (encrypted payload : List ℕ) (v : Value)
      (now : ℕ)
      → (decrypt pf.aead session.cipher_recv encrypted []).0 ≡ ok payload
      → pf.loads payload ≡ ok v
      → q.receives ≡ true
      → (open_packet pf q id session encrypted now).received ≡ q.received ++ v ∷ []
  unfolding open_packet take_payload
  open_packet-received q id session encrypted payload v now opened parsed receives =
      rw (opened, open_packet, parsed, take_payload, receives) refl

  handle_packet-opens :
      (q : P2p) (id : String) (session : P2pSession) (encrypted packet : List ℕ) (from : Addr)
      (now : ℕ)
      → Framed encrypted packet
      → find_session_by_addr from q.sessions ≡ some (id, session)
      → handle_packet pf q packet from now ≡ open_packet pf q id session encrypted now
  unfolding handle_packet
  handle_packet-opens q id session encrypted packet from now framed found =
      let front = big_endian 4 (length encrypted) in
      let sized : length packet ≡ length front + length encrypted =
        ap length framed.made ∙ length-append front encrypted in
      let four = length-big_endian_four (length encrypted) in
      let long : ltb (length packet) 4 ≡ false = le→ltb-false (length packet) 4 (omega arith) in
      rw (long, found, handle_packet)
        (ap (λ b. open_packet pf q id session b now) (unframe encrypted packet framed))

  -- The packet that `send` gives to the socket makes a receiver pass on the message, if it finds
  -- a session for the address of the packet with the key of the sender, has not seen the counter
  -- and reads what was written, for an authenticated encryption that can be undone and adds at
  -- least 16 bytes.
  pub handle_packet-send :
      (p q : P2p) (id id' : String) (session session' : P2pSession) (m : Message) (packet : List ℕ)
      (v : Value) (from : Addr) (now later : ℕ)
      → ((key nonce b a : List ℕ)
          → pf.aead.unseal key nonce (pf.aead.seal key nonce b a) a ≡ some b)
      → ((key nonce b a : List ℕ) → 16 ≤ length (pf.aead.seal key nonce b a))
      → length session.cipher_send.nonce_prefix ≡ 8
      → session'.cipher_recv.key ≡ session.cipher_send.key
      → elem session.cipher_send.send_counter session'.cipher_recv.seen_nonces ≡ false
      → Dict.lookup id p.sessions ≡ some session
      → find_session_by_addr from q.sessions ≡ some (id', session')
      → pf.loads (pf.dumps m) ≡ ok v
      → q.receives ≡ true
      → (send pf p id m now none).1.sent ≡ p.sent ++ (session.addr, packet) ∷ []
      → (handle_packet pf q packet from later).received ≡ q.received ++ v ∷ []
  handle_packet-send p q id id' session session' m packet v from now later opens tagged eight keys
        new known found parsed receives sent =
      let one = send-Sent p id session m packet now known sent in
      let opened =
        decrypt-encrypt pf.aead session.cipher_send session'.cipher_recv (pf.dumps m) []
          one.encrypted opens tagged eight keys new one.sealed in
      ap (λ (r : P2p). r.received)
        (handle_packet-opens q id' session' one.encrypted packet from later one.framed found)
      ∙ open_packet-received q id' session' one.encrypted (pf.dumps m) v later opened parsed
          receives
