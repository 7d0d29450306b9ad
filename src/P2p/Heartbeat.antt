-- ===== src/P2p/Heartbeat.antt =====
-- The heartbeat of homelink/transport/p2p/transport.py, and the silence of a peer.
use homelink.Common.Dict
use homelink.Common.{
  ℕ, ◌+◌, ◌-◌, ◌≤◌, ◌<◌, String, ◌≡◌, refl, ap, true, none, some, List, [], ◌∷◌, ◌++◌, arith,
  eq_refl, lt→ltb, le→ltb-false, lt→leb-false, length, length-append,
}
use homelink.Common.Exc.{Result, ok}
use homelink.Signing.{big_endian}
use homelink.Session.{SessionCipher, encrypt, make_nonce}
use homelink.Session.Laws.{length-make_nonce}
use homelink.P2p.{
  P2p, P2pSession, Platform, frame, transmit, send_to_session, heartbeat, is_alive, touch,
  drop_dead, beat_all, beat, is_peer_reachable,
}

module _ (pf : Platform) where
  -- The beats at some times, none of which meets an error.
  unfoldable pub beats : P2p → List ℕ → P2p
  beats p [] = p
  beats p (now ∷ times) = beats (beat pf p now (λ id. none)) times

-- Each time is at most 90 seconds after the one before.
abbrev pub Regular : ℕ → List ℕ → Type 0
Regular last [] = Unit
Regular last (now ∷ times) = (now < last + 90_000) × Regular now times

abbrev pub last_of : ℕ → List ℕ → ℕ
last_of last [] = last
last_of last (now ∷ times) = last_of now times

insert-only :
    (id : String) (new old : P2pSession) → Dict.insert id new ((id, old) ∷ []) ≡ (id, new) ∷ []
unfolding Dict.insert
insert-only id new old = rw (eq_refl id) refl

module _ (pf : Platform) where
  -- A heartbeat that is sealed fits into a packet.
  abbrev pub Small : Type 0
  Small = (key nonce : List ℕ) → length (pf.aead.seal key nonce (pf.dumps heartbeat) []) ≤ 64_000

  frame-small : (b : List ℕ) → length b ≤ 64_012 → frame b ≡ ok (big_endian 4 (length b) ++ b)
  unfolding frame
  frame-small b h =
      let four : length (big_endian 4 (length b)) ≡ 4 = unfold big_endian in omega arith in
      let total = length-append (big_endian 4 (length b)) b in
      let room = lt→leb-false 4_294_967_296 (length b) (omega arith) in
      let fits = le→ltb-false 65_000 (length (big_endian 4 (length b) ++ b)) (omega arith) in
      rw (room, fits) refl

  encrypt-heartbeat :
      (c : SessionCipher)
      → Small
      → c.send_counter < 4_294_967_296
      → length c.nonce_prefix ≡ 8
      → (b : List ℕ) × (encrypt pf.aead c (pf.dumps heartbeat) [] ≡ (
        ok b,
        record c { send_counter = c.send_counter + 1; message_count = c.message_count + 1 },
      ))
        × (length b ≤ 64_012)
  unfolding encrypt
  encrypt-heartbeat c small room eight =
      let nonce = make_nonce c c.send_counter in
      let box = pf.aead.seal c.key nonce (pf.dumps heartbeat) [] in
      let free = lt→leb-false 4_294_967_296 c.send_counter room in
      let twelve = length-make_nonce c c.send_counter eight in
      let total = length-append nonce box in
      let sized = small c.key nonce in (nonce ++ box, rw free refl, omega arith)

  -- The session after a heartbeat.
  abbrev beaten : ℕ → P2pSession → P2pSession
  beaten now session =
      let c = session.cipher_send in
      touch now (record session {
        cipher_send = record c {
          send_counter = c.send_counter + 1;
          message_count = c.message_count + 1;
        };
      })

  send_to_session-beaten :
      (p : P2p) (id : String) (session : P2pSession) (now : ℕ)
      → Small
      → p.sessions ≡ (id, session) ∷ []
      → session.cipher_send.send_counter < 4_294_967_296
      → length session.cipher_send.nonce_prefix ≡ 8
      → (send_to_session pf p id session heartbeat now none).1.sessions
        ≡ (id, beaten now session) ∷ []
  unfolding send_to_session transmit
  send_to_session-beaten p id session now small only room eight =
      let (b, sealed, sized) = encrypt-heartbeat session.cipher_send small room eight in
      let result = ap (λ (r : Result (List ℕ) × SessionCipher). r.0) sealed in
      let cipher = ap (λ (r : Result (List ℕ) × SessionCipher). r.1) sealed in
      rw (result, send_to_session, frame-small b sized, transmit, cipher, only, insert-only)
        (insert-only id _ _)

  beat-beaten :
      (p : P2p) (id : String) (session : P2pSession) (now : ℕ)
      → Small
      → p.sessions ≡ (id, session) ∷ []
      → session.cipher_send.send_counter < 4_294_967_296
      → length session.cipher_send.nonce_prefix ≡ 8
      → now < session.last_seen + 90_000
      → (beat pf p now (λ id. none)).sessions ≡ (id, beaten now session) ∷ []
  unfolding beat beat_all drop_dead
  beat-beaten p id session now small only room eight soon =
      let alive : is_alive 90_000 now session ≡ true =
        lt→ltb (now - session.last_seen) 90_000 (omega arith) in
      let live : drop_dead now p.sessions ≡ (id, session) ∷ [] = rw (only, alive) refl in
      rw (live, beat, beat_all)
        (send_to_session-beaten (record p { sessions = (id, session) ∷ [] }) id session now small
          refl room eight)

  -- A transport with one session, which is touched by its own heartbeats only, still reports the
  -- peer as reachable after any number of beats less than 90 seconds apart, up to a minute after
  -- the last, though nothing ever arrives from the peer, as long as the counter of the cipher
  -- lasts and the heartbeat fits into a packet.
  pub is_peer_reachable-beats :
      (p : P2p) (id : String) (session : P2pSession) (times : List ℕ) (now : ℕ)
      → Small
      → p.sessions ≡ (id, session) ∷ []
      → length session.cipher_send.nonce_prefix ≡ 8
      → session.cipher_send.send_counter + length times ≤ 4_294_967_296
      → Regular session.last_seen times
      → now < last_of session.last_seen times + 60_000
      → is_peer_reachable (beats pf p times) id now ≡ true
  unfolding beats is_peer_reachable Dict.lookup
  is_peer_reachable-beats p id session [] now small only eight room regular soon =
      let alive : is_alive 60_000 now session ≡ true =
        lt→ltb (now - session.last_seen) 60_000 (omega arith) in
      let found : Dict.lookup id p.sessions ≡ some session = rw (only, eq_refl id) refl in
      rw (found, is_peer_reachable) alive
  is_peer_reachable-beats p id session (then_ ∷ times) now small only eight room regular soon =
      is_peer_reachable-beats (beat pf p then_ (λ id. none)) id (beaten then_ session) times now
        small (beat-beaten p id session then_ small only (omega arith) eight regular.0) eight
        (omega arith) regular.1 soon
