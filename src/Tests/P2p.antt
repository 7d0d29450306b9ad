-- ===== src/Tests/P2p.antt =====
-- Runs of homelink/transport/p2p/transport.py.
use homelink.Common.{
  ℕ, ◌≡◌, refl, true, false, none, some, List, [], ◌∷◌, ◌++◌, arith, drop, replicate,
}
use homelink.Common.Dict
use homelink.Common.Exc.{ok, raise, transport_error}
use homelink.Common.Text.{codes}
use homelink.Common.Json.{str, Message}
use homelink.Signing.{big_endian}
use homelink.Session.{Aead, SessionCipher, encrypt, make_nonce}
use homelink.P2p.{
  P2p, P2pSession, Platform, new, send, handle_packet, is_peer_reachable, start, send_to_session,
  transmit, frame, find_session_by_addr,
}
use homelink.P2p.Connecting.{
  Draws, connect_to_peer, Reach, here, next, starts, connects, Reach-unconnected,
}
use homelink.P2p.Packets.{handle_packet-send}
use homelink.P2p.Heartbeat.{beats, is_peer_reachable-beats}

abbrev aead : Aead
aead = record {
  seal = λ key nonce p a. replicate 16 0 ++ p;
  unseal = λ key nonce c a. some (drop 16 c);
  derive_key = λ password salt. password;
}

-- Every message is written as `{}` and read as the text `m`.
abbrev platform : Platform
platform = record { aead = aead; dumps = λ m. codes "{}"; loads = λ b. ok (str "m") }

abbrev cipher : SessionCipher
cipher = record {
  key = replicate 32 1;
  send_counter = 0;
  seen_nonces = [];
  message_count = 0;
  created_at = 0;
  nonce_prefix = replicate 8 9;
}

abbrev session : P2pSession
session = record {
  device_id = "AB";
  addr = ("10.0.0.2", 4000);
  cipher_send = cipher;
  cipher_recv = cipher;
  last_seen = 0;
  packet_count = 0;
}

abbrev peer : P2p
peer = record (new "ME") { sessions = ("AB", session) ∷ [] }

abbrev draws : Draws
draws = record { salt = []; send_prefix = []; recv_prefix = []; now = 0; tick = 0 }

abbrev hkdf : List ℕ → List ℕ → List ℕ → List ℕ
hkdf salt info secret = replicate 64 7

abbrev hello : Message
hello = ("type", str "hello") ∷ []

-- A transport that has been started and has tried to connect.
tried :
    Reach hkdf platform
      (new "ME")
      (connect_to_peer hkdf
        (start (new "ME") none)
        "AB"
        (ok (some ("10.0.0.2", 4000)))
        (ok (1 ∷ []))
        draws).1
tried =
    next (next here (starts (new "ME") none))
      (connects (start (new "ME") none) "AB" (ok (some ("10.0.0.2", 4000))) (ok (1 ∷ [])) draws)

Reach-unconnected_example :
    let p =
      (connect_to_peer hkdf
        (start (new "ME") none)
        "AB"
        (ok (some ("10.0.0.2", 4000)))
        (ok (1 ∷ []))
        draws).1 in
    (send platform p "AB" hello 5 none ≡ (raise transport_error, p))
    × (handle_packet platform p (codes "hello") ("10.0.0.2", 4000) 5 ≡ p)
    × (is_peer_reachable p "AB" 5 ≡ false)
Reach-unconnected_example =
    Reach-unconnected hkdf platform "ME" _ "AB" hello (codes "hello") ("10.0.0.2", 4000) 5 none
      tried

abbrev packet : List ℕ
packet =
    (0 ∷ 0 ∷ 0 ∷ 30 ∷ []) ++ (replicate 4 0 ++ (replicate 8 9 ++ (replicate 16 0 ++ codes "{}")))

sent_run : (send platform peer "AB" hello 5 none).1.sent ≡ (("10.0.0.2", 4000), packet) ∷ []
unfolding send send_to_session transmit frame encrypt make_nonce big_endian Dict.lookup
sent_run = refl

handle_packet-send_example :
    (handle_packet platform peer packet ("10.0.0.2", 4000) 9).received ≡ str "m" ∷ []
unfolding find_session_by_addr Dict.lookup
handle_packet-send_example =
    handle_packet-send platform peer peer "AB" "AB" session session hello packet (str "m")
      ("10.0.0.2", 4000) 5 9 (λ key nonce b a. refl) (λ key nonce b a. omega arith) refl refl refl
      refl refl refl refl sent_run

is_peer_reachable-beats_example :
    is_peer_reachable (beats platform peer (30_000 ∷ 60_000 ∷ 90_000 ∷ [])) "AB" 119_000 ≡ true
is_peer_reachable-beats_example =
    is_peer_reachable-beats platform peer "AB" session (30_000 ∷ 60_000 ∷ 90_000 ∷ []) 119_000
      (λ key nonce. omega arith) refl refl (omega arith) (omega arith) (omega arith)
