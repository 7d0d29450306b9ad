-- ===== src/P2p/Connecting.antt =====
-- homelink/transport/p2p/transport.py: `connect_to_peer`, and what a transport can come to.
use homelink.Common.{
  ℕ, String, ◌≡◌, refl, inl, inr, Bool, true, false, Option, none, some, List, [], ◌∷◌, ltb,
  Bool-cases, length,
}
use homelink.Common.Dict
use homelink.Common.Exc.{Exc, Result, ok, raise, transport_error, value_error, ◌>>=◌}
use homelink.Common.Json.{Message}
use homelink.Common.Text.{codes}
use homelink.Session.{new_cipher}
use homelink.Passwords.{derive_session_keys}
use homelink.Stun.{PublicEndpoint}
use homelink.P2p.{
  P2p, P2pSession, Platform, Addr, new, start, stop, send, handle_packet, find_session_by_addr,
  is_peer_reachable, beat, drop_dead, beat_all,
}

-- `a, b = parts`
abbrev pub unpack_two {ℓ} : {A : Type ℓ} → List A → Result (A × A)
unpack_two (a ∷ b ∷ []) = ok (a, b)
unpack_two _ = raise value_error

-- The tuple that `derive_session_keys` returns.
abbrev pub parts_of : List ℕ × List ℕ × List ℕ → List (List ℕ)
parts_of (first, second, salt) = first ∷ second ∷ salt ∷ []

-- What a connection draws from the system: the salt of the keys, the prefixes of both ciphers, and
-- the clocks.
pub record Draws : Type 0 where
  pub salt : List ℕ
  pub send_prefix : List ℕ
  pub recv_prefix : List ℕ
  pub now : ℕ
  pub tick : ℕ

module _ (hkdf : List ℕ → List ℕ → List ℕ → List ℕ) where
  -- The session for a shared secret.
  unfoldable pub make_session : String → Addr → Result (List ℕ) → Draws → Result P2pSession
  unfolding derive_session_keys new_cipher
  make_session id addr exchanged draws = do
    shared_secret ← exchanged
    keys ←
        unpack_two (
          parts_of
            (derive_session_keys hkdf shared_secret draws.salt (codes "homelink-v1-session")))
    cipher_send ← new_cipher keys.0 draws.send_prefix draws.tick
    cipher_recv ← new_cipher keys.1 draws.recv_prefix draws.tick
    ok (record {
      device_id = id;
      addr = addr;
      cipher_send = cipher_send;
      cipher_recv = cipher_recv;
      last_seen = draws.now;
      packet_count = 0;
    })

  -- `self._sessions[peer.device_id] = session`
  unfoldable pub add_session : P2p → String → Result P2pSession → Result Bool × P2p
  unfolding Dict.insert
  add_session p id (raise e) = (raise e, p)
  add_session p id (ok session) =
      (ok true, record p { sessions = Dict.insert id session p.sessions })

  -- `connect_to_peer`, from what the punching ends in and what the exchange of keys gives.
  unfoldable pub connect_to_peer :
      P2p → String → Result (Option Addr) → Result (List ℕ) → Draws → Result Bool × P2p
  unfolding make_session add_session
  connect_to_peer p id (raise e) exchanged draws = (raise e, p)
  connect_to_peer p id (ok none) exchanged draws = (ok false, p)
  connect_to_peer p id (ok (some addr)) exchanged draws =
      add_session p id (make_session id addr exchanged draws)

  make_session-raises :
      (id : String) (addr : Addr) (exchanged : Result (List ℕ)) (draws : Draws)
      → (e : Exc) × (make_session id addr exchanged draws ≡ raise e)
  unfolding make_session derive_session_keys
  make_session-raises id addr (raise e) draws = (e, refl)
  make_session-raises id addr (ok secret) draws = (value_error, refl)

  connect_to_peer-same :
      (p : P2p) (id : String) (punched : Result (Option Addr)) (exchanged : Result (List ℕ))
      (draws : Draws)
      → (connect_to_peer p id punched exchanged draws).1 ≡ p
  unfolding connect_to_peer add_session
  connect_to_peer-same p id (raise e) exchanged draws = refl
  connect_to_peer-same p id (ok none) exchanged draws = refl
  connect_to_peer-same p id (ok (some addr)) exchanged draws =
      let (e, q) = make_session-raises id addr exchanged draws in rw (q, add_session) refl

  module _ (pf : Platform) where
    -- What a transport may do next.
    pub data Step : P2p → P2p → Type 0 where
      starts : (p : P2p) (found : Option PublicEndpoint) → Step p (start p found)
      stops : (p : P2p) → Step p (stop p)
      connects :
          (p : P2p) (id : String) (punched : Result (Option Addr)) (exchanged : Result (List ℕ))
          (draws : Draws)
          → Step p (connect_to_peer p id punched exchanged draws).1
      sends :
          (p : P2p) (id : String) (m : Message) (now : ℕ) (error : Option Exc)
          → Step p (send pf p id m now error).1
      hears :
          (p : P2p) (packet : List ℕ) (addr : Addr) (now : ℕ)
          → Step p (handle_packet pf p packet addr now)
      beats : (p : P2p) (now : ℕ) (errors : String → Option Exc) → Step p (beat pf p now errors)

    pub data Reach (p : P2p) : P2p → Type 0 where
      here : Reach p p
      next : {q r : P2p} → Reach p q → Step q r → Reach p r

    send-none :
        (p : P2p) (id : String) (m : Message) (now : ℕ) (error : Option Exc)
        → p.sessions ≡ []
        → send pf p id m now error ≡ (raise transport_error, p)
    unfolding send Dict.lookup
    send-none p id m now error none_yet = rw none_yet refl

    handle_packet-none :
        (p : P2p) (packet : List ℕ) (addr : Addr) (now : ℕ)
        → p.sessions ≡ []
        → handle_packet pf p packet addr now ≡ p
    unfolding handle_packet find_session_by_addr
    handle_packet-none p packet addr now none_yet = elim (Bool-cases (ltb (length packet) 4)) [
      | inl short ↦ rw (short, handle_packet) refl
      | inr long ↦
          let missing : find_session_by_addr addr p.sessions ≡ none = rw none_yet refl in
          rw (long, missing, handle_packet) refl
    ]

    Step-sessions : {p q : P2p} → Step p q → p.sessions ≡ [] → q.sessions ≡ []
    unfolding start beat drop_dead beat_all
    Step-sessions (starts p found) h = h
    Step-sessions (stops p) h = h
    Step-sessions (connects p id punched exchanged draws) h =
        rw (connect_to_peer-same p id punched exchanged draws) h
    Step-sessions (sends p id m now error) h = rw (send-none p id m now error h) h
    Step-sessions (hears p packet addr now) h = rw (handle_packet-none p packet addr now h) h
    Step-sessions (beats p now errors) h = rw h refl

    Reach-sessions : {p q : P2p} → Reach p q → p.sessions ≡ [] → q.sessions ≡ []
    Reach-sessions here h = h
    Reach-sessions (next r step) h = Step-sessions step (Reach-sessions r h)

    -- Whatever a new P2P transport does, in whatever order and with whatever peers, its `send`
    -- raises an error, a packet that arrives changes nothing and no peer is reachable, since
    -- `connect_to_peer` never adds a session.
    pub Reach-unconnected :
        (device_id : String) (p : P2p) (id : String) (m : Message) (packet : List ℕ) (addr : Addr)
        (now : ℕ) (error : Option Exc)
        → Reach (new device_id) p
        → (send pf p id m now error ≡ (raise transport_error, p))
          × (handle_packet pf p packet addr now ≡ p)
          × (is_peer_reachable p id now ≡ false)
    unfolding is_peer_reachable Dict.lookup
    Reach-unconnected device_id p id m packet addr now error r =
        let none_ever = Reach-sessions r refl in
        (
          send-none p id m now error none_ever,
          handle_packet-none p packet addr now none_ever,
          rw none_ever refl,
        )
