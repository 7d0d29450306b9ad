-- ===== src/P2p.antt =====
-- homelink/transport/p2p/transport.py: the sessions with peers, their packets and the heartbeat.
-- Clocks, random bytes and the errors of the socket are arguments; what is sent and what is passed
-- on are recorded in order.
pub mod Connecting
pub mod Packets
pub mod Heartbeat
use homelink.Common.{
  ℕ, ◌+◌, ◌-◌, ◌*◌, String, Bool, true, false, ◌&&◌, Option, none, some, List, [], ◌∷◌, ◌++◌,
  str_eq, ltb, leb, ◌==◌, if◌then◌else◌, is_some, length, take, drop,
}
use homelink.Common.Dict
use homelink.Common.Dict.{Dict}
use homelink.Common.Exc.{Exc, Result, ok, raise, transport_error, struct_error}
use homelink.Common.Json.{Value, str, Message}
use homelink.Signing.{big_endian}
use homelink.Session.{Aead, SessionCipher, encrypt, decrypt, from_bytes, needs_rotation}
use homelink.Stun.{PublicEndpoint}

abbrev pub Addr : Type 0
Addr = String × ℕ

pub record P2pSession : Type 0 where
  pub device_id : String
  pub addr : Addr
  pub cipher_send : SessionCipher
  pub cipher_recv : SessionCipher
  pub last_seen : ℕ
  pub packet_count : ℕ

pub record P2p : Type 0 where
  pub device_id : String
  pub public_endpoint : Option PublicEndpoint
  pub connected : Bool
  -- is a receive callback set?
  pub receives : Bool
  pub sessions : Dict P2pSession
  pub sent : List (Addr × List ℕ)
  pub received : List Value

pub record Platform : Type 0 where
  pub aead : Aead
  -- `json.dumps(m).encode()`
  pub dumps : Message → List ℕ
  -- `json.loads(b.decode())`
  pub loads : List ℕ → Result Value

abbrev pub Outcome : Type 0
Outcome = Result (Unit {0}) × P2p

-- `P2PTransport(...)`, once its receive callback is set.
abbrev pub new : String → P2p
new device_id = record {
  device_id = device_id;
  public_endpoint = none;
  connected = false;
  receives = true;
  sessions = [];
  sent = [];
  received = [];
}

abbrev pub max_packet_size : ℕ
max_packet_size = 65_000

-- `HEARTBEAT_INTERVAL`, in milliseconds
abbrev pub heartbeat_interval : ℕ
heartbeat_interval = 30_000

-- `is_alive`
abbrev pub is_alive : ℕ → ℕ → P2pSession → Bool
is_alive timeout now session = ltb (now - session.last_seen) timeout

-- `touch`
abbrev pub touch : ℕ → P2pSession → P2pSession
touch now session = record session { last_seen = now; packet_count = session.packet_count + 1 }

-- `needs_key_rotation`: `_send_to_session` only writes a line to the log where it holds.
abbrev pub needs_key_rotation : Aead → P2pSession → ℕ → Bool
needs_key_rotation aead session now = needs_rotation aead session.cipher_send now

abbrev put_session : P2p → String → P2pSession → P2p
put_session p id session = record p { sessions = Dict.insert id session p.sessions }

-- `start`, from what the search for the public endpoint finds.
unfoldable pub start : P2p → Option PublicEndpoint → P2p
start p found = record p {
  public_endpoint = found;
  connected = if is_some found then true else p.connected;
}

-- `stop`
abbrev pub stop : P2p → P2p
stop p = record p { connected = false }

-- `is_available`
abbrev pub is_available : P2p → Bool
is_available p = p.connected && is_some p.public_endpoint

-- `is_peer_reachable`
unfoldable pub is_peer_reachable : P2p → String → ℕ → Bool
unfolding Dict.lookup
is_peer_reachable p id now = elim (Dict.lookup id p.sessions) [
  | none ↦ false
  | some session ↦ is_alive 60_000 now session
]

-- `struct.pack(">I", len(encrypted)) + encrypted`, of a packet that is not too long.
unfoldable pub frame : List ℕ → Result (List ℕ)
unfolding big_endian
frame encrypted =
    if leb 4_294_967_296 (length encrypted)
    then raise struct_error
    else let packet = big_endian 4 (length encrypted) ++ encrypted in
      if ltb max_packet_size (length packet) then raise transport_error else ok packet

-- `self._find_session_by_addr(addr)`, with the key of the session.
unfoldable pub find_session_by_addr : Addr → Dict P2pSession → Option (String × P2pSession)
find_session_by_addr addr [] = none
find_session_by_addr addr ((id, session) ∷ sessions) =
    if str_eq session.addr.0 addr.0 && session.addr.1 == addr.1
    then some (id, session)
    else find_session_by_addr addr sessions

-- The sessions that are not dead.
unfoldable pub drop_dead : ℕ → Dict P2pSession → Dict P2pSession
drop_dead now [] = []
drop_dead now ((id, session) ∷ sessions) =
    let rest = drop_dead now sessions in
    if is_alive (heartbeat_interval * 3) now session then (id, session) ∷ rest else rest

abbrev pub heartbeat : Message
heartbeat = ("type", str "heartbeat") ∷ []

module _ (pf : Platform) where
  -- The packet goes out, unless the socket has an error.
  unfoldable pub transmit : P2p → String → P2pSession → Result (List ℕ) → ℕ → Option Exc → Outcome
  transmit p id session (raise e) now error = (raise e, p)
  transmit p id session (ok packet) now (some e) = (raise e, p)
  transmit p id session (ok packet) now none = (
    ok tt,
    record p {
      sent = p.sent ++ (session.addr, packet) ∷ [];
      sessions = Dict.insert id (touch now session) p.sessions;
    },
  )

  -- `_send_to_session`. The cipher has moved on even where the packet is not sent.
  unfoldable pub send_to_session : P2p → String → P2pSession → Message → ℕ → Option Exc → Outcome
  unfolding encrypt frame transmit
  send_to_session p id session m now error =
      let (result, cipher) = encrypt pf.aead session.cipher_send (pf.dumps m) [] in
      elim result [
        | raise e ↦ (raise e, p)
        | ok encrypted ↦
            let session' = record session { cipher_send = cipher } in
            transmit (put_session p id session') id session' (frame encrypted) now error
      ]

  -- `send`
  unfoldable pub send : P2p → String → Message → ℕ → Option Exc → Outcome
  unfolding Dict.lookup send_to_session
  send p id m now error = elim (Dict.lookup id p.sessions) [
    | none ↦ (raise transport_error, p)
    | some session ↦
        if is_alive 60_000 now session
        then send_to_session p id session m now error
        else (raise transport_error, p)
  ]

  -- The end of `_handle_packet`: a payload that is no JSON is dropped.
  unfoldable pub take_payload : P2p → String → P2pSession → Result Value → ℕ → P2p
  take_payload p id session (raise e) now = p
  take_payload p id session (ok message) now =
      let p' = put_session p id (touch now session) in
      if p.receives then record p' { received = p.received ++ message ∷ [] } else p'

  -- The payload of a packet, for its session. The cipher has moved on even where it refuses.
  unfoldable pub open_packet : P2p → String → P2pSession → List ℕ → ℕ → P2p
  unfolding decrypt take_payload
  open_packet p id session encrypted now =
      let (result, cipher) = decrypt pf.aead session.cipher_recv encrypted [] in
      let session' = record session { cipher_recv = cipher } in
      let p' = put_session p id session' in
      elim result [ raise e ↦ p' | ok payload ↦ take_payload p' id session' (pf.loads payload) now ]

  -- `_handle_packet`
  unfoldable pub handle_packet : P2p → List ℕ → Addr → ℕ → P2p
  unfolding find_session_by_addr open_packet
  handle_packet p packet addr now =
      let encrypted = take (from_bytes 0 (take 4 packet)) (drop 4 packet) in
      if ltb (length packet) 4 then p else elim (find_session_by_addr addr p.sessions) [
        | none ↦ p
        | some (id, session) ↦ open_packet p id session encrypted now
      ]

  -- `_recv_loop`, for the datagrams that arrive.
  unfoldable pub recv_loop : P2p → List (List ℕ × Addr × ℕ) → P2p
  unfolding handle_packet
  recv_loop p [] = p
  recv_loop p ((packet, addr, now) ∷ packets) = recv_loop (handle_packet p packet addr now) packets

  -- One heartbeat for each session, with the error of the socket that the session meets, if it
  -- meets one; an exception is swallowed.
  unfoldable pub beat_all : P2p → Dict P2pSession → ℕ → (String → Option Exc) → P2p
  unfolding send_to_session
  beat_all p [] now errors = p
  beat_all p ((id, session) ∷ sessions) now errors =
      beat_all (send_to_session p id session heartbeat now (errors id)).1 sessions now errors

  -- One round of `_heartbeat_loop`.
  unfoldable pub beat : P2p → ℕ → (String → Option Exc) → P2p
  unfolding drop_dead beat_all
  beat p now errors =
      let live = drop_dead now p.sessions in beat_all (record p { sessions = live }) live now errors
