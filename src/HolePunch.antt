-- ===== src/HolePunch.antt =====
-- homelink/transport/p2p/hole_punch.py: an attempt to punch a hole. What the socket gives, and the
-- clock before each receive, are arguments; what is sent is recorded in order.
pub mod Answers
use homelink.Common.{
  ℕ, ◌+◌, String, Bool, false, not, ◌&&◌, ◌||◌, Option, none, some, List, [], ◌∷◌, ◌++◌, ltb,
  if◌then◌else◌, length, drop,
}
use homelink.Common.Exc.{Result, ok, raise, runtime_error}
use homelink.Common.Text.{Text, codes, starts_with}

abbrev pub Addr : Type 0
Addr = String × ℕ

pub record PeerEndpoint : Type 0 where
  pub device_id : String
  pub public_ip : String
  pub public_port : ℕ
  pub local_ip : String
  pub local_port : ℕ

-- `HolePuncher`, with the datagrams that it has sent.
pub record HolePuncher : Type 0 where
  -- the port of the bound socket
  pub sock : Option ℕ
  pub sent : List (List ℕ × Addr)

-- What one turn of the receive loop meets: a wait of half a second in vain, an error, or a
-- datagram; whether an answer to it can be sent is the last argument.
pub data Event : Type 0 where
  timed_out failed_receive : Event
  datagram : List ℕ → Addr → Bool → Event

abbrev pub ping_magic : List ℕ
ping_magic = codes "HOMELINK-PING-v1:"

abbrev pub pong_magic : List ℕ
pong_magic = codes "HOMELINK-PONG-v1:"

-- `HOLE_TIMEOUT` and `PING_INTERVAL`, in milliseconds
abbrev pub hole_timeout : ℕ
hole_timeout = 10_000

abbrev pub ping_interval : ℕ
ping_interval = 500

-- `bind`, from the port that the system gives.
abbrev pub bind : HolePuncher → ℕ → HolePuncher
bind p port = record p { sock = some port }

-- `close`
abbrev pub close : HolePuncher → HolePuncher
close p = record p { sock = none }

-- The targets, and whether each can be sent to.
abbrev pub targets : PeerEndpoint → Bool × Bool → List (Addr × Bool)
targets peer (public, local) =
    ((peer.public_ip, peer.public_port), public) ∷ ((peer.local_ip, peer.local_port), local) ∷ []

-- The ping of a device, for the text of its random nonce.
abbrev pub ping : List ℕ → List ℕ → List ℕ
ping device_id nonce = ping_magic ++ (device_id ++ (codes ":" ++ nonce))

abbrev pub put : HolePuncher → List ℕ → Addr → HolePuncher
put p b addr = record p { sent = p.sent ++ (b, addr) ∷ [] }

-- One turn of `_punch_loop`, for the targets that can be sent to.
unfoldable pub punch_all : HolePuncher → List ℕ → List (Addr × Bool) → HolePuncher
punch_all p b [] = p
punch_all p b ((addr, reachable) ∷ rest) = punch_all (if reachable then put p b addr else p) b rest

-- `_punch_loop`, at the times of its turns; it returns nothing.
unfoldable pub punch_loop : HolePuncher → List ℕ → List (Addr × Bool) → ℕ → List ℕ → HolePuncher
unfolding punch_all
punch_loop p b addresses deadline [] = p
punch_loop p b addresses deadline (now ∷ times) =
    let rest = punch_loop (punch_all p b addresses) b addresses deadline times in
    if ltb now deadline then rest else p

-- `part in text`
unfoldable pub contains : Text → Text → Bool
contains part [] = starts_with part []
contains part (c ∷ text) = let rest = contains part text in starts_with part (c ∷ text) || rest

-- A ping is answered by a pong with the same payload.
unfoldable pub reply : HolePuncher → Event → HolePuncher
reply p (datagram b addr reachable) =
    if not (starts_with pong_magic b) && (starts_with ping_magic b && reachable)
    then put p (pong_magic ++ drop (length ping_magic) b) addr
    else p
reply p timed_out = p
reply p failed_receive = p

module _ (decode : List ℕ → Option Text) where
  -- A payload that is no UTF-8 raises an error, which is swallowed.
  unfoldable pub has_nonce : Text → List ℕ → Bool
  unfolding contains
  has_nonce nonce payload = elim (decode payload) [ none ↦ false | some text ↦ contains nonce text ]

  abbrev pub is_answer : Text → List ℕ → Bool
  is_answer nonce b = starts_with pong_magic b && has_nonce nonce (drop (length pong_magic) b)

  -- The address that a datagram gives, where it is the answer.
  unfoldable pub found_at : Text → Event → Option Addr
  unfolding has_nonce
  found_at nonce (datagram b addr reachable) = if is_answer nonce b then some addr else none
  found_at nonce timed_out = none
  found_at nonce failed_receive = none

  -- `_recv_pong`: at each turn the clock and what is met.
  unfoldable pub recv_pong : HolePuncher → Text → ℕ → List (ℕ × Event) → Option Addr × HolePuncher
  unfolding found_at reply
  recv_pong p nonce deadline [] = (none, p)
  recv_pong p nonce deadline ((now, event) ∷ events) =
      let rest = recv_pong (reply p event) nonce deadline events in
      if ltb now deadline
      then elim (found_at nonce event) [ none ↦ rest | some addr ↦ (some addr, p) ]
      else (none, p)

  -- `punch`, for the times of the turns of the punch loop and what the receive loop meets. Both
  -- loops run side by side: the order between their datagrams is not kept.
  unfoldable pub punch :
      HolePuncher
      → PeerEndpoint
      → List ℕ
      → Text
      → ℕ
      → Bool × Bool
      → List ℕ
      → List (ℕ × Event)
      → Result (Option Addr) × HolePuncher
  unfolding punch_loop recv_pong
  punch p peer my_device_id nonce started reachable times events = elim p.sock [
    | none ↦ (raise runtime_error, p)
    | some port ↦
        let deadline = started + hole_timeout in
        let p' = punch_loop p (ping my_device_id nonce) (targets peer reachable) deadline times in
        let (found, p'') = recv_pong p' nonce deadline events in (ok found, p'')
  ]
