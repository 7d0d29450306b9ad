-- ===== src/Tests/HolePunch.antt =====
-- Runs of homelink/transport/p2p/hole_punch.py.
use homelink.Common.{ℕ, ◌≡◌, refl, ap, true, false, Option, some, List, [], ◌∷◌}
use homelink.Common.Exc.{ok}
use homelink.Common.Text.{Text, codes}
use homelink.HolePunch.{
  HolePuncher, PeerEndpoint, Event, timed_out, datagram, punch, punch_loop, punch_all, recv_pong,
  found_at, has_nonce, contains, reply,
}
use homelink.HolePunch.Answers.{Answered, punch-Answered}

abbrev puncher : HolePuncher
puncher = record { sock = some 5000; sent = [] }

abbrev peer : PeerEndpoint
peer = record {
  device_id = "AB";
  public_ip = "203.0.113.9";
  public_port = 4000;
  local_ip = "10.0.0.2";
  local_port = 4000;
}

abbrev decode : List ℕ → Option Text
decode b = some b

-- A ping of the peer, then its pong.
abbrev events : List (ℕ × Event)
events =
    (100, datagram (codes "HOMELINK-PING-v1:AB:ff") ("10.0.0.2", 4000) true)
    ∷ (600, timed_out)
    ∷ (700, datagram (codes "HOMELINK-PONG-v1:ME:0a1b") ("10.0.0.2", 4000) true)
    ∷ []

punch_run :
    (punch decode puncher peer (codes "ME") (codes "0a1b") 0 (true, false) (0 ∷ 500 ∷ []) events)
    ≡ (
      ok (some ("10.0.0.2", 4000)),
      record puncher {
        sent =
            (codes "HOMELINK-PING-v1:ME:0a1b", ("203.0.113.9", 4000))
            ∷ (codes "HOMELINK-PING-v1:ME:0a1b", ("203.0.113.9", 4000))
            ∷ (codes "HOMELINK-PONG-v1:AB:ff", ("10.0.0.2", 4000))
            ∷ [];
      },
    )
unfolding punch punch_loop punch_all recv_pong found_at has_nonce contains reply
punch_run = refl

punch-Answered_example : Answered decode (codes "0a1b") 10_000 ("10.0.0.2", 4000) events
punch-Answered_example =
    punch-Answered decode puncher peer (codes "ME") (codes "0a1b") 0 (true, false) (0 ∷ 500 ∷ [])
      events ("10.0.0.2", 4000) (ap (λ r. r.0) punch_run)
