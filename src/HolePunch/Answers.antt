-- ===== src/HolePunch/Answers.antt =====
-- The answers that homelink/transport/p2p/hole_punch.py accepts and gives.
use homelink.HolePunch.{
  targets, ok, HolePuncher, Addr, Event, datagram, timed_out, failed_receive, pong_magic, ping,
  contains, has_nonce, is_answer, found_at, reply, recv_pong, punch, punch_loop, PeerEndpoint,
}
use homelink.Common.{
  ℕ, ◌+◌, ◌<◌, ◌≡◌, refl, ap, ◌∙◌, ◌⊎◌, inl, inr, Bool, true, Option, some, List, [], ◌∷◌, ◌++◌,
  arith, ltb, ltb→lt, Bool-cases, Option-cases, &&-parts, length, drop, drop-append,
}
use homelink.Common.Text.{Text, starts_with, starts_with-append, starts_with-split}

contains-split :
    (part text : Text)
    → contains part text ≡ true
    → (before : Text) × (after : Text) × (text ≡ before ++ (part ++ after))
unfolding contains
contains-split part [] h = let (after, e) = starts_with-split part [] h in ([], after, e)
contains-split part (c ∷ text) h = elim (Bool-cases (starts_with part (c ∷ text))) [
  | inl here ↦ let (after, e) = starts_with-split part (c ∷ text) here in ([], after, e)
  | inr there ↦
      let (before, after, e) = contains-split part text (rw there at h) in
      (c ∷ before, after, ap (λ l. c ∷ l) e)
]

contains-append : (before part after : Text) → contains part (before ++ (part ++ after)) ≡ true
unfolding contains
contains-append [] [] [] = refl
contains-append [] [] (c ∷ after) = refl
contains-append [] (c ∷ part) after = rw (starts_with-append (c ∷ part) after) refl
contains-append (c ∷ before) part after = rw (contains-append before part after) (ground arith)

module _ (decode : List ℕ → Option Text) (nonce : Text) (deadline : ℕ) where
  -- What the pong with the nonce looks like.
  abbrev pub Pong : Addr → Event → Type 0
  Pong addr event =
      (payload : List ℕ) × (text : Text) × (before : Text) × (after : Text) × (reachable : Bool)
      × (event ≡ datagram (pong_magic ++ payload) addr reachable)
      × (decode payload ≡ some text)
      × (text ≡ before ++ (nonce ++ after))

  -- A datagram from `addr`, received before the deadline, is a pong with the nonce in its text.
  abbrev pub Answered : Addr → List (ℕ × Event) → Type 0
  Answered addr [] = ⊥
  Answered addr ((now, event) ∷ events) =
      ((now < deadline) × Pong addr event) ⊎ Answered addr events

  has_nonce-split :
      (payload : List ℕ)
      → has_nonce decode nonce payload ≡ true
      → (text : Text) × (before : Text) × (after : Text) × (decode payload ≡ some text)
        × (text ≡ before ++ (nonce ++ after))
  unfolding has_nonce
  has_nonce-split payload h = elim (Option-cases (decode payload)) [
    | inl broken ↦ cc (rw (broken, has_nonce) at h)
    | inr (text, q) ↦
        let (before, after, e) = contains-split nonce text (rw (q, has_nonce) at h) in
        (text, before, after, q, e)
  ]

  found_at-Pong :
      (event : Event) (addr : Addr) → found_at decode nonce event ≡ some addr → Pong addr event
  unfolding found_at
  found_at-Pong (datagram b from reachable) addr h = elim (Bool-cases (is_answer decode nonce b)) [
    | inr other ↦ cc (rw other at h)
    | inl answer ↦
        let (begins, holds) = &&-parts (starts_with pong_magic b) _ answer in
        let (payload, e) = starts_with-split pong_magic b begins in
        let back : drop (length pong_magic) b ≡ payload =
          ap (drop (length pong_magic)) e ∙ drop-append 17 pong_magic payload refl in
        let (text, before, after, decoded, split) = has_nonce-split payload (rw back at holds) in
        let same : from ≡ addr = cc (rw answer at h) in
        (payload, text, before, after, reachable, rw (e, same) refl, decoded, split)
  ]
  found_at-Pong timed_out addr h = cc
  found_at-Pong failed_receive addr h = cc

  recv_pong-Answered :
      (events : List (ℕ × Event)) (p : HolePuncher) (addr : Addr)
      → (recv_pong decode p nonce deadline events).0 ≡ some addr
      → Answered addr events
  unfolding recv_pong
  recv_pong-Answered [] p addr h = cc
  recv_pong-Answered ((now, event) ∷ events) p addr h = elim (Bool-cases (ltb now deadline)) [
    | inr late ↦ cc (rw late at h)
    | inl early ↦ elim (Option-cases (found_at decode nonce event)) [
      | inl nothing ↦
          inr (recv_pong-Answered events (reply p event) addr (rw (early, nothing, recv_pong) at h))
      | inr (a, q) ↦
          let same : a ≡ addr = cc (rw (early, q, recv_pong) at h) in
          inl (ltb→lt now deadline early, found_at-Pong event addr (rw same at q))
    ]
  ]

-- An address that `punch` returns sent a datagram, within ten seconds of the start, that is a
-- pong with the nonce of this attempt in its text.
pub punch-Answered :
    (decode : List ℕ → Option Text) (p : HolePuncher) (peer : PeerEndpoint) (my_device_id : List ℕ)
    (nonce : Text) (started : ℕ) (reachable : Bool × Bool) (times : List ℕ)
    (events : List (ℕ × Event)) (addr : Addr)
    → (punch decode p peer my_device_id nonce started reachable times events).0 ≡ ok (some addr)
    → Answered decode nonce (started + 10_000) addr events
unfolding punch
punch-Answered decode p peer my_device_id nonce started reachable times events addr h =
    elim (Option-cases p.sock) [
      | inl unbound ↦ cc (rw unbound at h)
      | inr (port, bound) ↦
          let p' =
            punch_loop p (ping my_device_id nonce) (targets peer reachable) (started + 10_000)
              times in
          recv_pong-Answered decode nonce (started + 10_000) events p' addr
            (cc (rw (bound, punch) at h))
    ]
