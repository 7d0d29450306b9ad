-- ===== src/Telegram/Polling.antt =====
-- homelink/transport/telegram/transport.py: `_get_updates` and `_poll_loop`. The answers of the
-- bot API are arguments: `none` where it is not ok, and the list of updates otherwise.
use homelink.Common.Exc.{Exc, Result-cases, Result, ok, raise, type_error, ◌>>=◌}
use homelink.Common.{
  ℕ, ◌*◌, ◌≤◌, min, ◌≡◌, refl, ap, inl, inr, Option, none, some, List, [], ◌∷◌, ◌++◌, arith,
}
use homelink.Common.Int.{ℤ, add_one}
use homelink.Common.Json.{Value, obj, item, to_dict, as_number}
use homelink.Telegram.{Platform, Telegram, Outcome, handle_update}

pub record Poller : Type 0 where
  pub telegram : Telegram
  pub last_update_id : Value
  -- in milliseconds
  pub backoff : ℕ
  -- the waits between the requests, in order
  pub slept : List ℕ

abbrev pub Answer : Type 0
Answer = Result (Option (List Value))

-- `self._last_update_id + 1`, the offset of a request.
unfoldable pub offset : Poller → Result ℤ
unfolding as_number
offset p = do last ← as_number p.last_update_id; ok (add_one last)

-- `update["update_id"]`
unfoldable pub update_id : Value → Result Value
unfolding item
update_id (obj fields) = item (to_dict fields) "update_id"
update_id v = raise type_error

-- `updates[-1]["update_id"]`, or the ID so far where there are no updates.
unfoldable pub last_id : Value → List Value → Result Value
unfolding update_id
last_id so_far [] = ok so_far
last_id so_far (u ∷ []) = update_id u
last_id so_far (u ∷ v ∷ updates) = last_id so_far (v ∷ updates)

abbrev pub or_empty : Option (List Value) → List Value
or_empty none = []
or_empty (some updates) = updates

-- `_get_updates`: the updates, and the ID that is kept.
unfoldable pub get_updates : Poller → Answer → Result (List Value × Value)
unfolding offset last_id
get_updates p answer = do
  _ ← offset p
  answered ← answer
  last ← last_id p.last_update_id (or_empty answered)
  ok (or_empty answered, last)

-- After an exception: wait, and wait longer the next time.
unfoldable pub retry : Poller → Poller
retry p = record p { slept = p.slept ++ p.backoff ∷ []; backoff = min (p.backoff * 2) 60_000 }

module _ (pf : Platform) (clock : Value → ℕ × ℕ) where
  -- The loop over the updates, each handled at the two times that `clock` gives for it. An
  -- exception ends the loop.
  unfoldable pub handle_all : Telegram → List Value → Outcome
  handle_all t [] = (ok tt, t)
  handle_all t (u ∷ updates) =
      let (result, t') = handle_update pf t u (clock u).0 (clock u).1 in
      elim result [ raise e ↦ (raise e, t') | ok _ ↦ handle_all t' updates ]

  unfoldable pub settle : Poller → Outcome → Poller
  unfolding retry
  settle p (raise e, t) = retry (record p { telegram = t })
  settle p (ok _, t) = record p { telegram = t; slept = p.slept ++ 500 ∷ [] }

  -- One round of `_poll_loop`.
  unfoldable pub poll_once : Poller → Answer → Poller
  unfolding get_updates retry handle_all settle
  poll_once p answer = elim (get_updates p answer) [
    | raise e ↦ retry p
    | ok (updates, last) ↦
        let p' = record p { last_update_id = last; backoff = 1000 } in
        settle p' (handle_all p'.telegram updates)
  ]

  unfoldable pub poll_loop : Poller → List Answer → Poller
  unfolding poll_once
  poll_loop p [] = p
  poll_loop p (answer ∷ answers) = poll_loop (poll_once p answer) answers

  retry-bounds :
      (p : Poller) → 1000 ≤ p.backoff → (1000 ≤ (retry p).backoff) × ((retry p).backoff ≤ 60_000)
  unfolding retry
  retry-bounds p h = ground arith

  settle-bounds :
      (p : Poller) (outcome : Outcome)
      → p.backoff ≡ 1000
      → (1000 ≤ (settle p outcome).backoff) × ((settle p outcome).backoff ≤ 60_000)
  unfolding settle
  settle-bounds p (raise e, t) h = retry-bounds (record p { telegram = t }) (omega arith)
  settle-bounds p (ok _, t) h = ground arith

  poll_once-bounds :
      (p : Poller) (answer : Answer)
      → 1000 ≤ p.backoff
      → (1000 ≤ (poll_once p answer).backoff) × ((poll_once p answer).backoff ≤ 60_000)
  unfolding poll_once
  poll_once-bounds p answer h = elim (Result-cases (get_updates p answer)) [
    | inr (e, q) ↦ rw (q, poll_once) (retry-bounds p h)
    | inl ((updates, last), q) ↦
        let p' = record p { last_update_id = last; backoff = 1000 } in
        rw (q, poll_once) (settle-bounds p' (handle_all p.telegram updates) refl)
  ]

  pub poll_loop-bounds :
      (p : Poller) (answers : List Answer)
      → 1000 ≤ p.backoff
      → p.backoff ≤ 60_000
      → (1000 ≤ (poll_loop p answers).backoff) × ((poll_loop p answers).backoff ≤ 60_000)
  unfolding poll_loop
  poll_loop-bounds p [] h below = (h, below)
  poll_loop-bounds p (answer ∷ answers) h below =
      let (low, high) = poll_once-bounds p answer h in
      poll_loop-bounds (poll_once p answer) answers low high

  handle_all-stops :
      (t between after : Telegram) (seen lost : List Value) (u : Value) (e : Exc)
      → handle_all t seen ≡ (ok tt, between)
      → handle_update pf between u (clock u).0 (clock u).1 ≡ (raise e, after)
      → handle_all t (seen ++ u ∷ lost) ≡ (raise e, after)
  unfolding handle_all
  handle_all-stops t between after [] lost u e h raised =
      let same : t ≡ between = cc in
      let here : handle_update pf t u (clock u).0 (clock u).1 ≡ (raise e, after) = rw same raised in
      rw (here, handle_all) (ap (λ (r : Outcome). (raise e, r.1)) here)
  handle_all-stops t between after (v ∷ seen) lost u e h raised =
      elim (Result-cases (handle_update pf t v (clock v).0 (clock v).1).0) [
        | inr (e', q) ↦ cc (rw (q, handle_all) at h)
        | inl (_, q) ↦
            let t' = (handle_update pf t v (clock v).0 (clock v).1).1 in
            let later : handle_all t' seen ≡ (ok tt, between) = rw (q, handle_all) at h in
            rw (q, handle_all) (handle_all-stops t' between after seen lost u e later raised)
      ]

  -- When the handling of an update raises, the updates after it in the same answer are not
  -- handled, and the next request asks for those after the last of them.
  pub poll_once-lost :
      (p : Poller) (between after : Telegram) (seen lost : List Value) (u last : Value) (e : Exc)
      (asked : ℤ)
      → offset p ≡ ok asked
      → last_id p.last_update_id (seen ++ u ∷ lost) ≡ ok last
      → handle_all p.telegram seen ≡ (ok tt, between)
      → handle_update pf between u (clock u).0 (clock u).1 ≡ (raise e, after)
      → let p' = poll_once p (ok (some (seen ++ u ∷ lost))) in
        (p'.telegram ≡ after) × (p'.last_update_id ≡ last)
  unfolding poll_once get_updates settle retry
  poll_once-lost p between after seen lost u last e asked asks ends handled raised =
      let stopped = handle_all-stops p.telegram between after seen lost u e handled raised in
      rw (asks, ends, stopped, poll_once, get_updates, settle) (refl, refl)
