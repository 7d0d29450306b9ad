-- ===== src/Broker.antt =====
-- homelink/core/broker.py: which transport a message takes, and who gets an inbound one. What the
-- transports answer to one call is a parameter. The Telegram transport's `is_available` is called
-- without `await`, so its answer is always true.
pub mod Sending
use homelink.Common.Dict.{Dict}
use homelink.Common.Dict
use homelink.Common.{
  ℕ, ◌-◌, String, Bool, true, false, ◌&&◌, Option, none, some, List, [], ◌∷◌, ◌++◌, ltb,
  if◌then◌else◌,
}
use homelink.Common.Exc.{Result, ok, raise, type_error}
use homelink.Common.Json.{str, arr, obj, Message, get}

pub data TransportType : Type 0 where
  p2p telegram no_transport : TransportType

-- How the transports answer while one message is sent: is the direct one available, does it reach
-- the device, and which of the calls of `send` return?
pub record Answers : Type 0 where
  pub available : Bool
  pub reachable : Bool
  pub p2p_sends : Bool
  pub telegram_sends : Bool
  -- the second call on Telegram, when both go there
  pub telegram_sends_again : Bool

pub record Broker : Type 0 where
  pub has_p2p : Bool
  pub has_telegram : Bool
  pub active : TransportType
  pub last_p2p_check : ℕ

-- A call of `send` on a transport, and whether it returned.
pub record Attempt : Type 0 where
  pub transport : TransportType
  pub returned : Bool

-- `_p2p_check_interval`, in milliseconds
abbrev pub p2p_check_interval : ℕ
p2p_check_interval = 60_000

abbrev pub is_p2p : TransportType → Bool
is_p2p p2p = true
is_p2p _ = false

-- `register_p2p` and `register_telegram`
abbrev pub register_p2p : Broker → Broker
register_p2p b = record b { has_p2p = true }

abbrev pub register_telegram : Broker → Broker
register_telegram b = record b { has_telegram = true }

-- `_check_p2p`
unfoldable pub check_p2p : Broker → Answers → ℕ → Broker
check_p2p b answers now =
    if b.has_p2p && answers.available
    then record b { last_p2p_check = now; active = p2p }
    else record b { last_p2p_check = now }

-- `_select_transport`, after the periodic check.
unfoldable pub choose : Broker → Answers → TransportType × Broker
choose b answers =
    if is_p2p b.active && (b.has_p2p && answers.reachable)
    then (p2p, b)
    else if b.has_telegram
    then (telegram, record b { active = telegram })
    else (no_transport, b)

unfoldable pub select_transport : Broker → Answers → ℕ → TransportType × Broker
unfolding check_p2p choose
select_transport b answers now =
    if ltb p2p_check_interval (now - b.last_p2p_check)
    then choose (check_p2p b answers now) answers
    else choose b answers

-- `_fallback_send`, given whether the call on Telegram returns.
unfoldable pub fallback_send : Broker → Bool → Bool × Broker × List Attempt
fallback_send b returns =
    if b.has_telegram
    then (
      returns,
      record b { active = telegram },
      record { transport = telegram; returned = returns } ∷ [],
    )
    else (false, b, [])

-- The end of a call whose first attempt is known.
unfoldable pub finish_send : Broker → Attempt → Bool → Bool × Broker × List Attempt
unfolding fallback_send
finish_send b first again =
    if first.returned
    then (true, b, first ∷ [])
    else let (sent, b', attempts) = fallback_send b again in (sent, b', first ∷ attempts)

-- `send`: the answer, the broker, and the calls that it made.
unfoldable pub send_over : TransportType → Broker → Answers → Bool × Broker × List Attempt
unfolding finish_send
send_over no_transport b answers = (false, b, [])
send_over p2p b answers =
    finish_send b (record { transport = p2p; returned = answers.p2p_sends }) answers.telegram_sends
send_over telegram b answers =
    finish_send b (record { transport = telegram; returned = answers.telegram_sends })
      answers.telegram_sends_again

unfoldable pub send : Broker → Answers → ℕ → Bool × Broker × List Attempt
unfolding select_transport send_over
send b answers now =
    let (transport, b') = select_transport b answers now in send_over transport b' answers

-- A handler: what it makes of the state, which it may leave with an exception.
abbrev pub Handler : Type 0 → Type 0
Handler S = Message → S → Result (Unit {0}) × S

module _ {S : Type 0} where
  -- `on`
  unfoldable pub on : Dict (List (Handler S)) → String → Handler S → Dict (List (Handler S))
  unfolding Dict.lookup Dict.insert
  on handlers kind handler = elim (Dict.lookup kind handlers) [
    | none ↦ Dict.insert kind (handler ∷ []) handlers
    | some before ↦ Dict.insert kind (before ++ handler ∷ []) handlers
  ]

  -- The handlers in their order; an exception of one does not keep the next from running.
  unfoldable pub run_all : List (Handler S) → Message → S → S
  run_all [] m s = s
  run_all (handler ∷ handlers) m s = run_all handlers m (handler m s).1

  abbrev pub or_none : Option (List (Handler S)) → List (Handler S)
  or_none none = []
  or_none (some handlers) = handlers

  -- `dispatch`: a type that is a list or an object cannot be looked up.
  unfoldable pub dispatch : Dict (List (Handler S)) → Message → S → Result (Unit {0}) × S
  unfolding run_all Dict.lookup get
  dispatch handlers m s = elim (get m "type" (str "unknown")) [
    | str kind ↦ (ok tt, run_all (or_none (Dict.lookup kind handlers)) m s)
    | arr parts ↦ (raise type_error, s)
    | obj pairs ↦ (raise type_error, s)
    | _ ↦ (ok tt, s)
  ]
