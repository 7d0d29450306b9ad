-- ===== src/Tests/Broker.antt =====
-- Runs of homelink/core/broker.py.
use homelink.Common.Dict
use homelink.Common.{ℕ, ◌+◌, ◌*◌, ◌≡◌, refl, true, false, [], ◌∷◌, str_eq, if◌then◌else◌}
use homelink.Common.Exc.{ok, raise, key_error}
use homelink.Common.Json.{str, Message, get}
use homelink.Broker.{
  Broker, Answers, p2p, telegram, no_transport, send, Handler, on, dispatch, select_transport,
  check_p2p, choose, send_over, finish_send, fallback_send,
}
use homelink.Broker.Sending.{Honest, send-Honest, dispatch-on}

abbrev both : Broker
both = record { has_p2p = true; has_telegram = true; active = no_transport; last_p2p_check = 0 }

abbrev direct_fails : Answers
direct_fails = record {
  available = true;
  reachable = true;
  p2p_sends = false;
  telegram_sends = true;
  telegram_sends_again = true;
}

-- The direct transport raises, and the message goes over Telegram.
send_run : send both direct_fails 60_001 ≡ (
  true,
  record both { active = telegram; last_p2p_check = 60_001 },
  record { transport = p2p; returned = false }
      ∷ record { transport = telegram; returned = true }
      ∷ [],
)
unfolding send select_transport check_p2p choose send_over finish_send fallback_send
send_run = refl

send-Honest_example : Honest (send both direct_fails 60_001)
send-Honest_example = send-Honest both direct_fails 60_001

abbrev count : Handler ℕ
count m n = (ok tt, n + 1)

abbrev double : Handler ℕ
double m n = (raise key_error, n * 2)

abbrev beat : Message
beat = ("type", str "beat") ∷ []

dispatch-on_example : (dispatch (on (("beat", count ∷ []) ∷ []) "beat" double) beat 3).1 ≡ (
    if str_eq "beat" "beat"
    then (double beat (dispatch (("beat", count ∷ []) ∷ []) beat 3).1).1
    else (dispatch (("beat", count ∷ []) ∷ []) beat 3).1)
unfolding get Dict.lookup
dispatch-on_example = dispatch-on (("beat", count ∷ []) ∷ []) "beat" "beat" double beat 3 refl
