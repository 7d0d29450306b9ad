-- ===== src/Broker/Sending.antt =====
-- Laws of homelink/core/broker.py.
use homelink.Common.Dict.{Dict}
use homelink.Common.Dict
use homelink.Common.{
  ℕ, ◌+◌, ◌≤◌, String, ◌≡◌, refl, ap, ◌∙◌, inl, inr, Bool, true, false, List, [], ◌∷◌, ◌++◌, arith,
  str_eq, eq_iff, if◌then◌else◌, Bool-cases, Option-cases, length,
}
use homelink.Common.Json.{str, Message, get}
use homelink.Broker.{
  TransportType, p2p, telegram, no_transport, Answers, Broker, Attempt, select_transport,
  fallback_send, finish_send, send_over, send, Handler, on, run_all, or_none, dispatch,
}

-- How many of the calls returned.
abbrev pub deliveries : List Attempt → ℕ
deliveries [] = 0
deliveries (a ∷ attempts) = (if a.returned then 1 else 0) + deliveries attempts

-- The answer says whether a call returned; at most one did, of at most two.
abbrev pub Honest : Bool × Broker × List Attempt → Type 0
Honest (sent, b, attempts) = (deliveries attempts ≡ (if sent then 1 else 0)) × (length attempts ≤ 2)

fallback_send-Honest :
    (b : Broker) (returns : Bool)
    → (deliveries (fallback_send b returns).2 ≡ (if (fallback_send b returns).0 then 1 else 0))
      × (length (fallback_send b returns).2 ≤ 1)
unfolding fallback_send
fallback_send-Honest b returns = ground arith

finish_send-Honest :
    (returned : Bool) (b : Broker) (t : TransportType) (again : Bool)
    → Honest (finish_send b (record { transport = t; returned = returned }) again)
unfolding finish_send
finish_send-Honest true b t again = (refl, omega arith)
finish_send-Honest false b t again =
    let (count, few) = fallback_send-Honest b again in (omega (arith, count), omega (arith, few))

send_over-Honest :
    (t : TransportType) (b : Broker) (answers : Answers) → Honest (send_over t b answers)
unfolding send_over
send_over-Honest no_transport b answers = (refl, omega arith)
send_over-Honest p2p b answers = finish_send-Honest answers.p2p_sends b p2p answers.telegram_sends
send_over-Honest telegram b answers =
    finish_send-Honest answers.telegram_sends b telegram answers.telegram_sends_again

-- `send` returns true exactly when one of its calls on a transport returned, at most one did, and
-- it makes at most two calls.
pub send-Honest : (b : Broker) (answers : Answers) (now : ℕ) → Honest (send b answers now)
unfolding send
send-Honest b answers now =
    let (t, b') = select_transport b answers now in send_over-Honest t b' answers

module _ {S : Type 0} where
  run_all-append :
      (before : List (Handler S)) (handler : Handler S) (m : Message) (s : S)
      → run_all (before ++ handler ∷ []) m s ≡ (handler m (run_all before m s)).1
  unfolding run_all
  run_all-append [] handler m s = refl
  run_all-append (h ∷ before) handler m s = run_all-append before handler m (h m s).1

  lookup-on :
      (handlers : Dict (List (Handler S))) (kind other : String) (handler : Handler S)
      → or_none (Dict.lookup other (on handlers kind handler)) ≡ (
          if str_eq kind other
          then or_none (Dict.lookup kind handlers) ++ handler ∷ []
          else or_none (Dict.lookup other handlers))
  unfolding on
  lookup-on handlers kind other handler = elim (Option-cases (Dict.lookup kind handlers)) [
    | inl fresh ↦ elim (Bool-cases (str_eq kind other)) [
      | inl same ↦
          rw (fresh, same, on)
            (ap or_none (Dict.lookup-insert other kind (handler ∷ []) handlers) ∙ rw same refl)
      | inr differ ↦
          rw (fresh, differ, on)
            (ap or_none (Dict.lookup-insert other kind (handler ∷ []) handlers) ∙ rw differ refl)
    ]
    | inr (before, there) ↦ elim (Bool-cases (str_eq kind other)) [
      | inl same ↦
          rw (there, same, on)
            (ap or_none (Dict.lookup-insert other kind (before ++ handler ∷ []) handlers)
              ∙ rw same refl)
      | inr differ ↦
          rw (there, differ, on)
            (ap or_none (Dict.lookup-insert other kind (before ++ handler ∷ []) handlers)
              ∙ rw differ refl)
    ]
  ]

  dispatch_typed :
      (handlers : Dict (List (Handler S))) (kind : String) (m : Message) (s : S)
      → get m "type" (str "unknown") ≡ str kind
      → (dispatch handlers m s).1 ≡ run_all (or_none (Dict.lookup kind handlers)) m s
  unfolding dispatch
  dispatch_typed handlers kind m s typed = rw (typed, dispatch) refl

-- A handler that is registered last for the type of a message runs after all others of that type,
-- on the state that they leave, even if they raise; for another type nothing changes.
pub dispatch-on :
    {S : Type 0} (handlers : Dict (List (Handler S))) (kind other : String) (handler : Handler S)
    (m : Message) (s : S)
    → get m "type" (str "unknown") ≡ str other
    → (dispatch (on handlers kind handler) m s).1 ≡ (
        if str_eq kind other
        then (handler m (dispatch handlers m s).1).1
        else (dispatch handlers m s).1)
dispatch-on handlers kind other handler m s typed =
    let all = dispatch_typed handlers other m s typed in
    let step =
      dispatch_typed (on handlers kind handler) other m s typed
      ∙ ap (λ l. run_all l m s) (lookup-on handlers kind other handler) in
    elim (Bool-cases (str_eq kind other)) [
      | inl same ↦
          let key : kind ≡ other = (eq_iff kind other).0 same in
          let before : (dispatch handlers m s).1
              ≡ run_all (or_none (Dict.lookup kind handlers)) m s =
            rw key all in
          rw (same, before)
            ((rw same at step) ∙ run_all-append (or_none (Dict.lookup kind handlers)) handler m s)
      | inr differ ↦ rw (differ, all) (rw differ at step)
    ]
