-- ===== src/Commands/Executor/History.antt =====
-- The history of homelink/commands/executor.py.
use homelink.Common.{
  ◌-◌, ◌≤◌, String, ◌≡◌, refl, ◌⊎◌, inl, inr, true, Option, List, [], ◌∷◌, ◌++◌, arith, Bool-cases,
  length, length-append, length-drop,
}
use homelink.Common.Text.{Text}
use homelink.Common.Int.{ℤ, pos}
use homelink.RateLimiter
use homelink.RateLimiter.{RateLimiter}
use homelink.Commands.Validators.{Platform}
use homelink.Commands.Permissions.{Resolved, resolved, denied, resolve_command}
use homelink.Commands.Executor.{
  System, Executor, HistoryEntry, Times, trim, run_resolved, execute, get_history,
}

-- After one more entry the history holds at most 500.
trim-le :
    (history : List HistoryEntry) (e : HistoryEntry)
    → length history ≤ 500
    → length (trim (history ++ e ∷ [])) ≤ 500
unfolding trim
trim-le history e h = ground (
  arith,
  length-append history (e ∷ []),
  length-drop (length (history ++ e ∷ []) - 250) (history ++ e ∷ []),
)

module _ (pf : Platform) (os : System) (limiter : RateLimiter) (ex : Executor) (command : Text)
    (timeout : Option ℤ) (device : String) (times : Times) where
  abbrev after_execute : Executor
  after_execute = (execute pf os limiter ex command timeout device times).2

  -- A call leaves the history alone, or adds one entry and trims it.
  abbrev Logged : Executor → Type 0
  Logged ex' =
      (ex'.history ≡ ex.history)
      ⊎ ((e : HistoryEntry) × (ex'.history ≡ trim (ex.history ++ e ∷ [])))

  execute-Logged_answer :
      (answer : Resolved)
      → resolve_command pf ex.role command ≡ answer
      → (RateLimiter.is_allowed limiter device times.start).0 ≡ true
      → Logged (execute pf os limiter ex command timeout device times).2
  unfolding execute run_resolved
  execute-Logged_answer (resolved exe argv) e allowed = rw (allowed, e) (inr (_, refl))
  execute-Logged_answer (denied reason) e allowed = rw (allowed, e) (inl refl)

  execute-Logged : Logged (execute pf os limiter ex command timeout device times).2
  unfolding execute
  execute-Logged = elim (Bool-cases (RateLimiter.is_allowed limiter device times.start).0) [
    | inl allowed ↦ execute-Logged_answer (resolve_command pf ex.role command) refl allowed
    | inr limited ↦ rw limited (inl refl)
  ]

  -- A history of at most 500 entries stays at most 500 entries long after any call, and the
  -- default `get_history` then returns at most 50.
  pub history-execute-le :
      length ex.history ≤ 500
      → (length after_execute.history ≤ 500) × (length (get_history after_execute (pos 50)) ≤ 50)
  unfolding get_history
  history-execute-le h = (
    elim execute-Logged [
      | inl same ↦ rw same h
      | inr (e, added) ↦ rw added (trim-le ex.history e h)
    ],
    ground (arith, length-drop (length after_execute.history - 50) after_execute.history),
  )
