-- ===== src/Commands/Executor/Runs.antt =====
-- What `CommandExecutor.execute` of homelink/commands/executor.py runs.
use homelink.Common.{
  zero, suc, String, ◌≡◌, refl, ◌≢◌, ◌⊎◌, inl, inr, true, Option, none, some, List, [], ◌∷◌, ◌++◌,
  arith, Bool-cases,
}
use homelink.Common.Text.{Text}
use homelink.Common.Int.{ℤ, pos, negsuc, ◌≤ℤ◌}
use homelink.RateLimiter
use homelink.RateLimiter.{RateLimiter}
use homelink.Commands.Validators.{Platform}
use homelink.Commands.Permissions.{Resolved, resolved, denied, resolve_command}
use homelink.Commands.Executor.{
  start_process, System, ExecResult, Executor, Times, not_denied, outcome, effective_timeout,
  run_resolved, execute,
}

-- The time limit of a process is never above the configured one.
effective_timeout-le : (t : Option ℤ) (most : ℤ) → effective_timeout t most ≤ℤ most
unfolding effective_timeout
effective_timeout-le none most = omega arith
effective_timeout-le (some (pos zero)) most = omega arith
effective_timeout-le (some (pos (suc n))) most = ground arith
effective_timeout-le (some (negsuc n)) most = ground arith

-- The one process that a call started, which its result reports.
pub record Ran (pf : Platform) (os : System) (ex : Executor) (command : Text) (r : ExecResult)
    (ex' : Executor) : Type 0 where
  pub exe : Text
  pub argv : List Text
  pub timeout : ℤ
  pub permitted : resolve_command pf ex.role command ≡ resolved exe argv
  pub bounded : timeout ≤ℤ ex.max_timeout
  pub traced : ex'.started ≡ ex.started ++ record { exe = exe; argv = argv; limit = timeout } ∷ []
  pub same_role : ex'.role ≡ ex.role
  pub same_limit : ex'.max_timeout ≡ ex.max_timeout
  pub reported :
      (r.returncode, r.stdout, r.stderr, r.timed_out) ≡ outcome pf os exe (os.run exe argv timeout)

-- A result reports the one process that was started, or it is a refusal, and then the executor,
-- with its record of the processes, is as it was.
abbrev pub Accounted : Platform → System → Executor → Text → ExecResult → Executor → Type 0
Accounted pf os ex command r ex' =
    ((r.deny_reason ≡ not_denied) × Ran pf os ex command r ex')
    ⊎ ((r.deny_reason ≢ not_denied) × (ex' ≡ ex) × (r.stdout ≡ []) × (r.returncode ≡ negsuc 0))

module _ (pf : Platform) (os : System) (limiter : RateLimiter) (ex : Executor) (command : Text)
    (timeout : Option ℤ) (device : String) (times : Times) where
  abbrev executed : ExecResult × RateLimiter × Executor
  executed = execute pf os limiter ex command timeout device times

  execute-allowed :
      (answer : Resolved)
      → resolve_command pf ex.role command ≡ answer
      → (RateLimiter.is_allowed limiter device times.start).0 ≡ true
      → Accounted pf os ex command executed.0 executed.2
  unfolding execute run_resolved start_process
  execute-allowed (resolved exe argv) e allowed =
      rw (allowed, e)
        (inl (
          refl,
          record {
            exe = exe;
            argv = argv;
            timeout = effective_timeout timeout ex.max_timeout;
            permitted = e;
            bounded = effective_timeout-le timeout ex.max_timeout;
            traced = refl;
            same_role = refl;
            same_limit = refl;
            reported = refl;
          },
        ))
  execute-allowed (denied reason) e allowed = rw (allowed, e) (inr (λ h. cc, refl, refl, refl))

  pub execute-Accounted : Accounted pf os ex command executed.0 executed.2
  unfolding execute
  execute-Accounted = elim (Bool-cases (RateLimiter.is_allowed limiter device times.start).0) [
    | inl allowed ↦ execute-allowed (resolve_command pf ex.role command) refl allowed
    | inr limited ↦ rw limited (inr (λ h. cc, refl, refl, refl))
  ]
