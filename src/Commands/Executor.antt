-- ===== src/Commands/Executor.antt =====
-- homelink/commands/executor.py. The operating system's part, the process that runs, is a
-- parameter: what it does with an executable, its arguments and a time limit.
pub mod Runs
pub mod Traces
pub mod History
use homelink.Common.{
  ℕ, zero, suc, ◌-◌, String, Bool, true, false, Option, none, some, List, [], ◌∷◌, ◌++◌, ltb,
  if◌then◌else◌, length, take, drop,
}
use homelink.Common.Text.{Text}
use homelink.Common.Int.{ℤ, pos, negsuc, ltb_ℤ}
use homelink.RateLimiter
use homelink.RateLimiter.{RateLimiter}
use homelink.Commands.Validators.{Platform}
use homelink.Commands.Permissions.{Reason, resolved, denied, resolve_command}

abbrev pub max_output_bytes : ℕ
max_output_bytes = 1_048_576

-- What a run of a process ends in: an exit, a kill after the time limit, or an exception; the
-- last kind says whether the time limit had passed before it.
pub data Process : Type 0 where
  exited : Option ℤ → List ℕ → List ℕ → Process
  killed : Option ℤ → List ℕ → List ℕ → Process
  not_found not_permitted : Process
  failed : Bool → Process

pub record System : Type 0 where
  pub run : Text → List Text → ℤ → Process
  -- `bytes.decode("utf-8", errors="replace")`
  pub decode : List ℕ → Text

-- Why a command was denied; the wording of the reason is not modelled.
pub data DenyReason : Type 0 where
  not_denied rate_limited : DenyReason
  not_permitted_for : Reason → DenyReason

-- What stands in `stderr` when no process ran.
pub data Output : Type 0 where
  output : Text → Output
  executable_not_found permission_denied execution_error : Text → Output

pub record ExecResult : Type 0 where
  pub command : Text
  pub returncode : ℤ
  pub stdout : Text
  pub stderr : Output
  pub elapsed : ℕ
  pub timed_out : Bool
  pub deny_reason : DenyReason

pub record HistoryEntry : Type 0 where
  pub device : String
  pub command : Text
  pub exe : Text
  pub rc : ℤ
  pub elapsed : ℕ
  pub ts : ℕ

-- A process that was started: the executable, its arguments and the time limit.
pub record Started : Type 0 where
  pub exe : Text
  pub argv : List Text
  pub limit : ℤ

pub record Executor : Type 0 where
  pub role : Text
  pub max_timeout : ℤ
  pub history : List HistoryEntry
  -- every process that was started, in order
  pub started : List Started

abbrev or_minus_one : Option ℤ → ℤ
or_minus_one none = negsuc 0
or_minus_one (some rc) = rc

-- `min(timeout or self._max_timeout, self._max_timeout)`; a missing time limit and 0 are false.
unfoldable pub effective_timeout : Option ℤ → ℤ → ℤ
effective_timeout none most = most
effective_timeout (some (pos zero)) most = most
effective_timeout (some t) most = if ltb_ℤ most t then most else t

-- `if len(self._history) > 500: self._history = self._history[-250:]`
unfoldable pub trim : List HistoryEntry → List HistoryEntry
trim history = if ltb 500 (length history) then drop (length history - 250) history else history

-- The times that a call reads from the clocks: the monotonic clock at its start and at its end,
-- and the wall clock.
pub record Times : Type 0 where
  pub start : ℕ
  pub finish : ℕ
  pub wall : ℕ

module _ (pf : Platform) (os : System) where
  -- The fields that the outcome decides: the return code, both outputs and `timed_out`.
  unfoldable pub outcome : Text → Process → ℤ × Text × Output × Bool
  outcome exe (exited rc out err) = (
    or_minus_one rc,
    os.decode (take max_output_bytes out),
    output (os.decode (take max_output_bytes err)),
    false,
  )
  outcome exe (killed rc out err) = (
    or_minus_one rc,
    os.decode (take max_output_bytes out),
    output (os.decode (take max_output_bytes err)),
    true,
  )
  outcome exe not_found = (pos 127, [], executable_not_found exe, false)
  outcome exe not_permitted = (pos 126, [], permission_denied exe, false)
  outcome exe (failed late) = (negsuc 0, [], execution_error exe, late)

  abbrev refusal : Text → DenyReason → ExecResult
  refusal command reason = record {
    command = command;
    returncode = negsuc 0;
    stdout = [];
    stderr = output [];
    elapsed = 0;
    timed_out = false;
    deny_reason = reason;
  }

  -- `create_subprocess_exec`, up to the end of the process. No other function runs one.
  unfoldable pub start_process : Executor → Text → List Text → ℤ → Process × Executor
  start_process ex exe argv limit = (
    os.run exe argv limit,
    record ex { started = ex.started ++ record { exe = exe; argv = argv; limit = limit } ∷ [] },
  )

  -- The part after the permission check.
  unfoldable pub run_resolved :
      Executor → Text → String → Times → Text → List Text → ℤ → ExecResult × Executor
  unfolding start_process outcome trim
  run_resolved ex command device times exe argv timeout =
      let (process, ex') = start_process ex exe argv timeout in
      let (rc, out, err, late) = outcome exe process in
      let spent = times.finish - times.start in
      (
        record {
          command = command;
          returncode = rc;
          stdout = out;
          stderr = err;
          elapsed = spent;
          timed_out = late;
          deny_reason = not_denied;
        },
        record ex' {
          history = trim (
              ex'.history
              ++ record {
                device = device;
                command = command;
                exe = exe;
                rc = rc;
                elapsed = spent;
                ts = times.wall;
              }
                ∷ []);
        },
      )

  -- `CommandExecutor.execute`, with the shared `EXEC_LIMITER`.
  unfoldable pub execute :
      RateLimiter
      → Executor
      → Text
      → Option ℤ
      → String
      → Times
      → ExecResult × RateLimiter × Executor
  unfolding run_resolved effective_timeout
  execute limiter ex command timeout device times =
      let (allowed, limiter') = RateLimiter.is_allowed limiter device times.start in
      if allowed
      then elim (resolve_command pf ex.role command) [
        | denied reason ↦ (refusal command (not_permitted_for reason), limiter', ex)
        | resolved exe argv ↦
            let (result, ex') =
              run_resolved ex command device times exe argv
                (effective_timeout timeout ex.max_timeout) in
            (result, limiter', ex')
      ]
      else (refusal command rate_limited, limiter', ex)

-- A call of `execute`.
pub record Call : Type 0 where
  pub command : Text
  pub timeout : Option ℤ
  pub device : String
  pub times : Times

-- Calls of one executor, one after another, each with the limiter that the last one left.
unfoldable pub execute_all :
    Platform → System → RateLimiter → Executor → List Call → List ExecResult × Executor
unfolding execute
execute_all pf os limiter ex [] = ([], ex)
execute_all pf os limiter ex (c ∷ calls) =
    let (result, limiter', ex') = execute pf os limiter ex c.command c.timeout c.device c.times in
    let (results, last) = execute_all pf os limiter' ex' calls in (result ∷ results, last)

-- `self._history[-limit:]`: the last entries, and all of them for 0.
unfoldable pub get_history : Executor → ℤ → List HistoryEntry
get_history ex (pos zero) = ex.history
get_history ex (pos (suc n)) = drop (length ex.history - suc n) ex.history
get_history ex (negsuc n) = drop (suc n) ex.history
