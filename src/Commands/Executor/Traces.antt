-- ===== src/Commands/Executor/Traces.antt =====
-- The processes that an executor of homelink/commands/executor.py starts in its lifetime.
use homelink.Common.{
  ◌≡◌, refl, sym, ap, ◌∙◌, subst, ◌≢◌, ◌⊎◌, inl, inr, List, [], ◌∷◌, ◌++◌, append-nil, append_assoc,
}
use homelink.Common.Text.{Text}
use homelink.Common.Int.{ℤ, ◌≤ℤ◌}
use homelink.RateLimiter.{RateLimiter}
use homelink.Commands.Validators.{Platform}
use homelink.Commands.Permissions.{resolved, resolve_command}
use homelink.Commands.Executor.{
  System, ExecResult, Executor, Started, Call, not_denied, outcome, execute, execute_all,
}
use homelink.Commands.Executor.Runs.{execute-Accounted}

module _ (pf : Platform) (os : System) (role : Text) (most : ℤ) where
  -- A process of a call: of the command that the permissions resolved, for at most the configured
  -- time, and reported by the result.
  pub record Process (c : Call) (r : ExecResult) (p : Started) : Type 0 where
    pub permitted : resolve_command pf role c.command ≡ resolved p.exe p.argv
    pub bounded : p.limit ≤ℤ most
    pub reported :
        (r.returncode, r.stdout, r.stderr, r.timed_out)
        ≡ outcome pf os p.exe (os.run p.exe p.argv p.limit)

  -- The processes are, in order, those of the calls whose results are no refusals, one for each.
  abbrev pub Accounts : List Call → List ExecResult → List Started → Type 0
  Accounts [] [] started = started ≡ []
  Accounts (c ∷ calls) (r ∷ results) started =
      ((r.deny_reason ≢ not_denied) × Accounts calls results started)
      ⊎ ((r.deny_reason ≡ not_denied)
          × (p : Started) × (rest : List Started) × (started ≡ p ∷ rest)
          × Process c r p
          × Accounts calls results rest)
  Accounts [] (r ∷ results) started = ⊥
  Accounts (c ∷ calls) [] started = ⊥

module _ (pf : Platform) (os : System) where
  -- What the calls of a list start and report.
  abbrev AccountedAll : Executor → Text → ℤ → List Call → List ExecResult × Executor → Type 0
  AccountedAll ex role most calls after =
      (started : List Started) × (after.1.started ≡ ex.started ++ started)
      × Accounts pf os role most calls after.0 started

  -- Whatever calls come to an executor, whatever their devices and times, it starts one process
  -- for each call whose result is no refusal, in the order of the calls, and no other process:
  -- the command that the permissions resolved for the role, with a time limit that is at most the
  -- configured one, and the result reports what that process did.
  pub execute_all-Accounts :
      (limiter : RateLimiter) (ex : Executor) (calls : List Call)
      → AccountedAll ex ex.role ex.max_timeout calls (execute_all pf os limiter ex calls)
  unfolding execute_all
  execute_all-Accounts limiter ex [] = ([], sym (append-nil ex.started), refl)
  execute_all-Accounts limiter ex (c ∷ calls) =
      let (result, limiter', ex') = execute pf os limiter ex c.command c.timeout c.device c.times in
      let later = execute_all-Accounts limiter' ex' calls in
      elim (execute-Accounted pf os limiter ex c.command c.timeout c.device c.times) [
        | inr (refused, same, out, code) ↦
            let (started, traced, accounts) =
              subst
                (λ e.
                  AccountedAll e e.role e.max_timeout calls (execute_all pf os limiter' ex' calls))
                same later in
            (started, traced, inl (refused, accounts))
        | inl (taken, ran) ↦
            let (started, traced, accounts) = later in
            let results = (execute_all pf os limiter' ex' calls).0 in
            let p : Started = record { exe = ran.exe; argv = ran.argv; limit = ran.timeout } in
            let accounts' : Accounts pf os ex.role ex.max_timeout calls results started =
              subst (λ role. Accounts pf os role ex.max_timeout calls results started) ran.same_role
                (subst (λ most. Accounts pf os ex'.role most calls results started) ran.same_limit
                  accounts) in
            (
              p ∷ started,
              traced
                  ∙ (ap (λ l. l ++ started) ran.traced ∙ append_assoc ex.started (p ∷ []) started),
              inr (
                taken,
                p,
                started,
                refl,
                record {
                  permitted = ran.permitted;
                  bounded = ran.bounded;
                  reported = ran.reported;
                },
                accounts',
              ),
            )
      ]
