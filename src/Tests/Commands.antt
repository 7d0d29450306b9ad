-- ===== src/Tests/Commands.antt =====
-- Runs of homelink/commands/.
use homelink.Common.{◌≡◌, refl, ◌↔◌, true, none, some, List, [], ◌∷◌, ◌++◌, arith}
use homelink.RateLimiter
use homelink.Common.Paths.{path_name}
use homelink.Common.Text.{Text, codes, between}
use homelink.Common.Int.{pos}
use homelink.Common.Exc.{ok}
use homelink.Commands.Shlex.{split, scan}
use homelink.Commands.Validators.{Platform, validate, validate_ls, validate_systemctl_status}
use homelink.Commands.Permissions.{
  role_level, resolve_command, resolve_parts, resolved, find_entry, registry, check_arguments,
  viewer,
}
use homelink.Commands.Permissions.Roles.{
  resolve_command-monotone, resolve_command-viewer, listed, viewer_commands,
}
use homelink.Commands.Permissions.Arguments.{resolve_command-clean, all_clean}
use homelink.Commands.Permissions.Escape.{Begins, Within, validate_ls_iff, validate_ls-sibling}
use homelink.Commands.Executor.{Call, Started, execute_all, Executor, System, exited, Times}
use homelink.Commands.Executor.Traces.{Accounts, execute_all-Accounts}

abbrev host : Platform
host = record {
  resolve = λ p. ok p;
  home = codes "/home/ada";
  is_decimal = λ c. between b'0' b'9' c;
  lower = λ t. t;
}

abbrev system : System
system = record { run = λ exe argv limit. exited (some (pos 0)) (codes "up") []; decode = λ b. b }

abbrev df : Text
df = codes "df"

df_run : resolve_command host viewer df ≡ resolved (codes "/usr/bin/df") (codes "-h" ∷ [])
unfolding resolve_command resolve_parts split scan find_entry registry role_level check_arguments
    validate path_name
df_run = refl

words : List Text
words = codes "systemctl" ∷ codes "ssh.service" ∷ []

abbrev status : Text
status = codes "/bin/systemctl 'ssh.service'"

status_run :
    resolve_command host (codes "operator") status
    ≡ resolved (codes "/usr/bin/systemctl") (codes "status" ∷ codes "ssh.service" ∷ [])
unfolding resolve_command resolve_parts split scan find_entry registry role_level check_arguments
    validate path_name validate_systemctl_status
status_run = refl

resolve_command-monotone_example :
    resolve_command host (codes "administrator") df
    ≡ resolved (codes "/usr/bin/df") (codes "-h" ∷ [])
unfolding role_level
resolve_command-monotone_example =
    resolve_command-monotone host viewer (codes "administrator") df (codes "/usr/bin/df")
      (codes "-h" ∷ []) (omega arith) df_run

resolve_command-viewer_example :
    listed (codes "/usr/bin/df") (codes "-h" ∷ []) viewer_commands ≡ true
unfolding role_level
resolve_command-viewer_example =
    resolve_command-viewer host viewer df (codes "/usr/bin/df") (codes "-h" ∷ []) refl df_run

resolve_command-clean_example : all_clean (codes "status" ∷ codes "ssh.service" ∷ []) ≡ true
resolve_command-clean_example =
    resolve_command-clean host (codes "operator") status (codes "/usr/bin/systemctl")
      (codes "status" ∷ codes "ssh.service" ∷ []) (λ c h. ground arith) status_run (λ e. cc)

validate_ls_iff_example :
    (validate_ls host (codes "/home/ada/x" ∷ []) (codes "/home/ada") ≡ true)
    ↔ Begins (codes "/home/ada") (codes "/home/ada/x")
validate_ls_iff_example =
    validate_ls_iff host (codes "/home/ada/x") (codes "/home/ada") (codes "/home/ada")
      (codes "/home/ada/x") refl refl

validate_ls-sibling_example :
    (validate_ls host (codes "/home/ada2/x" ∷ []) (codes "/home/ada") ≡ true)
    × ¬ Within (codes "/home/ada") (codes "/home/ada" ++ codes "2/x")
validate_ls-sibling_example =
    validate_ls-sibling host (codes "/home/ada2/x") (codes "/home/ada") (codes "/home/ada")
      (codes "/x") b'2' refl refl (omega arith)

abbrev fresh : Executor
fresh = record { role = viewer; max_timeout = pos 30; history = []; started = [] }

abbrev at_start : Times
at_start = record { start = 1; finish = 3; wall = 100 }

-- A call that runs, and one that is refused.
abbrev calls : List Call
calls =
    record { command = df; timeout = none; device = "d"; times = at_start }
    ∷ record { command = codes "rm -rf /"; timeout = none; device = "d"; times = at_start }
    ∷ []

execute_all-Accounts_example :
    let (results, last) = execute_all host system (RateLimiter.new 10 60) fresh calls in
    (started : List Started) × (last.started ≡ [] ++ started)
    × Accounts host system viewer (pos 30) calls results started
execute_all-Accounts_example = execute_all-Accounts host system (RateLimiter.new 10 60) fresh calls
