-- ===== src/Control.antt =====
-- homelink/cli/ctl.py: the device that a command is sent to, and what the commands make of the
-- answer. Lines go to the console or to its error side; colours and tables are left as they are.
pub mod Defaults
pub mod Silent
use homelink.Common.Exc.{attribute_error, ◌>>=◌, Exc, Result, ok, raise, and_then}
use homelink.Common.Json.{
  to_dict, obj, Value, null, bool, num, str, Message, Python, get, item, to_str, is_true,
}
use homelink.Common.{
  ℕ, String, ◌<>◌, Bool, true, false, not, Option, none, some, List, [], ◌∷◌, ◌++◌, if◌then◌else◌,
}
use homelink.Common.Dict.{Dict}
use homelink.Common.Int.{pos}
use homelink.Config.Store.{ConfigManager, Codec, is_initialized, load_config, save_config}
use homelink.Devices.{Vault}
use homelink.Devices.Files.{read_devices}

pub data Line : Type 0 where
  out err : String → Line

-- How a command ends: it returns, leaves with a status, or raises.
pub data End : Type 0 where
  returns : End
  exits : Value → End
  raised : Exc → End

abbrev pub Shown : Type 0
Shown = List Line × End

-- `[d for d in devs.values() if d.get("approved")]`, and the first of them
unfoldable pub first_approved : Dict Value → Result (Option Message)
unfolding get
first_approved [] = ok none
first_approved ((id, obj fields) ∷ devices) = do
  rest ← first_approved devices
  ok (if is_true (get (to_dict fields) "approved" null) then some (to_dict fields) else rest)
first_approved ((id, _) ∷ devices) = raise attribute_error

-- The device that a command is for, or the way out.
pub data Target : Type 0 where
  target : Value → Target
  leaves : End → Target

abbrev exit_one : End
exit_one = exits (num (pos 1))

abbrev target_of : Result Value → Target
target_of (ok id) = target id
target_of (raise e) = leaves (raised e)

unfoldable pub choose_target : Result (Dict Value) → Target
unfolding first_approved item
choose_target (raise e) = leaves (raised e)
choose_target (ok devices) = elim (first_approved devices) [
  | raise e ↦ leaves (raised e)
  | ok none ↦ leaves exit_one
  | ok (some info) ↦ target_of (item info "device_id")
]

module _ (codec : Codec) (vault : Vault) (can_chmod : Bool) where
  -- `_make_client`, with the option `--device`.
  unfoldable pub make_client : ConfigManager → Option String → Target × ConfigManager
  unfolding is_initialized read_devices choose_target
  make_client m device = if not (is_initialized m) then (leaves exit_one, m) else elim device [
    | some id ↦ (target (str id), m)
    | none ↦
        let (devices, m') = read_devices codec vault m true can_chmod in (choose_target devices, m')
  ]

  -- `_pair`, with the random code.
  unfoldable pub pair : ConfigManager → String → Result (Unit {0}) × ConfigManager
  unfolding load_config save_config
  pair m code =
      and_then (load_config codec m can_chmod)
        λ cfg m'. (ok tt, (save_config codec m' (record cfg { pairing_code = code })).1)

-- `rc != 0`
abbrev pub is_zero : Value → Bool
is_zero (num (pos ℕ.zero)) = true
is_zero (bool b) = not b
is_zero v = false

abbrev when : Bool → Line → List Line
when true line = line ∷ []
when false line = []

module _ (py : Python) where
  -- The output of a command that was not denied.
  unfoldable pub show_output : Message → List Line
  unfolding get to_str
  show_output r =
      when (is_true (get r "timed_out" null)) (err "[yellow]Command timed out[/yellow]")
      ++ (when (is_true (get r "stdout" null)) (out (to_str py (get r "stdout" null)))
          ++ when (is_true (get r "stderr" null)) (err (to_str py (get r "stderr" null))))

  -- `_exec`, with what `send_request` does.
  unfoldable pub exec : String → Result Message → Shown
  unfolding get to_str show_output
  exec command (raise e) = (out ("[dim]$ " <> (command <> "[/dim]")) ∷ [], raised e)
  exec command (ok r) =
      let prompt = out ("[dim]$ " <> (command <> "[/dim]")) in
      let rc = get r "returncode" (num (pos 0)) in
      if is_true (get r "denied" null)
      then (
        prompt
            ∷ err ("[red]Permission denied:[/red] " <> to_str py (get r "deny_reason" (str "")))
            ∷ [],
        exit_one,
      )
      else (prompt ∷ show_output r, if is_zero rc then returns else exits rc)

  -- The end of `_rm` and of `_mkdir`.
  unfoldable pub show_change : String → Result Message → Shown
  unfolding get to_str
  show_change success (raise e) = ([], raised e)
  show_change success (ok r) =
      let error = get r "error" null in
      if is_true error
      then (err ("[red]" <> (to_str py error <> "[/red]")) ∷ [], exit_one)
      else (out success ∷ [], returns)

  -- `_rm`
  unfoldable pub rm : String → Result Message → Shown
  unfolding show_change
  rm remote answer = show_change ("[green]✓[/green] Deleted: " <> remote) answer

  -- `_mkdir`
  unfoldable pub mkdir : String → Result Message → Shown
  unfolding show_change
  mkdir remote answer = show_change ("[green]✓[/green] Created: " <> remote) answer
