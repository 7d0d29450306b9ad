-- ===== src/Daemon.antt =====
-- homelink/service/daemon.py: the message handlers and the roles they ask for. What a handler
-- does is recorded as a list of actions. A reply goes through the broker, which never raises.
pub mod Guards
pub mod Approval
pub mod Offers
use homelink.Common.Json.{
  done, stop, Value, num, str, null, bool, arr, obj, Message, Python, get, to_str, to_int, is_true,
  key_of,
}
use homelink.Common.{
  ℕ, String, Bool, false, not, Option, none, some, List, [], ◌∷◌, ◌++◌, ltb, if◌then◌else◌,
}
use homelink.Common.Text.{Text, codes, starts_with}
use homelink.Common.Int.{ℤ, pos}
use homelink.Common.Exc.{Exc, Result, ok, raise, type_error, ◌>>=◌}
use homelink.RateLimiter
use homelink.RateLimiter.{RateLimiter}
use homelink.Commands.Permissions.{role_level}
use homelink.Commands.Validators
use homelink.Commands.Executor.{System, ExecResult, Executor, Times, execute}
use homelink.Listing.{Walk, list_path, build_tree}
use homelink.Devices.{Devices, get_peer, approve_peer, remove_device}

pub record Host : Type 0 where
  pub py : Python
  -- paths, digits and lower case, as the validators take them
  pub paths : Validators.Platform
  pub system : System
  -- `p.unlink()` and `p.mkdir(...)`: the text of the error, if there is one
  pub unlink : Text → Option String
  pub mkdir : Text → Option String
  -- `path.exists()`, and what else is asked about paths
  pub exists : Text → Result Bool
  pub walk : Walk
  -- `str(e)`
  pub explain : Exc → String

pub data Action : Type 0 where
  sent : String → Message → Action
  exec_reply : String → ExecResult → Action
  unlinked made_dir : Text → Action

pub record Daemon : Type 0 where
  pub devices : Devices
  pub max_exec_timeout : ℤ
  -- the shared `EXEC_LIMITER`
  pub exec_limiter : RateLimiter
  pub actions : List Action

abbrev pub Outcome : Type 0
Outcome = Result (Unit {0}) × Daemon

abbrev pub act : Daemon → Action → Daemon
act d a = record d { actions = d.actions ++ a ∷ [] }

-- The sender of a message, as a key of the peers.
unfoldable pub from_device : Python → Message → Result String
unfolding get key_of
from_device py m = key_of py (get m "from_device" (str "unknown"))

-- `_get_peer_role`
unfoldable pub get_peer_role : Devices → String → Value
get_peer_role devices id = elim (get_peer devices id) [
  | none ↦ str "viewer"
  | some peer ↦ if is_true peer.approved then peer.role else str "viewer"
]

-- `ROLE_HIERARCHY.get(role, 0)`
unfoldable pub level_of : Value → Result ℕ
unfolding role_level
level_of (str role) = ok (role_level 0 (codes role))
level_of (arr parts) = raise type_error
level_of (obj pairs) = raise type_error
level_of _ = ok 0

-- `_check_role`
unfoldable pub check_role : Devices → String → Text → Result Bool
unfolding get_peer_role level_of role_level
check_role devices id required = do
  level ← level_of (get_peer_role devices id)
  ok (not (ltb level (role_level 999 required)))

-- The role that the permissions of a command get; one that is no text has level 0.
unfoldable pub role_text : Value → Result Text
role_text (str role) = ok (codes role)
role_text (arr parts) = raise type_error
role_text (obj pairs) = raise type_error
role_text _ = ok []

abbrev pub or_null : Option String → Value
or_null none = null
or_null (some text) = str text

abbrev pub result_message : String → Option String → Message
result_message kind error = ("type", str kind) ∷ ("error", or_null error) ∷ []

-- What a path leads to: a path that begins as the home directory does, or the text of an error.
pub data Access : Type 0 where
  granted : Text → Access
  failed : String → Access

-- `_handle_admin_approval`: whoever the message is from.
unfoldable pub handle_admin_approval : Python → Daemon → Message → Daemon
unfolding approve_peer remove_device to_str get
handle_admin_approval py d m =
    let id = to_str py (get m "device_id" (str "")) in
    if is_true (get m "approved" (bool false))
    then record d { devices = (approve_peer d.devices id).1 }
    else record d {
      devices = record (d.devices) { stored = (remove_device d.devices.stored id).1 };
    }

module _ (host : Host) where
  -- `_handle_exec`, from the role of the peer on.
  unfoldable pub run_command : Daemon → String → String → ℤ → Times → Value → Outcome
  unfolding role_text
  run_command d device command timeout times role = elim (role_text role) [
    | raise e ↦ (raise e, d)
    | ok text ↦
        let executor : Executor = record {
          role = text;
          max_timeout = d.max_exec_timeout;
          history = [];
          started = [];
        } in
        let (result, limiter, _) =
          execute host.paths host.system d.exec_limiter executor (codes command) (some timeout)
            device times in
        (ok tt, act (record d { exec_limiter = limiter }) (exec_reply device result))
  ]

  unfoldable pub handle_exec : Daemon → Message → Times → Outcome
  unfolding from_device get to_str to_int run_command get_peer_role
  handle_exec d m times = elim (to_int host.py (get m "timeout" (num (pos 60)))) [
    | raise e ↦ (raise e, d)
    | ok timeout ↦ elim (from_device host.py m) [
      | raise e ↦ (raise e, d)
      | ok device ↦
          run_command d device (to_str host.py (get m "command" (str ""))) timeout times
            (get_peer_role d.devices device)
    ]
  ]

  -- The test of the beginning of a path, once the home directory is known.
  abbrev pub within : Result Text → Text → String → Access
  within (raise e) p refusal = failed (host.explain e)
  within (ok home) p refusal = if starts_with home p then granted p else failed refusal

  unfoldable pub in_home : Result Text → String → String → Access
  in_home home path refusal = elim (host.paths.resolve (codes path)) [
    | raise e ↦ failed (host.explain e)
    | ok p ↦ within home p refusal
  ]

  -- A handler that asks for a role: what it does when the role is too low, and when it is not.
  unfoldable pub guarded : Daemon → Message → Text → (String → Daemon) → (String → Daemon) → Outcome
  unfolding from_device check_role
  guarded d m required low enough = elim (from_device host.py m) [
    | raise e ↦ (raise e, d)
    | ok device ↦ elim (check_role d.devices device required) [
      | raise e ↦ (raise e, d)
      | ok allowed ↦ (ok tt, if allowed then enough device else low device)
    ]
  ]

  -- The end of `_handle_rm` and of `_handle_mkdir`: the change of the file system, if it is made.
  unfoldable pub change_path :
      Daemon → String → String → Access → (Text → Option String) → (Text → Action) → Daemon
  change_path d device kind (failed text) change record_it =
      act d (sent device (result_message kind (some text)))
  change_path d device kind (granted p) change record_it = elim (change p) [
    | none ↦ act (act d (record_it p)) (sent device (result_message kind none))
    | some text ↦ act d (sent device (result_message kind (some text)))
  ]

  unfoldable pub handle_rm : Daemon → Message → Outcome
  unfolding guarded change_path in_home get to_str
  handle_rm d m =
      guarded d m (codes "operator")
        (λ device. act d (sent device (result_message "rm_result" (some "operator role required"))))
        (λ device.
          change_path d device "rm_result"
            (in_home (ok host.paths.home) (to_str host.py (get m "path" (str "")))
              "Can only delete files within home directory")
            host.unlink unlinked)

  unfoldable pub handle_mkdir : Daemon → Message → Outcome
  unfolding guarded change_path in_home get to_str
  handle_mkdir d m =
      guarded d m (codes "operator") (λ device. d)
        (λ device.
          change_path d device "mkdir_result"
            (in_home (ok host.paths.home) (to_str host.py (get m "path" (str "")))
              "Can only create directories within home directory")
            host.mkdir made_dir)

  abbrev pub ls_result : String → Value → Value → Message
  ls_result path entries error =
      ("type", str "ls_result") ∷ ("path", str path) ∷ ("entries", entries) ∷ ("error", error) ∷ []

  -- The entries of a path, if it exists.
  unfoldable pub listing : Text → Result Value
  unfolding list_path
  listing p =
      let entries = list_path host.walk p in
      do exists ← host.exists p; if exists then entries else ok (arr stop)

  unfoldable pub list_entries : String → Access → Message
  unfolding listing
  list_entries path (failed text) = ls_result path (arr stop) (str text)
  list_entries path (granted p) = elim (listing p) [
    | raise e ↦ ls_result path (arr stop) (str (host.explain e))
    | ok entries ↦ ls_result path entries null
  ]

  unfoldable pub handle_ls : Daemon → Message → Outcome
  unfolding guarded list_entries in_home get to_str
  handle_ls d m =
      let path = to_str host.py (get m "path" (str "~")) in
      guarded d m (codes "viewer") (λ device. d)
        (λ device. act d (
          sent device (
            list_entries path (
              in_home (host.paths.resolve host.paths.home) path
                "Access restricted to home directory"))))

  abbrev pub tree_result : Value → Value → Message
  tree_result tree error = ("type", str "tree_result") ∷ ("tree", tree) ∷ ("error", error) ∷ []

  unfoldable pub show_tree : Access → Message
  unfolding build_tree
  show_tree (failed text) = tree_result (obj done) (str text)
  show_tree (granted p) = elim (build_tree host.walk 3 p) [
    | raise e ↦ tree_result (obj done) (str (host.explain e))
    | ok tree ↦ tree_result tree null
  ]

  unfoldable pub handle_tree : Daemon → Message → Outcome
  unfolding guarded show_tree in_home get to_str
  handle_tree d m =
      guarded d m (codes "viewer") (λ device. d)
        (λ device. act d (
          sent device (
            show_tree (
              in_home (host.paths.resolve host.paths.home) (to_str host.py (get m "path" (str "~")))
                "Access restricted to home directory"))))
