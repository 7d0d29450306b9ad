-- ===== src/Tests/Service.antt =====
-- Runs of homelink/core/device.py, homelink/config/manager.py and homelink/service/daemon.py.
use homelink.Daemon.Guards.{removals, Deletes, handle_rm-Deletes, Harmless, handle_exec-unapproved}
use homelink.Listing.{Walk}
use homelink.Daemon.{
  in_home, change_path, level_of, get_peer_role, check_role, guarded, Host, Daemon, exec_reply,
  from_device, handle_exec, handle_rm, handle_admin_approval,
}
use homelink.Common.Dict
use homelink.Common.{◌≡◌, refl, ◌≢◌, ◌⊎◌, Bool, true, false, none, some, [], ◌∷◌, ◌++◌}
use homelink.Common.Text.{codes}
use homelink.Common.Int.{pos}
use homelink.Common.Exc.{ok}
use homelink.Common.Json.{str, bool, Message, Python, get, to_str, to_int, key_of}
use homelink.RateLimiter
use homelink.Commands.Executor.{exited, Times, ExecResult, not_denied}
use homelink.Telegram.{Peer}
use homelink.Devices.{Vault, Devices, is_peer_approved}
use homelink.Commands.Permissions.{role_level}
use homelink.Daemon.Approval.{handle_admin_approval-approves}

abbrev python : Python
python = record { repr = λ v. "?"; parse_int = λ s. none }

abbrev vault : Vault
vault = record {
  sha256 = λ b. b;
  mac = λ devices key. "m";
  py = python;
  from_hex = λ v. ok [];
  verify_key = λ b. ok b;
  dh_key = λ b. ok b;
}

abbrev forged : Message
forged = ("devices", str "others") ∷ ("mac", str "x") ∷ []

abbrev waiting : Peer
waiting = record { verify_key = []; approved = bool false; role = str "operator" }

abbrev trusted : Peer
trusted = record waiting { approved = bool true }

abbrev devices : Devices
devices = record {
  device_id = "ME";
  peers = ("AB", waiting) ∷ ("CD", trusted) ∷ [];
  stored = ("AB", []) ∷ ("CD", []) ∷ [];
}

-- A directory that holds itself.
abbrev pub walk : Walk
walk = record {
  name = λ p. "x";
  is_dir = λ p. ok true;
  is_file = λ p. ok false;
  iterdir = λ p. ok (p ∷ []);
  stat = λ p. ok (record { size = 1; mtime = pos 2; mode = "755" });
}

abbrev pub host : Host
host = record {
  py = python;
  paths = record {
    resolve = λ p. ok p;
    home = codes "/home/ada";
    is_decimal = λ c. false;
    lower = λ t. t;
  };
  system = record {
    run = λ exe argv limit. exited (some (pos 0)) (codes "up") [];
    decode = λ b. b;
  };
  unlink = λ p. none;
  mkdir = λ p. none;
  exists = λ p. ok true;
  walk = walk;
  explain = λ e. "error";
}

abbrev pub daemon : Daemon
daemon = record {
  devices = devices;
  max_exec_timeout = pos 60;
  exec_limiter = RateLimiter.new 10 60_000;
  actions = [];
}

abbrev pub rm : Message
rm = ("from_device", str "CD") ∷ ("path", str "/home/ada/x") ∷ []

rm_run : removals (handle_rm host daemon rm).1.actions ≡ codes "/home/ada/x" ∷ []
unfolding handle_rm guarded from_device check_role get_peer_role level_of role_level change_path
    in_home get key_of to_str Dict.lookup
rm_run = refl

handle_rm-Deletes_example : Deletes host daemon rm (handle_rm host daemon rm).1.actions
handle_rm-Deletes_example = handle_rm-Deletes host daemon rm

abbrev exec : Message
exec = ("from_device", str "AB") ∷ ("command", str "uptime") ∷ []

abbrev times : Times
times = record { start = 1; finish = 2; wall = 3 }

handle_exec-unapproved_example :
    (result : ExecResult) × ((handle_exec host daemon exec times).1.actions
      ≡ daemon.actions ++ exec_reply "AB" result ∷ [])
    × ((result.deny_reason ≢ not_denied) ⊎ Harmless host result)
unfolding from_device get to_int key_of to_str is_peer_approved Dict.lookup
handle_exec-unapproved_example =
    handle_exec-unapproved host daemon exec times (pos 60) "AB" refl refl refl

abbrev approval : Bool → Message
approval choice =
    ("type", str "admin_approval")
    ∷ ("device_id", str "AB")
    ∷ ("approved", bool choice)
    ∷ ("from_device", str "CD")
    ∷ []

handle_admin_approval-approves_example :
    is_peer_approved (handle_admin_approval python daemon (approval true)).devices "AB" ≡ true
unfolding get Dict.lookup
handle_admin_approval-approves_example =
    handle_admin_approval-approves python daemon (approval true) [] "AB" waiting refl refl refl refl
