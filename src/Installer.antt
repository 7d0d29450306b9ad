-- ===== src/Installer.antt =====
-- homelink/service/installer.py: the unit file of the service, and the calls of systemctl.
pub mod Removal
use homelink.Common.{ℕ, String, ◌<>◌, Bool, true, false, List, [], ◌∷◌, if◌then◌else◌}
use homelink.Common.Dict
use homelink.Common.Exc.{Result, ok, raise, runtime_error, and_then}
use homelink.Common.Int.{ℤ, pos}
use homelink.Config.Store.{Files, all_read, write_text, chmod, run_ops}

abbrev pub service_name : String
service_name = "homelink"

-- The lines of `SERVICE_TEMPLATE`, filled in.
abbrev pub service_lines : String → String → String → List String
service_lines python config_dir home_dir =
    "[Unit]"
    ∷ "Description=HomeLink — Secure Remote Access Daemon"
    ∷ "After=network-online.target"
    ∷ "Wants=network-online.target"
    ∷ "Documentation=https://github.com/psvineet/homelink"
    ∷ ""
    ∷ "[Service]"
    ∷ "Type=simple"
    ∷ ("ExecStart=" <> (python <> " -m homelink.service.run"))
    ∷ "Restart=on-failure"
    ∷ "RestartSec=5"
    ∷ "StartLimitIntervalSec=120"
    ∷ "StartLimitBurst=3"
    ∷ ""
    ∷ "# === Safe hardening (compatible with user services) ==="
    ∷ "PrivateTmp=true"
    ∷ "ProtectSystem=strict"
    ∷ "ProtectHome=read-only"
    ∷ ("ReadWritePaths=" <> config_dir)
    ∷ "ProtectKernelTunables=true"
    ∷ "ProtectKernelModules=true"
    ∷ "ProtectControlGroups=true"
    ∷ "ProtectHostname=true"
    ∷ "PrivateDevices=true"
    ∷ "NoNewPrivileges=true"
    ∷ "LockPersonality=true"
    ∷ "RestrictRealtime=true"
    ∷ "RestrictSUIDSGID=true"
    ∷ "RemoveIPC=true"
    ∷ "RestrictAddressFamilies=AF_INET AF_INET6 AF_UNIX AF_NETLINK"
    ∷ "SystemCallArchitectures=native"
    ∷ ""
    ∷ "# === Resource limits ==="
    ∷ "TasksMax=64"
    ∷ "LimitNOFILE=4096"
    ∷ ""
    ∷ "# Environment"
    ∷ ("Environment=HOMELINK_CONFIG_DIR=" <> config_dir)
    ∷ ("Environment=HOME=" <> home_dir)
    ∷ ""
    ∷ "# Logging"
    ∷ "StandardOutput=journal"
    ∷ "StandardError=journal"
    ∷ "SyslogIdentifier=homelink"
    ∷ ""
    ∷ "[Install]"
    ∷ "WantedBy=default.target"
    ∷ []

-- Every line with its line break.
abbrev pub joined : List String → String
joined [] = ""
joined (line ∷ lines) = line <> ("\n" <> joined lines)

-- `systemctl --user`, with the change that a call of it makes to the system and to the files, such
-- as the links of a unit that is enabled.
pub record Systemd (Machine : Type 0) : Type 0 where
  pub run : List String → Machine → Files → Result ℤ × Machine × Files
  -- `loginctl enable-linger`, whose result is not looked at
  pub enable_linger : Machine → Machine
  -- the bytes of a text
  pub utf8 : String → List ℕ

-- What an installer works on: the path of its unit file, the files and the system.
pub record Host (Machine : Type 0) : Type 0 where
  pub unit_file : String
  pub python : String
  pub config_dir : String
  pub home_dir : String
  pub files : Files
  pub machine : Machine

abbrev pub is_success : ℤ → Bool
is_success (pos ℕ.zero) = true
is_success _ = false

-- `if r.returncode != 0: raise RuntimeError`
abbrev pub check_status : Result ℤ → Result (Unit {0})
check_status (raise e) = raise e
check_status (ok status) = if is_success status then ok tt else raise runtime_error

module _ {Machine : Type 0} (sd : Systemd Machine) where
  -- `_systemctl`
  unfoldable pub systemctl : List String → Host Machine → Result (Unit {0}) × Host Machine
  systemctl args h =
      let (ran, machine, files) = sd.run args h.machine h.files in
      (check_status ran, record h { machine = machine; files = files })

  -- `try: ... return True`, `except Exception: return False`
  abbrev pub tried : Result (Unit {0}) × Host Machine → Bool × Host Machine
  tried (ok _, h) = (true, h)
  tried (raise e, h) = (false, h)

  -- The unit file is written before anything is asked of systemctl.
  unfoldable pub write_unit : Host Machine → Host Machine
  unfolding run_ops
  write_unit h =
      let content = sd.utf8 (joined (service_lines h.python h.config_dir h.home_dir)) in
      record h {
        files = run_ops (write_text h.unit_file content ∷ chmod h.unit_file all_read ∷ []) h.files;
      }

  -- The calls of `install`.
  unfoldable pub enable : Host Machine → Result (Unit {0}) × Host Machine
  unfolding systemctl
  enable h = and_then (systemctl ("daemon-reload" ∷ []) h) λ x h.
      and_then (systemctl ("enable" ∷ service_name ∷ []) h)
        λ y h. (ok tt, record h { machine = sd.enable_linger h.machine })

  unfoldable pub install : Host Machine → Bool × Host Machine
  unfolding write_unit enable
  install h = tried (enable (write_unit h))

  unfoldable pub start : Host Machine → Bool × Host Machine
  unfolding systemctl
  start h = tried (systemctl ("start" ∷ service_name ∷ []) h)

  unfoldable pub stop : Host Machine → Bool × Host Machine
  unfolding systemctl
  stop h = tried (systemctl ("stop" ∷ service_name ∷ []) h)

  unfoldable pub restart : Host Machine → Bool × Host Machine
  unfolding systemctl
  restart h = tried (systemctl ("restart" ∷ service_name ∷ []) h)

  -- `if self._unit_file.exists(): self._unit_file.unlink()`
  unfoldable pub unlink_unit : Host Machine → Host Machine
  unfolding Dict.erase
  unlink_unit h = record h { files = Dict.erase h.unit_file h.files }

  unfoldable pub remove : Host Machine → Bool × Host Machine
  unfolding systemctl unlink_unit
  remove h =
      let stopped = (systemctl ("stop" ∷ service_name ∷ []) h).1 in
      let disabled = (systemctl ("disable" ∷ service_name ∷ []) stopped).1 in
      (true, (systemctl ("daemon-reload" ∷ []) (unlink_unit disabled)).1)
