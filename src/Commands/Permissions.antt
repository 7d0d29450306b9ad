-- ===== src/Commands/Permissions.antt =====
-- homelink/commands/permissions.py: the registry of commands, the roles, and `resolve_command`.
pub mod Roles
pub mod Arguments
pub mod Escape
use homelink.Common.{
  map, ℕ, Bool, true, false, Option, none, some, List, [], ◌∷◌, ◌++◌, ltb, if◌then◌else◌,
}
use homelink.Commands.Validators.{
  systemctl_status, ls, Platform, Validator, no_args, echo, journalctl, validate,
}
use homelink.Common.Text.{text_eq, Text, codes, text_elem}
use homelink.Common.Paths.{path_name}
use homelink.Common.Exc.{ok, raise}
use homelink.Commands.Shlex.{split}

pub record Entry : Type 0 where
  pub exe : Text
  pub fixed_args : List Text
  pub validator : Option Validator
  pub min_role : Text

abbrev entry : Text → Text → List Text → Validator → Text → Text × Entry
entry name exe fixed_args validator min_role = (
  name,
  record { exe = exe; fixed_args = fixed_args; validator = some validator; min_role = min_role },
)

abbrev pub viewer : Text
viewer = codes "viewer"

abbrev pub operator : Text
operator = codes "operator"

abbrev pub administrator : Text
administrator = codes "administrator"

-- `_REGISTRY`
unfoldable pub registry : List (Text × Entry)
registry =
    entry (codes "uptime") (codes "/usr/bin/uptime") [] no_args viewer
    ∷ entry (codes "df") (codes "/usr/bin/df") (codes "-h" ∷ []) no_args viewer
    ∷ entry (codes "free") (codes "/usr/bin/free") (codes "-h" ∷ []) no_args viewer
    ∷ entry (codes "hostname") (codes "/usr/bin/hostname") [] no_args viewer
    ∷ entry (codes "date") (codes "/usr/bin/date") [] no_args viewer
    ∷ entry (codes "uname") (codes "/usr/bin/uname") (codes "-a" ∷ []) no_args viewer
    ∷ entry (codes "id") (codes "/usr/bin/id") [] no_args viewer
    ∷ entry (codes "whoami") (codes "/usr/bin/whoami") [] no_args viewer
    ∷ entry (codes "ls") (codes "/usr/bin/ls") (codes "-la" ∷ codes "--color=never" ∷ []) ls
        operator
    ∷ entry (codes "systemctl") (codes "/usr/bin/systemctl") (codes "status" ∷ []) systemctl_status
        operator
    ∷ entry (codes "journalctl") (codes "/usr/bin/journalctl") [] journalctl operator
    ∷ entry (codes "echo") (codes "/usr/bin/echo") [] echo administrator
    ∷ []

-- `_PERMANENT_BLOCK`
abbrev pub permanent_block : List Text
permanent_block = map codes (
    "rm" ∷ "rmdir" ∷ "dd" ∷ "mkfs" ∷ "fdisk" ∷ "parted" ∷ "mkdosfs" ∷ "shutdown" ∷ "reboot" ∷ "halt"
    ∷ "poweroff" ∷ "systemctl reboot" ∷ "passwd" ∷ "sudo" ∷ "su" ∷ "doas" ∷ "pkexec" ∷ "newgrp"
    ∷ "chmod" ∷ "chown" ∷ "chattr" ∷ "setfacl" ∷ "iptables" ∷ "ip6tables" ∷ "ufw" ∷ "nft"
    ∷ "firewall-cmd" ∷ "curl" ∷ "wget" ∷ "fetch" ∷ "aria2c" ∷ "nc" ∷ "netcat" ∷ "ncat" ∷ "socat"
    ∷ "nmap" ∷ "python" ∷ "python2" ∷ "python3" ∷ "perl" ∷ "ruby" ∷ "php" ∷ "node" ∷ "nodejs"
    ∷ "lua" ∷ "tcl" ∷ "awk" ∷ "gawk" ∷ "mawk" ∷ "bash" ∷ "sh" ∷ "zsh" ∷ "fish" ∷ "dash" ∷ "ksh"
    ∷ "csh" ∷ "tcsh" ∷ "eval" ∷ "exec" ∷ "xargs" ∷ "env" ∷ "printenv" ∷ "at" ∷ "cron" ∷ "crontab"
    ∷ "batch" ∷ "ssh" ∷ "scp" ∷ "sftp" ∷ "rsync" ∷ "mount" ∷ "umount" ∷ "losetup" ∷ "cryptsetup"
    ∷ "insmod" ∷ "rmmod" ∷ "modprobe" ∷ "lsmod" ∷ "strace" ∷ "ltrace" ∷ "gdb" ∷ "lldb" ∷ "apt"
    ∷ "apt-get" ∷ "yum" ∷ "dnf" ∷ "pacman" ∷ "pip" ∷ "pip3" ∷ [])

-- `ROLE_HIERARCHY.get(role, default)`
unfoldable pub role_level : ℕ → Text → ℕ
role_level default role =
    if text_eq role viewer
    then 0
    else if text_eq role operator
    then 1
    else if text_eq role administrator
    then 2
    else default

unfoldable pub find_entry : Text → List (Text × Entry) → Option Entry
find_entry name [] = none
find_entry name ((n, e) ∷ entries) = if text_eq n name then some e else find_entry name entries

-- Why `PermissionDenied` is raised.
pub data Reason : Type 0 where
  malformed empty_command blocked unregistered low_role takes_no_arguments bad_arguments : Reason

pub data Resolved : Type 0 where
  resolved : Text → List Text → Resolved
  denied : Reason → Resolved

module _ (pf : Platform) where
  -- The argument checks, once the entry is found and the role suffices.
  unfoldable pub check_arguments : Entry → List Text → Resolved
  check_arguments e user_args = elim e.validator [
    | none ↦ elim user_args [
      | [] ↦ resolved e.exe (e.fixed_args ++ [])
      | _ ∷ _ ↦ denied takes_no_arguments
    ]
    | some v ↦
        if validate pf v user_args
        then resolved e.exe (e.fixed_args ++ user_args)
        else denied bad_arguments
  ]

  unfoldable pub resolve_parts : ℕ → List Text → Resolved
  unfolding path_name find_entry check_arguments
  resolve_parts level [] = denied empty_command
  resolve_parts level (command ∷ user_args) =
      let base_name = pf.lower (path_name command) in
      if text_elem base_name permanent_block
      then denied blocked
      else elim (find_entry base_name registry) [
        | none ↦ denied unregistered
        | some e ↦
            if ltb level (role_level 999 e.min_role)
            then denied low_role
            else check_arguments e user_args
      ]

  -- `PermissionManager(role).resolve_command(command)`
  unfoldable pub resolve_command : Text → Text → Resolved
  unfolding resolve_parts
  resolve_command role command = elim (split command) [
    | raise e ↦ denied malformed
    | ok parts ↦ resolve_parts (role_level 0 role) parts
  ]

  -- `PermissionManager(role).is_allowed(command)`
  unfoldable pub is_allowed : Text → Text → Bool
  unfolding resolve_command
  is_allowed role command = elim (resolve_command role command) [
    | resolved exe argv ↦ true
    | denied reason ↦ false
  ]
