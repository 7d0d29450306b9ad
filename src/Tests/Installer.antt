-- ===== src/Tests/Installer.antt =====
-- Runs of homelink/service/installer.py.
use homelink.Common.Int.{pos}
use homelink.Common.Exc.{Exc, ok}
use homelink.Common.{String, ◌≡◌, refl, Bool, true, false, List, [], ◌∷◌, str_eq}
use homelink.Common.Dict
use homelink.Common.Text.{Text, codes}
use homelink.Config.Store.{Files, File}
use homelink.Installer.{Systemd, Host, systemctl, start}
use homelink.Installer.Removal.{Documented}

abbrev other : File
other = record { content = codes "x"; mode = 420 }

abbrev link : String
link = "default.target.wants/homelink.service"

-- Enabling makes the link, and disabling removes it.
abbrev change : Bool → Bool → Files → Files
change true disables files = Dict.insert link other files
change false true files = Dict.erase link files
change false false files = files

abbrev linked : List String → Files → Files
linked [] files = files
linked (action ∷ args) files = change (str_eq action "enable") (str_eq action "disable") files

change-other :
    (enables disables : Bool) (files : Files) (path : String)
    → str_eq link path ≡ false
    → Dict.lookup path (change enables disables files) ≡ Dict.lookup path files
change-other true disables files path apart =
    rw (Dict.lookup-insert path link other files, apart) refl
change-other false true files path apart = rw (Dict.lookup-erase path link files, apart) refl
change-other false false files path apart = refl

linked-other :
    (args : List String) (files : Files) (path : String)
    → str_eq link path ≡ false
    → Dict.lookup path (linked args files) ≡ Dict.lookup path files
linked-other [] files path apart = refl
linked-other (action ∷ args) files path apart =
    change-other (str_eq action "enable") (str_eq action "disable") files path apart

abbrev system : Systemd Text
system = record {
  run = λ args machine files. (ok (pos 0), machine, linked args files);
  enable_linger = λ machine. machine;
  utf8 = codes;
}

abbrev documented : Documented system link
documented = record {
  elsewhere = λ args machine files path apart. linked-other args files path apart;
  disables = λ machine files worked. Dict.lookup-erase link link files;
  reloads = λ machine files. refl;
}

abbrev host : Host Text
host = record {
  unit_file = "homelink.service";
  python = "/usr/bin/python3";
  config_dir = "/home/ada/.homelink";
  home_dir = "/home/ada";
  files = ("other.service", other) ∷ [];
  machine = [];
}

start_run : start system host ≡ (true, host)
unfolding start systemctl
start_run = refl
