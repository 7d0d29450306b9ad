-- ===== src/Installer/Removal.antt =====
-- What installing and removing leave behind, of homelink/service/installer.py.
use homelink.Config.Store.{Files, File, all_read}
use homelink.Common.Exc.{Exc, Result, ok}
use homelink.Installer.{check_status, service_name, Systemd, Host, joined, service_lines, systemctl}
use homelink.Common.Dict
use homelink.Common.{String, ◌≡◌, false, Option, none, List, [], ◌∷◌, str_eq}

-- What is documented of systemctl, for the link that enabling the unit makes: no call changes
-- another file, disabling removes the link where it succeeds, and reloading leaves it alone.
pub record Documented {Machine : Type 0} (sd : Systemd Machine) (link : String) : Type 0 where
  pub elsewhere :
      (args : List String) (machine : Machine) (files : Files) (path : String)
      → str_eq link path ≡ false
      → Dict.lookup path (sd.run args machine files).2 ≡ Dict.lookup path files
  pub disables :
      (machine : Machine) (files : Files)
      → let (ran, after, files') = sd.run ("disable" ∷ service_name ∷ []) machine files in
        check_status ran ≡ ok tt → Dict.lookup link files' ≡ none
  pub reloads :
      (machine : Machine) (files : Files)
      → Dict.lookup link (sd.run ("daemon-reload" ∷ []) machine files).2 ≡ Dict.lookup link files

module _ {Machine : Type 0} (sd : Systemd Machine) (link : String) (doc : Documented sd link) where
  -- The same unit file, and the same files but for the link.
  abbrev Alike : Host Machine → Host Machine → Type 0
  Alike h h' =
      (h'.unit_file ≡ h.unit_file)
      × ((path : String)
          → str_eq link path ≡ false
          → Dict.lookup path h'.files ≡ Dict.lookup path h.files)

  abbrev pub unit : Host Machine → File
  unit h = record {
    content = sd.utf8 (joined (service_lines h.python h.config_dir h.home_dir));
    mode = all_read;
  }

  -- The two calls before the unit file is removed.
  abbrev stopped : Host Machine → Host Machine
  stopped h = (systemctl sd ("stop" ∷ service_name ∷ []) h).1

  abbrev pub disabling : Host Machine → Result (Unit {0}) × Host Machine
  disabling h = systemctl sd ("disable" ∷ service_name ∷ []) (stopped h)

  abbrev gone : Option File
  gone = none
