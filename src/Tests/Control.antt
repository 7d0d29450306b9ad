-- ===== src/Tests/Control.antt =====
-- Runs of homelink/cli/ctl.py.
use homelink.Common.{◌≡◌, refl, true, none, [], ◌∷◌}
use homelink.Common.Dict
use homelink.Common.Exc.{ok}
use homelink.Common.Int.{pos}
use homelink.Common.Json.{Message, str, num, get, to_str}
use homelink.Config.{config-to_dict}
use homelink.Devices.Files.{device_document}
use homelink.Config.Store.{save_config, put_file, ensure_dirs}
use homelink.Devices.{save_devices}
use homelink.Setup.{setup, store_keys}
use homelink.Setup.Start.{own_id}
use homelink.Control.{out, err, exits, target, make_client, exec, show_output}
use homelink.Control.Defaults.{make_client-setup}
use homelink.Tests.Setup.{l, empty_home, answers, random, shape, read_shape}
use homelink.Tests.Messages.{python}

abbrev failing : Message
failing = ("stderr", str "no") ∷ ("returncode", num (pos 2)) ∷ []

exec_run :
    exec python "uptime" (ok failing)
    ≡ (out "[dim]$ uptime[/dim]" ∷ err "no" ∷ [], exits (num (pos 2)))
unfolding exec show_output get to_str Dict.lookup
exec_run = refl

make_client-setup_example :
    (make_client l.codec l.lib.vault true (setup l empty_home answers random true).1 none).0
    ≡ target (str (own_id l empty_home answers random))
unfolding Dict.lookup read_shape shape config-to_dict store_keys save_devices device_document
    save_config put_file ensure_dirs
make_client-setup_example =
    make_client-setup l empty_home answers random true refl refl refl refl refl
