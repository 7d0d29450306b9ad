-- ===== src/Config/RoundTrip.antt =====
-- The configuration is read back as it was written, of homelink/config/manager.py.
use homelink.Common.Dict
use homelink.Common.{◌≡◌, refl}
use homelink.Common.Exc.{ok}
use homelink.Common.Json.{Python, get, to_str, to_int}
use homelink.Config.{
  HomeLinkConfig, config-to_dict, config-from_dict, part, read_telegram, read_p2p, read_security,
  read_log,
}

pub config-from_dict-to_dict :
    (py : Python) (c : HomeLinkConfig) → config-from_dict py (config-to_dict c) ≡ ok c
unfolding config-from_dict config-to_dict part get to_str to_int read_telegram read_p2p
    read_security read_log Dict.lookup
config-from_dict-to_dict py c = refl
