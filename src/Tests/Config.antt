-- ===== src/Tests/Config.antt =====
-- Runs of homelink/config/manager.py.
use homelink.Common.{◌≡◌, refl, ◌⊎◌, true, some, [], ◌∷◌}
use homelink.Common.Dict
use homelink.Common.Exc.{ok}
use homelink.Common.Int.{pos}
use homelink.Common.Text.{codes}
use homelink.Common.Json.{Value, str, obj, to_fields}
use homelink.Config.{
  HomeLinkConfig, telegram_incomplete, no_password_hash, config-to_dict, config-from_dict,
  validate_config, read_p2p, read_security, read_log,
}
use homelink.Config.RoundTrip.{config-from_dict-to_dict}
use homelink.Config.Store.{ConfigManager, Codec, File, save_ops}
use homelink.Config.Store.Atomic.{interrupted, interrupted-whole, saved}
use homelink.Tests.Messages.{python}

abbrev pub config : HomeLinkConfig
config = record {
  version = pos 1;
  device_name = "attic";
  device_id = "0123456789ABCDEF";
  telegram = record {
    bot_token = str "";
    chat_id = str "42";
    enabled = Value.bool true;
    large_file_threshold_mb = Value.num (pos 50);
  };
  p2p = read_p2p [];
  security = read_security [];
  logging = read_log [];
  password_hash = "";
  pairing_code = "";
  config_dir = "";
}

-- The wrong configuration is reported.
validate_run : validate_config config ≡ no_password_hash ∷ telegram_incomplete ∷ []
unfolding validate_config
validate_run = refl

config-from_dict-to_dict_example : config-from_dict python (config-to_dict config) ≡ ok config
config-from_dict-to_dict_example = config-from_dict-to_dict python config

abbrev old : File
old = record { content = codes "old"; mode = 420 }

interrupted-whole_example :
    let found = Dict.lookup "config.json" (
      interrupted 2
        (codes "n")
        (save_ops "config.json" "config.tmp" (codes "new"))
        (("config.json", old) ∷ [])) in
    (found ≡ Dict.lookup "config.json" (("config.json", old) ∷ []))
    ⊎ (found ≡ some (saved (codes "new")))
interrupted-whole_example =
    interrupted-whole "config.json" "config.tmp" (codes "new") (("config.json", old) ∷ []) 2
      (codes "n") refl

abbrev manager : ConfigManager
manager = record { config_dir = "/home/ada/.homelink"; files = []; dirs = [] }

abbrev written : Value
written = obj (to_fields (config-to_dict (record config { config_dir = "/home/ada/.homelink" })))

abbrev codec : Codec
codec = record { py = python; dumps = λ v. codes "{}"; loads = λ b. ok written }
