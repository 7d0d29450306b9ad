-- ===== src/Tests/Setup.antt =====
-- A run of init.py, with the loading after it.
use homelink.Config.Store.{
  run_ops, run_op, get_integrity_key, ConfigManager, Codec, save_config, put_file, ensure_dirs,
}
use homelink.Common.{ℕ, ◌≡◌, refl, true, List, [], ◌∷◌, arith, replicate}
use homelink.Common.Dict
use homelink.Common.Exc.{Result, ok}
use homelink.Common.Text.{codes}
use homelink.Common.Json.{Value, entry, done, obj, str}
use homelink.Devices.Loading.{Libraries, load}
use homelink.Config.{config-to_dict}
use homelink.Devices.Files.{device_document}
use homelink.Devices.{save_devices}
use homelink.Setup.{store_keys, Answers, Random, setup}
use homelink.Setup.Loads.{load-setup, document, configuration, set_up, loaded_identity}
use homelink.Tests.Messages.{python}
use homelink.Tests.Keys.{lib}
use homelink.Tests.Sessions.{aead}

abbrev pub empty_home : ConfigManager
empty_home = record { config_dir = "/home/ada/.homelink"; files = []; dirs = [] }

abbrev pub answers : Answers
answers = record {
  device_name = "attic";
  password = codes "Correct1Horse";
  password_hash = "hash";
  use_telegram = true;
  bot_token = "1:A";
  chat_id = "42";
}

abbrev pub random : Random
random = record {
  seed = replicate 32 5;
  dh_seed = replicate 32 7;
  salt = replicate 16 1;
  nonce = replicate 12 2;
  dh_salt = replicate 16 3;
  dh_nonce = replicate 12 4;
}

abbrev libraries : Codec → Libraries
libraries codec = record {
  lib = lib;
  codec = codec;
  aead = aead;
  box = record { private_key = λ b. ok b; public_of = λ b. b };
}

abbrev blank : Libraries
blank = libraries (record { py = python; dumps = λ v. []; loads = λ b. ok (str "") })

-- The devices have three entries, with the integrity tag, the configuration has more.
unfoldable pub shape : Value → List ℕ
shape (obj (entry k v (entry k' v' (entry k'' v'' done)))) = []
shape v = 0 ∷ []

unfoldable pub read_shape : List ℕ → Result Value
read_shape [] = ok (document blank empty_home answers random true)
read_shape (n ∷ ns) = ok (configuration blank empty_home answers random true)

abbrev pub l : Libraries
l = libraries (record { py = python; dumps = shape; loads = read_shape })

load-setup_example :
    let after = setup l empty_home answers random true in
    (after.0 ≡ ok tt)
    × (load l true after.1 answers.password ≡ (
      ok (record {
        config = set_up l empty_home answers random true;
        identity = loaded_identity l empty_home answers random true;
        peers = [];
      }),
      after.1,
    ))
unfolding Dict.lookup Dict.insert read_shape shape config-to_dict store_keys save_devices
    device_document get_integrity_key save_config put_file run_op run_ops ensure_dirs
load-setup_example =
    load-setup l empty_home answers random true refl refl refl refl refl refl refl refl refl
      (λ key nonce p a. refl) (λ key nonce p a. omega arith) refl refl
