-- ===== src/Setup/Start.antt =====
-- The files that init.py leaves behind.
use homelink.Common.Json.{Value, done, str, bool, obj, Message, to_fields}
use homelink.Config.Store.Reload.{save_config-other, put_file-same, put_file-other}
use homelink.Common.{
  ℕ, String, ◌≡◌, refl, ◌∙◌, Bool, true, false, none, some, List, [], ◌∷◌, str_eq, length,
}
use homelink.Common.Dict
use homelink.Common.Dict.{Dict}
use homelink.Common.Exc.{ok, ok_or}
use homelink.Session.{encrypt_private_key}
use homelink.Keys.{
  DeviceIdentity, key_pair_of, dh_pair_of, derive_device_id, generate, from_seed, public_info,
  fingerprint,
}
use homelink.Config.{HomeLinkConfig}
use homelink.Config.Store.{ConfigManager, key_path, public_path, save_config, save_ops, ensure_dirs}
use homelink.Config.Store.Atomic.{saved, run_ops-other, spares_all}
use homelink.Devices.Files.{read_devices, write_devices, device_document}
use homelink.Devices.Loading.{Libraries}
use homelink.Setup.{
  Answers, Random, Secrets, first_config, self_info, secrets_of, store_keys, add_self, write_all,
  setup,
}

module _ (l : Libraries) (m : ConfigManager) (a : Answers) (r : Random) where
  abbrev pub own_id : String
  own_id = derive_device_id l.lib (l.lib.verify_of r.seed)

  abbrev pub identity : DeviceIdentity
  identity = record {
    device_id = str own_id;
    name = str a.device_name;
    signing = key_pair_of l.lib r.seed;
    dh = dh_pair_of l.lib r.dh_seed;
    approved = bool false;
    role = str "viewer";
    metadata = obj done;
  }

  abbrev pub secrets : Secrets
  secrets = record { signing = r.seed; dh = r.dh_seed; dh_public = l.lib.dh_public_of r.dh_seed }

  abbrev pub keyed : ConfigManager
  keyed = store_keys l (ensure_dirs m) a r identity secrets

  abbrev pub config : HomeLinkConfig
  config = record (first_config m a own_id) { config_dir = keyed.config_dir }

  abbrev pub configured : ConfigManager
  configured = (save_config l.codec keyed (first_config m a own_id)).1

  -- The two private keys as they are stored.
  abbrev pub sealed : List ℕ
  sealed = encrypt_private_key l.aead r.seed a.password r.salt r.nonce

  abbrev pub dh_sealed : List ℕ
  dh_sealed = encrypt_private_key l.aead r.dh_seed a.password r.dh_salt r.dh_nonce

  keyed-other :
      (path : String)
      → str_eq (key_path "signing") path ≡ false
      → str_eq (key_path "dh") path ≡ false
      → str_eq (public_path "signing") path ≡ false
      → str_eq (public_path "dh") path ≡ false
      → Dict.lookup path keyed.files ≡ Dict.lookup path m.files
  unfolding store_keys ensure_dirs
  keyed-other path a1 a2 a3 a4 =
      put_file-other (public_path "dh") path _ 420 _ a4
      ∙ (put_file-other (public_path "signing") path _ 420 _ a3
          ∙ (put_file-other (key_path "dh") path dh_sealed 384 _ a2
              ∙ put_file-other (key_path "signing") path sealed 384 (ensure_dirs m) a1))

  pub keyed-signing : Dict.lookup (key_path "signing") keyed.files ≡ some (saved sealed)
  unfolding store_keys
  keyed-signing =
      put_file-other (public_path "dh") (key_path "signing") _ 420 _ refl
      ∙ (put_file-other (public_path "signing") (key_path "signing") _ 420 _ refl
          ∙ (put_file-other (key_path "dh") (key_path "signing") dh_sealed 384 _ refl
              ∙ put_file-same (key_path "signing") sealed (ensure_dirs m)))

  pub keyed-dh : Dict.lookup (key_path "dh") keyed.files ≡ some (saved dh_sealed)
  unfolding store_keys
  keyed-dh =
      put_file-other (public_path "dh") (key_path "dh") _ 420 _ refl
      ∙ (put_file-other (public_path "signing") (key_path "dh") _ 420 _ refl
          ∙ put_file-same (key_path "dh") dh_sealed _)

  abbrev pub devices : Message → Dict Value
  devices info = (own_id, obj (to_fields (self_info info))) ∷ []

  abbrev pub final : Message → ConfigManager
  final info = write_devices l.codec l.lib.vault configured (devices info)

  -- The saving of the devices leaves the other files alone.
  pub final-other :
      (info : Message) (path : String)
      → spares_all path (save_ops "devices.json" "devices.tmp" []) ≡ true
      → Dict.lookup path (final info).files ≡ Dict.lookup path configured.files
  unfolding write_devices
  final-other info path apart =
      run_ops-other path
        (save_ops "devices.json" "devices.tmp"
          (l.codec.dumps (device_document l.codec l.lib.vault configured (devices info))))
        configured.files apart

  abbrev pub info : Message
  info = ok_or [] (public_info l.lib identity)

  pub generate-identity :
      length r.seed ≡ 32
      → l.lib.signing_key r.seed ≡ ok r.seed
      → l.lib.dh_private r.dh_seed ≡ ok r.dh_seed
      → generate l.lib a.device_name r.seed r.dh_seed ≡ ok identity
  unfolding generate from_seed
  generate-identity sized key_ok dh_ok = rw (sized, key_ok, dh_ok) refl

  read_devices-fresh :
      (can_chmod : Bool)
      → Dict.lookup "devices.json" m.files ≡ none
      → read_devices l.codec l.lib.vault configured false can_chmod ≡ (ok [], configured)
  unfolding read_devices
  read_devices-fresh can_chmod fresh =
      let missing : Dict.lookup "devices.json" configured.files ≡ none =
        save_config-other l.codec "devices.json" (first_config m a own_id) keyed refl
        ∙ (keyed-other "devices.json" refl refl refl refl ∙ fresh) in
      rw (missing, read_devices) refl

  pub setup-final :
      (can_chmod : Bool)
      → Dict.lookup "devices.json" m.files ≡ none
      → generate l.lib a.device_name r.seed r.dh_seed ≡ ok identity
      → setup l m a r can_chmod ≡ (ok tt, final info)
  unfolding setup write_all add_self secrets_of public_info fingerprint Dict.insert
  setup-final can_chmod fresh made =
      rw (made, setup, read_devices-fresh can_chmod fresh, write_all, add_self) refl
