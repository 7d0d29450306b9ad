-- ===== src/Setup.antt =====
-- init.py: what the wizard writes for a new device, from the answers of the user.
pub mod Start
pub mod Loads
use homelink.Common.Json.{to_fields, obj, Value, bool, str, Message}
use homelink.Common.{ℕ, String, Bool, true, false, ◌&&◌, List, []}
use homelink.Common.Dict
use homelink.Common.Dict.{Dict}
use homelink.Common.Exc.{Result, ok, and_then, ◌>>=◌}
use homelink.Common.Int.{pos}
use homelink.Common.Text.{truthy}
use homelink.Session.{encrypt_private_key}
use homelink.Keys.{DeviceIdentity, or_runtime_error, raw_bytes, generate, public_info}
use homelink.Config.{HomeLinkConfig, read_telegram, read_p2p, read_security, read_log}
use homelink.Config.Store.{
  ConfigManager, ensure_dirs, save_config, save_encrypted_key, save_public_key, logs_dir,
}
use homelink.Devices.Files.{read_devices, write_devices}
use homelink.Devices.Loading.{Libraries}

-- The answers of the user, with the hash of the password.
pub record Answers : Type 0 where
  pub device_name : String
  pub password : List ℕ
  pub password_hash : String
  pub use_telegram : Bool
  pub bot_token : String
  pub chat_id : String

-- The random bytes that are drawn.
pub record Random : Type 0 where
  pub seed : List ℕ
  pub dh_seed : List ℕ
  pub salt : List ℕ
  pub nonce : List ℕ
  pub dh_salt : List ℕ
  pub dh_nonce : List ℕ

-- `HomeLinkConfig()` with the answers.
abbrev pub first_config : ConfigManager → Answers → String → HomeLinkConfig
first_config m a device_id = record {
  version = pos 1;
  device_name = a.device_name;
  device_id = device_id;
  telegram = record (read_telegram []) {
    enabled = bool (a.use_telegram && (truthy a.bot_token && truthy a.chat_id));
    bot_token = str a.bot_token;
    chat_id = str a.chat_id;
  };
  p2p = read_p2p [];
  security = read_security [];
  logging = record (read_log []) { log_dir = str (logs_dir m) };
  password_hash = a.password_hash;
  pairing_code = "";
  config_dir = "";
}

-- `{**identity.public_info(), "approved": True, "role": "administrator"}`
unfoldable pub self_info : Message → Message
unfolding Dict.insert
self_info info = Dict.insert "role" (str "administrator") (Dict.insert "approved" (bool true) info)

-- The private keys as they are stored.
pub record Secrets : Type 0 where
  pub signing : List ℕ
  pub dh : List ℕ
  pub dh_public : List ℕ

unfoldable pub secrets_of : DeviceIdentity → Result Secrets
secrets_of i = do
  signing ← or_runtime_error i.signing.signing_key
  dh_key ← or_runtime_error i.dh.private_key
  dh ← raw_bytes dh_key
  dh_public ← raw_bytes i.dh.public_key
  ok (record { signing = signing; dh = dh; dh_public = dh_public })

module _ (l : Libraries) where
  -- The keys are encrypted and stored.
  unfoldable pub store_keys :
      ConfigManager → Answers → Random → DeviceIdentity → Secrets → ConfigManager
  unfolding encrypt_private_key
  store_keys m a r i s =
      let sealed = encrypt_private_key l.aead s.signing a.password r.salt r.nonce in
      let dh_sealed = encrypt_private_key l.aead s.dh a.password r.dh_salt r.dh_nonce in
      save_public_key
        (save_public_key (save_encrypted_key (save_encrypted_key m "signing" sealed) "dh" dh_sealed)
          "signing" i.signing.verify_key)
        "dh" s.dh_public

  -- This device is added to the known devices.
  unfoldable pub add_self :
      ConfigManager → String → Message → Bool → Result (Unit {0}) × ConfigManager
  unfolding read_devices write_devices self_info
  add_self m device_id info can_chmod =
      and_then (read_devices l.codec l.lib.vault m false can_chmod) λ devices m. (
        ok tt,
        write_devices l.codec l.lib.vault m
            (Dict.insert device_id (obj (to_fields (self_info info))) devices),
      )

  -- Everything that is written for an identity.
  unfoldable pub write_all :
      ConfigManager
      → Answers
      → Random
      → String
      → DeviceIdentity
      → Bool
      → Result (Unit {0}) × ConfigManager
  unfolding ensure_dirs secrets_of store_keys save_config add_self public_info
  write_all m a r device_id i can_chmod =
      and_then (secrets_of i, ensure_dirs m)
        λ s m.
          let m' = (save_config l.codec (store_keys m a r i s) (first_config m a device_id)).1 in
          and_then (public_info l.lib i, m') λ info m. add_self m device_id info can_chmod

  abbrev text_of : Value → String
  text_of (str s) = s
  text_of v = ""

  -- `main`, from the generation of the keys to the registration of the device.
  unfoldable pub setup : ConfigManager → Answers → Random → Bool → Result (Unit {0}) × ConfigManager
  unfolding generate write_all
  setup m a r can_chmod =
      and_then (generate l.lib a.device_name r.seed r.dh_seed, m)
        λ i m. write_all m a r (text_of i.device_id) i can_chmod
