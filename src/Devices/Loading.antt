-- ===== src/Devices/Loading.antt =====
-- `DeviceManager.load` of homelink/core/device.py.
use homelink.Common.Json.{to_dict, Message, Value, bool, str, obj, done}
use homelink.Common.{ℕ, String, Bool, true, some, List, [], ◌∷◌}
use homelink.Common.Dict.{Dict}
use homelink.Common.Exc.{Result, ok, and_then}
use homelink.Telegram.{Peer}
use homelink.Session.{Aead, decrypt_private_key}
use homelink.Keys.{KeyLib, DeviceIdentity, nacl, key_pair_of}
use homelink.Config.{HomeLinkConfig}
use homelink.Config.Store.{ConfigManager, Codec, load_config, load_encrypted_key}
use homelink.Devices.{load_peers}
use homelink.Devices.Files.{read_devices}

-- `nacl.public.PrivateKey(b)`, and its public key.
pub record NaclBox : Type 0 where
  pub private_key : List ℕ → Result (List ℕ)
  pub public_of : List ℕ → List ℕ

-- What `load` needs of the libraries.
pub record Libraries : Type 0 where
  pub lib : KeyLib
  pub codec : Codec
  pub aead : Aead
  pub box : NaclBox

-- `DeviceManager` once it is loaded.
pub record Loaded : Type 0 where
  pub config : HomeLinkConfig
  pub identity : DeviceIdentity
  pub peers : Dict Peer

abbrev pub entries_of : Value → Message
entries_of (obj fields) = to_dict fields
entries_of v = []

abbrev pub entries : Dict Value → Dict Message
entries [] = []
entries ((id, info) ∷ devices) = (id, entries_of info) ∷ entries devices

module _ (l : Libraries) (can_chmod : Bool) where
  -- A private key of this device, from its file.
  unfoldable pub load_private_key :
      ConfigManager → String → List ℕ → Result (List ℕ) × ConfigManager
  unfolding load_encrypted_key decrypt_private_key
  load_private_key m name password =
      and_then (load_encrypted_key m name can_chmod)
        λ enc m'. (decrypt_private_key l.aead enc password, m')

  abbrev pub identity_of : HomeLinkConfig → List ℕ → List ℕ → DeviceIdentity
  identity_of config signing_key dh_key = record {
    device_id = str config.device_id;
    name = str config.device_name;
    signing = key_pair_of l.lib signing_key;
    dh = record { public_key = nacl (l.box.public_of dh_key); private_key = some (nacl dh_key) };
    approved = bool true;
    role = str "viewer";
    metadata = obj done;
  }

  -- `_load_peers`: what is no object is no peer, as is an object without entries.
  unfoldable pub load_all_peers :
      ConfigManager → HomeLinkConfig → DeviceIdentity → Result Loaded × ConfigManager
  unfolding read_devices load_peers
  load_all_peers m config identity =
      and_then (read_devices l.codec l.lib.vault m true can_chmod) λ stored m'. (
        ok (record {
          config = config;
          identity = identity;
          peers = load_peers l.lib.vault config.device_id (entries stored) [];
        }),
        m',
      )

  -- From the private keys on.
  unfoldable pub build_identity :
      ConfigManager → HomeLinkConfig → List ℕ → List ℕ → Result Loaded × ConfigManager
  unfolding load_all_peers
  build_identity m config signing_priv dh_priv =
      and_then (l.lib.signing_key signing_priv, m)
        λ signing_key m.
          and_then (l.box.private_key dh_priv, m)
            λ dh_key m. load_all_peers m config (identity_of config signing_key dh_key)

  -- `load`
  unfoldable pub load : ConfigManager → List ℕ → Result Loaded × ConfigManager
  unfolding load_config load_private_key build_identity
  load m password = and_then (load_config l.codec m can_chmod) λ config m.
      and_then (load_private_key m "signing" password) λ signing_priv m.
        and_then (load_private_key m "dh" password)
          λ dh_priv m. build_identity m config signing_priv dh_priv
