-- ===== src/Devices.antt =====
-- The known devices: homelink/core/device.py in memory, and the device part of
-- homelink/config/manager.py on disk. HMAC, SHA-256 and `json.dumps` are parameters; the integrity
-- key, which is none while there is no public key file, is an argument.
pub mod Integrity
pub mod Files
pub mod Loading
use homelink.Common.Json.{
  key_of, Python, Value, num, str, bool, obj, Message, get, item, is_true, to_fields,
}
use homelink.Common.Dict.{Dict}
use homelink.Common.Dict
use homelink.Common.{
  ℕ, String, Bool, true, false, Option, none, some, List, [], ◌∷◌, str_eq, if◌then◌else◌,
}
use homelink.Common.Int.{pos}
use homelink.Common.Exc.{Result, ok, raise, permission_denied, type_error, ◌>>=◌}
use homelink.Telegram.{Peer}

-- What stands behind `devices.json`.
pub record Vault : Type 0 where
  -- `hashlib.sha256(b).digest()`
  pub sha256 : List ℕ → List ℕ
  -- `_devices_mac(json.dumps(devices, sort_keys=True), key)`
  pub mac : Value → List ℕ → String
  pub py : Python
  -- `bytes.fromhex(v)`
  pub from_hex : Value → Result (List ℕ)
  -- `VerifyKey(b)` and `X25519PublicKey.from_public_bytes(b)`, which refuse bytes that are no key
  pub verify_key : List ℕ → Result (List ℕ)
  pub dh_key : List ℕ → Result (List ℕ)

-- `DeviceIdentity.from_public_dict`: the device ID, as a key, and what is kept of the peer.
unfoldable pub from_public_dict : Vault → Message → Result (String × Peer)
unfolding item get key_of
from_public_dict vault d = do
  device_id ← item d "device_id"
  name ← item d "name"
  signing_public ← item d "signing_public"
  signing_bytes ← vault.from_hex signing_public
  verify_key ← vault.verify_key signing_bytes
  dh_public ← item d "dh_public"
  dh_bytes ← vault.from_hex dh_public
  dh_key ← vault.dh_key dh_bytes
  id ← key_of vault.py device_id
  ok (
    id,
    record {
      verify_key = verify_key;
      approved = get d "approved" (bool false);
      role = get d "role" (str "viewer");
    },
  )

-- `save_devices`: the document that is written.
unfoldable pub save_devices : Vault → Option (List ℕ) → Value → Message
save_devices vault integrity_key devices =
    ("version", num (pos 1))
    ∷ ("devices", devices)
    ∷ elim integrity_key [ none ↦ [] | some key ↦ ("mac", str (vault.mac devices key)) ∷ [] ]

-- `hmac.compare_digest(expected, v)`, which takes texts only.
abbrev pub compare_digest : String → Value → Result Bool
compare_digest expected (str s) = ok (str_eq expected s)
compare_digest expected v = raise type_error

-- The devices of a document whose mac is checked; `permission_denied` stands for the
-- `SecurityError`.
unfoldable pub check_mac : Vault → Option (List ℕ) → Value → Value → Result Value
check_mac vault integrity_key devices mac = elim integrity_key [
  | none ↦ ok devices
  | some key ↦ elim (compare_digest (vault.mac devices key) mac) [
    | raise e ↦ raise e
    | ok same ↦ if same then ok devices else raise permission_denied
  ]
]

-- `load_devices` of a document that is an object.
unfoldable pub load_devices : Vault → Option (List ℕ) → Bool → Message → Result Value
unfolding check_mac Dict.lookup
load_devices vault integrity_key verify_integrity doc = elim (Dict.lookup "devices" doc) [
  | none ↦ ok (obj (to_fields doc))
  | some devices ↦ elim (Dict.lookup "mac" doc) [
    | none ↦ ok devices
    | some mac ↦ if verify_integrity then check_mac vault integrity_key devices mac else ok devices
  ]
]

-- `DeviceManager`, with the devices on disk.
pub record Devices : Type 0 where
  pub device_id : String
  pub peers : Dict Peer
  pub stored : Dict Message

-- `ConfigManager.add_device`
unfoldable pub add_device : Dict Message → String → Message → Dict Message
unfolding Dict.insert
add_device stored id info = Dict.insert id info stored

-- `ConfigManager.remove_device`
unfoldable pub remove_device : Dict Message → String → Bool × Dict Message
unfolding Dict.has_key Dict.erase
remove_device stored id =
    if Dict.has_key id stored then (true, Dict.erase id stored) else (false, stored)

-- `ConfigManager.approve_device`
unfoldable pub approve_device : Dict Message → String → Bool × Dict Message
unfolding Dict.lookup Dict.insert
approve_device stored id = elim (Dict.lookup id stored) [
  | none ↦ (false, stored)
  | some info ↦ (true, Dict.insert id (Dict.insert "approved" (bool true) info) stored)
]

-- `DeviceManager.get_peer`
abbrev pub get_peer : Devices → String → Option Peer
get_peer d id = Dict.lookup id d.peers

-- `DeviceManager.add_peer`
unfoldable pub add_peer : Vault → Devices → Message → Result Devices
unfolding add_device from_public_dict
add_peer vault d info = do
  (id, peer) ← from_public_dict vault info
  ok (record d { peers = Dict.insert id peer d.peers; stored = add_device d.stored id info })

abbrev pub mark_approved : Dict Peer → String → Dict Peer
mark_approved peers id = elim (Dict.lookup id peers) [
  | none ↦ peers
  | some peer ↦ Dict.insert id (record peer { approved = bool true }) peers
]

-- `DeviceManager.approve_peer`
unfoldable pub approve_peer : Devices → String → Bool × Devices
unfolding approve_device
approve_peer d id =
    let (found, stored) = approve_device d.stored id in
    let peers = if found then mark_approved d.peers id else d.peers in
    (found, record d { peers = peers; stored = stored })

-- `DeviceManager.is_peer_approved`
unfoldable pub is_peer_approved : Devices → String → Bool
is_peer_approved d id = elim (get_peer d id) [ none ↦ false | some peer ↦ is_true peer.approved ]

-- `DeviceManager._load_peers`: a device that cannot be read is left out.
unfoldable pub load_peers : Vault → String → Dict Message → Dict Peer → Dict Peer
unfolding Dict.insert from_public_dict
load_peers vault own [] peers = peers
load_peers vault own ((id, info) ∷ stored) peers =
    let rest = load_peers vault own stored in
    if str_eq id own then rest peers else elim (from_public_dict vault info) [
      | raise e ↦ rest peers
      | ok (_, peer) ↦ rest (Dict.insert id peer peers)
    ]
