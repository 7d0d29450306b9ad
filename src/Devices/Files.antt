-- ===== src/Devices/Files.antt =====
-- devices.json of homelink/config/manager.py, among the files of the configuration.
use homelink.Common.{ℕ, Bool, Option, none, some, List, []}
use homelink.Common.Dict
use homelink.Common.Dict.{Dict}
use homelink.Common.Exc.{Result, ok, raise, attribute_error, type_error, ◌>>=◌}
use homelink.Common.Json.{Value, obj, to_dict, to_fields}
use homelink.Devices.{Vault, load_devices, save_devices}
use homelink.Config.Store.{
  get_integrity_key, ConfigManager, Codec, owner_only, run_ops, save_ops, check_permissions,
}

-- `raw.items()`
unfoldable pub items_of : Value → Result (Dict Value)
items_of (obj fields) = ok (to_dict fields)
items_of v = raise attribute_error

module _ (codec : Codec) (vault : Vault) where
  -- The devices in a content. What is no object raises, of one kind or another.
  unfoldable pub parse_devices : Option (List ℕ) → Bool → List ℕ → Result (Dict Value)
  unfolding load_devices items_of
  parse_devices integrity_key verify_integrity content = do
    doc ← codec.loads content
    devices ← elim doc [
      | obj fields ↦ load_devices vault integrity_key verify_integrity (to_dict fields)
      | _ ↦ raise type_error
    ]
    items_of devices

  -- `load_devices`, with the file and the integrity key of the public key file.
  unfoldable pub read_devices : ConfigManager → Bool → Bool → Result (Dict Value) × ConfigManager
  unfolding Dict.lookup check_permissions get_integrity_key parse_devices
  read_devices m verify_integrity can_chmod = elim (Dict.lookup "devices.json" m.files) [
    | none ↦ (ok [], m)
    | some file ↦ (
      parse_devices (get_integrity_key vault.sha256 m) verify_integrity file.content,
      record m { files = check_permissions "devices.json" file owner_only can_chmod m.files },
    )
  ]

  -- The document that `save_devices` writes.
  unfoldable pub device_document : ConfigManager → Dict Value → Value
  unfolding save_devices get_integrity_key
  device_document m devices =
      obj (
        to_fields (save_devices vault (get_integrity_key vault.sha256 m) (obj (to_fields devices))))

  -- `save_devices`, with the file.
  unfoldable pub write_devices : ConfigManager → Dict Value → ConfigManager
  unfolding device_document run_ops
  write_devices m devices =
      let content = codec.dumps (device_document m devices) in
      record m { files = run_ops (save_ops "devices.json" "devices.tmp" content) m.files }
