-- ===== src/Setup/Loads.antt =====
-- A device that init.py set up is loaded by homelink/core/device.py.
use homelink.Devices.{Vault, save_devices, load_peers}
use homelink.Config.Store.{
  Codec, get_integrity_key, public_path, ConfigManager, key_path, logs_dir, with_log_dir,
}
use homelink.Keys.{DeviceIdentity}
use homelink.Setup.{Answers, Random, first_config, setup}
use homelink.Common.{
  ℕ, ◌≤◌, String, ◌≡◌, refl, ap, ◌∙◌, Bool, true, none, some, List, [], eq_iff, length,
}
use homelink.Common.Dict
use homelink.Common.Dict.{Dict}
use homelink.Common.Exc.{ok}
use homelink.Common.Json.{Value, obj, to_fields, to_dict-to_fields}
use homelink.Session.{decrypt_private_key}
use homelink.Session.Laws.{decrypt_private_key-encrypt_private_key}
use homelink.Config.{HomeLinkConfig, config-to_dict}
use homelink.Config.Store.Atomic.{saved, run_ops-saved}
use homelink.Config.Store.Reload.{
  load_config-saved, load_encrypted_key-saved, check_permissions-closed, save_config-other,
  save_config-same,
}
use homelink.Devices.Integrity.{load_devices-save_devices}
use homelink.Devices.Files.{read_devices, write_devices, device_document, parse_devices, items_of}
use homelink.Devices.Loading.{
  Libraries, load, load_private_key, build_identity, load_all_peers, identity_of,
}
use homelink.Setup.Start.{
  own_id, keyed, config, configured, sealed, dh_sealed, devices, final, info, keyed-signing,
  keyed-dh, final-other, setup-final, generate-identity,
}

read_devices-saved :
    (codec : Codec) (vault : Vault) (m : ConfigManager) (verify_integrity can_chmod : Bool)
    (content : List ℕ) (stored : Dict Value)
    → Dict.lookup "devices.json" m.files ≡ some (saved content)
    → parse_devices codec vault (get_integrity_key vault.sha256 m) verify_integrity content
      ≡ ok stored
    → read_devices codec vault m verify_integrity can_chmod ≡ (ok stored, m)
unfolding read_devices
read_devices-saved codec vault m verify_integrity can_chmod content stored there parsed =
    rw
      (
        there,
        read_devices,
        parsed,
        check_permissions-closed "devices.json" content can_chmod m.files,
      )
      refl

module _ (l : Libraries) (m : ConfigManager) (a : Answers) (r : Random) (can_chmod : Bool) where
  -- The document of the devices.
  abbrev pub document : Value
  document =
      device_document l.codec l.lib.vault (configured l m a r) (devices l m a r (info l m a r))

  abbrev pub end : ConfigManager
  end = final l m a r (info l m a r)

  pub config-there :
      Dict.lookup "config.json" end.files
      ≡ some (saved (l.codec.dumps (obj (to_fields (config-to_dict (config l m a r))))))
  config-there =
      final-other l m a r (info l m a r) "config.json" refl
      ∙ save_config-same l.codec (first_config m a (own_id l m a r)) (keyed l m a r)

  signing-there : Dict.lookup (key_path "signing") end.files ≡ some (saved (sealed l m a r))
  signing-there =
      final-other l m a r (info l m a r) (key_path "signing") refl
      ∙ (save_config-other l.codec (key_path "signing") (first_config m a (own_id l m a r))
            (keyed l m a r) refl
          ∙ keyed-signing l m a r)

  dh-there : Dict.lookup (key_path "dh") end.files ≡ some (saved (dh_sealed l m a r))
  dh-there =
      final-other l m a r (info l m a r) (key_path "dh") refl
      ∙ (save_config-other l.codec (key_path "dh") (first_config m a (own_id l m a r))
            (keyed l m a r) refl
          ∙ keyed-dh l m a r)

  pub devices-there : Dict.lookup "devices.json" end.files ≡ some (saved (l.codec.dumps document))
  unfolding write_devices
  devices-there =
      run_ops-saved "devices.json" "devices.tmp" (l.codec.dumps document) (configured l m a r).files

  load_private_key-there :
      (name : String) (key content : List ℕ)
      → Dict.lookup (key_path name) end.files ≡ some (saved content)
      → decrypt_private_key l.aead content a.password ≡ ok key
      → load_private_key l can_chmod end name a.password ≡ (ok key, end)
  unfolding load_private_key
  load_private_key-there name key content there opens =
      rw (load_encrypted_key-saved end name content can_chmod there, opens) refl

  -- The integrity key is the one that the tag was made with: the public key file was written
  -- before it, and not after it.
  key-there :
      get_integrity_key l.lib.vault.sha256 end
      ≡ get_integrity_key l.lib.vault.sha256 (configured l m a r)
  unfolding get_integrity_key
  key-there =
      rw (get_integrity_key, final-other l m a r (info l m a r) (public_path "signing") refl) refl

  parse_devices-there :
      l.codec.loads (l.codec.dumps document) ≡ ok document
      → parse_devices l.codec l.lib.vault
          (get_integrity_key l.lib.vault.sha256 (configured l m a r))
          true
          (l.codec.dumps document)
        ≡ ok (devices l m a r (info l m a r))
  unfolding parse_devices items_of device_document
  parse_devices-there reads =
      let key = get_integrity_key l.lib.vault.sha256 (configured l m a r) in
      let fields = to_fields (devices l m a r (info l m a r)) in
      rw
        (
          reads,
          parse_devices,
          to_dict-to_fields (save_devices l.lib.vault key (obj fields)),
          load_devices-save_devices l.lib.vault key true (obj fields),
          items_of,
        )
        (ap ok (to_dict-to_fields (devices l m a r (info l m a r))))

  pub read_devices-there :
      l.codec.loads (l.codec.dumps document) ≡ ok document
      → read_devices l.codec l.lib.vault end true can_chmod
        ≡ (ok (devices l m a r (info l m a r)), end)
  read_devices-there reads =
      read_devices-saved l.codec l.lib.vault end true can_chmod (l.codec.dumps document)
        (devices l m a r (info l m a r)) devices-there
        (ap (λ key. parse_devices l.codec l.lib.vault key true (l.codec.dumps document)) key-there
          ∙ parse_devices-there reads)

  -- The device finds only itself, which it leaves out.
  load_all_peers-there :
      (c : HomeLinkConfig) (i : DeviceIdentity)
      → l.codec.loads (l.codec.dumps document) ≡ ok document
      → c.device_id ≡ own_id l m a r
      → load_all_peers l can_chmod end c i
        ≡ (ok (record { config = c; identity = i; peers = [] }), end)
  unfolding load_all_peers load_peers
  load_all_peers-there c i reads same =
      rw
        (
          read_devices-there reads,
          load_all_peers,
          same,
          load_peers,
          (eq_iff (own_id l m a r) (own_id l m a r)).1 refl,
        )
        refl

  -- A fresh device.
  abbrev pub configuration : Value
  configuration = obj (to_fields (config-to_dict (config l m a r)))

  abbrev pub set_up : HomeLinkConfig
  set_up = with_log_dir (logs_dir end) (config l m a r)

  abbrev pub loaded_identity : DeviceIdentity
  loaded_identity = identity_of l can_chmod set_up r.seed r.dh_seed

  build_identity-there :
      l.codec.loads (l.codec.dumps document) ≡ ok document
      → l.lib.signing_key r.seed ≡ ok r.seed
      → l.box.private_key r.dh_seed ≡ ok r.dh_seed
      → build_identity l can_chmod end set_up r.seed r.dh_seed
        ≡ (ok (record { config = set_up; identity = loaded_identity; peers = [] }), end)
  unfolding build_identity
  build_identity-there reads key_ok dh_ok =
      rw (key_ok, build_identity, dh_ok, load_all_peers-there set_up loaded_identity reads refl)
        refl

  load-there :
      l.codec.loads (l.codec.dumps configuration) ≡ ok configuration
      → l.codec.loads (l.codec.dumps document) ≡ ok document
      → l.lib.signing_key r.seed ≡ ok r.seed
      → l.box.private_key r.dh_seed ≡ ok r.dh_seed
      → decrypt_private_key l.aead (sealed l m a r) a.password ≡ ok r.seed
      → decrypt_private_key l.aead (dh_sealed l m a r) a.password ≡ ok r.dh_seed
      → load l can_chmod end a.password
        ≡ (ok (record { config = set_up; identity = loaded_identity; peers = [] }), end)
  unfolding load
  load-there conf_reads reads key_ok dh_ok opens dh_opens =
      rw
        (
          load_config-saved l.codec end (config l m a r) (l.codec.dumps configuration) can_chmod
              config-there conf_reads refl,
          load,
          load_private_key-there "signing" r.seed (sealed l m a r) signing-there opens,
          load_private_key-there "dh" r.dh_seed (dh_sealed l m a r) dh-there dh_opens,
          build_identity-there reads key_ok dh_ok,
        )
        refl

-- A device that `setup` writes into a place without devices is loaded with the same password:
-- `setup` succeeds, and `load` gives the configuration of the answers, an identity with the
-- device ID and the keys of the seeds, and no peers, and changes no file, if the seeds are
-- accepted by the key libraries, the sizes of seed, salts and nonces are right, and the
-- encryption can be undone, adds at least 16 bytes, and the two documents are read as they were
-- written.
pub load-setup :
    (l : Libraries) (m : ConfigManager) (a : Answers) (r : Random) (can_chmod : Bool)
    → Dict.lookup "devices.json" m.files ≡ none
    → length r.seed ≡ 32
    → length r.salt ≡ 16
    → length r.nonce ≡ 12
    → length r.dh_salt ≡ 16
    → length r.dh_nonce ≡ 12
    → l.lib.signing_key r.seed ≡ ok r.seed
    → l.lib.dh_private r.dh_seed ≡ ok r.dh_seed
    → l.box.private_key r.dh_seed ≡ ok r.dh_seed
    → ((key nonce p a : List ℕ) → l.aead.unseal key nonce (l.aead.seal key nonce p a) a ≡ some p)
    → ((key nonce p a : List ℕ) → 16 ≤ length (l.aead.seal key nonce p a))
    → l.codec.loads (l.codec.dumps (configuration l m a r can_chmod))
      ≡ ok (configuration l m a r can_chmod)
    → l.codec.loads (l.codec.dumps (document l m a r can_chmod)) ≡ ok (document l m a r can_chmod)
    → let after = setup l m a r can_chmod in
      (after.0 ≡ ok tt)
      × (load l can_chmod after.1 a.password ≡ (
        ok (record {
          config = set_up l m a r can_chmod;
          identity = loaded_identity l m a r can_chmod;
          peers = [];
        }),
        after.1,
      ))
load-setup l m a r can_chmod fresh seeded salted nonced dh_salted dh_nonced key_ok dh_ok box_ok
      opens tagged conf_reads reads =
    let made = generate-identity l m a r seeded key_ok dh_ok in
    let done_with = setup-final l m a r can_chmod fresh made in
    let opened =
      decrypt_private_key-encrypt_private_key l.aead r.seed a.password r.salt r.nonce opens tagged
        salted nonced in
    let dh_opened =
      decrypt_private_key-encrypt_private_key l.aead r.dh_seed a.password r.dh_salt r.dh_nonce opens
        tagged dh_salted dh_nonced in
    rw done_with
      (refl, load-there l m a r can_chmod conf_reads reads key_ok box_ok opened dh_opened)
