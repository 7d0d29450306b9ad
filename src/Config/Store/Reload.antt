-- ===== src/Config/Store/Reload.antt =====
-- What `save_config` wrote is loaded again, of homelink/config/manager.py.
use homelink.Config.Store.{
  save_ops, run_ops, write_text, chmod, put_file, key_path, load_encrypted_key, Files, Codec,
  ConfigManager, owner_only, save_config, load_config, parse_config, finish_load, migrate_if_needed,
  with_log_dir, logs_dir, check_permissions,
}
use homelink.Common.Dict
use homelink.Common.{
  ℕ, String, ◌≡◌, refl, ap, inl, inr, Bool, true, false, some, List, [], ◌∷◌, arith, str_eq, ==_iff,
  Bool-cases,
}
use homelink.Common.Exc.{ok}
use homelink.Common.Int.{ℤ, pos, negsuc}
use homelink.Common.Json.{to_dict-to_fields, obj, to_fields}
use homelink.Config.{HomeLinkConfig, is_current, is_config_version, config-to_dict, config_version}
use homelink.Config.RoundTrip.{config-from_dict-to_dict}
use homelink.Config.Store.Atomic.{run_ops-other, spares_all, write-chmod, run_ops-saved, saved}

is_config_version-eq : (v : ℤ) → is_config_version v ≡ true → v ≡ pos config_version
is_config_version-eq (pos n) e = ground (arith, ==_iff n 1)
is_config_version-eq (negsuc n) e = cc

-- A configuration as it is loaded by `m`.
abbrev pub loaded : ConfigManager → HomeLinkConfig → HomeLinkConfig
loaded m c =
    with_log_dir (logs_dir m) (record c { version = pos config_version; config_dir = m.config_dir })

module _ (codec : Codec) where
  finish_load-loaded :
      (m : ConfigManager) (c : HomeLinkConfig)
      → c.config_dir ≡ m.config_dir
      → (finish_load codec m c).0 ≡ loaded m c
  unfolding finish_load migrate_if_needed save_config
  finish_load-loaded m c same = elim (Bool-cases (is_current c)) [
    | inl current ↦
        let one = is_config_version-eq c.version current in
        rw (current, finish_load, migrate_if_needed)
          (λ i. with_log_dir (logs_dir m) (record c { version = one i; config_dir = same i }))
    | inr old ↦ rw (old, finish_load, migrate_if_needed) refl
  ]

  parse_config-reads :
      (c : HomeLinkConfig) (content : List ℕ)
      → codec.loads content ≡ ok (obj (to_fields (config-to_dict c)))
      → parse_config codec content ≡ ok c
  unfolding parse_config
  parse_config-reads c content reads =
      rw (reads, to_dict-to_fields (config-to_dict c)) (config-from_dict-to_dict codec.py c)

  -- The configuration that was saved is loaded again, with the current version and the
  -- directories of the manager, if the JSON is read as it was written.
  pub load_config-save_config :
      (m : ConfigManager) (c : HomeLinkConfig) (can_chmod : Bool)
      → let c' = record c { config_dir = m.config_dir } in
        let v = obj (to_fields (config-to_dict c')) in
        codec.loads (codec.dumps v) ≡ ok v
        → (load_config codec (save_config codec m c).1 can_chmod).0 ≡ ok (loaded m c)
  unfolding load_config save_config parse_config
  load_config-save_config m c can_chmod reads =
      let c' = record c { config_dir = m.config_dir } in
      let content = codec.dumps (obj (to_fields (config-to_dict c'))) in
      let there = run_ops-saved "config.json" "config.tmp" content m.files in
      let m' = (save_config codec m c).1 in
      rw (there, load_config, parse_config-reads c' content reads)
        (ap ok (
          finish_load-loaded
            (record m' {
              files = check_permissions "config.json" (saved content) owner_only can_chmod m'.files;
            })
            c' refl))

-- A file that is closed to others keeps its mode.
pub check_permissions-closed :
    (path : String) (content : List ℕ) (can_chmod : Bool) (files : Files)
    → check_permissions path (saved content) owner_only can_chmod files ≡ files
unfolding check_permissions
check_permissions-closed path content can_chmod files = refl

pub load_encrypted_key-saved :
    (m : ConfigManager) (name : String) (content : List ℕ) (can_chmod : Bool)
    → Dict.lookup (key_path name) m.files ≡ some (saved content)
    → load_encrypted_key m name can_chmod ≡ (ok content, m)
unfolding load_encrypted_key
load_encrypted_key-saved m name content can_chmod there =
    rw (there, load_encrypted_key, check_permissions-closed) refl

pub load_config-saved :
    (codec : Codec) (m : ConfigManager) (c : HomeLinkConfig) (content : List ℕ) (can_chmod : Bool)
    → Dict.lookup "config.json" m.files ≡ some (saved content)
    → codec.loads content ≡ ok (obj (to_fields (config-to_dict c)))
    → is_current c ≡ true
    → load_config codec m can_chmod ≡ (ok (with_log_dir (logs_dir m) c), m)
unfolding load_config finish_load migrate_if_needed
load_config-saved codec m c content can_chmod there reads current =
    rw
      (
        there,
        load_config,
        parse_config-reads codec c content reads,
        check_permissions-closed,
        finish_load,
        migrate_if_needed,
        current,
      )
      refl

pub put_file-same :
    (path : String) (content : List ℕ) (m : ConfigManager)
    → Dict.lookup path (put_file path content owner_only m).files ≡ some (saved content)
unfolding put_file run_ops
put_file-same path content m = write-chmod path content owner_only m.files

pub put_file-other :
    (other path : String) (content : List ℕ) (mode : ℕ) (m : ConfigManager)
    → str_eq other path ≡ false
    → Dict.lookup path (put_file other content mode m).files ≡ Dict.lookup path m.files
unfolding put_file
put_file-other other path content mode m apart =
    run_ops-other path (write_text other content ∷ chmod other mode ∷ []) m.files (rw apart refl)

pub save_config-other :
    (codec : Codec) (path : String) (c : HomeLinkConfig) (m : ConfigManager)
    → spares_all path (save_ops "config.json" "config.tmp" []) ≡ true
    → Dict.lookup path (save_config codec m c).1.files ≡ Dict.lookup path m.files
unfolding save_config
save_config-other codec path c m apart =
    let c' = record c { config_dir = m.config_dir } in
    run_ops-other path
      (save_ops "config.json" "config.tmp" (codec.dumps (obj (to_fields (config-to_dict c')))))
      m.files apart

pub save_config-same :
    (codec : Codec) (c : HomeLinkConfig) (m : ConfigManager)
    → let c' = record c { config_dir = m.config_dir } in
      Dict.lookup "config.json" (save_config codec m c).1.files
      ≡ some (saved (codec.dumps (obj (to_fields (config-to_dict c')))))
unfolding save_config
save_config-same codec c m =
    let c' = record c { config_dir = m.config_dir } in
    run_ops-saved "config.json" "config.tmp" (codec.dumps (obj (to_fields (config-to_dict c'))))
      m.files
