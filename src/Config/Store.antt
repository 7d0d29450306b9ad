-- ===== src/Config/Store.antt =====
-- The files of the configuration, of homelink/config/manager.py: atomic writes, permissions and
-- keys. Paths are relative to the configuration directory; a content is a list of bytes.
pub mod Atomic
pub mod Reload
use Prim.Native.Nat.{bit_and}
use homelink.Common.{
  ℕ, ◌-◌, String, ◌<>◌, Bool, not, ◌&&◌, Option, none, some, List, [], ◌∷◌, ◌++◌, ◌==◌,
  if◌then◌else◌,
}
use homelink.Common.Dict
use homelink.Common.Dict.{Dict}
use homelink.Common.Exc.{Result, ok, raise, file_not_found, attribute_error, ◌>>=◌}
use homelink.Common.Int.{pos}
use homelink.Common.Text.{codes}
use homelink.Common.Json.{Value, str, obj, Python, to_fields, to_dict}
use homelink.Config.{HomeLinkConfig, config_version, config-to_dict, config-from_dict, is_current}

pub record File : Type 0 where
  pub content : List ℕ
  pub mode : ℕ

abbrev pub Files : Type 0
Files = Dict File

-- What a save does to the files, in order.
pub data FileOp : Type 0 where
  write_text : String → List ℕ → FileOp
  chmod : String → ℕ → FileOp
  replace : String → String → FileOp

-- 0o600, 0o644, 0o700 and 0o750
abbrev pub owner_only : ℕ
owner_only = 384

abbrev pub all_read : ℕ
all_read = 420

abbrev pub owner_dir : ℕ
owner_dir = 448

abbrev pub group_dir : ℕ
group_dir = 488

-- A new file gets the mode that the system gives; an old one keeps its mode.
abbrev pub written : List ℕ → Option File → File
written content none = record { content = content; mode = all_read }
written content (some file) = record file { content = content }

-- A path that is not there is left alone.
unfoldable pub run_op : FileOp → Files → Files
unfolding Dict.lookup Dict.insert Dict.erase
run_op (write_text path content) files =
    Dict.insert path (written content (Dict.lookup path files)) files
run_op (chmod path mode) files = elim (Dict.lookup path files) [
  | none ↦ files
  | some file ↦ Dict.insert path (record file { mode = mode }) files
]
run_op (replace from to) files = elim (Dict.lookup from files) [
  | none ↦ files
  | some file ↦ Dict.insert to file (Dict.erase from files)
]

unfoldable pub run_ops : List FileOp → Files → Files
unfolding run_op
run_ops [] files = files
run_ops (op ∷ ops) files = run_ops ops (run_op op files)

-- The steps of `save_config` and `save_devices`.
abbrev pub save_ops : String → String → List ℕ → List FileOp
save_ops target tmp content =
    write_text tmp content
    ∷ chmod tmp owner_only
    ∷ replace tmp target
    ∷ chmod target owner_only
    ∷ []

-- `ConfigManager`, with the files and the directories that it manages.
pub record ConfigManager : Type 0 where
  pub config_dir : String
  pub files : Files
  -- the directories, with their modes
  pub dirs : Dict ℕ

pub record Codec : Type 0 where
  pub py : Python
  -- the bytes of `json.dumps(v, indent=2)`, and `json.load`
  pub dumps : Value → List ℕ
  pub loads : List ℕ → Result Value

abbrev pub logs_dir : ConfigManager → String
logs_dir m = m.config_dir <> "/logs"

unfoldable pub mkdir : String → ℕ → Dict ℕ → Dict ℕ
unfolding Dict.has_key Dict.insert
mkdir path mode dirs = if Dict.has_key path dirs then dirs else Dict.insert path mode dirs

-- `ensure_dirs`: the directory itself, `keys` and `logs`.
unfoldable pub ensure_dirs : ConfigManager → ConfigManager
unfolding mkdir Dict.insert
ensure_dirs m =
    let made = mkdir "logs" group_dir (mkdir "keys" owner_dir (mkdir "." owner_dir m.dirs)) in
    record m { dirs = Dict.insert "keys" owner_dir (Dict.insert "." owner_dir made) }

-- `is_initialized`
unfoldable pub is_initialized : ConfigManager → Bool
unfolding Dict.has_key
is_initialized m = Dict.has_key "config.json" m.files && Dict.has_key "devices.json" m.files

-- `actual & ~expected_mode`, of modes below 0o10000
abbrev pub is_loose : ℕ → ℕ → Bool
is_loose actual expected = not (bit_and actual (4095 - expected) == 0)

-- `_check_permissions` of a file that is there: a mode that is too loose is mended, if it can be.
unfoldable pub check_permissions : String → File → ℕ → Bool → Files → Files
unfolding run_op
check_permissions path file expected can_chmod files =
    if is_loose file.mode expected && can_chmod then run_op (chmod path expected) files else files

-- `cfg.logging.log_dir = ...`
abbrev pub with_log_dir : String → HomeLinkConfig → HomeLinkConfig
with_log_dir dir c =
    let logging = c.logging in record c { logging = record logging { log_dir = str dir } }

module _ (codec : Codec) where
  -- `save_config`
  unfoldable pub save_config : ConfigManager → HomeLinkConfig → HomeLinkConfig × ConfigManager
  unfolding run_ops
  save_config m c =
      let c' = record c { config_dir = m.config_dir } in
      let content = codec.dumps (obj (to_fields (config-to_dict c'))) in
      (c', record m { files = run_ops (save_ops "config.json" "config.tmp" content) m.files })

  -- `migrate_if_needed`
  unfoldable pub migrate_if_needed : ConfigManager → HomeLinkConfig → HomeLinkConfig × ConfigManager
  unfolding save_config
  migrate_if_needed m c =
      if is_current c then (c, m) else save_config m (record c { version = pos config_version })

  -- The end of `load_config`.
  unfoldable pub finish_load : ConfigManager → HomeLinkConfig → HomeLinkConfig × ConfigManager
  unfolding migrate_if_needed
  finish_load m c = let (c', m') = migrate_if_needed m c in (with_log_dir (logs_dir m) c', m')

  -- The configuration in a content; what is no object has no `get`.
  unfoldable pub parse_config : List ℕ → Result HomeLinkConfig
  unfolding config-from_dict
  parse_config content = do
    v ← codec.loads content
    elim v [ obj fields ↦ config-from_dict codec.py (to_dict fields) | _ ↦ raise attribute_error ]

  -- `load_config`
  unfoldable pub load_config : ConfigManager → Bool → Result HomeLinkConfig × ConfigManager
  unfolding Dict.lookup check_permissions parse_config finish_load
  load_config m can_chmod = elim (Dict.lookup "config.json" m.files) [
    | none ↦ (raise file_not_found, m)
    | some file ↦
        let m' = record m {
          files = check_permissions "config.json" file owner_only can_chmod m.files;
        } in
        elim (parse_config file.content) [
          | raise e ↦ (raise e, m')
          | ok c ↦ let (c', m'') = finish_load m' c in (ok c', m'')
        ]
  ]

-- `keys_dir / f"{name}.key.enc"` and `keys_dir / f"{name}.pub"`
abbrev pub key_path : String → String
key_path name = "keys/" <> (name <> ".key.enc")

abbrev pub public_path : String → String
public_path name = "keys/" <> (name <> ".pub")

unfoldable pub put_file : String → List ℕ → ℕ → ConfigManager → ConfigManager
unfolding run_ops
put_file path content mode m = record m {
  files = run_ops (write_text path content ∷ chmod path mode ∷ []) m.files;
}

-- `save_encrypted_key` and `save_public_key`
abbrev pub save_encrypted_key : ConfigManager → String → List ℕ → ConfigManager
save_encrypted_key m name b = put_file (key_path name) b owner_only m

abbrev pub save_public_key : ConfigManager → String → List ℕ → ConfigManager
save_public_key m name b = put_file (public_path name) b all_read m

-- `load_encrypted_key`
unfoldable pub load_encrypted_key : ConfigManager → String → Bool → Result (List ℕ) × ConfigManager
unfolding Dict.lookup check_permissions
load_encrypted_key m name can_chmod = elim (Dict.lookup (key_path name) m.files) [
  | none ↦ (raise file_not_found, m)
  | some file ↦ (
    ok file.content,
    record m { files = check_permissions (key_path name) file owner_only can_chmod m.files },
  )
]

-- `load_public_key`
unfoldable pub load_public_key : ConfigManager → String → Result (List ℕ)
unfolding Dict.lookup
load_public_key m name = elim (Dict.lookup (public_path name) m.files) [
  | none ↦ raise file_not_found
  | some file ↦ ok file.content
]

-- `_get_integrity_key`, with SHA-256 as a parameter.
unfoldable pub get_integrity_key : (List ℕ → List ℕ) → ConfigManager → Option (List ℕ)
unfolding Dict.lookup
get_integrity_key sha256 m = elim (Dict.lookup (public_path "signing") m.files) [
  | none ↦ none
  | some file ↦ some (sha256 (file.content ++ codes "homelink-devices-integrity-v1"))
]
