-- ===== src/Config.antt =====
-- homelink/config/manager.py: the configuration and its JSON form. The four parts take the values
-- of the file as they are, whatever their types.
pub mod Store
pub mod RoundTrip
use homelink.Common.Dict
use homelink.Common.{
  ℕ, String, Bool, true, false, not, ◌&&◌, none, some, List, [], ◌∷◌, ◌++◌, map, ◌==◌,
}
use homelink.Common.Exc.{Result, ok, raise, attribute_error, ◌>>=◌}
use homelink.Common.Int.{ℤ, pos, negsuc}
use homelink.Common.Text.{truthy}
use homelink.Common.Json.{
  Value, bool, num, str, obj, arr, Message, Python, get, to_dict, to_fields, to_items, to_str,
  to_int, is_true,
}

abbrev pub config_version : ℕ
config_version = 1

abbrev pub default_stun_servers : List String
default_stun_servers =
    "stun:stun.l.google.com:19302" ∷ "stun:stun1.l.google.com:19302"
    ∷ "stun:stun.cloudflare.com:3478" ∷ []

pub record TelegramConfig : Type 0 where
  pub bot_token : Value
  pub chat_id : Value
  pub enabled : Value
  pub large_file_threshold_mb : Value

-- `TelegramConfig(**{...})`, from the fields that a part of the file has.
unfoldable pub read_telegram : Message → TelegramConfig
unfolding get
read_telegram d = record {
  bot_token = get d "bot_token" (str "");
  chat_id = get d "chat_id" (str "");
  enabled = get d "enabled" (bool false);
  large_file_threshold_mb = get d "large_file_threshold_mb" (num (pos 50));
}

-- `asdict`
abbrev pub show_telegram : TelegramConfig → Message
show_telegram c =
    ("bot_token", c.bot_token)
    ∷ ("chat_id", c.chat_id)
    ∷ ("enabled", c.enabled)
    ∷ ("large_file_threshold_mb", c.large_file_threshold_mb)
    ∷ []

pub record P2pConfig : Type 0 where
  pub enabled : Value
  pub stun_servers : Value
  pub listen_port : Value
  pub heartbeat_interval : Value
  pub hole_punch_timeout : Value
  pub reconnect_max_attempts : Value
  pub reconnect_base_delay : Value
  pub reconnect_max_delay : Value

-- `P2PConfig(**{...})`, from the fields that a part of the file has.
unfoldable pub read_p2p : Message → P2pConfig
unfolding get
read_p2p d = record {
  enabled = get d "enabled" (bool true);
  stun_servers = get d "stun_servers" (arr (to_items (map str default_stun_servers)));
  listen_port = get d "listen_port" (num (pos 0));
  heartbeat_interval = get d "heartbeat_interval" (num (pos 30));
  hole_punch_timeout = get d "hole_punch_timeout" (num (pos 10));
  reconnect_max_attempts = get d "reconnect_max_attempts" (num (pos 10));
  reconnect_base_delay = get d "reconnect_base_delay" (num (pos 1));
  reconnect_max_delay = get d "reconnect_max_delay" (num (pos 60));
}

-- `asdict`
abbrev pub show_p2p : P2pConfig → Message
show_p2p c =
    ("enabled", c.enabled)
    ∷ ("stun_servers", c.stun_servers)
    ∷ ("listen_port", c.listen_port)
    ∷ ("heartbeat_interval", c.heartbeat_interval)
    ∷ ("hole_punch_timeout", c.hole_punch_timeout)
    ∷ ("reconnect_max_attempts", c.reconnect_max_attempts)
    ∷ ("reconnect_base_delay", c.reconnect_base_delay)
    ∷ ("reconnect_max_delay", c.reconnect_max_delay)
    ∷ []

pub record SecurityConfig : Type 0 where
  pub require_approval : Value
  pub session_key_rotation_messages : Value
  pub session_key_rotation_seconds : Value
  pub timestamp_tolerance_seconds : Value
  pub max_exec_timeout : Value
  pub max_file_size_gb : Value
  pub max_concurrent_transfers : Value
  pub exec_rate_limit_per_minute : Value
  pub offer_rate_limit_per_minute : Value

-- `SecurityConfig(**{...})`, from the fields that a part of the file has.
unfoldable pub read_security : Message → SecurityConfig
unfolding get
read_security d = record {
  require_approval = get d "require_approval" (bool true);
  session_key_rotation_messages = get d "session_key_rotation_messages" (num (pos 1000));
  session_key_rotation_seconds = get d "session_key_rotation_seconds" (num (pos 3600));
  timestamp_tolerance_seconds = get d "timestamp_tolerance_seconds" (num (pos 30));
  max_exec_timeout = get d "max_exec_timeout" (num (pos 60));
  max_file_size_gb = get d "max_file_size_gb" (num (pos 100));
  max_concurrent_transfers = get d "max_concurrent_transfers" (num (pos 4));
  exec_rate_limit_per_minute = get d "exec_rate_limit_per_minute" (num (pos 10));
  offer_rate_limit_per_minute = get d "offer_rate_limit_per_minute" (num (pos 5));
}

-- `asdict`
abbrev pub show_security : SecurityConfig → Message
show_security c =
    ("require_approval", c.require_approval)
    ∷ ("session_key_rotation_messages", c.session_key_rotation_messages)
    ∷ ("session_key_rotation_seconds", c.session_key_rotation_seconds)
    ∷ ("timestamp_tolerance_seconds", c.timestamp_tolerance_seconds)
    ∷ ("max_exec_timeout", c.max_exec_timeout)
    ∷ ("max_file_size_gb", c.max_file_size_gb)
    ∷ ("max_concurrent_transfers", c.max_concurrent_transfers)
    ∷ ("exec_rate_limit_per_minute", c.exec_rate_limit_per_minute)
    ∷ ("offer_rate_limit_per_minute", c.offer_rate_limit_per_minute)
    ∷ []

pub record LogConfig : Type 0 where
  pub level : Value
  pub log_dir : Value
  pub max_bytes : Value
  pub backup_count : Value
  pub audit_enabled : Value

-- `LogConfig(**{...})`, from the fields that a part of the file has.
unfoldable pub read_log : Message → LogConfig
unfolding get
read_log d = record {
  level = get d "level" (str "INFO");
  log_dir = get d "log_dir" (str "");
  max_bytes = get d "max_bytes" (num (pos 10_485_760));
  backup_count = get d "backup_count" (num (pos 5));
  audit_enabled = get d "audit_enabled" (bool true);
}

-- `asdict`
abbrev pub show_log : LogConfig → Message
show_log c =
    ("level", c.level)
    ∷ ("log_dir", c.log_dir)
    ∷ ("max_bytes", c.max_bytes)
    ∷ ("backup_count", c.backup_count)
    ∷ ("audit_enabled", c.audit_enabled)
    ∷ []

-- `TelegramConfig.is_valid`: `bool(a and b)`
abbrev pub is_valid : TelegramConfig → Bool
is_valid c = is_true c.bot_token && is_true c.chat_id

pub record HomeLinkConfig : Type 0 where
  pub version : ℤ
  pub device_name : String
  pub device_id : String
  pub telegram : TelegramConfig
  pub p2p : P2pConfig
  pub security : SecurityConfig
  pub logging : LogConfig
  pub password_hash : String
  pub pairing_code : String
  pub config_dir : String

-- `HomeLinkConfig.to_dict`
unfoldable pub config-to_dict : HomeLinkConfig → Message
config-to_dict c =
    ("version", num c.version)
    ∷ ("device_name", str c.device_name)
    ∷ ("device_id", str c.device_id)
    ∷ ("password_hash", str c.password_hash)
    ∷ ("pairing_code", str c.pairing_code)
    ∷ ("config_dir", str c.config_dir)
    ∷ ("telegram", obj (to_fields (show_telegram c.telegram)))
    ∷ ("p2p", obj (to_fields (show_p2p c.p2p)))
    ∷ ("security", obj (to_fields (show_security c.security)))
    ∷ ("logging", obj (to_fields (show_log c.logging)))
    ∷ []

-- `d[key].items()`, where the key is there.
unfoldable pub part : Message → String → Result Message
unfolding Dict.lookup
part d key = elim (Dict.lookup key d) [
  | none ↦ ok []
  | some (obj fields) ↦ ok (to_dict fields)
  | some _ ↦ raise attribute_error
]

-- `HomeLinkConfig.from_dict`. A part that is left out has the defaults, as an empty one has.
unfoldable pub config-from_dict : Python → Message → Result HomeLinkConfig
unfolding part get to_str to_int read_telegram read_p2p read_security read_log
config-from_dict py d = do
  version ← to_int py (get d "version" (num (pos config_version)))
  telegram ← part d "telegram"
  p2p ← part d "p2p"
  security ← part d "security"
  logging ← part d "logging"
  ok (record {
    version = version;
    device_name = to_str py (get d "device_name" (str ""));
    device_id = to_str py (get d "device_id" (str ""));
    telegram = read_telegram telegram;
    p2p = read_p2p p2p;
    security = read_security security;
    logging = read_log logging;
    password_hash = to_str py (get d "password_hash" (str ""));
    pairing_code = to_str py (get d "pairing_code" (str ""));
    config_dir = to_str py (get d "config_dir" (str ""));
  })

pub data ConfigError : Type 0 where
  no_device_name no_device_id no_password_hash telegram_incomplete : ConfigError

abbrev when : Bool → ConfigError → List ConfigError
when true error = error ∷ []
when false error = []

-- `validate_config`
unfoldable pub validate_config : HomeLinkConfig → List ConfigError
validate_config c =
    when (not (truthy c.device_name)) no_device_name
    ++ (when (not (truthy c.device_id)) no_device_id
        ++ (when (not (truthy c.password_hash)) no_password_hash
            ++ when (is_true c.telegram.enabled && not (is_valid c.telegram)) telegram_incomplete))

-- `v == CONFIG_VERSION`
abbrev pub is_config_version : ℤ → Bool
is_config_version (pos n) = n == config_version
is_config_version (negsuc n) = false

abbrev pub is_current : HomeLinkConfig → Bool
is_current c = is_config_version c.version
