-- ===== src/Config/Load.antt =====
-- src/config.rs and `from_config_json` of src/lib.rs: how a configuration is loaded, what of it a log
-- shows, and the connection that it makes. `serde_json`, the file system, the hasher, the URL parser
-- of the Redis client and its constructors are parameters.
use mcpg_plugin_cluster_redi.Common.{
  ℕ, ◌+◌, ◌*◌, ◌/◌, ◌%◌, ◌-◌, ◌^◌, zero, suc, Bool, Option, none, some, List, [], ◌∷◌, ◌++◌, Bytes,
  codes, ltb, if◌then◌else◌, is_whitespace,
}
use mcpg_plugin_cluster_redi.Config.{
  RedisBackendConfig, TlsConfig, ConfigError, validate, redact_redis_url, starts_with,
}

-- Why a configuration is refused: `ConfigError`, with the variants that do not come from `validate`.
pub data LoadError : Type 0 where
  invalid_json tls_file_read : LoadError
  invalid : ConfigError → LoadError

pub data Loaded (A : Type 0) : Type 0 where
  loaded : A → Loaded A
  refused : LoadError → Loaded A

abbrev pub checked : RedisBackendConfig → Option ConfigError → Loaded RedisBackendConfig
checked cfg none = loaded cfg
checked cfg (some e) = refused (invalid e)

abbrev pub parsed : Option RedisBackendConfig → Loaded RedisBackendConfig
parsed none = refused invalid_json
parsed (some cfg) = checked cfg (validate cfg)

-- `RedisBackendConfig::parse`, of what `serde_json` reads
unfoldable pub parse : (Bytes → Option RedisBackendConfig) → Bytes → Loaded RedisBackendConfig
parse from_json s = parsed (from_json s)

-- `str::trim_start`
unfoldable pub trim_start : Bytes → Bytes
trim_start [] = []
trim_start (c ∷ s) = let rest = trim_start s in if is_whitespace c then rest else c ∷ s

abbrev pub file_read : Option Bytes → Loaded Bytes
file_read none = refused tls_file_read
file_read (some pem) = loaded pem

-- Inline PEM text, or what the file of that path holds.
unfoldable pub resolve_pem : (Bytes → Option Bytes) → Bytes → Loaded Bytes
resolve_pem read_file value =
    if starts_with (codes "-----BEGIN") (trim_start value)
    then loaded value
    else file_read (read_file value)

abbrev pub ca_of : Option TlsConfig → Option Bytes
ca_of none = none
ca_of (some tls) = tls.ca_cert

abbrev pub optional : Loaded Bytes → Loaded (Option Bytes)
optional (loaded pem) = loaded (some pem)
optional (refused e) = refused e

abbrev pub pem_of : (Bytes → Option Bytes) → Option Bytes → Loaded (Option Bytes)
pem_of read_file none = loaded none
pem_of read_file (some ca) = optional (resolve_pem read_file ca)

unfoldable pub tls_root_cert_pem :
    (Bytes → Option Bytes) → RedisBackendConfig → Loaded (Option Bytes)
tls_root_cert_pem read_file cfg = pem_of read_file (ca_of cfg.tls)

abbrev mask : Option Bytes → Option Bytes
mask none = none
mask (some password) = some (codes "***")

-- The fields that `Debug` prints, in the place of the configuration's own.
unfoldable pub debug : RedisBackendConfig → RedisBackendConfig
debug cfg = record cfg { url = redact_redis_url cfg.url; password = mask cfg.password }

-- The digits of a number in hexadecimal, the least first, padded with zeros (`{:016x}` of a `u64` has
-- 16 of them).
abbrev hex_digit : ℕ → ℕ
hex_digit d = if ltb d 10 then b'0' + d else b'a' + (d - 10)

unfoldable pub hex : ℕ → ℕ → Bytes
hex zero n = []
hex (suc digits) n = hex digits (n / 16) ++ (hex_digit (n % 16) ∷ [])

-- The state of `DefaultHasher` after what it is fed is a parameter: it is fed words, and `finish`
-- gives 64 bits.
pub record Hasher : Type 0 where
  pub finish : List ℕ → ℕ

-- `random_suffix`: `now` is in nanoseconds (a `u128`), `seq` the counter.
unfoldable pub random_suffix : Hasher → ℕ → ℕ → Bytes
random_suffix h now seq =
    hex 16 (h.finish (now ∷ seq ∷ []))
    ++ hex 16 (
        h.finish (
          now
          ∷ seq
          ∷ ((seq + 0x9E37_79B9_7F4A_7C15) % 2 ^ 64)
          ∷ ((now * 0xBF58_476D_1CE4_E5B9) % 2 ^ 128)
          ∷ []))

-- `redis::ConnectionInfo`, as far as this program sets it.
pub record ConnectionInfo : Type 0 where
  pub address : Bytes
  pub username : Option Bytes
  pub password : Option Bytes

-- A set value goes over one of the URL.
abbrev pub or_set : Option Bytes → Option Bytes → Option Bytes
or_set none old = old
or_set (some x) old = some x

unfoldable pub with_credentials : RedisBackendConfig → ConnectionInfo → ConnectionInfo
with_credentials cfg info = record info {
  username = or_set cfg.username info.username;
  password = or_set cfg.password info.password;
}

-- What the plugin is built of: its configuration and its client. A panic refuses to load it, with
-- the error or the URL that its text shows.
pub data Built (A : Type 0) : Type 0 where
  built : RedisBackendConfig → A → Built A
  config_panic tls_panic : LoadError → Built A
  url_panic client_panic : (shown : Bytes) → Built A

-- `into_info` parses a URL; `open` makes a client of a connection and a root certificate.
module _ {A : Type 0} (read_file : Bytes → Option Bytes) (into_info : Bytes → Option ConnectionInfo)
    (open_client : ConnectionInfo → Option Bytes → Option A) where
  abbrev pub opened : RedisBackendConfig → Option A → Built A
  opened cfg none = client_panic (redact_redis_url cfg.url)
  opened cfg (some client) = built cfg client

  abbrev pub with_root : RedisBackendConfig → ConnectionInfo → Loaded (Option Bytes) → Built A
  with_root cfg info (refused e) = tls_panic e
  with_root cfg info (loaded pem) = opened cfg (open_client (with_credentials cfg info) pem)

  abbrev pub with_info : RedisBackendConfig → Option ConnectionInfo → Built A
  with_info cfg none = url_panic (redact_redis_url cfg.url)
  with_info cfg (some info) = with_root cfg info (tls_root_cert_pem read_file cfg)

  -- The client of `from_validated_config`
  unfoldable pub build_client : RedisBackendConfig → Built A
  build_client cfg = with_info cfg (into_info cfg.url)

  abbrev pub from_parsed : Loaded RedisBackendConfig → Built A
  from_parsed (refused e) = config_panic e
  from_parsed (loaded cfg) = build_client cfg

  -- `from_config_json`; the sentinel of the manifest probe stands for a placeholder.
  unfoldable pub from_config_json :
      (Bytes → Bool) → (Bytes → Option RedisBackendConfig) → Bytes → Built A
  from_config_json is_probe from_json s =
      if is_probe s
      then from_parsed (parse from_json (codes "{\"url\":\"redis://127.0.0.1:6379\"}"))
      else from_parsed (parse from_json s)
