-- ===== src/Config.antt =====
-- src/config.rs: the operator's configuration, its validation, the node id, and the redaction of the
-- URL for logs. Texts are lists of code points; `serde_json` and the environment are outside.
pub mod Redaction
pub mod Load
pub mod Opened
pub mod Loaded
use mcpg_plugin_cluster_redi.Common.{
  ℕ, ◌/◌, Bool, true, false, ◌||◌, ◌&&◌, not, Option, none, some, List, [], ◌∷◌, ◌++◌, Bytes, codes,
  ◌==◌, max, if◌then◌else◌, strip_prefix, is_blank,
}

pub record TlsConfig : Type 0 where
  pub ca_cert : Option Bytes

pub record RedisBackendConfig : Type 0 where
  pub url : Bytes
  pub username : Option Bytes
  pub password : Option Bytes
  pub tls : Option TlsConfig
  pub key_prefix : Bytes
  pub lease_ttl_ms : ℕ
  pub peer_ttl_ms : ℕ
  pub node_id : Option Bytes
  pub lease_renew_before_expiry_percent : ℕ
  pub peer_refresh_interval_ms : Option ℕ
  pub subscribe_pattern_buffer : ℕ
  pub service_name : Bytes
  pub kv_sweep_interval_ms : ℕ

-- The values of the fields that an operator leaves out; the URL has none.
abbrev pub defaults : Bytes → RedisBackendConfig
defaults url = record {
  url = url;
  username = none;
  password = none;
  tls = none;
  key_prefix = codes "mcpg:cluster:";
  lease_ttl_ms = 30_000;
  peer_ttl_ms = 60_000;
  node_id = none;
  lease_renew_before_expiry_percent = 80;
  peer_refresh_interval_ms = none;
  subscribe_pattern_buffer = 256;
  service_name = codes "mcpg";
  kv_sweep_interval_ms = 30_000;
}

-- `ConfigError`, of `validate`
pub data ConfigError : Type 0 where
  empty_url invalid_url_scheme tls_requires_tls_scheme empty_key_prefix : ConfigError
  invalid_lease_ttl invalid_peer_ttl empty_service_name invalid_buffer : ConfigError

abbrev pub starts_with : Bytes → Bytes → Bool
starts_with p s = elim (strip_prefix p s) [ none ↦ false | some rest ↦ true ]

abbrev pub is_set : {A : Type 0} → Option A → Bool
is_set none = false
is_set (some a) = true

abbrev pub is_empty : Bytes → Bool
is_empty [] = true
is_empty (c ∷ s) = false

-- The first test that a configuration fails, if any.
unfoldable pub validate : RedisBackendConfig → Option ConfigError
validate cfg =
    if is_blank cfg.url
    then some empty_url
    else if not (starts_with (codes "redis://") cfg.url)
        && not (starts_with (codes "rediss://") cfg.url)
    then some invalid_url_scheme
    else if is_set cfg.tls && not (starts_with (codes "rediss://") cfg.url)
    then some tls_requires_tls_scheme
    else if is_empty cfg.key_prefix
    then some empty_key_prefix
    else if cfg.lease_ttl_ms == 0
    then some invalid_lease_ttl
    else if cfg.peer_ttl_ms == 0
    then some invalid_peer_ttl
    else if is_blank cfg.service_name
    then some empty_service_name
    else if cfg.subscribe_pattern_buffer == 0
    then some invalid_buffer
    else none

-- The node id, given `HOSTNAME` and a random suffix.
unfoldable pub host_id : Bytes → Bytes → Option Bytes → Bytes
host_id service suffix none = service ++ (codes "-" ++ suffix)
host_id service suffix (some host) =
    if is_blank host then service ++ (codes "-" ++ suffix) else service ++ (codes "-" ++ host)

abbrev pub or_else : {A : Type 0} → Option A → A → A
or_else none b = b
or_else (some a) b = a

unfoldable pub resolved_node_id : RedisBackendConfig → Option Bytes → Bytes → Bytes
resolved_node_id cfg hostname suffix =
    or_else cfg.node_id (host_id cfg.service_name suffix hostname)

unfoldable pub effective_peer_refresh_interval_ms : RedisBackendConfig → ℕ
effective_peer_refresh_interval_ms cfg =
    or_else cfg.peer_refresh_interval_ms (max (cfg.peer_ttl_ms / 2) 1)

-- A URL up to its first "://", that included, and the rest.
unfoldable pub split_scheme : Bytes → Option (Bytes × Bytes)
split_scheme [] = none
split_scheme (c ∷ s) =
    let later = split_scheme s in
    elim (strip_prefix (codes "://") (c ∷ s)) [
      | some rest ↦ some (codes "://", rest)
      | none ↦ elim later [ none ↦ none | some (scheme, rest) ↦ some (c ∷ scheme, rest) ]
    ]

-- The authority, up to the first '/', '?' or '#', and the rest.
abbrev pub ends_authority : ℕ → Bool
ends_authority c = (c == b'/') || (c == b'?') || (c == b'#')

unfoldable pub split_authority : Bytes → Bytes × Bytes
split_authority [] = ([], [])
split_authority (c ∷ s) =
    let (authority, rest) = split_authority s in
    if ends_authority c then ([], c ∷ s) else (c ∷ authority, rest)

-- What follows the last '@', if there is one.
unfoldable pub after_at : Bytes → Option Bytes
after_at [] = none
after_at (c ∷ s) =
    let later = after_at s in
    elim later [ some host ↦ some host | none ↦ if c == b'@' then some s else none ]

abbrev pub redact_host : Bytes → Bytes → Bytes → Option Bytes → Bytes
redact_host url scheme tail none = url
redact_host url scheme tail (some host) = scheme ++ (host ++ tail)

abbrev pub redact_from : Bytes → Option (Bytes × Bytes) → Bytes
redact_from url none = url
redact_from url (some (scheme, rest)) =
    redact_host url scheme (split_authority rest).1 (after_at (split_authority rest).0)

unfoldable pub redact_redis_url : Bytes → Bytes
redact_redis_url url = redact_from url (split_scheme url)
