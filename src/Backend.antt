-- ===== src/Backend.antt =====
-- src/lib.rs: how the plugin composes leases, peers and the store. `connect` stands for the
-- connection manager of the Redis client: it gives a connection, or an error.
pub mod Jitter
use mcpg_plugin_cluster_redi.Common.{
  ℕ, ◌+◌, ◌-◌, ◌*◌, ◌/◌, ◌%◌, ◌^◌, Bool, true, false, Option, List, [], ◌∷◌, Bytes, codes, ◌++◌,
  ◌==◌, if◌then◌else◌,
}
use mcpg_plugin_cluster_redi.Script.{Script}
use mcpg_plugin_cluster_redi.Client.{
  Client, Result, done, fail, precondition, return, throw, now_ms, set_index_ready, ◌>>=◌,
}
use mcpg_plugin_cluster_redi.Redis.Commands.{Commands, Codec}
use mcpg_plugin_cluster_redi.Config.{RedisBackendConfig, redact_redis_url}
use mcpg_plugin_cluster_redi.Keys.{RedisKv, with_connection_manager, lease_key, fence_key}
use mcpg_plugin_cluster_redi.Kv.Upkeep.{sweep, backfill_index, mark_index_complete}
use mcpg_plugin_cluster_redi.Peer.{
  PeerRegistration, Registration, ClusterPeer, LegacyPeerScan, forget, list_registrations,
  list_peers,
}
use mcpg_plugin_cluster_redi.PubSub.{publish_async}
use mcpg_plugin_cluster_redi.Lease.{LeaseState, acquire_async, try_acquire_async}

-- `base.as_millis() as u64`, of a `Duration` in nanoseconds
abbrev pub millis_u64 : ℕ → ℕ
millis_u64 base = base / 10 ^ 6 % 2 ^ 64

-- The sleep that is picked of some milliseconds and a span, in nanoseconds. A `u64` wraps, as in a
-- release build.
abbrev pub picked : ℕ → ℕ → ℕ → ℕ → ℕ
picked nanos base ms span =
    if span == 0 then base else (ms - ms / 5 + nanos % (span + 1)) % 2 ^ 64 * 10 ^ 6

-- A sleep of `base` nanoseconds, spread by a fifth of its whole milliseconds either way; `nanos` are
-- those of the clock's current second.
unfoldable pub jittered : ℕ → ℕ → ℕ
jittered nanos base = picked nanos base (millis_u64 base) (millis_u64 base * 2 % 2 ^ 64 / 5)

-- Whether the listed registrations have one of a build without the key index.
unfoldable pub any_unindexed : List Registration → Bool
any_unindexed [] = false
any_unindexed ((id, reg) ∷ rs) = let rest = any_unindexed rs in if reg.kv_index then rest else true

-- The part of `Inner` that operations read.
pub record Inner : Type 0 where
  pub config : RedisBackendConfig
  pub node_id : Bytes
  pub started_at : ℕ

abbrev pub kv_of : Inner → RedisKv
kv_of inner = with_connection_manager inner.config.key_prefix

-- `ClusterNodeInfo`, without the version and the roles
pub record ClusterNodeInfo : Type 0 where
  pub node_id : Bytes
  pub address : Bytes
  pub started_at : ℕ

unfoldable pub node_info : Inner → ClusterNodeInfo
node_info inner = record {
  node_id = inner.node_id;
  address = redact_redis_url inner.config.url;
  started_at = inner.started_at;
}

module _ {S : Type 0} (c : Commands S) (connect : Client S (Unit {0})) (inner : Inner) where
  -- `lease_keys` of a kind and a name
  abbrev pub lease_of : Bytes → Bytes → Bytes
  lease_of kind name = lease_key inner.config.key_prefix kind name

  abbrev pub fence_of : Bytes → Bytes → Bytes
  fence_of kind name = fence_key inner.config.key_prefix kind name

  unfoldable pub acquire_leadership : ℕ → Bytes → ℕ → Client S (Option LeaseState)
  acquire_leadership fuel role ttl = do
    _ ← connect
    acquire_async c (codes "mcpg-leadership-" ++ role) (lease_of (codes "leadership") role)
        (fence_of (codes "leadership") role) inner.node_id ttl fuel

  unfoldable pub acquire_lock : ℕ → Bytes → ℕ → Client S (Option LeaseState)
  acquire_lock fuel key ttl = do
    _ ← connect
    acquire_async c (codes "mcpg-lock-" ++ key) (lease_of (codes "locks") key)
        (fence_of (codes "locks") key) inner.node_id ttl fuel

  unfoldable pub try_acquire_leadership : Bytes → ℕ → Client S (Option LeaseState)
  try_acquire_leadership role ttl = do
    _ ← connect
    try_acquire_async c (codes "mcpg-leadership-" ++ role) (lease_of (codes "leadership") role)
        (fence_of (codes "leadership") role) inner.node_id ttl

  unfoldable pub try_acquire_lock : Bytes → ℕ → Client S (Option LeaseState)
  try_acquire_lock key ttl = do
    _ ← connect
    try_acquire_async c (codes "mcpg-lock-" ++ key) (lease_of (codes "locks") key)
        (fence_of (codes "locks") key) inner.node_id ttl

  -- `publish` of the backend; `send` is PUBLISH.
  unfoldable pub backend_publish :
      (Bytes → Bytes → Client S ℕ) → Bytes → Option Bytes → Bytes → Client S (Unit {0})
  backend_publish send topic routing_key payload = do
    _ ← connect
    publish_async send inner.config.key_prefix topic routing_key payload

  module _ (codec : Codec) (scan : ℕ → Bytes → Script S (ℕ × List Bytes))
      (to_json : PeerRegistration → Bytes) (from_json : Bytes → Option PeerRegistration) where
    -- `list_peers` of the backend: empty on an error.
    abbrev pub or_empty :
        {W : Type 0}
        → LegacyPeerScan
        → Result (List ClusterPeer × LegacyPeerScan) × W
        → (List ClusterPeer × LegacyPeerScan) × W
    or_empty legacy (done r, w) = (r, w)
    or_empty legacy (fail e, w) = (([], legacy), w)

    unfoldable pub backend_peers : ℕ → LegacyPeerScan → Client S (List ClusterPeer × LegacyPeerScan)
    backend_peers fuel legacy w =
        let (r, w') = or_empty legacy (
          (do _ ← connect; list_peers to_json from_json c scan fuel inner.config.key_prefix legacy)
            w) in
        (done r, w')

    unfoldable pub sweep_state : ℕ → Client S ℕ
    sweep_state fuel = do _ ← connect; sweep c scan (kv_of inner) fuel

    unfoldable pub complete_key_index : ℕ → LegacyPeerScan → Client S (ℕ × LegacyPeerScan)
    complete_key_index fuel legacy = do
      _ ← connect
      found ←
          list_registrations to_json from_json c scan fuel inner.config.key_prefix (forget legacy)
      if any_unindexed found.0 then throw precondition else (do
        started_at ← now_ms
        indexed ← backfill_index c scan (kv_of inner) fuel
        _ ← mark_index_complete c scan (kv_of inner) codec started_at
        _ ← set_index_ready true
        return (indexed, found.1))
