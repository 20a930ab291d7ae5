-- ===== src/Keys.antt =====
-- The names under which the coordinator keeps its state in Redis.
-- src/state/kv.rs (`with_connection_manager`, `full_key`, `logical_key`), src/lib.rs (`lease_keys`),
-- src/peer.rs, src/pubsub.rs and src/state/topic.rs.
pub mod Apart
use mcpg_plugin_cluster_redi.Common.{
  Bytes, codes, ◌++◌, List, [], ◌∷◌, Option, none, some, strip_prefix,
}

-- `RedisKv`, without its connection and `index_ready`
pub record RedisKv : Type 0 where
  pub key_prefix : Bytes
  pub index_key : Bytes
  pub expiry_key : Bytes
  pub complete_key : Bytes

unfoldable pub with_connection_manager : Bytes → RedisKv
with_connection_manager key_prefix = record {
  key_prefix = key_prefix;
  index_key = key_prefix ++ codes "#kv-index";
  expiry_key = key_prefix ++ codes "#kv-expiry";
  complete_key = key_prefix ++ codes "#kv-index-complete";
}

-- `{prefix}:{key}`, or the key alone without a prefix: `full_key` and `full_topic`.
unfoldable pub join_prefix : Bytes → Bytes → Bytes
join_prefix [] key = key
join_prefix (c ∷ p) key = (c ∷ p) ++ (codes ":" ++ key)

abbrev pub full_key : RedisKv → Bytes → Bytes
full_key kv key = join_prefix kv.key_prefix key

abbrev or_whole : Bytes → Option Bytes → Bytes
or_whole full none = full
or_whole full (some key) = key

unfoldable pub strip : Bytes → Bytes → Bytes
strip [] full = full
strip (c ∷ p) full = or_whole full (strip_prefix ((c ∷ p) ++ codes ":") full)

-- The caller's key for a full Redis key.
abbrev pub logical_key : RedisKv → Bytes → Bytes
logical_key kv full = strip kv.key_prefix full

unfoldable pub lease_key : Bytes → Bytes → Bytes → Bytes
lease_key prefix kind name = prefix ++ (kind ++ (codes "/" ++ name))

unfoldable pub fence_key : Bytes → Bytes → Bytes → Bytes
fence_key prefix kind name = prefix ++ (kind ++ (codes "/" ++ (name ++ codes ":fence")))

-- `lease_keys`
abbrev pub lease_keys : Bytes → Bytes → Bytes → Bytes × Bytes
lease_keys prefix kind name = (lease_key prefix kind name, fence_key prefix kind name)

unfoldable pub peer_key : Bytes → Bytes → Bytes
peer_key prefix node_id = prefix ++ (codes "peers/" ++ node_id)

unfoldable pub peers_index_key : Bytes → Bytes
peers_index_key prefix = prefix ++ codes "#peers"

unfoldable pub channel_name : Bytes → Bytes → Bytes
channel_name prefix topic = prefix ++ (codes "topic:" ++ topic)

abbrev pub full_topic : Bytes → Bytes → Bytes
full_topic topic_prefix topic = join_prefix topic_prefix topic
