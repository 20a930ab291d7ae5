-- ===== src/Kv/Store.antt =====
-- src/state/kv.rs: `impl KeyValueStore for RedisKv`, all but the listings. Each write is one request
-- that runs one script with the replica's clock.
pub mod Behaviour
pub mod Counter
pub mod Floor
pub mod Indexed
pub mod Read
use mcpg_plugin_cluster_redi.Common.{
  ℕ, ◌+◌, ◌*◌, ◌/◌, ◌^◌, ◌-◌, ◌<◌, ◌≡◌, Bool, true, false, Option, none, some, Bytes, min, max, ltb,
  ◌==◌, if◌then◌else◌,
}
use mcpg_plugin_cluster_redi.Common.Int.{ℤ, pos, negsuc}
use mcpg_plugin_cluster_redi.Script.{Script, RedisError, sentinel, refused, unreachable, Reply}
use mcpg_plugin_cluster_redi.Script
use mcpg_plugin_cluster_redi.Redis.Commands.{Commands, Codec}
use mcpg_plugin_cluster_redi.Client.{
  Client, ClusterError, backend_unavailable, precondition, return, throw, request, pipeline,
  redis_err, now_ms, pause, ◌>>=◌, ◌>>◌,
}
use mcpg_plugin_cluster_redi.Keys.{RedisKv, full_key}
use mcpg_plugin_cluster_redi.Kv.Scripts.{
  set_script, del_script, expire_script, incr_script, incr_floor_script,
}

-- `Entry` of `mcpg_cluster_api`: the value, and when it expires by the replica's clock.
pub record KvEntry : Type 0 where
  pub bytes : Bytes
  pub expires_at : Option ℕ

-- A `Duration` is a number of nanoseconds; a TTL is at least a millisecond and fits 64 bits.
unfoldable pub ttl_ms : Option ℕ → ℕ
ttl_ms none = 0
ttl_ms (some nanos) = min (max (nanos / 10 ^ 6) 1) (2 ^ 64 - 1)

-- A counter script's error.
unfoldable pub incr_err : RedisError → ClusterError
incr_err sentinel = precondition
incr_err refused = backend_unavailable
incr_err unreachable = backend_unavailable

-- `expires_at` of a PTTL reply: `none` for a key that is gone.
unfoldable pub expires_of : ℕ → ℤ → Option (Option ℕ)
expires_of now (pos ms) = some (some (now + ms))
expires_of now (negsuc n) = if n == 1 then none else some none

unfoldable pub entry_of : Bytes → Option (Option ℕ) → Option KvEntry
entry_of bytes none = none
entry_of bytes (some expires_at) = some (record { bytes = bytes; expires_at = expires_at })

unfoldable pub get_reply : {S : Type 0} → Option Bytes × ℤ → Client S (Option KvEntry)
get_reply (none, pttl) = return none
get_reply (some bytes, pttl) = do now ← now_ms; return (entry_of bytes (expires_of now pttl))

module _ {S : Type 0} (c : Commands S) where
  -- GET and PTTL in one pipeline
  unfoldable pub get_pttl : Bytes → (S → S) → Script S (Option Bytes × ℤ)
  get_pttl full between = Script.◌>>=◌ (c.get full) λ bytes.
      Script.◌>>=◌ (pause between) λ _. Script.◌>>=◌ (c.pttl full) λ pttl. Script.pure (bytes, pttl)

  module _ (kv : RedisKv) where
    unfoldable pub get : Bytes → Client S (Option KvEntry)
    get key = do r ← pipeline redis_err (get_pttl (full_key kv key)); get_reply r

    unfoldable pub put : Bytes → Bytes → Option ℕ → Client S (Unit {0})
    put key value ttl = do
      now ← now_ms
      _ ←
          request redis_err
            (set_script c (full_key kv key) kv.index_key kv.expiry_key value (ttl_ms ttl) now false)
      return tt

    unfoldable pub put_if_absent : Bytes → Bytes → Option ℕ → Client S Bool
    put_if_absent key value ttl = do
      now ← now_ms
      stored ←
          request redis_err
            (set_script c (full_key kv key) kv.index_key kv.expiry_key value (ttl_ms ttl) now true)
      return (stored == 1)

    unfoldable pub delete : Bytes → Client S Bool
    delete key = do
      n ← request redis_err (del_script c (full_key kv key) kv.index_key kv.expiry_key)
      return (ltb 0 n)

    unfoldable pub expire : Bytes → Option ℕ → Client S Bool
    expire key ttl = do
      now ← now_ms
      updated ←
          request redis_err
            (expire_script c (full_key kv key) kv.index_key kv.expiry_key (ttl_ms ttl) now)
      return (updated == 1)

    unfoldable pub incr : Bytes → ℤ → Option ℕ → Client S ℤ
    incr key delta ttl = do
      now ← now_ms
      request incr_err
          (incr_script c (full_key kv key) kv.index_key kv.expiry_key delta (ttl_ms ttl) now)

    unfoldable pub incr_floor : Codec → Bytes → ℤ → ℤ → Option ℕ → Client S ℤ
    incr_floor codec key delta floor ttl = do
      now ← now_ms
      request incr_err (
          incr_floor_script c codec (full_key kv key) kv.index_key kv.expiry_key delta (ttl_ms ttl)
            now floor)
