-- ===== src/Host.antt =====
-- src/lib.rs: the plugin's life, and the key/value operations that the host calls on it. Each
-- operation runs to its end on the plugin's own runtime.
pub mod Life
pub mod Run
pub mod Shutdown
pub mod Leases
pub mod Locks
use mcpg_plugin_cluster_redi.Common.{
  ℕ, ◌*◌, ◌^◌, Bool, true, false, ◌&&◌, Option, none, some, List, [], Bytes, if◌then◌else◌,
}
use mcpg_plugin_cluster_redi.Common.Int.{ℤ}
use mcpg_plugin_cluster_redi.Script.{Script}
use mcpg_plugin_cluster_redi.Client.{Client, World, Result, done, fail, backend_unavailable, ◌>>=◌}
use mcpg_plugin_cluster_redi.Redis.Commands.{Commands, Codec}
use mcpg_plugin_cluster_redi.Config.{redact_redis_url}
use mcpg_plugin_cluster_redi.Keys.{RedisKv}
use mcpg_plugin_cluster_redi.Kv.Store as KvStore
use mcpg_plugin_cluster_redi.Kv.Store.{KvEntry}
use mcpg_plugin_cluster_redi.Kv.Listing as KvListing
use mcpg_plugin_cluster_redi.Kv.Listing.{KvPage, ScanCursor}
use mcpg_plugin_cluster_redi.Peer.{PeerRegistration, register_peer, deregister_peer}
use mcpg_plugin_cluster_redi.Backend.{Inner, kv_of}

-- The cells of `Inner`: whether the connection and the primitives are there, whether the tasks'
-- abort handles are, and the draining flag.
pub record Cells : Type 0 where
  pub conn : Bool
  pub primitives : Bool
  pub peer_refresh : Bool
  pub kv_maintenance : Bool
  pub draining : Bool

-- An operation also gives the cells after it, whether it fails or not.
abbrev pub Hosted : Type 0 → Type 0 → Type 0
Hosted S A = Cells → World S → (Result A × Cells) × World S

-- `Inner::shutdown`
unfoldable pub drain : Cells → Cells
drain cells = record cells { draining = true; peer_refresh = false; kv_maintenance = false }

abbrev pub no_cells : Cells
no_cells = record {
  conn = false;
  primitives = false;
  peer_refresh = false;
  kv_maintenance = false;
  draining = false;
}

-- A whole-millisecond TTL as a `Duration`, in nanoseconds
unfoldable pub ttl_from_ms : Option ℕ → Option ℕ
ttl_from_ms none = none
ttl_from_ms (some ms) = some (ms * 10 ^ 6)

-- The accessor of the store: there is none before the first connection.
unfoldable pub key_value_store : Inner → Cells → Option RedisKv
key_value_store inner cells = if cells.primitives then some (kv_of inner) else none

-- `open_manager` makes the connection manager of the Redis client.
module _ {S : Type 0} (open_manager : Client S (Unit {0})) where
  abbrev pub ready : Cells → Cells
  ready cells = record cells { conn = true; primitives = true }

  abbrev pub opened : Cells → Result (Unit {0}) × World S → (Result (Unit {0}) × Cells) × World S
  opened cells (done tt, w) = ((done tt, ready cells), w)
  opened cells (fail e, w) = ((fail e, cells), w)

  -- The connection is made once, and the primitives with it.
  unfoldable pub get_or_init_conn : Hosted S (Unit {0})
  get_or_init_conn cells w =
      if cells.conn then ((done tt, ready cells), w) else opened cells (open_manager w)

  abbrev pub and_cells : {A : Type 0} → Cells → Result A × World S → (Result A × Cells) × World S
  and_cells cells (r, w) = ((r, cells), w)

  abbrev pub then_run :
      {A : Type 0}
      → (Cells → Client S A)
      → (Result (Unit {0}) × Cells) × World S
      → (Result A × Cells) × World S
  then_run m ((done tt, cells), w) = and_cells cells (m cells w)
  then_run m ((fail e, cells), w) = ((fail e, cells), w)

  module _ (inner : Inner) where
    abbrev pub if_there : {A : Type 0} → (RedisKv → Client S A) → Option RedisKv → Client S A
    if_there m none w = (fail backend_unavailable, w)
    if_there m (some kv) w = m kv w

    -- `require_kv`, and an operation on what it gives
    unfoldable pub with_kv : {A : Type 0} → (RedisKv → Client S A) → Hosted S A
    with_kv m cells w =
        then_run (λ now. if_there m (key_value_store inner now)) (get_or_init_conn cells w)

    module _ (c : Commands S) where
      unfoldable pub kv_get : Bytes → Hosted S (Option KvEntry)
      kv_get key = with_kv λ kv. KvStore.get c kv key

      unfoldable pub kv_put : Bytes → Bytes → Option ℕ → Hosted S (Unit {0})
      kv_put key value ttl = with_kv λ kv. KvStore.put c kv key value (ttl_from_ms ttl)

      unfoldable pub kv_put_if_absent : Bytes → Bytes → Option ℕ → Hosted S Bool
      kv_put_if_absent key value ttl =
          with_kv λ kv. KvStore.put_if_absent c kv key value (ttl_from_ms ttl)

      unfoldable pub kv_delete : Bytes → Hosted S Bool
      kv_delete key = with_kv λ kv. KvStore.delete c kv key

      unfoldable pub kv_expire : Bytes → Option ℕ → Hosted S Bool
      kv_expire key ttl = with_kv λ kv. KvStore.expire c kv key (ttl_from_ms ttl)

      unfoldable pub kv_incr : Bytes → ℤ → Option ℕ → Hosted S ℤ
      kv_incr key delta ttl = with_kv λ kv. KvStore.incr c kv key delta (ttl_from_ms ttl)

      unfoldable pub kv_incr_floor : Codec → Bytes → ℤ → ℤ → Option ℕ → Hosted S ℤ
      kv_incr_floor codec key delta floor ttl =
          with_kv λ kv. KvStore.incr_floor c kv codec key delta floor (ttl_from_ms ttl)

      unfoldable pub kv_list_page :
          (ℕ → Bytes → Script S (ℕ × List Bytes))
          → (ScanCursor → Bytes)
          → (Bytes → Option ScanCursor)
          → ℕ
          → Bytes
          → Option Bytes
          → ℕ
          → Hosted S KvPage
      kv_list_page scan to_json from_json fuel prefix cursor limit =
          with_kv λ kv. KvListing.list_page c kv scan to_json from_json fuel prefix cursor limit

      module _ (to_json : PeerRegistration → Bytes)
          (from_json : Bytes → Option PeerRegistration) where
        abbrev pub after_tick : (Result (Unit {0}) × Cells) × World S → Cells × World S
        after_tick ((r, cells), w) = (cells, w)

        -- A tick of the peer refresher; its errors are only logged.
        unfoldable pub refresh_tick : Cells → World S → Cells × World S
        refresh_tick cells w = after_tick (
            then_run
              (λ _.
                register_peer to_json from_json c inner.config.key_prefix inner.node_id
                  (redact_redis_url inner.config.url) inner.config.peer_ttl_ms [])
              (get_or_init_conn cells w))

        abbrev pub spawn : Cells × World S → Cells × World S
        spawn (cells, w) = (record cells { peer_refresh = true; kv_maintenance = true }, w)

        -- `from_validated_config`, once the client is there: the connection is tried, and the tasks
        -- are spawned whether or not there is one.
        unfoldable pub boot : World S → Cells × World S
        boot w = spawn (after_tick (get_or_init_conn no_cells w))

        abbrev dropped : Cells → Result (Unit {0}) × World S → Cells × World S
        dropped cells (r, w) = (cells, w)

        -- `shutdown`. The two seconds that the deregistration has end with its request answered or
        -- lost.
        unfoldable pub shutdown : Cells → World S → Cells × World S
        shutdown cells w =
            if cells.peer_refresh && cells.conn
            then dropped (drain cells)
                (deregister_peer to_json from_json c inner.config.key_prefix inner.node_id w)
            else (drain cells, w)
