-- ===== src/Tests/Handle.antt =====
-- The theorems on lease handles and on sweeps at concrete inputs.
use mcpg_plugin_cluster_redi.Common.{
  ◌≡◌, refl, some, codes, arith, true, false, is_blank, is_whitespace, same, ◌+◌, ◌/◌, [], ◌∷◌,
}
use mcpg_plugin_cluster_redi.Script.{pure}
use mcpg_plugin_cluster_redi.Client.{done, fail, lease_expired, quiet, request, redis_err}
use mcpg_plugin_cluster_redi.Client.Keep.{Keeps}
use mcpg_plugin_cluster_redi.Redis.View.{View, held, text}
use mcpg_plugin_cluster_redi.Redis.Commands.{documented}
use mcpg_plugin_cluster_redi.Keys.{with_connection_manager}
use mcpg_plugin_cluster_redi.Kv.Upkeep.{sweep, prune_script}
use mcpg_plugin_cluster_redi.Kv.Upkeep.Keeps.{Keeps-sweep}
use mcpg_plugin_cluster_redi.Kv.Store.Indexed.{Indexed}
use mcpg_plugin_cluster_redi.Lease.{LeaseState, lease_ttl, try_acquire_async, renew_state}
use mcpg_plugin_cluster_redi.Lease.Handle.{
  HeldBy, try_acquire_async-free, renew_state-lost, renew_state-own,
}
use mcpg_plugin_cluster_redi.Tests.Memory.{memory, plain_codec, empty}

Keeps-sweep_example :
    Keeps (Indexed memory b'm' (codes ":")) (
      sweep
        (documented plain_codec)
        (λ cursor pattern. pure (0, []))
        (with_connection_manager (codes "m:"))
        3)
    × Keeps (Indexed memory b'm' (codes ":")) (
        request redis_err (
          prune_script
            (documented plain_codec)
            (with_connection_manager (codes "m:")).index_key
            (with_connection_manager (codes "m:")).expiry_key
            (codes "m::a" ∷ [])))
Keeps-sweep_example =
    Keeps-sweep memory b'm' (codes ":") (λ cursor pattern. pure (0, [])) 3 (codes "m::a" ∷ [])

try_acquire_async-free_example :
    ((try_acquire_async
        (documented plain_codec)
        (codes "l")
        (codes "L")
        (codes "L:fence")
        (codes "a")
        30_000_000_000
        (quiet empty 1000 false)).0
      ≡ done (
          some (record {
            lease_key = codes "L";
            holder = codes "a";
            fence_token = 1;
            ttl_ms = lease_ttl 30_000_000_000;
            expires_at = (1000 + lease_ttl 30_000_000_000) / 1000;
            released = false;
            renewing = true;
          })))
    × HeldBy
        (codes "L")
        (codes "a")
        (1000 + lease_ttl 30_000_000_000)
        (try_acquire_async
          (documented plain_codec)
          (codes "l")
          (codes "L")
          (codes "L:fence")
          (codes "a")
          30_000_000_000
          (quiet empty 1000 false)).1.store
unfolding same is_blank is_whitespace lease_ttl
try_acquire_async-free_example =
    try_acquire_async-free memory (codes "l") (codes "L") (codes "L:fence") (codes "a")
      30_000_000_000 0 1000 false empty refl refl refl refl refl (omega arith) (omega arith)
      (omega arith)

abbrev handle : LeaseState
handle = record {
  lease_key = codes "L";
  holder = codes "a";
  fence_token = 1;
  ttl_ms = 500;
  expires_at = 1;
  released = false;
  renewing = true;
}

renew_state-lost_example :
    ((renew_state (documented plain_codec) handle (quiet empty 1000 false)).0
      ≡ done (fail lease_expired, record handle { released = true }))
    × ((renew_state (documented plain_codec) handle (quiet empty 1000 false)).1.store ≡ empty)
    × (renew_state
          (documented plain_codec)
          (record handle { released = true })
          (quiet empty 2000 false)
        ≡ (done (fail lease_expired, record handle { released = true }), quiet empty 2000 false))
renew_state-lost_example =
    renew_state-lost memory handle 1000 false empty (quiet empty 2000 false) refl tt refl

-- Node a holds the lease until 1200.
abbrev owned : View
owned = record { clock = 1000; at = λ k. held (text (codes "a")) (some 1200) }

renew_state-own_example :
    ((renew_state (documented plain_codec) handle (quiet owned 1000 false)).0
      ≡ done (done tt, record handle { expires_at = 1500 / 1000 }))
    × HeldBy
        (codes "L")
        (codes "a")
        1500
        (renew_state (documented plain_codec) handle (quiet owned 1000 false)).1.store
renew_state-own_example =
    renew_state-own memory handle 1200 1000 false owned refl refl refl (omega arith)
