-- ===== src/Kv/Upkeep/Filled.antt =====
-- src/state/kv.rs: a backfill on a server that behaves as documented.
use mcpg_plugin_cluster_redi.Common.{ℕ, zero, suc, ◌≡◌, sym, subst, List, ◌∷◌, Bytes}
use mcpg_plugin_cluster_redi.Common.Int.{ℤ, pos, negsuc}
use mcpg_plugin_cluster_redi.Script.{ok}
use mcpg_plugin_cluster_redi.Redis.View.{IsSorted}
use mcpg_plugin_cluster_redi.Redis.Commands.{documented}
use mcpg_plugin_cluster_redi.Redis.Server.{Server, Simulates, reply_of, simulation}
use mcpg_plugin_cluster_redi.Keys.{RedisKv, with_connection_manager}
use mcpg_plugin_cluster_redi.Kv.Store.Indexed.{layout}
use mcpg_plugin_cluster_redi.Kv.Upkeep.{index_live, backfill_key, backfill_script}
use mcpg_plugin_cluster_redi.Kv.Upkeep.Keeps.{Simulates-each}
use mcpg_plugin_cluster_redi.Kv.Upkeep.Backfill.{AllData, Filled, live_among, batch}

module _ (r : Server) (index expiry : Bytes) where
  open r use {Store, commands, codec, view, laws}

  Simulates-index_live :
      (now : ℕ) (k : Bytes) (ms : ℤ)
      → Simulates view
          (index_live commands index expiry now k ms)
          (index_live (documented codec) index expiry now k ms)
  unfolding index_live
  Simulates-index_live now k (pos ms) = search (simulation, laws.zadd_law)
  Simulates-index_live now k (negsuc zero) = search (simulation, laws.zadd_law)
  Simulates-index_live now k (negsuc (suc zero)) = search (simulation)
  Simulates-index_live now k (negsuc (suc (suc n))) = search (simulation, laws.zadd_law)

  Simulates-backfill_key :
      (now : ℕ) (k : Bytes)
      → Simulates view
          (backfill_key commands index expiry now k)
          (backfill_key (documented codec) index expiry now k)
  unfolding backfill_key
  Simulates-backfill_key now k = search (simulation, laws.pttl_law, Simulates-index_live)

  Simulates-backfill_script :
      (now : ℕ) (ks : List Bytes)
      → Simulates view
          (backfill_script commands index expiry now ks)
          (backfill_script (documented codec) index expiry now ks)
  Simulates-backfill_script now ks = Simulates-each (Simulates-backfill_key now) ks

-- On a server that behaves as documented, under a key prefix that is not empty, with index keys that
-- are sorted sets or missing: the backfill of a batch of data keys, each of which may be live or not
-- and stand in the batch any number of times, answers how many of them are live; the key index then
-- has every live key of the batch, and of all other data keys what it had; no data key changes.
pub backfill_script-fills :
    (r : Server) (c : ℕ) (p : Bytes) (now : ℕ) (ks : List Bytes) (s : r.Store)
    → AllData r.codec (layout c p) ks
    → IsSorted ((r.view s).at (with_connection_manager (c ∷ p)).index_key)
    → IsSorted ((r.view s).at (with_connection_manager (c ∷ p)).expiry_key)
    → ((backfill_script r.commands
          (with_connection_manager (c ∷ p)).index_key
          (with_connection_manager (c ∷ p)).expiry_key
          now
          ks
          s).0
        ≡ ok (live_among ks (r.view s)))
      × Filled r.codec (layout c p) ks (r.view s) (
          r.view
            (backfill_script r.commands
              (with_connection_manager (c ∷ p)).index_key
              (with_connection_manager (c ∷ p)).expiry_key
              now
              ks
              s).1)
unfolding layout with_connection_manager
backfill_script-fills r c p now ks s h si se =
    let kv : RedisKv = with_connection_manager (c ∷ p) in
    let b = batch r.codec (layout c p) now ks (r.view s) h si se in
    let (replied, left) =
      reply_of s (Simulates-backfill_script r kv.index_key kv.expiry_key now ks) b.there in
    (replied, subst (Filled r.codec (layout c p) ks (r.view s)) (sym left) b.filled)
