-- ===== src/Maintenance.antt =====
-- src/maintenance.rs: the task that sweeps the key index, one replica at a time, and decides whether
-- listings read it. `tick` is one round of its loop; an `Instant` is read off the replica's clock.
pub mod Gate
use mcpg_plugin_cluster_redi.Common.{
  ℕ, ◌+◌, ◌-◌, ◌*◌, ◌^◌, Bool, true, false, ◌&&◌, not, Option, none, some, List, Bytes, codes, leb,
  ltb, if◌then◌else◌,
}
use mcpg_plugin_cluster_redi.Script.{Script}
use mcpg_plugin_cluster_redi.Client.{
  Client, Result, done, fail, return, now_ms, index_ready, set_index_ready, ◌>>=◌, ◌>>◌,
}
use mcpg_plugin_cluster_redi.Redis.Commands.{Commands, Codec}
use mcpg_plugin_cluster_redi.Keys.{RedisKv, lease_key, fence_key}
use mcpg_plugin_cluster_redi.Kv.Upkeep.{
  sweep, backfill_index, mark_index_complete, index_complete, invalidate_index,
}
use mcpg_plugin_cluster_redi.Peer.{
  PeerRegistration, Registration, LegacyPeerScan, forget, list_registrations,
}
use mcpg_plugin_cluster_redi.Lease.{LeaseState, attempt, try_acquire_async, renew_state, is_err}
use mcpg_plugin_cluster_redi.Backend.{Inner, kv_of, any_unindexed}

abbrev pub sweep_lock : Bytes
sweep_lock = codes "mcpg-kv-sweep"

abbrev pub idle_interval_ms : ℕ
idle_interval_ms = 30_000

-- What the task carries from round to round, and the shared scan of older peers.
pub record Task : Type 0 where
  pub held : Option LeaseState
  pub unindexed_seen : Option ℕ
  pub peer_scan : LegacyPeerScan

abbrev pub interval_ms : Inner → ℕ
interval_ms inner =
    if ltb 0 inner.config.kv_sweep_interval_ms
    then inner.config.kv_sweep_interval_ms
    else idle_interval_ms

module _ {S : Type 0} (c : Commands S) (codec : Codec)
    (scan : ℕ → Bytes → Script S (ℕ × List Bytes)) (kv : RedisKv) where
  abbrev ready_if : Result Bool → Client S (Unit {0})
  ready_if (done ready) = set_index_ready ready
  ready_if (fail e) = return tt

  unfoldable pub gate_index : Bool → Client S (Unit {0})
  gate_index true = do _ ← attempt (invalidate_index c scan kv); return tt
  gate_index false = do ready ← attempt (index_complete c scan kv); ready_if ready

  abbrev ready_after : Result (Unit {0}) → Client S (Unit {0})
  ready_after (done _) = set_index_ready true
  ready_after (fail e) = return tt

  module _ (to_json : PeerRegistration → Bytes) (from_json : Bytes → Option PeerRegistration)
      (inner : Inner) where
    -- Whether an older peer is registered, and the scan after the listing; an error counts as one.
    abbrev unindexed_or :
        LegacyPeerScan → Result (List Registration × LegacyPeerScan) → Bool × LegacyPeerScan
    unindexed_or legacy (done (found, legacy')) = (any_unindexed found, legacy')
    unindexed_or legacy (fail e) = (true, legacy)

    unfoldable pub complete_after : ℕ → LegacyPeerScan → ℕ → Result ℕ → Client S LegacyPeerScan
    complete_after fuel legacy started_at (fail e) = return legacy
    complete_after fuel legacy started_at (done indexed) = do
      listing ←
          attempt (
            list_registrations to_json from_json c scan fuel inner.config.key_prefix
              (forget legacy))
      let seen = unindexed_or (forget legacy) listing
      if seen.0 then return seen.1 else (do
        marked ← attempt (mark_index_complete c scan kv codec started_at)
        _ ← ready_after marked
        return seen.1)

    unfoldable pub complete_index : ℕ → LegacyPeerScan → Client S LegacyPeerScan
    complete_index fuel legacy = do
      started_at ← now_ms
      indexed ← attempt (backfill_index c scan kv fuel)
      complete_after fuel legacy started_at indexed

    abbrev kept_if : LeaseState → Result (Unit {0}) → Option LeaseState
    kept_if st (done _) = some st
    kept_if st (fail e) = none

    -- A held lock is renewed, and given up if that fails.
    unfoldable pub renew_held : Option LeaseState → Client S (Option LeaseState)
    renew_held none = return none
    renew_held (some st) = do r ← renew_state c st; return (kept_if r.1 r.0)

    abbrev or_none : Result (Option LeaseState) → Option LeaseState
    or_none (done st) = st
    or_none (fail e) = none

    -- A lock that is not held is tried for, for two intervals.
    unfoldable pub hold_lock : Option LeaseState → Client S (Option LeaseState)
    hold_lock (some st) = return (some st)
    hold_lock none = do
      st ← attempt (
          try_acquire_async c sweep_lock
            (lease_key inner.config.key_prefix (codes "locks") sweep_lock)
            (fence_key inner.config.key_prefix (codes "locks") sweep_lock) inner.node_id
            (interval_ms inner * 2 * 10 ^ 6))
      return (or_none st)

    abbrev pub settled : ℕ → Option ℕ → Bool
    settled now none = true
    settled now (some seen) = leb inner.config.peer_ttl_ms (now - seen)

    abbrev sweep_if_on : ℕ → Client S (Unit {0})
    sweep_if_on fuel =
        if ltb 0 inner.config.kv_sweep_interval_ms
        then (do _ ← attempt (sweep c scan kv fuel); return tt)
        else return tt

    -- What the holder of the lock does in a round.
    unfoldable pub holder_round : ℕ → Bool → Task → Client S Task
    holder_round fuel unindexed task = do
      _ ← sweep_if_on fuel
      now ← now_ms
      ready ← index_ready
      if not unindexed && (settled now task.unindexed_seen && not ready)
          then (do
            legacy ← complete_index fuel task.peer_scan
            return (record task { peer_scan = legacy }))
          else return task

    unfoldable pub with_lock : ℕ → Bool → Task → Option LeaseState → Client S Task
    with_lock fuel unindexed task none = return (record task { held = none })
    with_lock fuel unindexed task (some st) =
        holder_round fuel unindexed (record task { held = some st })

    abbrev seen_now : ℕ → Bool → Option ℕ → Option ℕ
    seen_now now true seen = some now
    seen_now now false seen = seen

    -- The rest of a round, from the listing on; a listing that fails ends it.
    unfoldable pub tick_from :
        ℕ → Task → Result (List Registration × LegacyPeerScan) → Client S Task
    tick_from fuel task (fail e) = return task
    tick_from fuel task (done (found, legacy)) = do
      now ← now_ms
      _ ← gate_index (any_unindexed found)
      held ← renew_held task.held
      lock ← hold_lock held
      with_lock fuel (any_unindexed found)
          (record {
            held = held;
            unindexed_seen = seen_now now (any_unindexed found) task.unindexed_seen;
            peer_scan = legacy;
          })
          lock

    module _ (connect : Client S (Unit {0})) where
      abbrev after_connect : ℕ → Task → Result (Unit {0}) → Client S Task
      after_connect fuel task (fail e) = return task
      after_connect fuel task (done _) = do
        listing ← attempt (
            list_registrations to_json from_json c scan fuel inner.config.key_prefix task.peer_scan)
        tick_from fuel task listing

      unfoldable pub tick : ℕ → Task → Client S Task
      tick fuel task = do up ← attempt connect; after_connect fuel task up
