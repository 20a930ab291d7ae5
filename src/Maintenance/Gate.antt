-- ===== src/Maintenance/Gate.antt =====
-- src/maintenance.rs: the gate of the key index, and the listings after it.
use mcpg_plugin_cluster_redi.Common.{
  ℕ, ◌≡◌, refl, Bool, true, false, Option, none, List, [], ◌∷◌, Bytes, max,
}
use mcpg_plugin_cluster_redi.Script.{Script, RedisError}
use mcpg_plugin_cluster_redi.Client.{
  Client, ClusterError, Result, done, fail, World, Event, pipeline, request, redis_err, rethrow,
}
use mcpg_plugin_cluster_redi.Redis.Commands.{Commands, Codec}
use mcpg_plugin_cluster_redi.Keys.{RedisKv}
use mcpg_plugin_cluster_redi.Kv.Upkeep.{invalidate_index}
use mcpg_plugin_cluster_redi.Kv.Listing.{ScanCursor, list_page, scan_page}
use mcpg_plugin_cluster_redi.Maintenance.{gate_index}

-- A request leaves the replica's own flag.
pipeline_ready :
    {S A : Type 0} (f : RedisError → ClusterError) (m : (S → S) → Script S A) (w : World S)
    → (pipeline f m w).1.index_ready ≡ w.index_ready
unfolding pipeline
pipeline_ready f m w = by_schedule w.schedule refl
  where
    by_schedule :
        (es : List (Event _)) → w.schedule ≡ es → (pipeline f m w).1.index_ready ≡ w.index_ready
    by_schedule [] e = rw e refl
    by_schedule (x ∷ es) e = rw e refl

rethrow_ready :
    {S A B : Type 0} (x : Result A × World S) (f : A → Client S B) (b : Bool)
    → x.1.index_ready ≡ b
    → ((a : A) (w : World S) → w.index_ready ≡ b → (f a w).1.index_ready ≡ b)
    → (rethrow x f).1.index_ready ≡ b
rethrow_ready (done a, w) f b h k = k a w h
rethrow_ready (fail e, w) f b h k = h

invalidate_index_ready :
    {S : Type 0} (c : Commands S) (scan : ℕ → Bytes → Script S (ℕ × List Bytes)) (kv : RedisKv)
    (w : World S)
    → (invalidate_index c scan kv w).1.index_ready ≡ false
unfolding invalidate_index
invalidate_index_ready c scan kv w =
    rethrow_ready (request redis_err (c.del kv.complete_key) (record w { index_ready = false })) _
      false (pipeline_ready redis_err _ _) (λ a v h. h)

-- The replica at another time: the flag is as it was.
abbrev pub later_on : {S : Type 0} → World S → S → ℕ → List (Event S) → World S
later_on w s now ahead = record w { store = s; now = now; schedule = ahead }

-- A replica that sees a peer without the key index no longer takes the index for ready, also if the
-- requests that say so to the others are lost; and a listing that starts after that, whatever became of
-- the store and the clock in between, is a scan of the keyspace, for any prefix and limit. (One that
-- goes on from a cursor of the index is not.)
pub gate_index-closes :
    {S : Type 0} (c : Commands S) (codec : Codec) (scan : ℕ → Bytes → Script S (ℕ × List Bytes))
    (to_json : ScanCursor → Bytes) (from_json : Bytes → Option ScanCursor) (kv : RedisKv)
    (w : World S) (s : S) (now : ℕ) (ahead : List (Event S)) (fuel : ℕ) (prefix : Bytes) (limit : ℕ)
    → ((gate_index c codec scan kv true w).1.index_ready ≡ false)
      × (list_page c kv scan to_json from_json fuel prefix none limit
            (later_on (gate_index c codec scan kv true w).1 s now ahead)
          ≡ scan_page c kv scan to_json from_json fuel prefix
              (record { scan = 0; pending = []; done = false })
              (max limit 1)
              (later_on (gate_index c codec scan kv true w).1 s now ahead))
unfolding gate_index list_page
gate_index-closes c codec scan to_json from_json kv w s now ahead fuel prefix limit =
    let closed = invalidate_index_ready c scan kv w in (closed, rw closed refl)
