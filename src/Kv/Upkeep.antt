-- ===== src/Kv/Upkeep.antt =====
-- src/state/kv.rs: the upkeep of the key index: PRUNE_LUA, SWEEP_LUA and BACKFILL_LUA, the loops
-- that run them, and the mark that the index is complete. `SCAN` is a parameter: a cursor and a
-- pattern in, the next cursor and some keys out. The loops run on fuel, one unit a round.
pub mod Keeps
pub mod Glob
pub mod Backfill
pub mod Filled
use mcpg_plugin_cluster_redi.Common.{
  ℕ, zero, suc, ◌+◌, ◌-◌, Bool, true, false, ◌||◌, List, [], ◌∷◌, Bytes, codes, ◌++◌, same, ltb,
  ◌==◌, if◌then◌else◌, length,
}
use mcpg_plugin_cluster_redi.Common.Int.{ℤ, pos, negsuc}
use mcpg_plugin_cluster_redi.Script.{Script, pure, ◌>>=◌, ◌>>◌}
use mcpg_plugin_cluster_redi.Client
use mcpg_plugin_cluster_redi.Client.{
  Client, return, request, redis_err, now_ms, index_ready, set_index_ready,
}
use mcpg_plugin_cluster_redi.Redis.Commands.{Commands, Codec}
use mcpg_plugin_cluster_redi.Keys.{RedisKv}

-- `key` as a `SCAN MATCH` pattern that matches only itself.
abbrev pub is_special : ℕ → Bool
is_special c = (c == b'*') || (c == b'?') || (c == b'[') || (c == b']') || (c == b'\\')

unfoldable pub glob_escape : Bytes → Bytes
glob_escape [] = []
glob_escape (c ∷ s) =
    let rest = glob_escape s in if is_special c then b'\\' ∷ c ∷ rest else c ∷ rest

abbrev pub scan_batch : ℕ
scan_batch = 1000

abbrev pub sweep_batch : ℕ
sweep_batch = 1000

-- The keys in ARGV one after the other, and the sum of what each counts.
unfoldable pub each : {S : Type 0} → (Bytes → Script S ℕ) → List Bytes → Script S ℕ
each f [] = pure 0
each f (k ∷ ks) = do n ← f k; m ← each f ks; pure (n + m)

module _ {S : Type 0} (c : Commands S) (index expiry : Bytes) where
  open c use {exists, pttl, zadd, zrem}

  unfoldable pub drop_entries : Bytes → Script S ℕ
  drop_entries k = do zrem index k; zrem expiry k; pure 1

  unfoldable pub prune_key : Bytes → Script S ℕ
  unfolding drop_entries
  prune_key k = do n ← exists k; if n == 0 then drop_entries k else pure 0

  -- PRUNE_LUA
  abbrev pub prune_script : List Bytes → Script S ℕ
  prune_script = each prune_key

  -- One key that is due, by its PTTL; Redis answers -2, -1 or a time.
  unfoldable pub settle : ℕ → Bytes → ℤ → Script S ℕ
  unfolding drop_entries
  settle now k (pos ms) = do zadd expiry (now + ms) k; pure 0
  settle now k (negsuc zero) = do zrem expiry k; pure 0
  settle now k (negsuc (suc zero)) = drop_entries k
  settle now k (negsuc (suc (suc n))) = do zadd expiry (now - (3 + n)) k; pure 0

  unfoldable pub sweep_key : ℕ → Bytes → Script S ℕ
  sweep_key now k = do ms ← pttl k; settle now k ms

  -- SWEEP_LUA
  abbrev pub sweep_script : ℕ → List Bytes → Script S ℕ
  sweep_script now = each (sweep_key now)

  unfoldable pub index_live : ℕ → Bytes → ℤ → Script S ℕ
  index_live now k (negsuc (suc zero)) = pure 0
  index_live now k (negsuc zero) = do zadd index 0 k; pure 1
  index_live now k (negsuc (suc (suc n))) = do zadd index 0 k; pure 1
  index_live now k (pos ms) = do
    zadd index 0 k
    (if ltb 0 ms then zadd expiry (now + ms) k else pure tt)
    pure 1

  unfoldable pub backfill_key : ℕ → Bytes → Script S ℕ
  backfill_key now k = do ms ← pttl k; index_live now k ms

  -- BACKFILL_LUA
  abbrev pub backfill_script : ℕ → List Bytes → Script S ℕ
  backfill_script now = each (backfill_key now)

-- The keys that are not the store's own.
abbrev pub is_own : RedisKv → Bytes → Bool
is_own kv k = same k kv.index_key || same k kv.expiry_key || same k kv.complete_key

unfoldable pub without_own : RedisKv → List Bytes → List Bytes
without_own kv [] = []
without_own kv (k ∷ ks) = let rest = without_own kv ks in if is_own kv k then rest else k ∷ rest

abbrev pub is_nil : List Bytes → Bool
is_nil [] = true
is_nil (k ∷ ks) = false

-- The pattern of every data key.
unfoldable pub data_pattern : Bytes → Bytes
data_pattern [] = codes "*"
data_pattern (c ∷ p) = glob_escape (c ∷ p) ++ codes ":*"

module _ {S : Type 0} (c : Commands S) (scan : ℕ → Bytes → Script S (ℕ × List Bytes))
    (kv : RedisKv) where
  -- A sweep, from the keys that were gone so far.
  unfoldable pub sweep_from : ℕ → ℕ → Client S ℕ
  sweep_from zero gone = return gone
  sweep_from (suc fuel) gone = Client.◌>>=◌ now_ms λ now.
      Client.◌>>=◌ (request redis_err (c.zrangebyscore_upto kv.expiry_key now sweep_batch)) λ due.
        if is_nil due
        then return gone
        else Client.◌>>=◌ (request redis_err (sweep_script c kv.index_key kv.expiry_key now due))
            λ removed.
              if ltb (length due) sweep_batch
              then return (gone + removed)
              else sweep_from fuel (gone + removed)

  abbrev pub sweep : ℕ → Client S ℕ
  sweep fuel = sweep_from fuel 0

  -- How many keys of one batch were indexed.
  unfoldable pub backfill_batch : List Bytes → Client S ℕ
  backfill_batch batch =
      if is_nil batch
      then return 0
      else Client.◌>>=◌ now_ms
          λ now. request redis_err (backfill_script c kv.index_key kv.expiry_key now batch)

  -- A backfill, from a cursor of the scan.
  unfoldable pub backfill_from : ℕ → ℕ → ℕ → Client S ℕ
  backfill_from zero cursor indexed = return indexed
  backfill_from (suc fuel) cursor indexed =
      Client.◌>>=◌ (request redis_err (scan cursor (data_pattern kv.key_prefix))) λ step.
        Client.◌>>=◌ (backfill_batch (without_own kv step.1))
          λ n. if step.0 == 0 then return (indexed + n) else backfill_from fuel step.0 (indexed + n)

  abbrev pub backfill_index : ℕ → Client S ℕ
  backfill_index fuel = backfill_from fuel 0 0

  unfoldable pub mark_index_complete : Codec → ℕ → Client S (Unit {0})
  mark_index_complete codec started_at =
      request redis_err (c.set kv.complete_key (codec.of_int (pos started_at)))

  unfoldable pub index_complete : Client S Bool
  index_complete = Client.◌>>=◌ (request redis_err (c.exists kv.complete_key)) λ n. return (ltb 0 n)

  unfoldable pub invalidate_index : Client S (Unit {0})
  invalidate_index =
      Client.◌>>=◌ (set_index_ready false)
        λ _. Client.◌>>=◌ (request redis_err (c.del kv.complete_key)) λ _. return tt
