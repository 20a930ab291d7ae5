-- ===== src/Kv/Scripts.antt =====
-- src/state/kv.rs: the Lua scripts that write the key/value store, each over its data key, the key
-- index and the expiry index (KEYS[1], KEYS[2], KEYS[3]).
use mcpg_plugin_cluster_redi.Common.{
  ℕ, ◌+◌, ◌^◌, Bool, true, ◌||◌, Option, none, some, Bytes, ltb, leb, ◌==◌, if◌then◌else◌,
}
use mcpg_plugin_cluster_redi.Common.Int.{ℤ, pos, abs, ltb_ℤ, ◌+ℤ◌, ◌-ℤ◌}
use mcpg_plugin_cluster_redi.Script.{Script, pure, raise, or_raise, sentinel, ◌>>=◌, ◌>>◌}
use mcpg_plugin_cluster_redi.Redis.Commands.{Commands, Codec}

-- Doubles are exact below this.
abbrev pub exact : ℕ
exact = 2 ^ 53

-- Lua's `tonumber(raw)` of the value, 0 for a missing key; `none` is its `nil`.
abbrev pub current_of : Codec → Option Bytes → Option ℤ
current_of codec none = some (pos 0)
current_of codec (some raw) = codec.to_number raw

abbrev pub raised : ℤ → ℤ → ℤ
raised current floor = if ltb_ℤ current floor then floor else current

-- `base - current + delta`, each step rounded to a double.
abbrev pub increment : Codec → ℤ → ℤ → ℤ → ℤ
increment codec delta floor current =
    codec.round (codec.round (raised current floor -ℤ current) +ℤ delta)

module _ {S : Type 0} (c : Commands S) where
  open c use {
    get, set, set_px, set_nx, set_nx_px, del, exists, pttl, pexpire, persist, incrby,
    return_integer, zadd, zrem,
  }

  -- The three forms of `SET` that SET_LUA chooses from, and whether the value was stored.
  unfoldable pub set_value : Bytes → Bytes → ℕ → Bool → Script S Bool
  set_value key value ttl nx =
      if nx
      then if ltb 0 ttl then set_nx_px key value ttl else set_nx key value
      else if ltb 0 ttl
      then (do set_px key value ttl; pure true)
      else (do set key value; pure true)

  -- The expiry index after a write with this TTL (0 = none).
  unfoldable pub index_ttl : Bytes → Bytes → ℕ → ℕ → Script S (Unit {0})
  index_ttl expiry key ttl now = if ltb 0 ttl then zadd expiry (now + ttl) key else zrem expiry key

  -- SET_LUA
  unfoldable pub set_script : Bytes → Bytes → Bytes → Bytes → ℕ → ℕ → Bool → Script S ℕ
  set_script key index expiry value ttl now nx = do
    stored ← set_value key value ttl nx
    if stored then (do index_ttl expiry key ttl now; zadd index 0 key; pure 1) else pure 0

  -- DEL_LUA
  unfoldable pub del_script : Bytes → Bytes → Bytes → Script S ℕ
  del_script key index expiry = do n ← del key; zrem index key; zrem expiry key; pure n

  -- What EXPIRE_LUA does to a live key.
  unfoldable pub change_ttl : Bytes → Bytes → ℕ → ℕ → Script S (Unit {0})
  change_ttl key expiry ttl now =
      if ltb 0 ttl
      then (do pexpire key ttl; zadd expiry (now + ttl) key)
      else (do persist key; zrem expiry key)

  -- EXPIRE_LUA
  unfoldable pub expire_script : Bytes → Bytes → Bytes → ℕ → ℕ → Script S ℕ
  expire_script key index expiry ttl now = do
    n ← exists key
    if n == 0 then pure 0 else (do change_ttl key expiry ttl now; zadd index 0 key; pure 1)

  -- The end that INCR_LUA and INCR_FLOOR_LUA share: the TTL and the indexes.
  unfoldable pub incr_indexes : Bytes → Bytes → Bytes → ℕ → ℕ → ℤ → Script S ℤ
  incr_indexes key index expiry ttl now ret = do
    (if ltb 0 ttl then (do pexpire key ttl; zadd expiry (now + ttl) key) else pure tt)
    zadd index 0 key
    return_integer ret

  -- INCR_LUA
  unfoldable pub incr_script : Bytes → Bytes → Bytes → ℤ → ℕ → ℕ → Script S ℤ
  incr_script key index expiry delta ttl now = do
    ret ← or_raise (incrby key delta) sentinel
    incr_indexes key index expiry ttl now ret

  -- INCR_FLOOR_LUA, from its tests on
  unfoldable pub incr_floor_from :
      Codec → Bytes → Bytes → Bytes → ℤ → ℕ → ℕ → ℤ → Option ℤ → Script S ℤ
  incr_floor_from codec key index expiry delta ttl now floor none = raise sentinel
  incr_floor_from codec key index expiry delta ttl now floor (some current) =
      if leb exact (abs current) || (leb exact (abs floor) || leb exact (abs delta))
      then raise sentinel
      else do
        ret ← or_raise (incrby key (increment codec delta floor current)) sentinel
        incr_indexes key index expiry ttl now ret

  -- INCR_FLOOR_LUA
  unfoldable pub incr_floor_script : Codec → Bytes → Bytes → Bytes → ℤ → ℕ → ℕ → ℤ → Script S ℤ
  incr_floor_script codec key index expiry delta ttl now floor = do
    raw ← get key
    incr_floor_from codec key index expiry delta ttl now floor (current_of codec raw)
