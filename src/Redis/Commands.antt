-- ===== src/Redis/Commands.antt =====
-- The commands that the coordinator sends, over any state, and their documented effect on a `View`.
pub mod Laws
use mcpg_plugin_cluster_redi.Common.{
  ℕ, ◌+◌, ◌-◌, ◌^◌, ◌<◌, ◌≤◌, ◌≡◌, Bool, true, false, ◌&&◌, Option, none, some, List, [], map,
  Bytes, ltb, if◌then◌else◌, take,
}
use mcpg_plugin_cluster_redi.Common.Int.{ℤ, pos, negsuc, abs, ◌+ℤ◌, fits_i64}
use mcpg_plugin_cluster_redi.Script.{Script, Reply, ok, err, refused}
use mcpg_plugin_cluster_redi.Redis.Zset.{
  Zset, insert, remove, Bound, lex_range, by_score, names, upto, beyond,
}
use mcpg_plugin_cluster_redi.Redis.View.{View, Entry, missing, held, text, sorted, put, pack}

pub record Commands (S : Type 0) : Type 0 where
  pub get : Bytes → Script S (Option Bytes)
  pub set : Bytes → Bytes → Script S (Unit {0})
  -- SET key value PX ttl
  pub set_px : Bytes → Bytes → ℕ → Script S (Unit {0})
  -- SET key value NX, and whether it was stored
  pub set_nx : Bytes → Bytes → Script S Bool
  pub set_nx_px : Bytes → Bytes → ℕ → Script S Bool
  pub del : Bytes → Script S ℕ
  pub exists : Bytes → Script S ℕ
  pub pttl : Bytes → Script S ℤ
  pub pexpire : Bytes → ℕ → Script S ℕ
  pub persist : Bytes → Script S ℕ
  pub incrby : Bytes → ℤ → Script S ℤ
  -- `return n` of an integer reply in a script: Lua has it as a double, the client as an integer again
  pub return_integer : ℤ → Script S ℤ
  -- ZADD key score member
  pub zadd : Bytes → ℕ → Bytes → Script S (Unit {0})
  pub zrem : Bytes → Bytes → Script S (Unit {0})
  -- ZRANGEBYLEX key min (max LIMIT 0 n
  pub zrangebylex : Bytes → Bound → Bytes → ℕ → Script S (List Bytes)
  -- ZRANGEBYSCORE key -inf max LIMIT 0 n
  pub zrangebyscore_upto : Bytes → ℕ → ℕ → Script S (List Bytes)
  -- ZRANGEBYSCORE key (min +inf
  pub zrangebyscore_beyond : Bytes → ℕ → Script S (List Bytes)
  -- ZREMRANGEBYSCORE key -inf max
  pub zremrangebyscore_upto : Bytes → ℕ → Script S (Unit {0})
  pub mget : List Bytes → Script S (List (Option Bytes))

-- The integers that Redis keeps in strings, and Lua's `tonumber` of a string, rounded to an
-- integer. Lua computes with doubles: up to 2^53 they are exact.
pub record Codec : Type 0 where
  pub as_int : Bytes → Option ℤ
  pub of_int : ℤ → Bytes
  pub to_number : Bytes → Option ℤ
  -- the double nearest to an integer
  pub round : ℤ → ℤ
  pub round_exact : (n : ℤ) → abs n ≤ 2 ^ 53 → round n ≡ n
  -- the 64-bit integer that a client gets of an integer that a script returns as a double
  pub through_lua : ℤ → ℤ
  pub through_lua_exact : (n : ℤ) → abs n ≤ 2 ^ 53 → through_lua n ≡ n
  pub as_int-of_int : (n : ℤ) → fits_i64 n ≡ true → as_int (of_int n) ≡ some n
  pub exact_number : (b : Bytes) (n : ℤ) → as_int b ≡ some n → abs n < 2 ^ 53 → to_number b ≡ some n
  pub rounded_number :
      (b : Bytes) (n : ℤ)
      → as_int b ≡ some n
      → 2 ^ 53 ≤ abs n
      → (m : ℤ) × (to_number b ≡ some m) × (2 ^ 53 ≤ abs m)

-- Expire times are positive and fit 63 bits.
abbrev pub valid_ttl : ℕ → ℕ → Bool
valid_ttl now ttl = ltb 0 ttl && ltb (now + ttl) (2 ^ 63)

module _ (c : Codec) where
  get_entry : Entry → Reply (Option Bytes)
  get_entry missing = ok none
  get_entry (held (text b) d) = ok (some b)
  get_entry (held (sorted z) d) = err refused

  set_nx_entry : Bytes → Entry → Entry → View → Reply Bool × View
  set_nx_entry k e missing v = (ok true, put k e v)
  set_nx_entry k e (held x d) v = (ok false, v)

  del_entry : Bytes → Entry → View → Reply ℕ × View
  del_entry k missing v = (ok 0, v)
  del_entry k (held x d) v = (ok 1, put k missing v)

  exists_entry : Entry → ℕ
  exists_entry missing = 0
  exists_entry (held x d) = 1

  pttl_entry : ℕ → Entry → ℤ
  pttl_entry now missing = negsuc 1
  pttl_entry now (held x none) = negsuc 0
  pttl_entry now (held x (some d)) = pos (d - now)

  pexpire_entry : Bytes → ℕ → Entry → View → Reply ℕ × View
  pexpire_entry k ttl missing v = (ok 0, v)
  pexpire_entry k ttl (held x d) v =
      if valid_ttl v.clock ttl
      then (ok 1, put k (held x (some (v.clock + ttl))) v)
      else (err refused, v)

  persist_entry : Bytes → Entry → View → Reply ℕ × View
  persist_entry k missing v = (ok 0, v)
  persist_entry k (held x none) v = (ok 0, v)
  persist_entry k (held x (some d)) v = (ok 1, put k (held x none) v)

  incrby_int : Bytes → ℤ → Option ℕ → Option ℤ → View → Reply ℤ × View
  incrby_int k delta d none v = (err refused, v)
  incrby_int k delta d (some n) v =
      if fits_i64 (n +ℤ delta)
      then (ok (n +ℤ delta), put k (held (text (c.of_int (n +ℤ delta))) d) v)
      else (err refused, v)

  incrby_entry : Bytes → ℤ → Entry → View → Reply ℤ × View
  unfolding incrby_int
  incrby_entry k delta missing v = incrby_int k delta none (some (pos 0)) v
  incrby_entry k delta (held (text b) d) v = incrby_int k delta d (c.as_int b) v
  incrby_entry k delta (held (sorted z) d) v = (err refused, v)

  -- A command on the sorted set at a key: the set that is left there, and the reply.
  on_zset : {A : Type 0} → Bytes → (Zset → Zset) → (Zset → A) → Entry → View → Reply A × View
  on_zset k f g missing v = (ok (g []), put k (pack (f []) none) v)
  on_zset k f g (held (text b) d) v = (err refused, v)
  on_zset k f g (held (sorted z) d) v = (ok (g z), put k (pack (f z) d) v)

  read_zset : {A : Type 0} → (Zset → A) → Entry → View → Reply A × View
  read_zset g missing v = (ok (g []), v)
  read_zset g (held (text b) d) v = (err refused, v)
  read_zset g (held (sorted z) d) v = (ok (g z), v)

  -- MGET answers nil for a key that holds no string.
  mget_entry : Entry → Option Bytes
  mget_entry missing = none
  mget_entry (held (text b) d) = some b
  mget_entry (held (sorted z) d) = none

  unfoldable pub documented : Commands View
  unfolding get_entry set_nx_entry del_entry exists_entry pttl_entry pexpire_entry persist_entry
      incrby_entry on_zset read_zset mget_entry
  documented = record {
    get = λ k v. (get_entry (v.at k), v);
    set = λ k x v. (ok tt, put k (held (text x) none) v);
    set_px = λ k x ttl v.
        if valid_ttl v.clock ttl
        then (ok tt, put k (held (text x) (some (v.clock + ttl))) v)
        else (err refused, v);
    set_nx = λ k x v. set_nx_entry k (held (text x) none) (v.at k) v;
    set_nx_px = λ k x ttl v.
        if valid_ttl v.clock ttl
        then set_nx_entry k (held (text x) (some (v.clock + ttl))) (v.at k) v
        else (err refused, v);
    del = λ k v. del_entry k (v.at k) v;
    exists = λ k v. (ok (exists_entry (v.at k)), v);
    pttl = λ k v. (ok (pttl_entry v.clock (v.at k)), v);
    pexpire = λ k ttl v. pexpire_entry k ttl (v.at k) v;
    persist = λ k v. persist_entry k (v.at k) v;
    incrby = λ k delta v. incrby_entry k delta (v.at k) v;
    return_integer = λ n v. (ok (c.through_lua n), v);
    zadd = λ k n m v. on_zset k (insert m n) (λ z. tt) (v.at k) v;
    zrem = λ k m v. on_zset k (remove m) (λ z. tt) (v.at k) v;
    zrangebylex = λ k lo hi n v. read_zset (λ z. take n (lex_range lo hi z)) (v.at k) v;
    zrangebyscore_upto =
        λ k top n v. read_zset (λ z. take n (names (by_score (upto top z)))) (v.at k) v;
    zrangebyscore_beyond = λ k low v. read_zset (λ z. names (by_score (beyond low z))) (v.at k) v;
    zremrangebyscore_upto = λ k top v. on_zset k (beyond top) (λ z. tt) (v.at k) v;
    mget = λ ks v. (ok (map (λ k. mget_entry (v.at k)) ks), v);
  }
