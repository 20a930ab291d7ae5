-- ===== src/Kv/Effect.antt =====
-- What each script leaves in the keyspace, as one equation: the data key, the expiry index and the
-- key index.
pub mod Ttl
use mcpg_plugin_cluster_redi.Common.{
  ℕ, ◌+◌, ◌<◌, ◌^◌, ◌≡◌, ◌≢◌, refl, ap, fun_ext, Bool, true, false, Option, none, some, Bytes, same,
  same_iff, ltb, ◌==◌, arith, if◌then◌else◌, Bool-cases, inl, inr,
}
use mcpg_plugin_cluster_redi.Common.Int.{ℤ}
use mcpg_plugin_cluster_redi.Script.{Script, Reply, ok, err, sentinel, ◌>>=◌}
use mcpg_plugin_cluster_redi.Redis.View.{
  View, Entry, missing, held, Value, text, sorted, put, deadline, IsSorted, IsText,
}
use mcpg_plugin_cluster_redi.Redis.Commands.{Codec, documented, valid_ttl}
use mcpg_plugin_cluster_redi.Redis.Commands.Laws.{
  with_member, without_member, zadd_lem, zrem_lem, valid-small, pexpire_lem, del_lem, exists_lem,
  persist_lem, incrby_lem, incrby_fails, number_of, count,
}
use mcpg_plugin_cluster_redi.Redis.Commands.Laws.Strings.{
  set_px_lem, set_lem, set_nx_lem, set_nx_px_lem, set_nx_taken, set_nx_px_taken,
}
use mcpg_plugin_cluster_redi.Kv.Scripts.{
  set_value, index_ttl, set_script, del_script, change_ttl, expire_script, incr_indexes,
  incr_script,
}

-- The three keys of a script differ, and the indexes can be used as sorted sets.
pub record Apart (key index expiry : Bytes) (v : View) : Type 0 where
  pub key_index : same key index ≡ false
  pub key_expiry : same key expiry ≡ false
  pub index_expiry : same index expiry ≡ false
  pub expiry_index : same expiry index ≡ false
  pub index_sorted : IsSorted (v.at index)
  pub expiry_sorted : IsSorted (v.at expiry)

-- The deadline of a write is a time that Redis takes and that doubles hold exactly.
abbrev pub InTime : ℕ → View → Type 0
InTime ttl v = v.clock + ttl < 2 ^ 53

abbrev pub new_deadline : ℕ → ℕ → Option ℕ
new_deadline clock ttl = if ltb 0 ttl then some (clock + ttl) else none

abbrev pub ttl_entry : Bytes → ℕ → ℕ → Entry → Entry
ttl_entry key ttl now e = if ltb 0 ttl then with_member key (now + ttl) e else without_member key e

-- A data key, its expiry entry and its index entry, written together.
abbrev pub written : Bytes → Bytes → Bytes → Entry → Entry → View → View
written key index expiry e times v =
    put index (with_member key 0 (v.at index)) (put expiry times (put key e v))

module _ (codec : Codec) where
  set_value_lem :
      (key value : Bytes) (ttl : ℕ) (v : View)
      → v.clock + ttl < 2 ^ 53
      → set_value (documented codec) key value ttl false v
        ≡ (ok true, put key (held (text value) (new_deadline v.clock ttl)) v)
  unfolding set_value
  set_value_lem key value ttl v h = elim (Bool-cases (ltb 0 ttl)) [
    | inl p ↦ rw p (rw (set_px_lem codec key value ttl v (ground arith)))
    | inr p ↦ rw p (rw (set_lem codec key value v))
  ]

  pub set_value_nx :
      (key value : Bytes) (ttl : ℕ) (v : View)
      → v.clock + ttl < 2 ^ 53
      → v.at key ≡ missing
      → set_value (documented codec) key value ttl true v
        ≡ (ok true, put key (held (text value) (new_deadline v.clock ttl)) v)
  unfolding set_value
  set_value_nx key value ttl v h e = elim (Bool-cases (ltb 0 ttl)) [
    | inl p ↦ rw p (rw (set_nx_px_lem codec key value ttl v (ground arith) e))
    | inr p ↦ rw p (rw (set_nx_lem codec key value v e))
  ]

  pub set_value_taken :
      (key value : Bytes) (ttl : ℕ) (v : View) (x : Value) (d : Option ℕ)
      → v.clock + ttl < 2 ^ 53
      → v.at key ≡ held x d
      → set_value (documented codec) key value ttl true v ≡ (ok false, v)
  unfolding set_value
  set_value_taken key value ttl v x d h e = elim (Bool-cases (ltb 0 ttl)) [
    | inl p ↦ rw p (rw (set_nx_px_taken codec key value ttl v (ground arith) e))
    | inr p ↦ rw p (rw (set_nx_taken codec key value v e))
  ]

  index_ttl_lem :
      (expiry key : Bytes) (ttl now : ℕ) (v : View)
      → IsSorted (v.at expiry)
      → index_ttl (documented codec) expiry key ttl now v
        ≡ (ok tt, put expiry (ttl_entry key ttl now (v.at expiry)) v)
  unfolding index_ttl
  index_ttl_lem expiry key ttl now v h = elim (Bool-cases (ltb 0 ttl)) [
    | inl p ↦ rw p (rw (zadd_lem codec expiry (now + ttl) key v h))
    | inr p ↦ rw p (rw (zrem_lem codec expiry key v h))
  ]

  module _ {key index expiry : Bytes} {v : View} (h : Apart key index expiry v) where
    -- SET_LUA without NX.
    pub set_script_lem :
        (value : Bytes) (ttl now : ℕ)
        → InTime ttl v
        → set_script (documented codec) key index expiry value ttl now false v ≡ (
          ok 1,
          written key index expiry
              (held (text value) (new_deadline v.clock ttl))
              (ttl_entry key ttl now (v.at expiry))
              v,
        )
    unfolding set_script
    set_script_lem value ttl now t =
        let w : View = put key (held (text value) (new_deadline v.clock ttl)) v in
        rw (set_value_lem key value ttl v t) (
          rw (index_ttl_lem expiry key ttl now w (rw h.key_expiry h.expiry_sorted)) (
            rw
              (zadd_lem codec index 0 key (put expiry (ttl_entry key ttl now (w.at expiry)) w)
                (rw (h.expiry_index, h.key_index) h.index_sorted))
              (rw (h.expiry_index, h.key_index, h.key_expiry) refl)))

    -- SET_LUA with NX on an absent key, which is the only one that stores.
    pub set_script_absent :
        (value : Bytes) (ttl now : ℕ)
        → InTime ttl v
        → v.at key ≡ missing
        → set_script (documented codec) key index expiry value ttl now true v ≡ (
          ok 1,
          written key index expiry
              (held (text value) (new_deadline v.clock ttl))
              (ttl_entry key ttl now (v.at expiry))
              v,
        )
    unfolding set_script
    set_script_absent value ttl now t e =
        let w : View = put key (held (text value) (new_deadline v.clock ttl)) v in
        rw (set_value_nx key value ttl v t e) (
          rw (index_ttl_lem expiry key ttl now w (rw h.key_expiry h.expiry_sorted)) (
            rw
              (zadd_lem codec index 0 key (put expiry (ttl_entry key ttl now (w.at expiry)) w)
                (rw (h.expiry_index, h.key_index) h.index_sorted))
              (rw (h.expiry_index, h.key_index, h.key_expiry) refl)))

    -- SET_LUA with NX on a live key changes nothing and answers 0.
    pub set_script_taken :
        (value : Bytes) (ttl now : ℕ) (x : Value) (d : Option ℕ)
        → InTime ttl v
        → v.at key ≡ held x d
        → set_script (documented codec) key index expiry value ttl now true v ≡ (ok 0, v)
    unfolding set_script
    set_script_taken value ttl now x d t e = rw (set_value_taken key value ttl v x d t e)

    -- DEL_LUA
    pub del_script_lem : del_script (documented codec) key index expiry v ≡ (
      ok (count (v.at key)),
      put expiry
          (without_member key (v.at expiry))
          (put index (without_member key (v.at index)) (put key missing v)),
    )
    unfolding del_script
    del_script_lem = rw (del_lem codec key v) (
        rw (zrem_lem codec index key (put key missing v) (rw h.key_index h.index_sorted)) (
          rw
            (zrem_lem codec expiry key
              (put index (without_member key ((put key missing v).at index)) (put key missing v))
              (rw (h.index_expiry, h.key_expiry) h.expiry_sorted))
            (rw (h.index_expiry, h.key_index, h.key_expiry) refl)))
