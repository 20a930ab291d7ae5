-- ===== src/Kv/Effect/Ttl.antt =====
-- EXPIRE_LUA and the counter scripts: what they leave in the keyspace.
use mcpg_plugin_cluster_redi.Common.{
  ℕ, ◌+◌, ◌≡◌, refl, ap, sym, true, false, Option, none, some, Bytes, same_refl, ltb, arith,
  if◌then◌else◌, Bool-cases, inl, inr,
}
use mcpg_plugin_cluster_redi.Common.Int.{ℤ, fits_i64, ◌+ℤ◌}
use mcpg_plugin_cluster_redi.Script.{Reply, ok, err, sentinel}
use mcpg_plugin_cluster_redi.Redis.View.{
  View, Entry, missing, held, Value, text, put, deadline, put_same, put-put,
}
use mcpg_plugin_cluster_redi.Redis.Commands.{Codec, documented}
use mcpg_plugin_cluster_redi.Redis.Commands.Laws.{
  with_member, zadd_lem, zrem_lem, pexpire_lem, exists_lem, persist_lem, incrby_lem, incrby_fails,
  return_integer_lem, number_of,
}
use mcpg_plugin_cluster_redi.Kv.Scripts.{change_ttl, expire_script, incr_indexes, incr_script}
use mcpg_plugin_cluster_redi.Kv.Effect.{Apart, InTime, new_deadline, ttl_entry, written}

module _ (codec : Codec) {key index expiry : Bytes} {v : View} (h : Apart key index expiry v) where
  change_ttl_lem :
      (ttl now : ℕ) (x : Value) (d : Option ℕ)
      → InTime ttl v
      → v.at key ≡ held x d
      → change_ttl (documented codec) key expiry ttl now v ≡ (
        ok tt,
        put expiry
            (ttl_entry key ttl now (v.at expiry))
            (put key (held x (new_deadline v.clock ttl)) v),
      )
  unfolding change_ttl
  change_ttl_lem ttl now x d t e = elim (Bool-cases (ltb 0 ttl)) [
    | inl p ↦
        let w : View = put key (held x (some (v.clock + ttl))) v in
        rw p (
          rw (pexpire_lem codec key ttl v e (ground arith)) (
            rw (zadd_lem codec expiry (now + ttl) key w (rw h.key_expiry h.expiry_sorted))
              (rw h.key_expiry)))
    | inr p ↦
        let w : View = put key (held x none) v in
        let (n, persisted) = persist_lem codec key x d v e in
        rw p (
          rw persisted
            (rw (zrem_lem codec expiry key w (rw h.key_expiry h.expiry_sorted)) (rw h.key_expiry)))
  ]

  -- EXPIRE_LUA on a live key
  pub expire_script_live :
      (ttl now : ℕ) (x : Value) (d : Option ℕ)
      → InTime ttl v
      → v.at key ≡ held x d
      → expire_script (documented codec) key index expiry ttl now v ≡ (
        ok 1,
        written key index expiry
            (held x (new_deadline v.clock ttl))
            (ttl_entry key ttl now (v.at expiry))
            v,
      )
  unfolding expire_script
  expire_script_live ttl now x d t e =
      let w : View =
        put expiry (ttl_entry key ttl now (v.at expiry))
          (put key (held x (new_deadline v.clock ttl)) v) in
      rw (exists_lem codec key v) (
        rw e (
          rw (change_ttl_lem ttl now x d t e) (
            rw (zadd_lem codec index 0 key w (rw (h.expiry_index, h.key_index) h.index_sorted))
              (rw (h.expiry_index, h.key_index)))))

  -- EXPIRE_LUA on an absent key
  pub expire_script_absent :
      (ttl now : ℕ)
      → v.at key ≡ missing
      → expire_script (documented codec) key index expiry ttl now v ≡ (ok 0, v)
  unfolding expire_script
  expire_script_absent ttl now e = rw (exists_lem codec key v) (rw e)

  abbrev pub kept_times : ℕ → ℕ → Entry
  kept_times ttl now = if ltb 0 ttl then with_member key (now + ttl) (v.at expiry) else v.at expiry

  abbrev pub kept_deadline : ℕ → Option ℕ → Option ℕ
  kept_deadline ttl d = if ltb 0 ttl then some (v.clock + ttl) else d

  incr_indexes_lem :
      (ttl now : ℕ) (x : Value) (d : Option ℕ) (ret : ℤ)
      → InTime ttl v
      → incr_indexes (documented codec) key index expiry ttl now ret (put key (held x d) v) ≡ (
        ok (codec.through_lua ret),
        written key index expiry (held x (kept_deadline ttl d)) (kept_times ttl now) v,
      )
  unfolding incr_indexes
  incr_indexes_lem ttl now x d ret t = elim (Bool-cases (ltb 0 ttl)) [
    | inl p ↦
        let w : View = put key (held x d) v in
        let u : View = put key (held x (some (v.clock + ttl))) v in
        let z : View = put expiry (with_member key (now + ttl) (u.at expiry)) u in
        rw p (
          rw (pexpire_lem codec key ttl {x = x} {d = d} w (rw (same_refl key)) (ground arith)) (
            rw (put-put key (held x (some (v.clock + ttl))) (held x d) v) (
              rw (zadd_lem codec expiry (now + ttl) key u (rw h.key_expiry h.expiry_sorted)) (
                rw (zadd_lem codec index 0 key z (rw (h.expiry_index, h.key_index) h.index_sorted))
                  (rw (return_integer_lem codec ret _)
                    (rw (h.expiry_index, h.key_index, h.key_expiry)))))))
    | inr p ↦
        let w : View = put key (held x d) v in
        rw p (
          rw (zadd_lem codec index 0 key w (rw h.key_index h.index_sorted)) (
            rw (return_integer_lem codec ret _) (
              rw h.key_index (
                ap
                  (λ (u : View).
                    let r : Reply ℤ × View =
                      (ok (codec.through_lua ret), put index (with_member key 0 (v.at index)) u) in
                    r)
                  (sym (put_same expiry {e = v.at expiry} w (rw h.key_expiry refl)))))))
  ]

  -- INCR_LUA where the key is missing or holds an integer, and the sum is an i64
  pub incr_script_lem :
      (delta : ℤ) (ttl now : ℕ) (n : ℤ)
      → InTime ttl v
      → number_of codec (v.at key) ≡ some n
      → fits_i64 (n +ℤ delta) ≡ true
      → incr_script (documented codec) key index expiry delta ttl now v ≡ (
        ok (codec.through_lua (n +ℤ delta)),
        written key index expiry
            (held (text (codec.of_int (n +ℤ delta))) (kept_deadline ttl (deadline (v.at key))))
            (kept_times ttl now)
            v,
      )
  unfolding incr_script
  incr_script_lem delta ttl now n t e f = rw (incrby_lem codec key delta n v e f) (
      incr_indexes_lem ttl now (text (codec.of_int (n +ℤ delta))) (deadline (v.at key)) (n +ℤ delta)
        t)

  -- INCR_LUA on any other value, or past the range of an i64
  pub incr_script_fails :
      (delta : ℤ) (ttl now : ℕ)
      → ((n : ℤ) → number_of codec (v.at key) ≡ some n → fits_i64 (n +ℤ delta) ≡ false)
      → incr_script (documented codec) key index expiry delta ttl now v ≡ (err sentinel, v)
  unfolding incr_script
  incr_script_fails delta ttl now e = rw (incrby_fails codec key delta v e)
