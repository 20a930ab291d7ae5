-- ===== src/Kv/Spec/Run/Counter.antt =====
-- src/state/kv.rs: a counter, beside its command on the map.
use mcpg_plugin_cluster_redi.Common.{
  ℕ, ◌≡◌, refl, ap, ◌∙◌, Option, none, some, Bytes, Bool-cases, inl, inr,
}
use mcpg_plugin_cluster_redi.Common.Int.{ℤ, ◌+ℤ◌, fits_i64}
use mcpg_plugin_cluster_redi.Client.{precondition, pipeline-quiet}
use mcpg_plugin_cluster_redi.Redis.View.{held, text, deadline}
use mcpg_plugin_cluster_redi.Redis.Server.{Server, reply_of}
use mcpg_plugin_cluster_redi.Kv.Effect.{written}
use mcpg_plugin_cluster_redi.Kv.Effect.Ttl.{
  incr_script_lem, incr_script_fails, kept_times, kept_deadline,
}
use mcpg_plugin_cluster_redi.Kv.Simulate.{Simulates-incr_script}
use mcpg_plugin_cluster_redi.Kv.Store as KvStore
use mcpg_plugin_cluster_redi.Kv.Store.{ttl_ms, incr_err}
use mcpg_plugin_cluster_redi.Kv.Spec.{
  Item, Map, incr, number, failed, write, step, kept, integer, deadline_of,
}
use mcpg_plugin_cluster_redi.Kv.Spec.Steps.{perform}
use mcpg_plugin_cluster_redi.Kv.Spec.Refines.{Shows, Shows-written, kv}
use mcpg_plugin_cluster_redi.Kv.Spec.Run.{
  Fits, Follows, in_time, full, apart, held_integer, IsSorted-kept_times, follow, Shows-left,
  deadline-entry_for,
}

module _ (r : Server) (c : ℕ) (p : Bytes) where
  open r use {Store, commands, codec, view, laws}

  module _ (s : Store) (m : Map) (h : Shows c p (view s) m) where
    -- A write that keeps the deadline where no TTL is given.
    Shows-counted :
        (k : Bytes) (ttl : ℕ) (x : Bytes)
        → Shows c p
            (written
              (full r c p s m h k)
              (kv c p).index_key
              (kv c p).expiry_key
              (held (text x) (
                kept_deadline codec
                  (apart r c p s m h k)
                  ttl
                  (deadline ((view s).at (full r c p s m h k)))))
              (kept_times codec (apart r c p s m h k) ttl m.now)
              (view s))
            (write k
              (some (record { value = x; deadline = kept m.clock ttl (deadline_of (m.at k)) }))
              m)
    Shows-counted k ttl x =
        Shows-written c p (view s) m h k
          (held (text x) (
            kept_deadline codec (apart r c p s m h k) ttl
              (deadline ((view s).at (full r c p s m h k)))))
          (kept_times codec (apart r c p s m h k) ttl m.now)
          (record { value = x; deadline = kept m.clock ttl (deadline_of (m.at k)) })
          (rw (h.items k, deadline-entry_for (m.at k), h.clock) refl)
          (IsSorted-kept_times r c p s m h k ttl)

    pub follows_incr :
        (k : Bytes) (delta : ℤ) (ttl : Option ℕ) (n : Option ℤ)
        → integer codec (m.at k) ≡ n
        → Fits m.clock (incr k delta ttl)
        → Follows r c p (incr k delta ttl) s m
    unfolding perform step KvStore.incr incr_err
    follows_incr k delta ttl none e small =
        let (replied, left) =
          reply_of s
            (Simulates-incr_script laws (full r c p s m h k) (kv c p).index_key (kv c p).expiry_key
              delta (ttl_ms ttl) m.now)
            (incr_script_fails codec (apart r c p s m h k) delta (ttl_ms ttl) m.now
              (λ n q. let none_held = held_integer r c p s m h k ∙ e in cc)) in
        follow r c p s m h (incr k delta ttl) (failed precondition, m) (rw e refl)
          (rw pipeline-quiet (rw replied refl)) (refl, Shows-left r c p s m h m left h, refl)
    follows_incr k delta ttl (some n) e small = elim (Bool-cases (fits_i64 (n +ℤ delta))) [
      | inl f ↦
          let counted : Item = record {
            value = codec.of_int (n +ℤ delta);
            deadline = kept m.clock (ttl_ms ttl) (deadline_of (m.at k));
          } in
          let (replied, left) =
            reply_of s
              (Simulates-incr_script laws (full r c p s m h k) (kv c p).index_key
                (kv c p).expiry_key delta (ttl_ms ttl) m.now)
              (incr_script_lem codec (apart r c p s m h k) delta (ttl_ms ttl) m.now n
                (in_time r c p s m h (ttl_ms ttl) small) (held_integer r c p s m h k ∙ e) f) in
          follow r c p s m h (incr k delta ttl)
            (number (codec.through_lua (n +ℤ delta)), write k (some counted) m) (rw e (rw f refl))
            (rw pipeline-quiet (rw replied refl))
            (
              refl,
              Shows-left r c p s m h (write k (some counted) m) left
                  (Shows-counted k (ttl_ms ttl) (codec.of_int (n +ℤ delta))),
              refl,
            )
      | inr f ↦
          let (replied, left) =
            reply_of s
              (Simulates-incr_script laws (full r c p s m h k) (kv c p).index_key
                (kv c p).expiry_key delta (ttl_ms ttl) m.now)
              (incr_script_fails codec (apart r c p s m h k) delta (ttl_ms ttl) m.now (λ n' q.
                ap (λ (z : ℤ). fits_i64 (z +ℤ delta))
                  (let held_n = held_integer r c p s m h k ∙ e in cc)
                ∙ f)) in
          follow r c p s m h (incr k delta ttl) (failed precondition, m) (rw e (rw f refl))
            (rw pipeline-quiet (rw replied refl)) (refl, Shows-left r c p s m h m left h, refl)
    ]
