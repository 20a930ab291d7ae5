-- ===== src/Kv/Spec/Run/Writes.antt =====
-- src/state/kv.rs: writes of a value or a deadline, beside their commands on the map.
use mcpg_plugin_cluster_redi.Common.{ℕ, ◌≡◌, refl, ap, ◌∙◌, true, false, Option, none, some, Bytes}
use mcpg_plugin_cluster_redi.Client.{pipeline-quiet}
use mcpg_plugin_cluster_redi.Redis.View.{text}
use mcpg_plugin_cluster_redi.Redis.Server.{Server, reply_of}
use mcpg_plugin_cluster_redi.Kv.Effect.{set_script_lem, set_script_absent, set_script_taken}
use mcpg_plugin_cluster_redi.Kv.Effect.Ttl.{expire_script_live, expire_script_absent}
use mcpg_plugin_cluster_redi.Kv.Simulate.{Simulates-set_script, Simulates-expire_script}
use mcpg_plugin_cluster_redi.Kv.Store as KvStore
use mcpg_plugin_cluster_redi.Kv.Store.{ttl_ms, incr_err}
use mcpg_plugin_cluster_redi.Kv.Spec.{
  Item, Map, put, put_if_absent, expire, stored, flag, write, step, from_now,
}
use mcpg_plugin_cluster_redi.Kv.Spec.Steps.{perform}
use mcpg_plugin_cluster_redi.Kv.Spec.Refines.{Shows, entry_for, kv}
use mcpg_plugin_cluster_redi.Kv.Spec.Run.{
  Fits, Follows, in_time, full, apart, follow, Shows-left, Shows-new,
}

module _ (r : Server) (c : ℕ) (p : Bytes) where
  open r use {Store, commands, codec, view, laws}

  module _ (s : Store) (m : Map) (h : Shows c p (view s) m) where
    pub follows_put :
        (k x : Bytes) (ttl : Option ℕ)
        → Fits m.clock (put k x ttl)
        → Follows r c p (put k x ttl) s m
    unfolding perform step KvStore.put
    follows_put k x ttl small =
        let (replied, left) =
          reply_of s
            (Simulates-set_script laws (full r c p s m h k) (kv c p).index_key (kv c p).expiry_key x
              (ttl_ms ttl) m.now false)
            (set_script_lem codec (apart r c p s m h k) x (ttl_ms ttl) m.now
              (in_time r c p s m h (ttl_ms ttl) small)) in
        follow r c p s m h (put k x ttl)
          (
            stored,
            write k (some (record { value = x; deadline = from_now m.clock (ttl_ms ttl) })) m,
          )
          refl (rw pipeline-quiet (rw replied refl))
          (refl, Shows-left r c p s m h _ left (Shows-new r c p s m h k x (ttl_ms ttl)), refl)

    pub follows_expire :
        (k : Bytes) (ttl : Option ℕ) (i : Option Item)
        → m.at k ≡ i
        → Fits m.clock (expire k ttl)
        → Follows r c p (expire k ttl) s m
    unfolding perform step KvStore.expire
    follows_expire k ttl none e small =
        let (replied, left) =
          reply_of s
            (Simulates-expire_script laws (full r c p s m h k) (kv c p).index_key
              (kv c p).expiry_key (ttl_ms ttl) m.now)
            (expire_script_absent codec (apart r c p s m h k) (ttl_ms ttl) m.now
              (h.items k ∙ ap entry_for e)) in
        follow r c p s m h (expire k ttl) (flag false, m) (rw e refl)
          (rw pipeline-quiet (rw replied refl)) (refl, Shows-left r c p s m h m left h, refl)
    follows_expire k ttl (some i) e small =
        let (replied, left) =
          reply_of s
            (Simulates-expire_script laws (full r c p s m h k) (kv c p).index_key
              (kv c p).expiry_key (ttl_ms ttl) m.now)
            (expire_script_live codec (apart r c p s m h k) (ttl_ms ttl) m.now (text i.value)
              i.deadline (in_time r c p s m h (ttl_ms ttl) small) (h.items k ∙ ap entry_for e)) in
        follow r c p s m h (expire k ttl)
          (
            flag true,
            write k (some (record { value = i.value; deadline = from_now m.clock (ttl_ms ttl) })) m,
          )
          (rw e refl) (rw pipeline-quiet (rw replied refl))
          (
            refl,
            Shows-left r c p s m h
                (write k
                  (some (record { value = i.value; deadline = from_now m.clock (ttl_ms ttl) })) m)
                left (Shows-new r c p s m h k i.value (ttl_ms ttl)),
            refl,
          )

    pub follows_put_if_absent :
        (k x : Bytes) (ttl : Option ℕ) (i : Option Item)
        → m.at k ≡ i
        → Fits m.clock (put_if_absent k x ttl)
        → Follows r c p (put_if_absent k x ttl) s m
    unfolding perform step KvStore.put_if_absent
    follows_put_if_absent k x ttl none e small =
        let (replied, left) =
          reply_of s
            (Simulates-set_script laws (full r c p s m h k) (kv c p).index_key (kv c p).expiry_key x
              (ttl_ms ttl) m.now true)
            (set_script_absent codec (apart r c p s m h k) x (ttl_ms ttl) m.now
              (in_time r c p s m h (ttl_ms ttl) small) (h.items k ∙ ap entry_for e)) in
        follow r c p s m h (put_if_absent k x ttl)
          (
            flag true,
            write k (some (record { value = x; deadline = from_now m.clock (ttl_ms ttl) })) m,
          )
          (rw e refl) (rw pipeline-quiet (rw replied refl))
          (
            refl,
            Shows-left r c p s m h
                (write k (some (record { value = x; deadline = from_now m.clock (ttl_ms ttl) })) m)
                left (Shows-new r c p s m h k x (ttl_ms ttl)),
            refl,
          )
    follows_put_if_absent k x ttl (some i) e small =
        let (replied, left) =
          reply_of s
            (Simulates-set_script laws (full r c p s m h k) (kv c p).index_key (kv c p).expiry_key x
              (ttl_ms ttl) m.now true)
            (set_script_taken codec (apart r c p s m h k) x (ttl_ms ttl) m.now (text i.value)
              i.deadline (in_time r c p s m h (ttl_ms ttl) small) (h.items k ∙ ap entry_for e)) in
        follow r c p s m h (put_if_absent k x ttl) (flag false, m) (rw e refl)
          (rw pipeline-quiet (rw replied refl)) (refl, Shows-left r c p s m h m left h, refl)
