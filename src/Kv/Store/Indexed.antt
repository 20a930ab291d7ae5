-- ===== src/Kv/Store/Indexed.antt =====
-- src/state/kv.rs: the write operations of the key/value store and the key index.
use mcpg_plugin_cluster_redi.Common.{
  ℕ, ◌<◌, ◌^◌, ◌≡◌, refl, sym, ap, subst, Bool, true, false, Option, Bytes, codes, ◌++◌, [], ◌∷◌,
  arith, strip_prefix, strip_prefix-append, ne→same, same, ◌==◌, ltb, append-ne,
}
use mcpg_plugin_cluster_redi.Common.Int.{ℤ}
use mathlib.Core.List.{append_assoc}
use mcpg_plugin_cluster_redi.Script.{Script}
use mcpg_plugin_cluster_redi.Redis.View.{View}
use mcpg_plugin_cluster_redi.Redis.Server.{Server, Simulates}
use mcpg_plugin_cluster_redi.Client.{request, redis_err}
use mcpg_plugin_cluster_redi.Client.Keep.{
  Keeps, Keeps-request, Keeps-bind, Keeps-now_ms, Keeps-return,
}
use mcpg_plugin_cluster_redi.Keys.{RedisKv, with_connection_manager, join_prefix, full_key}
use mcpg_plugin_cluster_redi.Kv.Simulate.{
  Simulates-set_script, Simulates-del_script, Simulates-expire_script, Simulates-incr_script,
  Simulates-incr_floor_script,
}
use mcpg_plugin_cluster_redi.Kv.Index.{Layout, IsIndexed, is_some}
use mcpg_plugin_cluster_redi.Kv.Index.Scripts.{
  IsIndexed-set_script, IsIndexed-del_script, IsIndexed-expire_script, IsIndexed-incr_script,
  IsIndexed-incr_floor_script,
}
use mcpg_plugin_cluster_redi.Kv.Scripts.{
  set_script, del_script, expire_script, incr_script, incr_floor_script,
}
use mcpg_plugin_cluster_redi.Kv.Store.{
  ttl_ms, incr_err, put, put_if_absent, delete, expire, incr, incr_floor,
}

-- Data keys begin with the prefix and a colon.
unfoldable pub is_data_key : Bytes → Bytes → Bool
is_data_key p k = is_some (strip_prefix (p ++ codes ":") k)

pub strip-other :
    (p : Bytes) (s : Bytes) → is_some (strip_prefix (p ++ codes ":") (p ++ (b'#' ∷ s))) ≡ false
unfolding strip_prefix
strip-other [] s = refl
strip-other (c ∷ p) s = ground (arith, strip-other p s)

pub kv-indexes_differ :
    (p : Bytes) → same (p ++ codes "#kv-index") (p ++ codes "#kv-expiry") ≡ false
kv-indexes_differ p =
    ne→same _ _ (append-ne p {s = codes "#kv-index"} {t = codes "#kv-expiry"} (ground arith))

unfoldable pub layout : ℕ → Bytes → Layout
unfolding is_data_key with_connection_manager
layout c p = record {
  index = (with_connection_manager (c ∷ p)).index_key;
  expiry = (with_connection_manager (c ∷ p)).expiry_key;
  is_data = is_data_key (c ∷ p);
  index_not_data = strip-other (c ∷ p) (codes "kv-index");
  expiry_not_data = strip-other (c ∷ p) (codes "kv-expiry");
  indexes_differ = kv-indexes_differ (c ∷ p);
}

pub full_key-is_data :
    (c : ℕ) (p key : Bytes) → is_data_key (c ∷ p) (join_prefix (c ∷ p) key) ≡ true
unfolding is_data_key join_prefix
full_key-is_data c p key =
    rw (← append_assoc (c ∷ p) (codes ":") key)
      (rw (strip_prefix-append ((c ∷ p) ++ codes ":") key))

module _ (r : Server) (c : ℕ) (p : Bytes) where
  open r use {Store, commands, codec, view, laws}

  abbrev kv : RedisKv
  kv = with_connection_manager (c ∷ p)

  abbrev pub Indexed : Store → Type 0
  Indexed s = IsIndexed (layout c p) (view s)

  -- What a script keeps of the view, it keeps of the store.
  pub through_view :
      {A : Type 0} (m : Script Store A) (m' : Script View A)
      → Simulates view m m'
      → ((v : View) → IsIndexed (layout c p) v → IsIndexed (layout c p) (m' v).1)
      → (s : Store) → Indexed s
      → Indexed (m s).1
  through_view m m' sim keep s h =
      subst (IsIndexed (layout c p)) (sym (ap (λ x. x.1) (sim.run s))) (keep (view s) h)

  module _ (key : Bytes) where
    is_data : (layout c p).is_data (full_key kv key) ≡ true
    unfolding layout with_connection_manager
    is_data = full_key-is_data c p key

    abbrev key_of : Bytes
    key_of = full_key kv key

    set-Keeps :
        (value : Bytes) (ttl now : ℕ) (nx : Bool)
        → ttl < 2 ^ 52
        → Keeps Indexed (
            request redis_err
              (set_script commands key_of kv.index_key kv.expiry_key value ttl now nx))
    unfolding layout with_connection_manager
    set-Keeps value ttl now nx small = Keeps-request redis_err _ (
        through_view _ _
          (Simulates-set_script laws key_of kv.index_key kv.expiry_key value ttl now nx)
          (λ v h.
            IsIndexed-set_script codec (layout c p) v h key_of is_data value ttl now nx
              (omega (arith, h.early))))

    delete-Keeps :
        Keeps Indexed (request redis_err (del_script commands key_of kv.index_key kv.expiry_key))
    unfolding layout with_connection_manager
    delete-Keeps = Keeps-request redis_err _ (
        through_view _ _ (Simulates-del_script laws key_of kv.index_key kv.expiry_key)
          (λ v h. IsIndexed-del_script codec (layout c p) v h key_of is_data))

    expire-Keeps :
        (ttl now : ℕ)
        → ttl < 2 ^ 52
        → Keeps Indexed
            (request redis_err (expire_script commands key_of kv.index_key kv.expiry_key ttl now))
    unfolding layout with_connection_manager
    expire-Keeps ttl now small = Keeps-request redis_err _ (
        through_view _ _ (Simulates-expire_script laws key_of kv.index_key kv.expiry_key ttl now)
          (λ v h.
            IsIndexed-expire_script codec (layout c p) v h key_of is_data ttl now
              (omega (arith, h.early))))

    incr-Keeps :
        (delta : ℤ) (ttl now : ℕ)
        → ttl < 2 ^ 52
        → Keeps Indexed (
            request incr_err (incr_script commands key_of kv.index_key kv.expiry_key delta ttl now))
    unfolding layout with_connection_manager
    incr-Keeps delta ttl now small = Keeps-request incr_err _ (
        through_view _ _
          (Simulates-incr_script laws key_of kv.index_key kv.expiry_key delta ttl now)
          (λ v h.
            IsIndexed-incr_script codec (layout c p) v h key_of is_data delta ttl now
              (omega (arith, h.early))))

    incr_floor-Keeps :
        (delta : ℤ) (ttl now : ℕ) (floor : ℤ)
        → ttl < 2 ^ 52
        → Keeps Indexed (
            request incr_err (
              incr_floor_script commands codec key_of kv.index_key kv.expiry_key delta ttl now
                floor))
    unfolding layout with_connection_manager
    incr_floor-Keeps delta ttl now floor small = Keeps-request incr_err _ (
        through_view _ _
          (Simulates-incr_floor_script laws key_of kv.index_key kv.expiry_key delta ttl now floor)
          (λ v h.
            IsIndexed-incr_floor_script codec (layout c p) v h key_of is_data delta ttl now floor
              (omega (arith, h.early))))

    -- On a server that behaves as documented, under a key prefix that is not empty, and with a TTL
    -- below 2^52 ms, each write operation of the store keeps the key index complete and sweepable,
    -- from any such store and under any schedule of other clients that keep it so, whichever
    -- requests and replies are lost.
    pub Keeps-writes :
        (value : Bytes) (delta floor : ℤ) (ttl : Option ℕ)
        → ttl_ms ttl < 2 ^ 52
        → Keeps Indexed (put commands kv key value ttl)
          × Keeps Indexed (put_if_absent commands kv key value ttl)
          × Keeps Indexed (delete commands kv key)
          × Keeps Indexed (expire commands kv key ttl)
          × Keeps Indexed (incr commands kv key delta ttl)
          × Keeps Indexed (incr_floor commands kv codec key delta floor ttl)
    unfolding put put_if_absent delete expire incr incr_floor
    Keeps-writes value delta floor ttl small = (
      Keeps-bind Keeps-now_ms
          λ now. Keeps-bind (set-Keeps value (ttl_ms ttl) now false small) λ _. Keeps-return tt,
      Keeps-bind Keeps-now_ms λ now.
          Keeps-bind (set-Keeps value (ttl_ms ttl) now true small) λ n. Keeps-return (n == 1),
      Keeps-bind delete-Keeps λ n. Keeps-return (ltb 0 n),
      Keeps-bind Keeps-now_ms
          λ now. Keeps-bind (expire-Keeps (ttl_ms ttl) now small) λ n. Keeps-return (n == 1),
      Keeps-bind Keeps-now_ms λ now. incr-Keeps delta (ttl_ms ttl) now small,
      Keeps-bind Keeps-now_ms λ now. incr_floor-Keeps delta (ttl_ms ttl) now floor small,
    )
