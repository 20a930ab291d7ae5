-- ===== src/Keys/Apart.antt =====
-- The names of keys, against one another.
use mcpg_plugin_cluster_redi.Common.{
  same, ne→same, same-append, sym, ◌∙◌, false, ℕ, Bytes, codes, ◌++◌, [], ◌∷◌, strip_prefix-append,
  append-ne, ◌≡◌, ◌≢◌, refl, arith,
}
use mathlib.Core.List.{append_assoc}
use mcpg_plugin_cluster_redi.Keys.{
  RedisKv, with_connection_manager, join_prefix, strip, full_key, logical_key, full_topic,
  lease_key, fence_key, peer_key, peers_index_key,
}

strip-join_prefix : (p key : Bytes) → strip p (join_prefix p key) ≡ key
unfolding strip join_prefix
strip-join_prefix [] key = refl
strip-join_prefix (c ∷ p) key =
    rw (← append_assoc (c ∷ p) (codes ":") key)
      (rw (strip_prefix-append ((c ∷ p) ++ codes ":") key))

-- `logical_key` gives back the caller's key from its full key, and the topic bus the topic from its
-- channel, with and without a prefix.
pub logical_key-full_key :
    (p key topic : Bytes)
    → (logical_key (with_connection_manager p) (full_key (with_connection_manager p) key) ≡ key)
      × (strip p (full_topic p topic) ≡ topic)
unfolding with_connection_manager
logical_key-full_key p key topic = (strip-join_prefix p key, strip-join_prefix p topic)

-- Behind the same prefix two names differ as soon as their first characters do.
heads_differ : (p : Bytes) {a b : ℕ} (s t : Bytes) → a ≢ b → p ++ (a ∷ s) ≢ p ++ (b ∷ t)
heads_differ p {a} {b} s t h = append-ne p (λ e. h (ground arith))

module _ (c : ℕ) (p : Bytes) where
  abbrev kv : RedisKv
  kv = with_connection_manager (c ∷ p)

  -- With a key prefix no data key is an index key, the mark of a complete index, a lease or its
  -- fence, a peer registration or the set of peers.
  pub data_key-apart :
      (key name node_id : Bytes)
      → (full_key kv key ≢ kv.index_key)
        × (full_key kv key ≢ kv.expiry_key)
        × (full_key kv key ≢ kv.complete_key)
        × (full_key kv key ≢ lease_key (c ∷ p) (codes "locks") name)
        × (full_key kv key ≢ fence_key (c ∷ p) (codes "locks") name)
        × (full_key kv key ≢ lease_key (c ∷ p) (codes "leadership") name)
        × (full_key kv key ≢ fence_key (c ∷ p) (codes "leadership") name)
        × (full_key kv key ≢ peer_key (c ∷ p) node_id)
        × (full_key kv key ≢ peers_index_key (c ∷ p))
  unfolding with_connection_manager join_prefix lease_key fence_key peer_key peers_index_key
  data_key-apart key name node_id = (
    heads_differ (c ∷ p) _ _ (omega arith),
    heads_differ (c ∷ p) _ _ (omega arith),
    heads_differ (c ∷ p) _ _ (omega arith),
    heads_differ (c ∷ p) _ _ (omega arith),
    heads_differ (c ∷ p) _ _ (omega arith),
    heads_differ (c ∷ p) _ _ (omega arith),
    heads_differ (c ∷ p) _ _ (omega arith),
    heads_differ (c ∷ p) _ _ (omega arith),
    heads_differ (c ∷ p) _ _ (omega arith),
  )

-- Without a prefix a data key can be the key index itself, so `validate` has to refuse an empty one.
pub no_prefix_clash :
    full_key (with_connection_manager []) (codes "#kv-index")
    ≡ (with_connection_manager []).index_key
unfolding with_connection_manager join_prefix
no_prefix_clash = refl

-- The fence counter of one name is the lease key of another.
pub fence-lease_clash :
    (prefix kind name : Bytes)
    → fence_key prefix kind name ≡ lease_key prefix kind (name ++ codes ":fence")
unfolding fence_key lease_key
fence-lease_clash prefix kind name = refl

peers_ne : (prefix id : Bytes) → peer_key prefix id ≢ peers_index_key prefix
unfolding peer_key peers_index_key
peers_ne prefix id = append-ne prefix (ground arith)

pub peer_key-apart :
    (prefix node : Bytes) → same (peer_key prefix node) (peers_index_key prefix) ≡ false
peer_key-apart prefix node = ne→same _ _ (peers_ne prefix node)

pub same-peer_key :
    (prefix id other : Bytes) → same (peer_key prefix id) (peer_key prefix other) ≡ same id other
unfolding peer_key
same-peer_key prefix id other =
    same-append prefix (codes "peers/" ++ id) (codes "peers/" ++ other)
    ∙ same-append (codes "peers/") id other

pub peers_index-apart :
    (prefix node : Bytes) → same (peers_index_key prefix) (peer_key prefix node) ≡ false
peers_index-apart prefix node = ne→same _ _ (λ e. peers_ne prefix node (sym e))
