-- ===== src/Redis/Commands/Laws/Ranges.antt =====
-- The documented commands that the peer set is read with, as equations.
use mcpg_plugin_cluster_redi.Common.{ℕ, ◌≡◌, refl, ap, Option, List, [], ◌∷◌, map, Bytes}
use mcpg_plugin_cluster_redi.Script.{ok}
use mcpg_plugin_cluster_redi.Redis.Zset.{by_score, names, beyond}
use mcpg_plugin_cluster_redi.Redis.View.{
  View, Entry, missing, held, text, sorted, put, pack, members, deadline, IsSorted,
}
use mcpg_plugin_cluster_redi.Redis.Commands.{Codec, documented, mget_entry}
use mcpg_plugin_cluster_redi.Redis.Commands.Laws.{on_zset_lem, read_zset_lem, text_of}

module _ (c : Codec) where
  pub zrangebyscore_beyond_lem :
      (k : Bytes) (low : ℕ) (v : View)
      → IsSorted (v.at k)
      → (documented c).zrangebyscore_beyond k low v
        ≡ (ok (names (by_score (beyond low (members (v.at k))))), v)
  unfolding documented
  zrangebyscore_beyond_lem k low v h =
      read_zset_lem c (λ z. names (by_score (beyond low z))) (v.at k) v h

  pub zremrangebyscore_upto_lem :
      (k : Bytes) (top : ℕ) (v : View)
      → IsSorted (v.at k)
      → (documented c).zremrangebyscore_upto k top v
        ≡ (ok tt, put k (pack (beyond top (members (v.at k))) (deadline (v.at k))) v)
  unfolding documented
  zremrangebyscore_upto_lem k top v h = on_zset_lem c k (beyond top) (λ z. tt) (v.at k) v h

  mget_entry_lem : (e : Entry) → mget_entry c e ≡ text_of e
  unfolding mget_entry
  mget_entry_lem missing = refl
  mget_entry_lem (held (text b) d) = refl
  mget_entry_lem (held (sorted z) d) = refl

  map-mget_entry :
      (ks : List Bytes) (v : View)
      → map (λ k. mget_entry c (v.at k)) ks ≡ map (λ k. text_of (v.at k)) ks
  map-mget_entry [] v = refl
  map-mget_entry (k ∷ ks) v = rw (mget_entry_lem (v.at k), map-mget_entry ks v) refl

  pub mget_lem :
      (ks : List Bytes) (v : View)
      → (documented c).mget ks v ≡ (ok (map (λ k. text_of (v.at k)) ks), v)
  unfolding documented
  mget_lem ks v = ap (λ (vs : List (Option Bytes)). (ok vs, v)) (map-mget_entry ks v)
