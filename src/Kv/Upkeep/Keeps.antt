-- ===== src/Kv/Upkeep/Keeps.antt =====
-- src/state/kv.rs: sweeps, the pruning by listings, and the promise of the key index.
use mcpg_plugin_cluster_redi.Common.{
  ℕ, zero, suc, ◌+◌, ◌-◌, ◌≡◌, none, some, List, [], ◌∷◌, Bytes, inl, inr, ltb, length,
}
use mcpg_plugin_cluster_redi.Common.Int.{ℤ, pos, negsuc}
use mcpg_plugin_cluster_redi.Script.{Script, Reply, ok, err, continue}
use mcpg_plugin_cluster_redi.Redis.View.{View, missing, put, Entry-cases}
use mcpg_plugin_cluster_redi.Redis.Commands.{Codec, Commands, documented}
use mcpg_plugin_cluster_redi.Redis.Commands.Laws.{
  without_member, zadd_lem, zrem_lem, pttl_lem, exists_lem, zrangebyscore_upto_lem,
}
use mcpg_plugin_cluster_redi.Redis.Server.{
  Server, Documented, Simulates, simulation, Simulates-bind, Simulates-pure,
}
use mcpg_plugin_cluster_redi.Client.{request, redis_err}
use mcpg_plugin_cluster_redi.Client.Keep.{
  Keeps, Keeps-request, Keeps-bind, Keeps-now_ms, Keeps-return, Keeps-if,
}
use mcpg_plugin_cluster_redi.Keys.{RedisKv, with_connection_manager}
use mcpg_plugin_cluster_redi.Kv.Upkeep.{
  each, drop_entries, prune_key, prune_script, settle, sweep_key, sweep_script, sweep, sweep_from,
  sweep_batch, is_nil,
}
use mcpg_plugin_cluster_redi.Kv.Index.{Layout, IsIndexed}
use mcpg_plugin_cluster_redi.Kv.Index.Scripts.{Retimed-with, Retimed-without}
use mcpg_plugin_cluster_redi.Kv.Index.Upkeep.{IsIndexed-retimed, IsIndexed-dropped}
use mcpg_plugin_cluster_redi.Kv.Store.Indexed.{Indexed, layout, through_view}

continue-holds :
    {S A B : Type 0} (P : S → Type 0) (x : Reply A × S) (f : A → Script S B)
    → P x.1
    → ((a : A) (s : S) → P s → P (f a s).1)
    → P (continue x f).1
continue-holds P (ok a, s) f h k = k a s h
continue-holds P (err e, s) f h k = h

each-holds :
    {S : Type 0} (P : S → Type 0) (f : Bytes → Script S ℕ)
    → ((k : Bytes) (s : S) → P s → P (f k s).1)
    → (ks : List Bytes) (s : S) → P s
    → P (each f ks s).1
unfolding each
each-holds P f step [] s h = h
each-holds P f step (k ∷ ks) s h =
    continue-holds P (f k s) _ (step k s h) (λ n s' h'.
      continue-holds P (each f ks s') _ (each-holds P f step ks s' h') (λ m s'' h''. h''))

pub Simulates-each :
    {S : Type 0} {view : S → View} {f : Bytes → Script S ℕ} {g : Bytes → Script View ℕ}
    → ((k : Bytes) → Simulates view (f k) (g k))
    → (ks : List Bytes) → Simulates view (each f ks) (each g ks)
unfolding each
Simulates-each h [] = Simulates-pure 0
Simulates-each h (k ∷ ks) =
    Simulates-bind (h k) (λ n. Simulates-bind (Simulates-each h ks) (λ m. Simulates-pure (n + m)))

module _ {S : Type 0} {codec : Codec} {view : S → View} {c : Commands S}
    (laws : Documented codec view c) (index expiry : Bytes) where
  open laws use {exists_law, pttl_law, zadd_law, zrem_law}

  Simulates-drop_entries :
      (k : Bytes)
      → Simulates view
          (drop_entries c index expiry k)
          (drop_entries (documented codec) index expiry k)
  unfolding drop_entries
  Simulates-drop_entries k = search (simulation, zrem_law)

  Simulates-prune_key :
      (k : Bytes)
      → Simulates view (prune_key c index expiry k) (prune_key (documented codec) index expiry k)
  unfolding prune_key
  Simulates-prune_key k = search (simulation, exists_law, Simulates-drop_entries)

  Simulates-settle :
      (now : ℕ) (k : Bytes) (ms : ℤ)
      → Simulates view
          (settle c index expiry now k ms)
          (settle (documented codec) index expiry now k ms)
  unfolding settle
  Simulates-settle now k (pos ms) = search (simulation, zadd_law)
  Simulates-settle now k (negsuc zero) = search (simulation, zrem_law)
  Simulates-settle now k (negsuc (suc zero)) = Simulates-drop_entries k
  Simulates-settle now k (negsuc (suc (suc n))) = search (simulation, zadd_law)

  Simulates-sweep_key :
      (now : ℕ) (k : Bytes)
      → Simulates view
          (sweep_key c index expiry now k)
          (sweep_key (documented codec) index expiry now k)
  unfolding sweep_key
  Simulates-sweep_key now k = search (simulation, pttl_law, Simulates-settle)

  pub Simulates-sweep_script :
      (now : ℕ) (ks : List Bytes)
      → Simulates view
          (sweep_script c index expiry now ks)
          (sweep_script (documented codec) index expiry now ks)
  Simulates-sweep_script now ks = Simulates-each (Simulates-sweep_key now) ks

  pub Simulates-prune_script :
      (ks : List Bytes)
      → Simulates view
          (prune_script c index expiry ks)
          (prune_script (documented codec) index expiry ks)
  Simulates-prune_script ks = Simulates-each Simulates-prune_key ks

module _ (codec : Codec) (l : Layout) where
  module _ (k : Bytes) (v : View) (inv : IsIndexed l v) where
    IsIndexed-drop_entries :
        v.at k ≡ missing → IsIndexed l (drop_entries (documented codec) l.index l.expiry k v).1
    unfolding drop_entries
    IsIndexed-drop_entries e = rw (zrem_lem codec l.index k v inv.index_sorted) (
        rw
          (zrem_lem codec l.expiry k (put l.index (without_member k (v.at l.index)) v)
            (rw l.indexes_differ inv.expiry_sorted))
          (rw l.indexes_differ (IsIndexed-dropped l v inv k e)))

    IsIndexed-prune_key : IsIndexed l (prune_key (documented codec) l.index l.expiry k v).1
    unfolding prune_key
    IsIndexed-prune_key = rw (exists_lem codec k v) (elim (Entry-cases (v.at k)) [
      | inl e ↦ rw e (IsIndexed-drop_entries e)
      | inr (x, d, e) ↦ rw e inv
    ])

    IsIndexed-sweep_key :
        (now : ℕ) → IsIndexed l (sweep_key (documented codec) l.index l.expiry now k v).1
    unfolding sweep_key settle
    IsIndexed-sweep_key now = rw (pttl_lem codec k v) (elim (Entry-cases (v.at k)) [
      | inl e ↦ rw e (IsIndexed-drop_entries e)
      | inr (x, none, e) ↦ rw e (
          rw (zrem_lem codec l.expiry k v inv.expiry_sorted)
            (IsIndexed-retimed l v inv k _ (rw e (Retimed-without k x (v.at l.expiry)))))
      | inr (x, some d, e) ↦ rw e (
          rw (zadd_lem codec l.expiry (now + (d - v.clock)) k v inv.expiry_sorted) (
            IsIndexed-retimed l v inv k _
              (Retimed-with k (v.at k) (now + (d - v.clock)) (v.at l.expiry))))
    ])

  IsIndexed-sweep_script :
      (now : ℕ) (ks : List Bytes) (v : View)
      → IsIndexed l v
      → IsIndexed l (sweep_script (documented codec) l.index l.expiry now ks v).1
  IsIndexed-sweep_script now ks v h =
      each-holds (IsIndexed l) _ (λ k w i. IsIndexed-sweep_key k w i now) ks v h

  IsIndexed-prune_script :
      (ks : List Bytes) (v : View)
      → IsIndexed l v
      → IsIndexed l (prune_script (documented codec) l.index l.expiry ks v).1
  IsIndexed-prune_script ks v h =
      each-holds (IsIndexed l) _ (λ k w i. IsIndexed-prune_key k w i) ks v h

module _ (r : Server) (c : ℕ) (p : Bytes) (scan : ℕ → Bytes → Script r.Store (ℕ × List Bytes)) where
  open r use {Store, commands, codec, laws}

  abbrev kv : RedisKv
  kv = with_connection_manager (c ∷ p)

  due-Keeps :
      (now : ℕ)
      → Keeps
          (Indexed r c p)
          (request redis_err (commands.zrangebyscore_upto kv.expiry_key now sweep_batch))
  unfolding layout with_connection_manager
  due-Keeps now = Keeps-request redis_err _ (
      through_view r c p _ _ (laws.zrangebyscore_upto_law kv.expiry_key now sweep_batch) (λ v h.
        rw (zrangebyscore_upto_lem codec kv.expiry_key now sweep_batch v h.expiry_sorted) h))

  pub sweep_script-Keeps :
      (now : ℕ) (ks : List Bytes)
      → Keeps
          (Indexed r c p)
          (request redis_err (sweep_script commands kv.index_key kv.expiry_key now ks))
  unfolding layout with_connection_manager
  sweep_script-Keeps now ks = Keeps-request redis_err _ (
      through_view r c p _ _ (Simulates-sweep_script laws kv.index_key kv.expiry_key now ks)
        (λ v h. IsIndexed-sweep_script codec (layout c p) now ks v h))

  pub prune_script-Keeps :
      (ks : List Bytes)
      → Keeps
          (Indexed r c p)
          (request redis_err (prune_script commands kv.index_key kv.expiry_key ks))
  unfolding layout with_connection_manager
  prune_script-Keeps ks = Keeps-request redis_err _ (
      through_view r c p _ _ (Simulates-prune_script laws kv.index_key kv.expiry_key ks)
        (λ v h. IsIndexed-prune_script codec (layout c p) ks v h))

  sweep_from-Keeps : (fuel gone : ℕ) → Keeps (Indexed r c p) (sweep_from commands scan kv fuel gone)
  unfolding sweep_from
  sweep_from-Keeps zero gone = Keeps-return gone
  sweep_from-Keeps (suc fuel) gone = Keeps-bind Keeps-now_ms λ now.
      Keeps-bind (due-Keeps now) λ due. Keeps-if (is_nil due) (Keeps-return gone) (
        Keeps-bind (sweep_script-Keeps now due) λ removed.
          Keeps-if (ltb (length due) sweep_batch) (Keeps-return (gone + removed))
            (sweep_from-Keeps fuel (gone + removed)))

  -- On a server that behaves as documented, under a key prefix that is not empty, a sweep of any
  -- length and a pruning of any keys keep the key index complete and sweepable, from any such
  -- store and under any schedule of other clients that keep it so, whichever requests and replies
  -- are lost.
  pub Keeps-sweep :
      (fuel : ℕ) (ks : List Bytes)
      → Keeps (Indexed r c p) (sweep commands scan kv fuel)
        × Keeps
            (Indexed r c p)
            (request redis_err (prune_script commands kv.index_key kv.expiry_key ks))
  Keeps-sweep fuel ks = (sweep_from-Keeps fuel 0, prune_script-Keeps ks)
