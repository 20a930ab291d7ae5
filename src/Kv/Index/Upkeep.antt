-- ===== src/Kv/Index/Upkeep.antt =====
-- src/state/kv.rs: the scripts that tidy the indexes.
use mcpg_plugin_cluster_redi.Common.{
  ℕ, ◌≡◌, sym, true, false, none, Bytes, same, same_iff, same_refl, if◌then◌else◌, arith,
  Bool-cases, inl, inr, subst,
}
use mcpg_plugin_cluster_redi.Redis.Zset.{score, remove, score-remove}
use mcpg_plugin_cluster_redi.Redis.View.{
  View, Entry, missing, put, members, deadline, members-pack, pack-IsSorted,
}
use mcpg_plugin_cluster_redi.Redis.Commands.Laws.{without_member, count}
use mcpg_plugin_cluster_redi.Kv.Index.{
  Layout, is_some, indexed, timed, IsIndexed, same_sym, data-ne,
}
use mcpg_plugin_cluster_redi.Kv.Index.Keep.{Retimed}

module _ (l : Layout) (v : View) (inv : IsIndexed l v) where
  expiry_index : same l.expiry l.index ≡ false
  expiry_index = same_sym l.index l.expiry l.indexes_differ

  module _ (k : Bytes) (times : Entry) (r : Retimed k (v.at k) (v.at l.expiry) times) where
    abbrev retimed : View
    retimed = put l.expiry times v

    data-retimed : (j : Bytes) → l.is_data j ≡ true → retimed.at j ≡ v.at j
    data-retimed j d = rw (same_sym j l.expiry (data-ne l j l.expiry d l.expiry_not_data))

    -- A change to the expiry entry of a key whose data entry stays.
    pub IsIndexed-retimed : IsIndexed l retimed
    IsIndexed-retimed = record {
      early = inv.early;
      index_sorted = rw expiry_index inv.index_sorted;
      expiry_sorted = rw (same_refl l.expiry) r.is_set;
      data_text = λ j d. rw (data-retimed j d) (inv.data_text j d);
      complete = λ j d h. rw expiry_index (inv.complete j d (rw (data-retimed j d) at h));
      sweepable = λ j d h p. rw (same_refl l.expiry) (elim (Bool-cases (same k j)) [
        | inl q ↦
            let eq : k ≡ j = (same_iff k j).0 q in
            subst (λ i. is_some (score i (members times)) ≡ true) eq
              (r.own (rw eq (rw (data-retimed j d) at p)))
        | inr q ↦
            rw (r.others j q)
              (inv.sweepable j d (rw expiry_index at h) (rw (data-retimed j d) at p))
      ]);
    }

  module _ (k : Bytes) (e : v.at k ≡ missing) where
    abbrev dropped : View
    dropped =
        put l.expiry (without_member k (v.at l.expiry))
          (put l.index (without_member k (v.at l.index)) v)

    data-dropped : (j : Bytes) → l.is_data j ≡ true → dropped.at j ≡ v.at j
    data-dropped j d = rw (
      same_sym j l.expiry (data-ne l j l.expiry d l.expiry_not_data),
      same_sym j l.index (data-ne l j l.index d l.index_not_data),
    )

    indexed-dropped : (j : Bytes) → indexed l dropped j ≡ (if same k j then none else indexed l v j)
    indexed-dropped j =
        rw (expiry_index, same_refl l.index)
          (rw (members-pack (remove k (members (v.at l.index))) (deadline (v.at l.index)))
            (score-remove k j (members (v.at l.index))))

    timed-dropped : (j : Bytes) → timed l dropped j ≡ (if same k j then none else timed l v j)
    timed-dropped j = rw (same_refl l.expiry) (
        rw (members-pack (remove k (members (v.at l.expiry))) (deadline (v.at l.expiry)))
          (score-remove k j (members (v.at l.expiry))))

    -- The entries of a key that is gone are dropped.
    pub IsIndexed-dropped : IsIndexed l dropped
    IsIndexed-dropped = record {
      early = inv.early;
      index_sorted =
          rw (expiry_index, same_refl l.index)
            (pack-IsSorted (remove k (members (v.at l.index))) (deadline (v.at l.index)));
      expiry_sorted =
          rw (same_refl l.expiry)
            (pack-IsSorted (remove k (members (v.at l.expiry))) (deadline (v.at l.expiry)));
      data_text = λ j d. rw (data-dropped j d) (inv.data_text j d);
      complete = λ j d h. elim (Bool-cases (same k j)) [
        | inl q ↦
            let eq : k ≡ j = (same_iff k j).0 q in
            let live : count (v.at j) ≡ 1 = rw (data-dropped j d) at h in
            let z : ◌≡◌ {A = ℕ} 0 1 = rw e at (subst (λ i. count (v.at i) ≡ 1) (sym eq) live) in
            absurd (omega arith)
        | inr q ↦ rw (indexed-dropped j, q) (inv.complete j d (rw (data-dropped j d) at h))
      ];
      sweepable = λ j d h p. elim (Bool-cases (same k j)) [
        | inl q ↦ let z : false ≡ true = rw (indexed-dropped j, q) at h in cc
        | inr q ↦
            rw (timed-dropped j, q)
              (inv.sweepable j d (rw (indexed-dropped j, q) at h) (rw (data-dropped j d) at p))
      ];
    }
