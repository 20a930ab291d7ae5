-- ===== src/Kv/Index/Keep.antt =====
-- src/state/kv.rs: a data key that is written together with its index entries.
use mcpg_plugin_cluster_redi.Common.{
  ℕ, ◌≡◌, true, false, none, some, Bytes, same, same_iff, same_refl, arith, if◌then◌else◌,
  Bool-cases, inl, inr, subst,
}
use mcpg_plugin_cluster_redi.Redis.Zset.{score, insert, remove, score-insert, score-remove}
use mcpg_plugin_cluster_redi.Redis.View.{
  View, Entry, missing, put, members, deadline, IsSorted, IsText, members-pack, pack-IsSorted,
}
use mcpg_plugin_cluster_redi.Redis.Commands.Laws.{without_member, count}
use mcpg_plugin_cluster_redi.Kv.Effect.{Apart, written}
use mcpg_plugin_cluster_redi.Kv.Index.{
  Layout, permanent, is_some, indexed, timed, IsIndexed, Apart_of_IsIndexed, same_sym,
}

-- An expiry index that a write to `key` may leave: only the entry of `key` has changed, and it is
-- there if the new entry can end.
pub record Retimed (key : Bytes) (e before times : Entry) : Type 0 where
  pub is_set : IsSorted times
  pub others : (j : Bytes) → same key j ≡ false → score j (members times) ≡ score j (members before)
  pub own : permanent e ≡ false → is_some (score key (members times)) ≡ true

module _ (l : Layout) (v : View) (inv : IsIndexed l v) (key : Bytes)
    (d : l.is_data key ≡ true) where
  abbrev apart : Apart key l.index l.expiry v
  apart = Apart_of_IsIndexed l v key inv d

  module _ (e times : Entry) (is_text : IsText e) (r : Retimed key e (v.at l.expiry) times) where
    abbrev after : View
    after = written key l.index l.expiry e times v

    indexed-written :
        (j : Bytes) → indexed l after j ≡ (if same key j then some 0 else indexed l v j)
    indexed-written j = rw (same_refl l.index) (
        rw (members-pack (insert key 0 (members (v.at l.index))) (deadline (v.at l.index)))
          (score-insert key j 0 (members (v.at l.index))))

    timed-written : (j : Bytes) → timed l after j ≡ score j (members times)
    timed-written j = rw (apart.index_expiry, same_refl l.expiry)

    data-written :
        (j : Bytes) → l.is_data j ≡ true → after.at j ≡ (if same key j then e else v.at j)
    data-written j dj =
        let a : Apart j l.index l.expiry v = Apart_of_IsIndexed l v j inv dj in
        rw (same_sym j l.index a.key_index, same_sym j l.expiry a.key_expiry)

    sweepable-written :
        (j : Bytes)
        → l.is_data j ≡ true
        → is_some (indexed l after j) ≡ true
        → permanent (after.at j) ≡ false
        → is_some (timed l after j) ≡ true
    sweepable-written j dj h p = elim (Bool-cases (same key j)) [
      | inl q ↦
          let eq : key ≡ j = (same_iff key j).0 q in
          rw timed-written (
            subst (λ i. is_some (score i (members times)) ≡ true) eq
              (r.own (rw (data-written j dj, q) at p)))
      | inr q ↦
          rw (timed-written j, r.others j q)
            (inv.sweepable j dj (rw (indexed-written j, q) at h) (rw (data-written j dj, q) at p))
    ]

    complete-written :
        (j : Bytes) → l.is_data j ≡ true → count (after.at j) ≡ 1 → indexed l after j ≡ some 0
    complete-written j dj h = elim (Bool-cases (same key j)) [
      | inl q ↦ rw (indexed-written j, q)
      | inr q ↦ rw (indexed-written j, q) (inv.complete j dj (rw (data-written j dj, q) at h))
    ]

    IsText-written : (j : Bytes) → l.is_data j ≡ true → IsText (after.at j)
    IsText-written j dj = elim (Bool-cases (same key j)) [
      | inl q ↦ rw (data-written j dj, q) is_text
      | inr q ↦ rw (data-written j dj, q) (inv.data_text j dj)
    ]

    pub IsIndexed-written : IsIndexed l after
    IsIndexed-written = record {
      early = inv.early;
      index_sorted =
          rw (same_refl l.index)
            (pack-IsSorted (insert key 0 (members (v.at l.index))) (deadline (v.at l.index)));
      expiry_sorted = rw (apart.index_expiry, same_refl l.expiry) r.is_set;
      data_text = IsText-written;
      complete = complete-written;
      sweepable = sweepable-written;
    }

  abbrev deleted : View
  deleted =
      put l.expiry (without_member key (v.at l.expiry))
        (put l.index (without_member key (v.at l.index)) (put key missing v))

  indexed-deleted : (j : Bytes) → indexed l deleted j ≡ (if same key j then none else indexed l v j)
  indexed-deleted j =
      rw (apart.expiry_index, same_refl l.index)
        (rw (members-pack (remove key (members (v.at l.index))) (deadline (v.at l.index)))
          (score-remove key j (members (v.at l.index))))

  timed-deleted : (j : Bytes) → timed l deleted j ≡ (if same key j then none else timed l v j)
  timed-deleted j = rw (same_refl l.expiry) (
      rw (members-pack (remove key (members (v.at l.expiry))) (deadline (v.at l.expiry)))
        (score-remove key j (members (v.at l.expiry))))

  data-deleted :
      (j : Bytes) → l.is_data j ≡ true → deleted.at j ≡ (if same key j then missing else v.at j)
  data-deleted j dj =
      let a : Apart j l.index l.expiry v = Apart_of_IsIndexed l v j inv dj in
      rw (same_sym j l.index a.key_index, same_sym j l.expiry a.key_expiry)

  pub IsIndexed-deleted : IsIndexed l deleted
  IsIndexed-deleted = record {
    early = inv.early;
    index_sorted =
        rw (apart.expiry_index, same_refl l.index)
          (pack-IsSorted (remove key (members (v.at l.index))) (deadline (v.at l.index)));
    expiry_sorted =
        rw (same_refl l.expiry)
          (pack-IsSorted (remove key (members (v.at l.expiry))) (deadline (v.at l.expiry)));
    data_text = λ j dj. elim (Bool-cases (same key j)) [
      | inl q ↦ rw (data-deleted j dj, q) tt
      | inr q ↦ rw (data-deleted j dj, q) (inv.data_text j dj)
    ];
    complete = λ j dj h. elim (Bool-cases (same key j)) [
      | inl q ↦ let z : ◌≡◌ {A = ℕ} 0 1 = rw (data-deleted j dj, q) at h in absurd (omega arith)
      | inr q ↦ rw (indexed-deleted j, q) (inv.complete j dj (rw (data-deleted j dj, q) at h))
    ];
    sweepable = λ j dj h p. elim (Bool-cases (same key j)) [
      | inl q ↦ let z : false ≡ true = rw (indexed-deleted j, q) at h in cc
      | inr q ↦
          rw (timed-deleted j, q)
            (inv.sweepable j dj (rw (indexed-deleted j, q) at h) (rw (data-deleted j dj, q) at p))
    ];
  }
