-- ===== src/Kv/Spec/Refines.antt =====
-- src/state/kv.rs: a store on a server, and the map that it shows.
use mcpg_plugin_cluster_redi.Common.{
  ℕ, ◌+◌, ◌<◌, ◌^◌, ◌≡◌, refl, ap, ◌∙◌, true, false, Option, none, some, ◌∷◌, ◌++◌, Bytes, same,
  same_refl, same-append, ltb, if◌then◌else◌, arith, Bool-cases, inl, inr, codes,
}
use mcpg_plugin_cluster_redi.Redis.View.{
  View, Value, Entry, missing, held, text, sorted, IsSorted, IsText, elapse, expire_at, members,
  deadline, pack-IsSorted,
}
use mcpg_plugin_cluster_redi.Redis.View
use mcpg_plugin_cluster_redi.Redis.Zset.{insert, remove}
use mcpg_plugin_cluster_redi.Redis.Commands.Laws.{without_member}
use mcpg_plugin_cluster_redi.Keys.{RedisKv, with_connection_manager, full_key, join_prefix}
use mcpg_plugin_cluster_redi.Kv.Effect.{Apart, written, ttl_entry}
use mcpg_plugin_cluster_redi.Kv.Index.{Layout, data-ne, same_sym}
use mcpg_plugin_cluster_redi.Kv.Store.Indexed.{layout, full_key-is_data}
use mcpg_plugin_cluster_redi.Kv.Spec.{Item, Map, write, alive, until}

-- What the scripts need of a keyspace: a clock that doubles hold, indexes that are sorted sets and
-- data keys that are strings. (No claim is made on what the indexes hold.)
pub record Ready (l : Layout) (v : View) : Type 0 where
  pub early : v.clock < 2 ^ 52
  pub index_sorted : IsSorted (v.at l.index)
  pub expiry_sorted : IsSorted (v.at l.expiry)
  pub data_text : (k : Bytes) → l.is_data k ≡ true → IsText (v.at k)

-- What a key of the server holds for an item.
abbrev pub entry_for : Option Item → Entry
entry_for none = missing
entry_for (some i) = held (text i.value) i.deadline

pub same-full_key :
    (c : ℕ) (p j k : Bytes) → same (join_prefix (c ∷ p) j) (join_prefix (c ∷ p) k) ≡ same j k
unfolding join_prefix
same-full_key c p j k =
    same-append (c ∷ p) (codes ":" ++ j) (codes ":" ++ k) ∙ same-append (codes ":") j k

pub IsSorted-ttl_entry :
    (key : Bytes) (ttl now : ℕ) (e : Entry) → IsSorted (ttl_entry key ttl now e)
IsSorted-ttl_entry key ttl now e = elim (Bool-cases (ltb 0 ttl)) [
  | inl p ↦ rw p (pack-IsSorted (insert key (now + ttl) (members e)) (deadline e))
  | inr p ↦ rw p (pack-IsSorted (remove key (members e)) (deadline e))
]

expire_at-held :
    (now : ℕ) (x : Bytes) (d : Option ℕ)
    → expire_at now (held (text x) d) ≡ entry_for (until now (record { value = x; deadline = d }) d)
unfolding expire_at
expire_at-held now x none = refl
expire_at-held now x (some d) = ground arith

expire_at-entry_for :
    (now : ℕ) (i : Option Item) → expire_at now (entry_for i) ≡ entry_for (alive now i)
unfolding expire_at
expire_at-entry_for now none = refl
expire_at-entry_for now (some i) = expire_at-held now i.value i.deadline

expire_at-IsSorted : (now : ℕ) (e : Entry) → IsSorted e → IsSorted (expire_at now e)
unfolding expire_at
expire_at-IsSorted now missing h = tt
expire_at-IsSorted now (held x none) h = h
expire_at-IsSorted now (held x (some d)) h = elim (Bool-cases (ltb d now)) [
  | inl p ↦ rw p tt
  | inr p ↦ rw p h
]

expire_at-IsText : (now : ℕ) (e : Entry) → IsText e → IsText (expire_at now e)
unfolding expire_at
expire_at-IsText now missing h = tt
expire_at-IsText now (held x none) h = h
expire_at-IsText now (held x (some d)) h = elim (Bool-cases (ltb d now)) [
  | inl p ↦ rw p tt
  | inr p ↦ rw p h
]

module _ (c : ℕ) (p : Bytes) where
  abbrev pub kv : RedisKv
  kv = with_connection_manager (c ∷ p)

  abbrev l : Layout
  l = layout c p

  -- A keyspace shows a map: their clocks agree, and each data key holds what the map does.
  pub record Shows (v : View) (m : Map) : Type 0 where
    pub ready : Ready l v
    pub clock : v.clock ≡ m.clock
    pub items : (k : Bytes) → v.at (full_key kv k) ≡ entry_for (m.at k)

  module _ (v : View) (m : Map) (h : Shows v m) (key : Bytes) where
    abbrev full : Bytes
    full = full_key kv key

    is_data : (k : Bytes) → l.is_data (full_key kv k) ≡ true
    unfolding layout with_connection_manager
    is_data k = full_key-is_data c p k

    pub Shows-Apart : Apart full kv.index_key kv.expiry_key v
    unfolding layout with_connection_manager
    Shows-Apart = record {
      key_index = data-ne l full l.index (is_data key) l.index_not_data;
      key_expiry = data-ne l full l.expiry (is_data key) l.expiry_not_data;
      index_expiry = l.indexes_differ;
      expiry_index = same_sym l.index l.expiry l.indexes_differ;
      index_sorted = h.ready.index_sorted;
      expiry_sorted = h.ready.expiry_sorted;
    }

    not_index :
        (k : Bytes) → l.is_data k ≡ true → (same l.index k ≡ false) × (same l.expiry k ≡ false)
    not_index k d = (
      same_sym k l.index (data-ne l k l.index d l.index_not_data),
      same_sym k l.expiry (data-ne l k l.expiry d l.expiry_not_data),
    )

    -- The keyspace after a write of the key with its index entries, and after a deletion.
    module _ (e times : Entry) where
      abbrev after : View
      after = written full kv.index_key kv.expiry_key e times v

      data-written :
          (k : Bytes) → l.is_data k ≡ true → after.at k ≡ (if same full k then e else v.at k)
      unfolding layout with_connection_manager
      data-written k d = rw ((not_index k d).0, (not_index k d).1)

      Ready-written : IsText e → IsSorted times → Ready l after
      unfolding layout with_connection_manager
      Ready-written et ts = record {
        early = h.ready.early;
        index_sorted = rw (same_refl kv.index_key) (
            pack-IsSorted (insert full 0 (members (v.at kv.index_key)))
              (deadline (v.at kv.index_key)));
        expiry_sorted = rw (l.indexes_differ, same_refl kv.expiry_key) ts;
        data_text = λ k d. elim (Bool-cases (same full k)) [
          | inl q ↦ rw (data-written k d, q) et
          | inr q ↦ rw (data-written k d, q) (h.ready.data_text k d)
        ];
      }

      pub Shows-written :
          (i : Item) → e ≡ entry_for (some i) → IsSorted times → Shows after (write key (some i) m)
      unfolding with_connection_manager
      Shows-written i q ts = record {
        ready = Ready-written (rw q tt) ts;
        clock = h.clock;
        items = λ k. data-written (full_key kv k) (is_data k) ∙ elim (Bool-cases (same key k)) [
          | inl a ↦ rw (same-full_key c p key k, a) q
          | inr a ↦ rw (same-full_key c p key k, a) (h.items k)
        ];
      }

    abbrev removed : View
    removed =
        View.put kv.expiry_key (without_member full (v.at kv.expiry_key)) (
          View.put kv.index_key (without_member full (v.at kv.index_key)) (View.put full missing v))

    data-removed :
        (k : Bytes) → l.is_data k ≡ true → removed.at k ≡ (if same full k then missing else v.at k)
    unfolding layout with_connection_manager
    data-removed k d = rw ((not_index k d).0, (not_index k d).1)

    pub Shows-removed : Shows removed (write key none m)
    unfolding layout with_connection_manager
    Shows-removed = record {
      ready = record {
        early = h.ready.early;
        index_sorted =
            rw (Shows-Apart.expiry_index, same_refl kv.index_key)
              (pack-IsSorted (remove full (members (v.at kv.index_key)))
                (deadline (v.at kv.index_key)));
        expiry_sorted = rw (same_refl kv.expiry_key) (
            pack-IsSorted (remove full (members (v.at kv.expiry_key)))
              (deadline (v.at kv.expiry_key)));
        data_text = λ k d. elim (Bool-cases (same full k)) [
          | inl q ↦ rw (data-removed k d, q) tt
          | inr q ↦ rw (data-removed k d, q) (h.ready.data_text k d)
        ];
      };
      clock = h.clock;
      items = λ k. data-removed (full_key kv k) (is_data k) ∙ elim (Bool-cases (same key k)) [
        | inl a ↦ rw (same-full_key c p key k, a)
        | inr a ↦ rw (same-full_key c p key k, a) (h.items k)
      ];
    }

  pub Shows-elapse :
      (v : View) (m : Map) (n now : ℕ)
      → Shows v m
      → v.clock + n < 2 ^ 52
      → Shows
          (elapse n v)
          (record { clock = m.clock + n; now = now; at = λ k. alive (m.clock + n) (m.at k) })
  unfolding elapse
  Shows-elapse v m n now h early = record {
    ready = record {
      early = early;
      index_sorted = expire_at-IsSorted (v.clock + n) (v.at l.index) h.ready.index_sorted;
      expiry_sorted = expire_at-IsSorted (v.clock + n) (v.at l.expiry) h.ready.expiry_sorted;
      data_text = λ k d. expire_at-IsText (v.clock + n) (v.at k) (h.ready.data_text k d);
    };
    clock = ap (λ (x : ℕ). x + n) h.clock;
    items = λ k.
        ap (expire_at (v.clock + n)) (h.items k)
        ∙ (expire_at-entry_for (v.clock + n) (m.at k)
            ∙ ap (λ (x : ℕ). entry_for (alive (x + n) (m.at k))) h.clock);
  }
