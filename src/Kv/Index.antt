-- ===== src/Kv/Index.antt =====
-- src/state/kv.rs: what the key index and the expiry index promise about the data keys.
pub mod Keep
pub mod Scripts
pub mod Upkeep
use mcpg_plugin_cluster_redi.Common.{
  ℕ, ◌<◌, ◌^◌, ◌≡◌, refl, Bool, true, false, Option, none, some, Bytes, same, same_iff, ne→same,
  false≢true, arith, sym, ◌∙◌, ap,
}
use mcpg_plugin_cluster_redi.Redis.Zset.{score}
use mcpg_plugin_cluster_redi.Redis.View.{View, Entry, missing, held, members, IsSorted, IsText}
use mcpg_plugin_cluster_redi.Redis.Commands.Laws.{count}
use mcpg_plugin_cluster_redi.Kv.Effect.{Apart}

-- The two index keys, and which keys are data keys: neither index is one.
pub record Layout : Type 0 where
  pub index : Bytes
  pub expiry : Bytes
  pub is_data : Bytes → Bool
  pub index_not_data : is_data index ≡ false
  pub expiry_not_data : is_data expiry ≡ false
  pub indexes_differ : same index expiry ≡ false

-- Whether time cannot end a key: it is live and has no deadline.
abbrev pub permanent : Entry → Bool
permanent missing = false
permanent (held x none) = true
permanent (held x (some d)) = false

abbrev pub is_some : {A : Type 0} → Option A → Bool
is_some none = false
is_some (some a) = true

abbrev pub indexed : Layout → View → Bytes → Option ℕ
indexed l v k = score k (members (v.at l.index))

abbrev pub timed : Layout → View → Bytes → Option ℕ
timed l v k = score k (members (v.at l.expiry))

-- The key index holds every live data key, at score 0; and a key in it that time can end, or has
-- ended, stands in the expiry index, where a sweep finds it. (The clock is below 2^52 ms.)
pub record IsIndexed (l : Layout) (v : View) : Type 0 where
  pub early : v.clock < 2 ^ 52
  pub index_sorted : IsSorted (v.at l.index)
  pub expiry_sorted : IsSorted (v.at l.expiry)
  pub data_text : (k : Bytes) → l.is_data k ≡ true → IsText (v.at k)
  pub complete : (k : Bytes) → l.is_data k ≡ true → count (v.at k) ≡ 1 → indexed l v k ≡ some 0
  pub sweepable :
      (k : Bytes)
      → l.is_data k ≡ true
      → is_some (indexed l v k) ≡ true
      → permanent (v.at k) ≡ false
      → is_some (timed l v k) ≡ true

pub data-ne :
    (l : Layout) (k j : Bytes) → l.is_data k ≡ true → l.is_data j ≡ false → same k j ≡ false
data-ne l k j h n = ne→same k j (λ e. false≢true (sym n ∙ (sym (ap l.is_data e) ∙ h)))

pub same_sym : (k j : Bytes) → same k j ≡ false → same j k ≡ false
same_sym k j h = ground (arith, same_iff k j, same_iff j k)

pub Apart_of_IsIndexed :
    (l : Layout) (v : View) (k : Bytes)
    → IsIndexed l v
    → l.is_data k ≡ true
    → Apart k l.index l.expiry v
Apart_of_IsIndexed l v k inv d = record {
  key_index = data-ne l k l.index d l.index_not_data;
  key_expiry = data-ne l k l.expiry d l.expiry_not_data;
  index_expiry = l.indexes_differ;
  expiry_index = same_sym l.index l.expiry l.indexes_differ;
  index_sorted = inv.index_sorted;
  expiry_sorted = inv.expiry_sorted;
}
