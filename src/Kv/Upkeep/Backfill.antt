-- ===== src/Kv/Upkeep/Backfill.antt =====
-- src/state/kv.rs: BACKFILL_LUA on a batch of keys.
use mcpg_plugin_cluster_redi.Common.{
  ℕ, ◌+◌, ◌-◌, ◌≡◌, refl, ap, sym, ◌∙◌, Bool, true, false, ◌&&◌, Bool-cases, inl, inr, Option, none,
  some, List, [], ◌∷◌, Bytes, same, same_refl, same_iff, ltb, if◌then◌else◌,
}
use mcpg_plugin_cluster_redi.Script.{ok}
use mcpg_plugin_cluster_redi.Redis.View.{
  View, Entry, missing, held, put, members, members-pack, deadline, IsSorted, pack-IsSorted,
  Entry-cases,
}
use mcpg_plugin_cluster_redi.Redis.Zset.{score, score-insert, insert}
use mcpg_plugin_cluster_redi.Redis.Commands.{Codec, documented}
use mcpg_plugin_cluster_redi.Redis.Commands.Laws.{pttl_lem, zadd_lem, with_member}
use mcpg_plugin_cluster_redi.Kv.Index.{Layout, data-ne, same_sym}
use mcpg_plugin_cluster_redi.Kv.Upkeep.{each, index_live, backfill_key, backfill_script}

abbrev pub is_live : Entry → Bool
is_live missing = false
is_live (held x d) = true

abbrev pub count_live : Entry → ℕ
count_live missing = 0
count_live (held x d) = 1

-- How many of the keys are live.
abbrev pub live_among : List Bytes → View → ℕ
live_among [] v = 0
live_among (k ∷ ks) v = count_live (v.at k) + live_among ks v

abbrev pub among : Bytes → List Bytes → Bool
among j [] = false
among j (k ∷ ks) = if same k j then true else among j ks

both_batches :
    (same_key later live : Bool) (old : Option ℕ)
    → (if later && live
        then some 0
        else if (if same_key then true else false) && live
        then some 0
        else old)
      ≡ (if (if same_key then true else later) && live then some 0 else old)
both_batches true true true old = refl
both_batches true true false old = refl
both_batches true false live old = refl
both_batches false true true old = refl
both_batches false true false old = refl
both_batches false false live old = refl

module _ (codec : Codec) (l : Layout) where
  -- The keyspace after a backfill of the keys.
  pub record Filled (ks : List Bytes) (v w : View) : Type 0 where
    pub index_sorted : IsSorted (w.at l.index)
    pub expiry_sorted : IsSorted (w.at l.expiry)
    pub kept : (j : Bytes) → l.is_data j ≡ true → w.at j ≡ v.at j
    pub indexed :
        (j : Bytes)
        → l.is_data j ≡ true
        → score j (members (w.at l.index))
          ≡ (if among j ks && is_live (v.at j) then some 0 else score j (members (v.at l.index)))

  abbrev entered : Bytes → View → View
  entered k v = put l.index (with_member k 0 (v.at l.index)) v

  module _ (k : Bytes) (v : View) (d : l.is_data k ≡ true) (si : IsSorted (v.at l.index))
      (se : IsSorted (v.at l.expiry)) where
    Filled-missing : v.at k ≡ missing → Filled (k ∷ []) v v
    Filled-missing e = record {
      index_sorted = si;
      expiry_sorted = se;
      kept = λ j _. refl;
      indexed = λ j _. elim (Bool-cases (same k j)) [
        | inl p ↦
            let gone : v.at j ≡ missing = ap v.at (sym ((same_iff k j).0 p)) ∙ e in
            rw (p, gone) refl
        | inr p ↦ rw p refl
      ];
    }

    Filled-entered :
        (w : View)
        → is_live (v.at k) ≡ true
        → w.at l.index ≡ with_member k 0 (v.at l.index)
        → IsSorted (w.at l.expiry)
        → ((j : Bytes) → l.is_data j ≡ true → w.at j ≡ v.at j)
        → Filled (k ∷ []) v w
    Filled-entered w live e ts kept = record {
      index_sorted =
          rw e (pack-IsSorted (insert k 0 (members (v.at l.index))) (deadline (v.at l.index)));
      expiry_sorted = ts;
      kept = kept;
      indexed = λ j _.
          ap (λ (x : Entry). score j (members x)) e
          ∙ (ap (score j)
                (members-pack (insert k 0 (members (v.at l.index))) (deadline (v.at l.index)))
              ∙ (score-insert k j 0 (members (v.at l.index)) ∙ elim (Bool-cases (same k j)) [
                | inl p ↦
                    let live_j : is_live (v.at j) ≡ true =
                      ap (λ i. is_live (v.at i)) (sym ((same_iff k j).0 p)) ∙ live in
                    rw (p, live_j) refl
                | inr p ↦ rw p refl
              ]));
    }

    -- One key: it is answered, with its effect.
    record Step (now : ℕ) : Type 0 where
      n : ℕ
      w : View
      there : backfill_key (documented codec) l.index l.expiry now k v ≡ (ok n, w)
      filled : Filled (k ∷ []) v w
      counted : n ≡ count_live (v.at k)

    expiry_index : same l.expiry l.index ≡ false
    expiry_index = same_sym l.index l.expiry l.indexes_differ

    at_index : (j : Bytes) → l.is_data j ≡ true → same l.index j ≡ false
    at_index j h = same_sym j l.index (data-ne l j l.index h l.index_not_data)

    at_expiry : (j : Bytes) → l.is_data j ≡ true → same l.expiry j ≡ false
    at_expiry j h = same_sym j l.expiry (data-ne l j l.expiry h l.expiry_not_data)

    Filled-index : is_live (v.at k) ≡ true → Filled (k ∷ []) v (entered k v)
    Filled-index live =
        Filled-entered (entered k v) live (rw (same_refl l.index) refl) (rw l.indexes_differ se)
          (λ j h. rw (at_index j h) refl)

    abbrev timed : ℕ → View
    timed n = put l.expiry (with_member k n (v.at l.expiry)) (entered k v)

    Filled-timed : (n : ℕ) → is_live (v.at k) ≡ true → Filled (k ∷ []) v (timed n)
    Filled-timed n live =
        Filled-entered (timed n) live (rw expiry_index (rw (same_refl l.index) refl))
          (rw (same_refl l.expiry)
            (pack-IsSorted (insert k n (members (v.at l.expiry))) (deadline (v.at l.expiry))))
          (λ j h. rw (at_expiry j h, at_index j h) refl)

    step : (now : ℕ) → Step now
    unfolding backfill_key index_live
    step now = elim (Entry-cases (v.at k)) [
      | inl e ↦ record {
        n = 0;
        w = v;
        there = rw (pttl_lem codec k v) (rw e refl);
        filled = Filled-missing e;
        counted = rw e refl;
      }
      | inr (x, none, e) ↦ record {
        n = 1;
        w = entered k v;
        there = rw (pttl_lem codec k v) (rw e (rw (zadd_lem codec l.index 0 k v si) refl));
        filled = Filled-index (rw e refl);
        counted = rw e refl;
      }
      | inr (x, some d', e) ↦ elim (Bool-cases (ltb 0 (d' - v.clock))) [
        | inl p ↦ record {
          n = 1;
          w = timed (now + (d' - v.clock));
          there = rw (pttl_lem codec k v) (
              rw e (
                rw (zadd_lem codec l.index 0 k v si) (
                  rw p (
                    rw
                      (zadd_lem codec l.expiry (now + (d' - v.clock)) k (entered k v)
                        (rw l.indexes_differ se))
                      (rw l.indexes_differ refl)))));
          filled = Filled-timed (now + (d' - v.clock)) (rw e refl);
          counted = rw e refl;
        }
        | inr p ↦ record {
          n = 1;
          w = entered k v;
          there = rw (pttl_lem codec k v) (rw e (rw (zadd_lem codec l.index 0 k v si) (rw p refl)));
          filled = Filled-index (rw e refl);
          counted = rw e refl;
        }
      ]
    ]

  abbrev pub AllData : List Bytes → Type 0
  AllData [] = Unit {0}
  AllData (k ∷ ks) = (l.is_data k ≡ true) × AllData ks

  Filled-then :
      (k : Bytes) (ks : List Bytes) (v w u : View)
      → Filled (k ∷ []) v w
      → Filled ks w u
      → Filled (k ∷ ks) v u
  Filled-then k ks v w u f g = record {
    index_sorted = g.index_sorted;
    expiry_sorted = g.expiry_sorted;
    kept = λ j h. g.kept j h ∙ f.kept j h;
    indexed = λ j h.
        g.indexed j h
        ∙ (ap
              (λ (x : Entry).
                if among j ks && is_live x then some 0 else score j (members (w.at l.index)))
              (f.kept j h)
            ∙ (ap (λ (x : Option ℕ). if among j ks && is_live (v.at j) then some 0 else x)
                  (f.indexed j h)
                ∙ both_batches (same k j) (among j ks) (is_live (v.at j))
                    (score j (members (v.at l.index)))));
  }

  live_among-kept :
      (k : Bytes) (ks : List Bytes) (v w : View)
      → AllData ks
      → Filled (k ∷ []) v w
      → live_among ks w ≡ live_among ks v
  live_among-kept k [] v w h f = refl
  live_among-kept k (j ∷ ks) v w (d, h) f = rw (f.kept j d, live_among-kept k ks v w h f) refl

  -- A batch: it is answered, with its effect.
  pub record Batch (now : ℕ) (ks : List Bytes) (v : View) : Type 0 where
    pub w : View
    pub there :
        backfill_script (documented codec) l.index l.expiry now ks v ≡ (ok (live_among ks v), w)
    pub filled : Filled ks v w

  pub batch :
      (now : ℕ) (ks : List Bytes) (v : View)
      → AllData ks
      → IsSorted (v.at l.index)
      → IsSorted (v.at l.expiry)
      → Batch now ks v
  unfolding each
  batch now [] v h si se = record {
    w = v;
    there = refl;
    filled = record {
      index_sorted = si;
      expiry_sorted = se;
      kept = λ j _. refl;
      indexed = λ j _. refl;
    };
  }
  batch now (k ∷ ks) v (d, h) si se =
      let first = step k v d si se now in
      let rest = batch now ks first.w h first.filled.index_sorted first.filled.expiry_sorted in
      record {
        w = rest.w;
        there = rw first.there (
            rw rest.there (rw (first.counted, live_among-kept k ks v first.w h first.filled) refl));
        filled = Filled-then k ks v first.w rest.w first.filled rest.filled;
      }
