-- ===== src/Kv/Index/Scripts.antt =====
-- src/state/kv.rs: the write scripts and the promise of the indexes.
use mcpg_plugin_cluster_redi.Common.{
  ℕ, ◌+◌, ◌≡◌, refl, Bool, true, false, Option, none, some, Bytes, same, same_refl, ltb, ◌||◌,
  if◌then◌else◌, leb, Bool-cases, inl, inr, subst,
}
use mcpg_plugin_cluster_redi.Common.Int.{ℤ, fits_i64, ◌+ℤ◌, abs}
use mcpg_plugin_cluster_redi.Redis.Zset.{score, insert, remove, score-insert, score-remove}
use mcpg_plugin_cluster_redi.Redis.View.{
  View, Value, Entry, held, text, sorted, members, deadline, IsSorted, IsText, members-pack,
  pack-IsSorted, Entry-cases,
}
use mcpg_plugin_cluster_redi.Redis.Commands.{Codec, documented}
use mcpg_plugin_cluster_redi.Redis.Commands.Laws.{
  with_member, without_member, number_of, get_lem, text_of,
}
use mcpg_plugin_cluster_redi.Kv.Scripts.{
  set_script, del_script, expire_script, incr_script, incr_floor_script, incr_floor_from,
  current_of, increment, exact,
}
use mcpg_plugin_cluster_redi.Kv.Effect.{
  Apart, InTime, new_deadline, ttl_entry, set_script_lem, set_script_absent, set_script_taken,
  del_script_lem,
}
use mcpg_plugin_cluster_redi.Kv.Effect.Ttl.{
  expire_script_live, expire_script_absent, incr_script_lem, incr_script_fails, kept_times,
  kept_deadline,
}
use mcpg_plugin_cluster_redi.Kv.Index.{Layout, is_some, timed, IsIndexed, Apart_of_IsIndexed}
use mcpg_plugin_cluster_redi.Kv.Index.Keep.{Retimed, IsIndexed-written, IsIndexed-deleted}

score-with :
    (m j : Bytes) (n : ℕ) (e : Entry)
    → score j (members (with_member m n e)) ≡ (if same m j then some n else score j (members e))
score-with m j n e =
    rw (members-pack (insert m n (members e)) (deadline e)) (score-insert m j n (members e))

score-without :
    (m j : Bytes) (e : Entry)
    → score j (members (without_member m e)) ≡ (if same m j then none else score j (members e))
score-without m j e =
    rw (members-pack (remove m (members e)) (deadline e)) (score-remove m j (members e))

pub Retimed-with :
    (key : Bytes) (e : Entry) (n : ℕ) (before : Entry)
    → Retimed key e before (with_member key n before)
Retimed-with key e n before = record {
  is_set = pack-IsSorted (insert key n (members before)) (deadline before);
  others = λ j q. rw (score-with key j n before, q);
  own = λ p. rw (score-with key key n before, same_refl key);
}

pub Retimed-without :
    (key : Bytes) (x : Value) (before : Entry)
    → Retimed key (held x none) before (without_member key before)
Retimed-without key x before = record {
  is_set = pack-IsSorted (remove key (members before)) (deadline before);
  others = λ j q. rw (score-without key j before, q);
  own = λ p. cc;
}

Retimed-ttl_entry :
    (key : Bytes) (x : Value) (clock ttl now : ℕ) (before : Entry)
    → IsSorted before
    → Retimed key (held x (new_deadline clock ttl)) before (ttl_entry key ttl now before)
Retimed-ttl_entry key x clock ttl now before h = elim (Bool-cases (ltb 0 ttl)) [
  | inl p ↦ rw p (Retimed-with key (held x (some (clock + ttl))) (now + ttl) before)
  | inr p ↦ rw p (Retimed-without key x before)
]

IsText-held : (x : Value) (d d' : Option ℕ) → IsText (held x d) → IsText (held x d')
IsText-held (text b) d d' h = tt
IsText-held (sorted z) d d' h = absurd h

module _ (codec : Codec) (l : Layout) (v : View) (inv : IsIndexed l v) (key : Bytes)
    (d : l.is_data key ≡ true) where
  abbrev apart : Apart key l.index l.expiry v
  apart = Apart_of_IsIndexed l v key inv d

  -- A live data key that can end stands in the expiry index.
  timed_of_live : (x : Value) (t : ℕ) → v.at key ≡ held x (some t) → is_some (timed l v key) ≡ true
  timed_of_live x t e = inv.sweepable key d (rw (inv.complete key d (rw e refl))) (rw e)

  -- A counter keeps its deadline, and its expiry entry, where no TTL is given.
  Retimed-deadline :
      (y : Value) → Retimed key (held y (deadline (v.at key))) (v.at l.expiry) (v.at l.expiry)
  Retimed-deadline y = elim (Entry-cases (v.at key)) [
    | inl e ↦ rw e (record { is_set = inv.expiry_sorted; others = λ j q. refl; own = λ p. cc })
    | inr (x, none, e) ↦
        rw e (record { is_set = inv.expiry_sorted; others = λ j q. refl; own = λ p. cc })
    | inr (x, some t, e) ↦ rw e (record {
      is_set = inv.expiry_sorted;
      others = λ j q. refl;
      own = λ p. timed_of_live x t e;
    })
  ]

  Retimed-kept :
      (y : Value) (ttl now : ℕ)
      → Retimed key
          (held y (kept_deadline codec apart ttl (deadline (v.at key))))
          (v.at l.expiry)
          (kept_times codec apart ttl now)
  Retimed-kept y ttl now = elim (Bool-cases (ltb 0 ttl)) [
    | inl p ↦ rw p (Retimed-with key (held y (some (v.clock + ttl))) (now + ttl) (v.at l.expiry))
    | inr p ↦ rw p (Retimed-deadline y)
  ]

  pub IsIndexed-set_script :
      (value : Bytes) (ttl now : ℕ) (nx : Bool)
      → InTime ttl v
      → IsIndexed l (set_script (documented codec) key l.index l.expiry value ttl now nx v).1
  IsIndexed-set_script value ttl now false t = rw (set_script_lem codec apart value ttl now t) (
      IsIndexed-written l v inv key d _ _ tt
        (Retimed-ttl_entry key (text value) v.clock ttl now (v.at l.expiry) inv.expiry_sorted))
  IsIndexed-set_script value ttl now true t = elim (Entry-cases (v.at key)) [
    | inl e ↦ rw (set_script_absent codec apart value ttl now t e) (
        IsIndexed-written l v inv key d _ _ tt
          (Retimed-ttl_entry key (text value) v.clock ttl now (v.at l.expiry) inv.expiry_sorted))
    | inr (x, dl, e) ↦ rw (set_script_taken codec apart value ttl now x dl t e) inv
  ]

  pub IsIndexed-expire_script :
      (ttl now : ℕ)
      → InTime ttl v
      → IsIndexed l (expire_script (documented codec) key l.index l.expiry ttl now v).1
  IsIndexed-expire_script ttl now t = elim (Entry-cases (v.at key)) [
    | inl e ↦ rw (expire_script_absent codec apart ttl now e) inv
    | inr (x, dl, e) ↦ rw (expire_script_live codec apart ttl now x dl t e) (
        IsIndexed-written l v inv key d _ _
          (IsText-held x dl (new_deadline v.clock ttl) (subst IsText e (inv.data_text key d)))
          (Retimed-ttl_entry key x v.clock ttl now (v.at l.expiry) inv.expiry_sorted))
  ]

  pub IsIndexed-del_script : IsIndexed l (del_script (documented codec) key l.index l.expiry v).1
  IsIndexed-del_script = rw (del_script_lem codec apart) (IsIndexed-deleted l v inv key d)

  -- The two outcomes of a counter script.
  incr_by :
      (delta : ℤ) (ttl now : ℕ) (n : Option ℤ)
      → number_of codec (v.at key) ≡ n
      → InTime ttl v
      → IsIndexed l (incr_script (documented codec) key l.index l.expiry delta ttl now v).1
  incr_by delta ttl now none e t =
      rw (incr_script_fails codec apart delta ttl now (λ n h. cc (e, h))) inv
  incr_by delta ttl now (some n) e t = elim (Bool-cases (fits_i64 (n +ℤ delta))) [
    | inl f ↦ rw (incr_script_lem codec apart delta ttl now n t e f) (
        IsIndexed-written l v inv key d _ _ tt
          (Retimed-kept (text (codec.of_int (n +ℤ delta))) ttl now))
    | inr f ↦
        rw
          (incr_script_fails codec apart delta ttl now
            (λ m h. let q : n ≡ m = cc (e, h) in subst (λ i. fits_i64 (i +ℤ delta) ≡ false) q f))
          inv
  ]

  pub IsIndexed-incr_script :
      (delta : ℤ) (ttl now : ℕ)
      → InTime ttl v
      → IsIndexed l (incr_script (documented codec) key l.index l.expiry delta ttl now v).1
  IsIndexed-incr_script delta ttl now t = incr_by delta ttl now (number_of codec (v.at key)) refl t

  incr_floor_from-IsIndexed :
      (delta : ℤ) (ttl now : ℕ) (floor : ℤ) (current : Option ℤ)
      → InTime ttl v
      → IsIndexed l
          (incr_floor_from
            (documented codec)
            codec
            key
            l.index
            l.expiry
            delta
            ttl
            now
            floor
            current
            v).1
  unfolding incr_floor_from
  incr_floor_from-IsIndexed delta ttl now floor none t = inv
  incr_floor_from-IsIndexed delta ttl now floor (some current) t =
      elim (Bool-cases
        (leb exact (abs current) || (leb exact (abs floor) || leb exact (abs delta)))) [
          | inl p ↦ rw p inv
          | inr p ↦ rw p (
              unfold incr_script in
              IsIndexed-incr_script (increment codec delta floor current) ttl now t)
        ]

  pub IsIndexed-incr_floor_script :
      (delta : ℤ) (ttl now : ℕ) (floor : ℤ)
      → InTime ttl v
      → IsIndexed l
          (incr_floor_script (documented codec) codec key l.index l.expiry delta ttl now floor v).1
  unfolding incr_floor_script
  IsIndexed-incr_floor_script delta ttl now floor t =
      rw (get_lem codec key v (inv.data_text key d))
        (incr_floor_from-IsIndexed delta ttl now floor (current_of codec (text_of (v.at key))) t)
