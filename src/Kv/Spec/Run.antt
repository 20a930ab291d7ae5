-- ===== src/Kv/Spec/Run.antt =====
-- src/state/kv.rs: each operation on a server, beside its command on the map.
pub mod Writes
pub mod Counter
use mcpg_plugin_cluster_redi.Common.{
  ℕ, ◌+◌, ◌<◌, ◌^◌, ◌≡◌, refl, ap, sym, ◌∙◌, true, false, Option, none, some, Bytes, ltb, arith,
  subst, Bool-cases, inl, inr,
}
use mcpg_plugin_cluster_redi.Common.Int.{ℤ, ◌+ℤ◌, fits_i64}
use mcpg_plugin_cluster_redi.Client.{precondition, done, pipeline-quiet}
use mcpg_plugin_cluster_redi.Redis.View.{
  View, Entry, held, text, IsSorted, IsText, members, deadline, pack-IsSorted,
}
use mcpg_plugin_cluster_redi.Redis.Zset.{insert}
use mcpg_plugin_cluster_redi.Redis.Commands.{Codec}
use mcpg_plugin_cluster_redi.Redis.Commands.Laws.{number_of, count}
use mcpg_plugin_cluster_redi.Redis.Server.{Server, reply_of}
use mcpg_plugin_cluster_redi.Keys.{with_connection_manager, full_key}
use mcpg_plugin_cluster_redi.Kv.Effect.{
  Apart, InTime, written, ttl_entry, new_deadline, set_script_lem, set_script_absent,
  set_script_taken, del_script_lem,
}
use mcpg_plugin_cluster_redi.Kv.Effect.Ttl.{
  expire_script_live, expire_script_absent, incr_script_lem, incr_script_fails, kept_times,
  kept_deadline,
}
use mcpg_plugin_cluster_redi.Kv.Simulate.{
  Simulates-set_script, Simulates-del_script, Simulates-expire_script, Simulates-incr_script,
}
use mcpg_plugin_cluster_redi.Kv.Store as KvStore
use mcpg_plugin_cluster_redi.Kv.Store.{ttl_ms, incr_err}
use mcpg_plugin_cluster_redi.Kv.Store.Read.{read, get-read, get-view}
use mcpg_plugin_cluster_redi.Kv.Store.Indexed.{layout}
use mcpg_plugin_cluster_redi.Kv.Spec.{
  Item, Map, Command, get, delete, put, put_if_absent, expire, incr, wait, Answer, entry, stored,
  flag, number, failed, write, alive, step, from_now, kept, seen, shown, is_there, integer,
  deadline_of,
}
use mcpg_plugin_cluster_redi.Kv.Spec.Steps.{perform, answer_with}
use mcpg_plugin_cluster_redi.Kv.Spec.Refines.{
  Shows, entry_for, Shows-Apart, Shows-written, Shows-removed, Shows-elapse, IsSorted-ttl_entry, kv,
}

-- What a command asks of its environment: a TTL of less than 2^52 ms, and a wait that the clock
-- stays below 2^52 ms after.
abbrev pub Fits : ℕ → Command → Type 0
Fits clock (get k) = Unit {0}
Fits clock (delete k) = Unit {0}
Fits clock (put k x ttl) = ttl_ms ttl < 2 ^ 52
Fits clock (put_if_absent k x ttl) = ttl_ms ttl < 2 ^ 52
Fits clock (expire k ttl) = ttl_ms ttl < 2 ^ 52
Fits clock (incr k delta ttl) = ttl_ms ttl < 2 ^ 52
Fits clock (wait n) = clock + n < 2 ^ 52

read-held :
    (now clock : ℕ) (x : Bytes) (d : Option ℕ)
    → read now clock (held (text x) d) ≡ some (record { bytes = x; expires_at = shown now clock d })
read-held now clock x none = refl
read-held now clock x (some d) = refl

read-entry_for : (now clock : ℕ) (i : Option Item) → read now clock (entry_for i) ≡ seen now clock i
read-entry_for now clock none = refl
read-entry_for now clock (some i) = read-held now clock i.value i.deadline

entry_for-IsText : (i : Option Item) → IsText (entry_for i)
entry_for-IsText none = tt
entry_for-IsText (some i) = tt

count-entry_for : (i : Option Item) → ltb 0 (count (entry_for i)) ≡ is_there i
count-entry_for none = refl
count-entry_for (some i) = refl

number_of-entry_for :
    (codec : Codec) (i : Option Item) → number_of codec (entry_for i) ≡ integer codec i
number_of-entry_for codec none = refl
number_of-entry_for codec (some i) = refl

pub deadline-entry_for : (i : Option Item) → deadline (entry_for i) ≡ deadline_of i
deadline-entry_for none = refl
deadline-entry_for (some i) = refl

module _ (r : Server) (c : ℕ) (p : Bytes) where
  open r use {Store, commands, codec, view, laws}

  -- An answer, a store and a clock are as the map's.
  abbrev pub Agrees : Answer × Store × ℕ → Answer × Map → Type 0
  Agrees (a, u, t) (a', m') = (a ≡ a') × Shows c p (view u) m' × (t ≡ m'.now)

  abbrev pub Follows : Command → Store → Map → Type 0
  Follows cmd s m = Agrees (perform r (kv c p) cmd s m.now) (step codec cmd m)

  module _ (s : Store) (m : Map) (h : Shows c p (view s) m) where
    pub in_time : (ttl : ℕ) → ttl < 2 ^ 52 → InTime ttl (view s)
    in_time ttl small = omega (arith, h.ready.early)

    abbrev pub full : Bytes → Bytes
    full k = full_key (kv c p) k

    abbrev pub apart : (k : Bytes) → Apart (full k) (kv c p).index_key (kv c p).expiry_key (view s)
    apart k = Shows-Apart c p (view s) m h k

    pub held_integer : (k : Bytes) → number_of codec ((view s).at (full k)) ≡ integer codec (m.at k)
    held_integer k = ap (number_of codec) (h.items k) ∙ number_of-entry_for codec (m.at k)

    pub IsSorted-kept_times :
        (k : Bytes) (ttl : ℕ) → IsSorted (kept_times codec (apart k) ttl m.now)
    unfolding with_connection_manager layout
    IsSorted-kept_times k ttl = elim (Bool-cases (ltb 0 ttl)) [
      | inl q ↦
          let e : Entry = (view s).at (kv c p).expiry_key in
          rw q (pack-IsSorted (insert (full k) (m.now + ttl) (members e)) (deadline e))
      | inr q ↦ rw q h.ready.expiry_sorted
    ]

    is_text : (k : Bytes) → IsText ((view s).at (full k))
    is_text k = rw (h.items k) (entry_for-IsText (m.at k))

    pub follows_get : (k : Bytes) → Follows (get k) s m
    unfolding perform step
    follows_get k = (
      ap (answer_with entry) (
          get-read r (kv c p) k s m.now false (is_text k)
          ∙ ap done (
              ap (read m.now (view s).clock) (h.items k)
              ∙ (read-entry_for m.now (view s).clock (m.at k)
                  ∙ ap (λ (n : ℕ). seen m.now n (m.at k)) h.clock))),
      subst (λ v. Shows c p v m) (sym (get-view r (kv c p) k s m.now false (is_text k))) h,
      refl,
    )

    -- The run of an operation and the step of its command are known.
    pub follow :
        (cmd : Command) (there : Answer × Map) {x : Answer × Store × ℕ}
        → step codec cmd m ≡ there
        → perform r (kv c p) cmd s m.now ≡ x
        → Agrees x there
        → Follows cmd s m
    follow cmd there stepped ran agrees =
        subst (λ y. Agrees (perform r (kv c p) cmd s m.now) y) (sym stepped)
          (subst (λ x. Agrees x there) (sym ran) agrees)

    pub Shows-left :
        (m' : Map) {u : Store} {v : View} → view u ≡ v → Shows c p v m' → Shows c p (view u) m'
    Shows-left m' e = subst (λ v. Shows c p v m') (sym e)

    -- A write with a new deadline, with its index entries.
    pub Shows-new :
        (k x : Bytes) (ttl : ℕ)
        → Shows c p
            (written
              (full k)
              (kv c p).index_key
              (kv c p).expiry_key
              (held (text x) (new_deadline (view s).clock ttl))
              (ttl_entry (full k) ttl m.now ((view s).at (kv c p).expiry_key))
              (view s))
            (write k (some (record { value = x; deadline = from_now m.clock ttl })) m)
    Shows-new k x ttl =
        Shows-written c p (view s) m h k _ _ _
          (ap (λ (n : ℕ). held (text x) (from_now n ttl)) h.clock)
          (IsSorted-ttl_entry (full k) ttl m.now ((view s).at (kv c p).expiry_key))

    pub follows_delete : (k : Bytes) → Follows (delete k) s m
    unfolding perform step KvStore.delete
    follows_delete k =
        let (replied, left) =
          reply_of s (Simulates-del_script laws (full k) (kv c p).index_key (kv c p).expiry_key)
            (del_script_lem codec (apart k)) in
        follow (delete k) (flag (is_there (m.at k)), write k none m) refl
          (rw pipeline-quiet (rw replied refl))
          (
            ap (λ (e : Entry). flag (ltb 0 (count e))) (h.items k)
                ∙ ap flag (count-entry_for (m.at k)),
            Shows-left _ left (Shows-removed c p (view s) m h k),
            refl,
          )

    pub follows_wait : (n : ℕ) → Fits m.clock (wait n) → Follows (wait n) s m
    unfolding perform step
    follows_wait n early = (
      refl,
      subst
          (λ v. Shows c p v (record {
            clock = m.clock + n;
            now = m.now + n;
            at = λ k. alive (m.clock + n) (m.at k);
          }))
          (sym (r.wait_law n s)) (Shows-elapse c p (view s) m n (m.now + n) h (rw h.clock early)),
      refl,
    )
