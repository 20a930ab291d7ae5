-- ===== src/Kv/Listing.antt =====
-- src/state/kv.rs: the listings: `fetch_entries`, `index_page`, `scan_page` and `list_page`. The JSON
-- of a scan cursor is a parameter.
pub mod Range
use mcpg_plugin_cluster_redi.Common.{
  ℕ, zero, suc, ◌+◌, Bool, true, false, ◌&&◌, not, Option, none, some, List, [], ◌∷◌, Bytes, codes,
  ◌++◌, ltb, ◌==◌, if◌then◌else◌, length, take, drop, max,
}
use mcpg_plugin_cluster_redi.Common.Int.{ℤ}
use mcpg_plugin_cluster_redi.Script
use mcpg_plugin_cluster_redi.Script.{Script}
use mcpg_plugin_cluster_redi.Client.{
  Client, done, precondition, return, throw, request, pipeline, redis_err, now_ms, index_ready,
  pause, ◌>>=◌,
}
use mcpg_plugin_cluster_redi.Redis.Zset.{Bound, from, after}
use mcpg_plugin_cluster_redi.Redis.Commands.{Commands}
use mcpg_plugin_cluster_redi.Keys.{RedisKv, full_key, logical_key}
use mcpg_plugin_cluster_redi.Kv.Store.{KvEntry, get_pttl, expires_of, entry_of}
use mcpg_plugin_cluster_redi.Kv.Upkeep.{glob_escape, prune_script, is_nil}

-- A request whose failure is dropped.
abbrev ignore : {S A : Type 0} → Client S A → Client S (Unit {0})
ignore m w = (done tt, (m w).1)

abbrev pub Listed : Type 0
Listed = List (Bytes × KvEntry)

-- Where a `SCAN` pass stands.
pub record ScanCursor : Type 0 where
  pub scan : ℕ
  pub pending : List Bytes
  pub done : Bool

-- `none` ends the listing.
pub record KvPage : Type 0 where
  pub entries : Listed
  pub next : Option Bytes

-- The entry of one key, from its GET and PTTL replies.
unfoldable pub read_entry : ℕ → Option Bytes × ℤ → Option KvEntry
read_entry now (none, pttl) = none
read_entry now (some bytes, pttl) = entry_of bytes (expires_of now pttl)

abbrev pub place : Bytes → Bytes → Option KvEntry → Listed × List Bytes → Listed × List Bytes
place full key none (out, gone) = (out, full ∷ gone)
place full key (some e) (out, gone) = ((key, e) ∷ out, gone)

-- The keys with their entries, by the caller's names, and the keys that are gone.
unfoldable pub sort_replies :
    RedisKv → ℕ → List Bytes → List (Option Bytes × ℤ) → Listed × List Bytes
sort_replies kv now (k ∷ ks) (r ∷ rs) =
    place k (logical_key kv k) (read_entry now r) (sort_replies kv now ks rs)
sort_replies kv now ks rs = ([], [])

-- The bounds of a page: from the prefix or after the cursor, and below every key with another prefix.
abbrev pub page_start : Bytes → Option Bytes → Bound
page_start full_prefix none = from full_prefix
page_start full_prefix (some full) = after full

abbrev pub page_end : Bytes → Bytes
page_end full_prefix = full_prefix ++ (0xFF ∷ [])

module _ {S : Type 0} (c : Commands S) where
  -- GET and PTTL of each key, in one pipeline
  unfoldable pub get_all : List Bytes → (S → S) → Script S (List (Option Bytes × ℤ))
  get_all [] between = Script.pure []
  get_all (k ∷ ks) between = Script.◌>>=◌ (get_pttl c k between) λ r.
      Script.◌>>=◌ (pause between) λ _. Script.◌>>=◌ (get_all ks between) λ rs. Script.pure (r ∷ rs)

  module _ (kv : RedisKv) where
    abbrev pub prune_gone : Bool → List Bytes → Client S (Unit {0})
    prune_gone prune gone =
        if prune && not (is_nil gone)
        then ignore (request redis_err (prune_script c kv.index_key kv.expiry_key gone))
        else return tt

    unfoldable pub fetch_entries : List Bytes → Bool → Client S Listed
    fetch_entries [] prune = return []
    fetch_entries (k ∷ ks) prune = do
      replies ← pipeline redis_err (get_all (k ∷ ks))
      now ← now_ms
      _ ← prune_gone prune (sort_replies kv now (k ∷ ks) replies).1
      return (sort_replies kv now (k ∷ ks) replies).0

    unfoldable pub last : List Bytes → Option Bytes
    last [] = none
    last (k ∷ []) = some k
    last (k ∷ j ∷ ks) = last (j ∷ ks)

    abbrev pub index_cursor : Option Bytes → Option Bytes
    index_cursor none = none
    index_cursor (some k) = some (codes "i" ++ k)

    unfoldable pub index_page : Bytes → Option Bytes → ℕ → Client S KvPage
    index_page prefix start limit = do
      keys ← request redis_err (
          c.zrangebylex kv.index_key (page_start (full_key kv prefix) start)
            (page_end (full_key kv prefix)) (limit + 1))
      entries ← fetch_entries (take limit keys) true
      return (record {
        entries = entries;
        next = if ltb limit (length keys) then index_cursor (last (take limit keys)) else none;
      })

    module _ (scan : ℕ → Bytes → Script S (ℕ × List Bytes)) (to_json : ScanCursor → Bytes)
        (from_json : Bytes → Option ScanCursor) where
      -- Steps of the scan until a page is full or the pass is over; a unit of fuel a step.
      unfoldable pub scan_steps : Bytes → ℕ → ℕ → ScanCursor → Client S ScanCursor
      scan_steps pattern limit zero st = return st
      scan_steps pattern limit (suc fuel) st =
          if ltb (length st.pending) limit && not st.done
          then (do
            step ← request redis_err (scan st.scan pattern)
            scan_steps pattern limit fuel
                (record { scan = step.0; pending = st.pending ++ step.1; done = step.0 == 0 }))
          else return st

      abbrev pub scan_cursor : ℕ → ScanCursor → Option Bytes
      scan_cursor limit st =
          if st.done && is_nil (drop limit st.pending)
          then none
          else some (
              codes "s"
              ++ to_json
                  (record { scan = st.scan; pending = drop limit st.pending; done = st.done }))

      unfoldable pub scan_page : ℕ → Bytes → ScanCursor → ℕ → Client S KvPage
      scan_page fuel prefix state limit = do
        st ← scan_steps (glob_escape (full_key kv prefix) ++ codes "*") limit fuel state
        entries ← fetch_entries (take limit st.pending) false
        return (record { entries = entries; next = scan_cursor limit st })

      abbrev pub first_cursor : ScanCursor
      first_cursor = record { scan = 0; pending = []; done = false }

      abbrev pub scan_state : Bytes → Client S ScanCursor
      scan_state text = elim (from_json text) [ none ↦ throw precondition | some st ↦ return st ]

      unfoldable pub list_page : ℕ → Bytes → Option Bytes → ℕ → Client S KvPage
      list_page fuel prefix none limit = do
        ready ← index_ready
        if ready
            then index_page prefix none (max limit 1)
            else scan_page fuel prefix first_cursor (max limit 1)
      list_page fuel prefix (some []) limit = do
        st ← scan_state []
        scan_page fuel prefix st (max limit 1)
      list_page fuel prefix (some (b ∷ text)) limit =
          if b == b'i' then index_page prefix (some text) (max limit 1) else do
            st ← scan_state (if b == b's' then text else b ∷ text)
            scan_page fuel prefix st (max limit 1)
