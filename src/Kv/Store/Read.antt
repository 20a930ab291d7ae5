-- ===== src/Kv/Store/Read.antt =====
-- src/state/kv.rs: `get` while nothing else happens.
use mcpg_plugin_cluster_redi.Common.{
  ℕ, ◌+◌, ◌-◌, ◌≡◌, refl, ap, ◌∙◌, Bool, Option, none, some, Bytes,
}
use mcpg_plugin_cluster_redi.Script.{ok}
use mcpg_plugin_cluster_redi.Common.Int.{ℤ}
use mcpg_plugin_cluster_redi.Redis.View.{View, Entry, missing, held, text, sorted, IsText}
use mcpg_plugin_cluster_redi.Redis.Commands.{documented}
use mcpg_plugin_cluster_redi.Redis.Commands.Laws.{get_lem, text_of, pttl_lem, pttl_of}
use mcpg_plugin_cluster_redi.Redis.Server.{Server, Simulates, simulation, reply_of}
use mcpg_plugin_cluster_redi.Client.{done, quiet, pause, pipeline}
use mcpg_plugin_cluster_redi.Keys.{RedisKv, full_key}
use mcpg_plugin_cluster_redi.Kv.Store.{KvEntry, get, get_pttl, get_reply, entry_of, expires_of}

-- What a key holds, as the caller reads it at `now` by its own clock.
abbrev pub read : ℕ → ℕ → Entry → Option KvEntry
read now clock missing = none
read now clock (held (text b) none) = some (record { bytes = b; expires_at = none })
read now clock (held (text b) (some d)) =
    some (record { bytes = b; expires_at = some (now + (d - clock)) })
read now clock (held (sorted z) d) = none

entry_of_reply :
    (now clock : ℕ) (e : Entry) {S : Type 0} (s : S) (b : Bool)
    → (get_reply (text_of e, pttl_of clock e) (quiet s now b)).0 ≡ done (read now clock e)
unfolding get_reply entry_of expires_of
entry_of_reply now clock missing s b = refl
entry_of_reply now clock (held (text x) none) s b = refl
entry_of_reply now clock (held (text x) (some d)) s b = refl
entry_of_reply now clock (held (sorted z) d) s b = refl

module _ (r : Server) where
  open r use {Store, commands, codec, view, laws}

  pause_still : Simulates view (pause (λ s. s)) (pause (λ v. v))
  pause_still = record { run = λ s. refl }

  Simulates-get_pttl :
      (full : Bytes)
      → Simulates view (get_pttl commands full (λ s. s)) (get_pttl (documented codec) full (λ v. v))
  unfolding get_pttl
  Simulates-get_pttl full = search (simulation, laws.get_law, laws.pttl_law, pause_still)

  get_pttl_lem :
      (full : Bytes) (v : View)
      → IsText (v.at full)
      → get_pttl (documented codec) full (λ v. v) v
        ≡ (ok (text_of (v.at full), pttl_of v.clock (v.at full)), v)
  unfolding get_pttl
  get_pttl_lem full v h = rw (get_lem codec full v h) (rw (pttl_lem codec full v))

  pub get-read :
      (kv : RedisKv) (key : Bytes) (s : Store) (now : ℕ) (b : Bool)
      → IsText ((view s).at (full_key kv key))
      → (get commands kv key (quiet s now b)).0
        ≡ done (read now (view s).clock ((view s).at (full_key kv key)))
  unfolding get pipeline
  get-read kv key s now b h =
      let full = full_key kv key in
      let (replied, _) = reply_of s (Simulates-get_pttl full) (get_pttl_lem full (view s) h) in
      rw replied (entry_of_reply now (view s).clock ((view s).at full) _ b)

  reply_still :
      (now : ℕ) (b : Bool) (s : Store) (x : Option Bytes × ℤ)
      → (get_reply x (quiet s now b)).1.store ≡ s
  unfolding get_reply
  reply_still now b s (none, t) = refl
  reply_still now b s (some x, t) = refl

  -- A `get` changes nothing.
  pub get-view :
      (kv : RedisKv) (key : Bytes) (s : Store) (now : ℕ) (b : Bool)
      → IsText ((view s).at (full_key kv key))
      → view (get commands kv key (quiet s now b)).1.store ≡ view s
  unfolding get pipeline
  get-view kv key s now b h =
      let full = full_key kv key in
      let (replied, left) = reply_of s (Simulates-get_pttl full) (get_pttl_lem full (view s) h) in
      rw replied (
        ap view (
          reply_still now b (get_pttl commands full (λ s. s) s).1
            (text_of ((view s).at full), pttl_of (view s).clock ((view s).at full)))
        ∙ left)
