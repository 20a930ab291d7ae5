-- ===== src/Kv/Store/Floor.antt =====
-- src/state/kv.rs: `incr_floor` of operands that doubles hold exactly.
use mcpg_plugin_cluster_redi.Common.{ℕ, ◌<◌, ◌≤◌, ◌^◌, ◌≡◌, Bool, Option, some, Bytes, ◌∷◌}
use mcpg_plugin_cluster_redi.Common.Int.{ℤ, abs, ◌+ℤ◌, ◌-ℤ◌}
use mcpg_plugin_cluster_redi.Redis.View.{View, Entry, missing, held, text, sorted}
use mcpg_plugin_cluster_redi.Redis.Commands.{Codec}
use mcpg_plugin_cluster_redi.Redis.Commands.Laws.{number_of, text_of}
use mcpg_plugin_cluster_redi.Redis.Server.{Server}
use mcpg_plugin_cluster_redi.Keys.{RedisKv, with_connection_manager, full_key}
use mcpg_plugin_cluster_redi.Kv.Scripts.{raised, current_of}
use mcpg_plugin_cluster_redi.Kv.Store.{ttl_ms}
use mcpg_plugin_cluster_redi.Kv.Store.Indexed.{Indexed}
use mcpg_plugin_cluster_redi.Kv.Store.Counter.{number}

-- Below 2^53 Lua reads the number that INCRBY reads.
current_exact :
    (codec : Codec) (e : Entry) (n : ℤ)
    → number_of codec e ≡ some n
    → abs n < 2 ^ 53
    → current_of codec (text_of e) ≡ some n
current_exact codec missing n h small = h
current_exact codec (held (text b) d) n h small = codec.exact_number b n h small
current_exact codec (held (sorted z) d) n h small = cc

-- The operands of `incr_floor`, and the two sums that Lua forms of them, are exact as doubles.
pub record Exact (n delta floor : ℤ) : Type 0 where
  pub current_exact : abs n < 2 ^ 53
  pub delta_exact : abs delta < 2 ^ 53
  pub floor_exact : abs floor < 2 ^ 53
  pub rise_exact : abs (raised n floor -ℤ n) ≤ 2 ^ 53
  pub sum_exact : abs (raised n floor -ℤ n +ℤ delta) ≤ 2 ^ 53

module _ (r : Server) (c : ℕ) (p : Bytes) (s : r.Store) (inv : Indexed r c p s) (key : Bytes)
    (now : ℕ) (b : Bool) where
  open r use {Store, commands, codec, view, laws}

  abbrev kv : RedisKv
  kv = with_connection_manager (c ∷ p)

  abbrev full : Bytes
  full = full_key kv key

  module _ (delta floor : ℤ) (ttl : Option ℕ) (small : ttl_ms ttl < 2 ^ 52) (n : ℤ)
      (holds : number r c p s inv key now b s ≡ some n) (x : Exact n delta floor) where
    abbrev result : ℤ
    result = raised n floor +ℤ delta
