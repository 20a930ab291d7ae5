-- ===== src/Kv/Simulate.antt =====
-- src/state/kv.rs: each script on a server, and with the documented commands on its view.
use mcpg_plugin_cluster_redi.Common.{ℕ, Bool, Option, none, some, Bytes}
use mcpg_plugin_cluster_redi.Common.Int.{ℤ}
use mcpg_plugin_cluster_redi.Redis.Commands.{Commands, Codec, documented}
use mcpg_plugin_cluster_redi.Redis.View.{View}
use mcpg_plugin_cluster_redi.Redis.Server.{Documented, Simulates, simulation}
use mcpg_plugin_cluster_redi.Kv.Scripts.{
  set_value, index_ttl, set_script, del_script, change_ttl, expire_script, incr_indexes,
  incr_script, incr_floor_from, incr_floor_script,
}

module _ {S : Type 0} {codec : Codec} {view : S → View} {c : Commands S}
    (laws : Documented codec view c) where
  open laws use {
    get_law, set_law, set_px_law, set_nx_law, set_nx_px_law, del_law, exists_law, pexpire_law,
    persist_law, incrby_law, return_integer_law, zadd_law, zrem_law,
  }

  Simulates-set_value :
      (key value : Bytes) (ttl : ℕ) (nx : Bool)
      → Simulates view
          (set_value c key value ttl nx)
          (set_value (documented codec) key value ttl nx)
  unfolding set_value
  Simulates-set_value key value ttl nx =
      search (simulation, set_law, set_px_law, set_nx_law, set_nx_px_law)

  Simulates-index_ttl :
      (expiry key : Bytes) (ttl now : ℕ)
      → Simulates view
          (index_ttl c expiry key ttl now)
          (index_ttl (documented codec) expiry key ttl now)
  unfolding index_ttl
  Simulates-index_ttl expiry key ttl now = search (simulation, zadd_law, zrem_law)

  pub Simulates-set_script :
      (key index expiry value : Bytes) (ttl now : ℕ) (nx : Bool)
      → Simulates view
          (set_script c key index expiry value ttl now nx)
          (set_script (documented codec) key index expiry value ttl now nx)
  unfolding set_script
  Simulates-set_script key index expiry value ttl now nx =
      search (simulation, Simulates-set_value, Simulates-index_ttl, zadd_law)

  pub Simulates-del_script :
      (key index expiry : Bytes)
      → Simulates view
          (del_script c key index expiry)
          (del_script (documented codec) key index expiry)
  unfolding del_script
  Simulates-del_script key index expiry = search (simulation, del_law, zrem_law)

  Simulates-change_ttl :
      (key expiry : Bytes) (ttl now : ℕ)
      → Simulates view
          (change_ttl c key expiry ttl now)
          (change_ttl (documented codec) key expiry ttl now)
  unfolding change_ttl
  Simulates-change_ttl key expiry ttl now =
      search (simulation, pexpire_law, persist_law, zadd_law, zrem_law)

  pub Simulates-expire_script :
      (key index expiry : Bytes) (ttl now : ℕ)
      → Simulates view
          (expire_script c key index expiry ttl now)
          (expire_script (documented codec) key index expiry ttl now)
  unfolding expire_script
  Simulates-expire_script key index expiry ttl now =
      search (simulation, exists_law, Simulates-change_ttl, zadd_law)

  Simulates-incr_indexes :
      (key index expiry : Bytes) (ttl now : ℕ) (ret : ℤ)
      → Simulates view
          (incr_indexes c key index expiry ttl now ret)
          (incr_indexes (documented codec) key index expiry ttl now ret)
  unfolding incr_indexes
  Simulates-incr_indexes key index expiry ttl now ret =
      search (simulation, pexpire_law, zadd_law, return_integer_law)

  pub Simulates-incr_script :
      (key index expiry : Bytes) (delta : ℤ) (ttl now : ℕ)
      → Simulates view
          (incr_script c key index expiry delta ttl now)
          (incr_script (documented codec) key index expiry delta ttl now)
  unfolding incr_script
  Simulates-incr_script key index expiry delta ttl now =
      search (simulation, incrby_law, Simulates-incr_indexes)

  Simulates-incr_floor_from :
      (key index expiry : Bytes) (delta : ℤ) (ttl now : ℕ) (floor : ℤ) (current : Option ℤ)
      → Simulates view
          (incr_floor_from c codec key index expiry delta ttl now floor current)
          (incr_floor_from (documented codec) codec key index expiry delta ttl now floor current)
  unfolding incr_floor_from
  Simulates-incr_floor_from key index expiry delta ttl now floor none = search simulation
  Simulates-incr_floor_from key index expiry delta ttl now floor (some current) =
      search (simulation, incrby_law, Simulates-incr_indexes)

  pub Simulates-incr_floor_script :
      (key index expiry : Bytes) (delta : ℤ) (ttl now : ℕ) (floor : ℤ)
      → Simulates view
          (incr_floor_script c codec key index expiry delta ttl now floor)
          (incr_floor_script (documented codec) codec key index expiry delta ttl now floor)
  unfolding incr_floor_script
  Simulates-incr_floor_script key index expiry delta ttl now floor =
      search (simulation, get_law, Simulates-incr_floor_from)
