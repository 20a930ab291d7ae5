-- ===== src/Host/Run.antt =====
-- src/lib.rs: runs of the host's key/value operations, TTLs in milliseconds.
use mcpg_plugin_cluster_redi.Common.{ℕ, ◌+◌, ◌≡◌, false, List, [], ◌∷◌}
use mcpg_plugin_cluster_redi.Client.{Client, World, Result, done, quiet}
use mcpg_plugin_cluster_redi.Redis.Server.{Server}
use mcpg_plugin_cluster_redi.Backend.{Inner}
use mcpg_plugin_cluster_redi.Kv.Spec.{
  Command, get, delete, put, put_if_absent, expire, incr, wait, Answer, entry, stored, waited, flag,
  number,
}
use mcpg_plugin_cluster_redi.Kv.Spec.Steps.{answer_with}
use mcpg_plugin_cluster_redi.Host.{
  Cells, ttl_from_ms, ready, kv_get, kv_put, kv_put_if_absent, kv_delete, kv_expire, kv_incr,
}

-- A command of the host, whose TTL is in milliseconds, as one of the store.
abbrev pub in_nanos : Command → Command
in_nanos (get k) = get k
in_nanos (delete k) = delete k
in_nanos (put k x ttl) = put k x (ttl_from_ms ttl)
in_nanos (put_if_absent k x ttl) = put_if_absent k x (ttl_from_ms ttl)
in_nanos (expire k ttl) = expire k (ttl_from_ms ttl)
in_nanos (incr k delta ttl) = incr k delta (ttl_from_ms ttl)
in_nanos (wait n) = wait n

module _ (r : Server) (open_manager : Client r.Store (Unit {0})) (inner : Inner) where
  open r use {Store, commands, codec, view}

  abbrev at_host :
      {A : Type 0}
      → (A → Answer)
      → ℕ
      → (Result A × Cells) × World Store
      → Answer × Cells × Store × ℕ
  at_host f now ((a, cells), w) = (answer_with f a, cells, w.store, now)

  -- One operation that the host calls, when nothing else happens; its answer, the cells and the store
  -- after it and the clock.
  unfoldable pub host_perform : Command → Cells → Store → ℕ → Answer × Cells × Store × ℕ
  host_perform (get k) cells s now =
      at_host entry now (kv_get open_manager inner commands k cells (quiet s now false))
  host_perform (delete k) cells s now =
      at_host flag now (kv_delete open_manager inner commands k cells (quiet s now false))
  host_perform (put k x ttl) cells s now =
      at_host (λ _. stored) now
        (kv_put open_manager inner commands k x ttl cells (quiet s now false))
  host_perform (put_if_absent k x ttl) cells s now =
      at_host flag now
        (kv_put_if_absent open_manager inner commands k x ttl cells (quiet s now false))
  host_perform (expire k ttl) cells s now =
      at_host flag now (kv_expire open_manager inner commands k ttl cells (quiet s now false))
  host_perform (incr k delta ttl) cells s now =
      at_host number now (kv_incr open_manager inner commands k delta ttl cells (quiet s now false))
  host_perform (wait n) cells s now = (waited, cells, r.wait n s, now + n)

  unfoldable pub host_replies : List Command → Cells → Store → ℕ → List Answer
  host_replies [] cells s now = []
  host_replies (c ∷ cs) cells s now =
      let (a, cells', s', now') = host_perform c cells s now in a ∷ host_replies cs cells' s' now'

  module _ (connects : (w : World Store) → open_manager w ≡ (done tt, w)) where
    abbrev cells_after : Command → Cells → Cells
    cells_after (wait n) cells = cells
    cells_after c cells = ready open_manager cells

    abbrev with_cells : Cells → Answer × Store × ℕ → Answer × Cells × Store × ℕ
    with_cells cells (a, s, now) = (a, cells, s, now)
