-- ===== src/Host/Life.antt =====
-- src/lib.rs: the plugin's life, of key/value operations, ticks of the peer refresher and shutdowns.
use mcpg_plugin_cluster_redi.Common.{
  ◌≡◌, refl, Bool, true, false, not, ◌||◌, ◌&&◌, Option, List, [], ◌∷◌, Bytes, Bool-cases, inl, inr,
}
use mcpg_plugin_cluster_redi.Client.{Client, World, Result, done, fail}
use mcpg_plugin_cluster_redi.Redis.Commands.{Commands}
use mcpg_plugin_cluster_redi.Peer.{PeerRegistration}
use mcpg_plugin_cluster_redi.Backend.{Inner}
use mcpg_plugin_cluster_redi.Host.{
  Cells, drain, opened, get_or_init_conn, with_kv, refresh_tick, boot, shutdown, no_cells, then_run,
  if_there, key_value_store, spawn, after_tick,
}
use mcpg_plugin_cluster_redi.Keys.{RedisKv}

or_false : (b : Bool) → b || false ≡ b
or_false true = refl
or_false false = refl

or_true : (b : Bool) → b || true ≡ true
or_true true = refl
or_true false = refl

-- A key/value operation by the host, a tick of the peer refresher, or the host's shutdown.
pub data Call (S : Type 0) : Type 0 where
  operation : (RedisKv → Client S (Unit {0})) → Call S
  tick shut : Call S

abbrev pub has_shut : {S : Type 0} → List (Call S) → Bool
has_shut [] = false
has_shut (operation m ∷ calls) = has_shut calls
has_shut (tick ∷ calls) = has_shut calls
has_shut (shut ∷ calls) = true

-- The primitives are there when the connection is. The tasks are there until the plugin drains.
pub record IsSound (drained : Bool) (cells : Cells) : Type 0 where
  pub together : cells.conn ≡ cells.primitives
  pub draining : cells.draining ≡ drained
  pub refreshing : cells.peer_refresh ≡ not drained
  pub maintained : cells.kv_maintenance ≡ not drained

module _ {S : Type 0} (open_manager : Client S (Unit {0})) (inner : Inner) (c : Commands S)
    (to_json : PeerRegistration → Bytes) (from_json : Bytes → Option PeerRegistration) where
  abbrev cells_of : {A : Type 0} → (Result A × Cells) × World S → Cells × World S
  cells_of ((r, cells), w) = (cells, w)

  unfoldable pub call : Call S → Cells × World S → Cells × World S
  call (operation m) (cells, w) = cells_of (with_kv open_manager inner m cells w)
  call tick (cells, w) = refresh_tick open_manager inner c to_json from_json cells w
  call shut (cells, w) = shutdown open_manager inner c to_json from_json cells w

  unfoldable pub life : List (Call S) → Cells × World S → Cells × World S
  life [] at = at
  life (x ∷ calls) at = life calls (call x at)

  IsSound-opened :
      (b : Bool) (cells : Cells) (p : Result (Unit {0}) × World S)
      → IsSound b cells
      → IsSound b (opened open_manager cells p).0.1
  IsSound-opened b cells (done tt, w) h = record {
    together = refl;
    draining = h.draining;
    refreshing = h.refreshing;
    maintained = h.maintained;
  }
  IsSound-opened b cells (fail e, w) h = h

  IsSound-get_or_init_conn :
      (b : Bool) (cells : Cells) (w : World S)
      → IsSound b cells
      → IsSound b (get_or_init_conn open_manager cells w).0.1
  unfolding get_or_init_conn
  IsSound-get_or_init_conn b cells w h = elim (Bool-cases cells.conn) [
    | inl p ↦ simp p (IsSound-opened b cells (done tt, w) h)
    | inr p ↦ simp p (IsSound-opened b cells (open_manager w) h)
  ]

  IsSound-then_run :
      {A : Type 0} (b : Bool) (m : Cells → Client S A) (p : (Result (Unit {0}) × Cells) × World S)
      → IsSound b p.0.1
      → IsSound b (then_run open_manager m p).0.1
  IsSound-then_run b m ((done tt, cells), w) h = h
  IsSound-then_run b m ((fail e, cells), w) h = h

  IsSound-drain : (b : Bool) (cells : Cells) → IsSound b cells → IsSound true (drain cells)
  unfolding drain
  IsSound-drain b cells h = record {
    together = h.together;
    draining = refl;
    refreshing = refl;
    maintained = refl;
  }

  IsSound-shutdown :
      (b : Bool) (cells : Cells) (w : World S)
      → IsSound b cells
      → IsSound true (shutdown open_manager inner c to_json from_json cells w).0
  unfolding shutdown drain
  IsSound-shutdown b cells w h = elim (Bool-cases (cells.peer_refresh && cells.conn)) [
    | inl p ↦ simp p (IsSound-drain b cells h)
    | inr p ↦ simp p (IsSound-drain b cells h)
  ]

  IsSound-life :
      (b : Bool) (calls : List (Call S)) (cells : Cells) (w : World S)
      → IsSound b cells
      → IsSound (b || has_shut calls) (life calls (cells, w)).0
  unfolding life call with_kv refresh_tick
  IsSound-life b [] cells w h = rw (or_false b) h
  IsSound-life b (operation m ∷ calls) cells w h = IsSound-life b calls _ _ (
      IsSound-then_run b (λ now. if_there open_manager inner m (key_value_store inner now))
        (get_or_init_conn open_manager cells w) (IsSound-get_or_init_conn b cells w h))
  IsSound-life b (tick ∷ calls) cells w h = IsSound-life b calls _ _ (
      IsSound-then_run b _ (get_or_init_conn open_manager cells w)
        (IsSound-get_or_init_conn b cells w h))
  IsSound-life b (shut ∷ calls) cells w h =
      rw (or_true b) (IsSound-life true calls _ _ (IsSound-shutdown b cells w h))

  IsSound-spawn :
      (p : Result (Unit {0}) × World S)
      → IsSound false
          (spawn open_manager inner c to_json from_json
            (after_tick open_manager inner c to_json from_json (opened open_manager no_cells p))).0
  IsSound-spawn (done tt, w) = record {
    together = refl;
    draining = refl;
    refreshing = refl;
    maintained = refl;
  }
  IsSound-spawn (fail e, w) = record {
    together = refl;
    draining = refl;
    refreshing = refl;
    maintained = refl;
  }

  IsSound-boot : (w : World S) → IsSound false (boot open_manager inner c to_json from_json w).0
  unfolding boot get_or_init_conn
  IsSound-boot w = IsSound-spawn (open_manager w)

  -- Whatever key/value operations, ticks of the peer refresher and shutdowns follow once the plugin is
  -- built, in whatever order and world, reachable or not: the primitives are there exactly when the
  -- connection is; the plugin drains, and has neither of its tasks, exactly when one of them was a
  -- shutdown. None of them spawns a task again.
  pub boot-life :
      (calls : List (Call S)) (w : World S)
      → IsSound (has_shut calls) (life calls (boot open_manager inner c to_json from_json w)).0
  boot-life calls w = IsSound-life false calls _ _ (IsSound-boot w)
