-- ===== src/Host/Locks.antt =====
-- src/lib.rs: the leases that the host asks for by role and by lock.
use mcpg_plugin_cluster_redi.Common.{
  ℕ, suc, ◌+◌, ◌*◌, ◌/◌, ◌<◌, ◌≤◌, ◌^◌, ◌≡◌, refl, ap, ◌∙◌, Bool, true, false, Option, some, Bytes,
  codes, ◌++◌, [], ◌∷◌, same, same-append, is_blank, is_whitespace, max, arith,
}
use mcpg_plugin_cluster_redi.Common.Int.{pos}
use mcpg_plugin_cluster_redi.Client.{Client, World, Result, done, fail, quiet}
use mcpg_plugin_cluster_redi.Redis.View.{missing}
use mcpg_plugin_cluster_redi.Redis.Commands.{Commands}
use mcpg_plugin_cluster_redi.Redis.Commands.Laws.{number_of}
use mcpg_plugin_cluster_redi.Redis.Server.{Server}
use mcpg_plugin_cluster_redi.Keys.{lease_key, fence_key}
use mcpg_plugin_cluster_redi.Lease.{LeaseState, lease_ttl, calendar_end, try_acquire_async}
use mcpg_plugin_cluster_redi.Lease.Handle.{HeldBy, try_acquire_async-free}
use mcpg_plugin_cluster_redi.Backend.{Inner}
use mcpg_plugin_cluster_redi.Host.{Cells, ready, get_or_init_conn}
use mcpg_plugin_cluster_redi.Host.Leases.{
  Heap, Leased, acquire_sync, try_acquire_sync, wrap_state, wrapped,
}

-- An operation of the host on a lease, with the cells and the leases after it.
abbrev pub HostLeased : Type 0 → Type 0 → Type 0
HostLeased S A = Cells → Heap → World S → (Result A × Cells × Heap) × World S

module _ {S : Type 0} (c : Commands S) (open_manager : Client S (Unit {0})) (inner : Inner) where
  abbrev with_cells :
      {A : Type 0} → Cells → (Result A × Heap) × World S → (Result A × Cells × Heap) × World S
  with_cells cells ((r, heap), w) = ((r, cells, heap), w)

  abbrev on_connection :
      {A : Type 0}
      → Leased S A
      → Heap
      → (Result (Unit {0}) × Cells) × World S
      → (Result A × Cells × Heap) × World S
  on_connection m heap ((done tt, cells), w) = with_cells cells (m heap w)
  on_connection m heap ((fail e, cells), w) = ((fail e, cells, heap), w)

  unfoldable pub with_connection : {A : Type 0} → Leased S A → HostLeased S A
  with_connection m cells heap w = on_connection m heap (get_or_init_conn open_manager cells w)

  abbrev key_of : Bytes → Bytes → Bytes
  key_of kind name = lease_key inner.config.key_prefix kind name

  abbrev fence_of : Bytes → Bytes → Bytes
  fence_of kind name = fence_key inner.config.key_prefix kind name

  unfoldable pub host_acquire_leadership : ℕ → Bytes → ℕ → HostLeased S (Option (ℕ × ℕ × ℕ))
  host_acquire_leadership fuel role ttl_ms = with_connection (
      acquire_sync c (codes "mcpg-leadership-" ++ role) (key_of (codes "leadership") role)
        (fence_of (codes "leadership") role) inner.node_id ttl_ms fuel)

  unfoldable pub host_acquire_lock : ℕ → Bytes → ℕ → HostLeased S (Option (ℕ × ℕ × ℕ))
  host_acquire_lock fuel key ttl_ms = with_connection (
      acquire_sync c (codes "mcpg-lock-" ++ key) (key_of (codes "locks") key)
        (fence_of (codes "locks") key) inner.node_id ttl_ms fuel)

  unfoldable pub host_try_acquire_leadership : Bytes → ℕ → HostLeased S (Option (ℕ × ℕ × ℕ))
  host_try_acquire_leadership role ttl_ms = with_connection (
      try_acquire_sync c (codes "mcpg-leadership-" ++ role) (key_of (codes "leadership") role)
        (fence_of (codes "leadership") role) inner.node_id ttl_ms)

  unfoldable pub host_try_acquire_lock : Bytes → ℕ → HostLeased S (Option (ℕ × ℕ × ℕ))
  host_try_acquire_lock key ttl_ms = with_connection (
      try_acquire_sync c (codes "mcpg-lock-" ++ key) (key_of (codes "locks") key)
        (fence_of (codes "locks") key) inner.node_id ttl_ms)

  with_connection-connected :
      {A : Type 0} (m : Leased S A) (cells : Cells) (heap : Heap) (w : World S)
      → cells.conn ≡ true
      → with_connection m cells heap w ≡ with_cells (ready open_manager cells) (m heap w)
  unfolding with_connection get_or_init_conn
  with_connection-connected m cells heap w e = simp e refl

same-longer : (s t : Bytes) (c : ℕ) → same s (s ++ (c ∷ t)) ≡ false
unfolding same
same-longer [] t c = refl
same-longer (x ∷ s) t c = ground (arith, same-longer s t c)

longer-same : (s t : Bytes) (c : ℕ) → same (s ++ (c ∷ t)) s ≡ false
unfolding same
longer-same [] t c = refl
longer-same (x ∷ s) t c = ground (arith, longer-same s t c)

lease_key-fence :
    (prefix kind name : Bytes)
    → same (lease_key prefix kind name) (fence_key prefix kind name) ≡ false
unfolding lease_key fence_key
lease_key-fence prefix kind name =
    same-append prefix (kind ++ (codes "/" ++ name))
      (kind ++ (codes "/" ++ (name ++ codes ":fence")))
    ∙ (same-append kind (codes "/" ++ name) (codes "/" ++ (name ++ codes ":fence"))
        ∙ (same-append (codes "/") name (name ++ codes ":fence")
            ∙ same-longer name (codes "fence") b':'))

fence-lease_key :
    (prefix kind name : Bytes)
    → same (fence_key prefix kind name) (lease_key prefix kind name) ≡ false
unfolding lease_key fence_key
fence-lease_key prefix kind name =
    same-append prefix (kind ++ (codes "/" ++ (name ++ codes ":fence")))
      (kind ++ (codes "/" ++ name))
    ∙ (same-append kind (codes "/" ++ (name ++ codes ":fence")) (codes "/" ++ name)
        ∙ (same-append (codes "/") (name ++ codes ":fence") name
            ∙ longer-same name (codes "fence") b':'))

lock_name-named : (key : Bytes) → is_blank (codes "mcpg-lock-" ++ key) ≡ false
unfolding is_blank is_whitespace
lock_name-named key = refl

lease_ttl-ms : (ms : ℕ) → ms < 2 ^ 64 → lease_ttl (max ms 1 * 10 ^ 6) ≡ max ms 1
unfolding lease_ttl
lease_ttl-ms ms h = omega arith

-- On a server that behaves as documented, when nothing else happens: the host's attempt to acquire a
-- lock that is free, on a connected plugin, gives it a pointer to the state of the lease, the next
-- fence token of the lock's counter and the end of the lease, and leaves the lock held by the node
-- for the TTL in milliseconds, or for 1 ms where the TTL is 0; if the next token is at most 2^53,
-- the deadline fits 63 bits, `chrono` has a date for the end, and the TTL is a `u64`.
pub host_try_acquire_lock-free :
    (r : Server) (open_manager : Client r.Store (Unit {0})) (inner : Inner) (key : Bytes)
    (cells : Cells) (heap : Heap) (ms n now : ℕ) (b : Bool) (s : r.Store)
    → cells.conn ≡ true
    → ms < 2 ^ 64
    → (r.view s).at (lease_key inner.config.key_prefix (codes "locks") key) ≡ missing
    → number_of r.codec ((r.view s).at (fence_key inner.config.key_prefix (codes "locks") key))
      ≡ some (pos n)
    → suc n ≤ 2 ^ 53
    → (r.view s).clock + max ms 1 < 2 ^ 63
    → now + max ms 1 < calendar_end
    → ((host_try_acquire_lock r.commands open_manager inner key ms cells heap (quiet s now b)).0.0
        ≡ done (some (heap.next, suc n, (now + max ms 1) / 1000)))
      × HeldBy
          (lease_key inner.config.key_prefix (codes "locks") key)
          inner.node_id
          ((r.view s).clock + max ms 1)
          (r.view
            (host_try_acquire_lock r.commands open_manager inner key ms cells heap
              (quiet s now b)).1.store)
unfolding host_try_acquire_lock try_acquire_sync wrap_state
host_try_acquire_lock-free r open_manager inner key cells heap ms n now b s connected wide free
      counter small early dated =
    let prefix = inner.config.key_prefix in
    let ttl : ℕ = max ms 1 * 10 ^ 6 in
    let same_ttl = lease_ttl-ms ms wide in
    let (given, owned) =
      try_acquire_async-free r (codes "mcpg-lock-" ++ key) (lease_key prefix (codes "locks") key)
        (fence_key prefix (codes "locks") key) inner.node_id ttl n now b s (lock_name-named key)
        (lease_key-fence prefix (codes "locks") key) (fence-lease_key prefix (codes "locks") key)
        free counter small (rw same_ttl early) (rw same_ttl dated) in
    let at_end : (Result (Option LeaseState) × World r.Store)
        → (Result (Option (ℕ × ℕ × ℕ)) × Cells × Heap) × World r.Store =
      λ p.
        with_cells r.commands open_manager inner (ready open_manager cells)
          (wrapped r.commands heap p) in
    let left : World r.Store =
      (try_acquire_async r.commands (codes "mcpg-lock-" ++ key)
        (lease_key prefix (codes "locks") key) (fence_key prefix (codes "locks") key) inner.node_id
        ttl (quiet s now b)).1 in
    let ran =
      with_connection-connected r.commands open_manager inner _ cells heap (quiet s now b) connected
      ∙ ap (λ (x : Result (Option LeaseState)). at_end (x, left)) given in
    (
      ap (λ x. x.0.0) ran
          ∙ ap (λ (k : ℕ). done (some (heap.next, suc n, (now + k) / 1000))) same_ttl,
      ap (λ x. (r.view x.1.store).at (lease_key prefix (codes "locks") key)) ran
          ∙ (rw same_ttl at owned),
    )
