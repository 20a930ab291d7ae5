-- ===== src/Host/Leases.antt =====
-- src/lease.rs: the leases that the host holds by raw pointers, and their reference counts. A pointer
-- is an address, 0 the null one; `Arc::new` gives an address that nothing else has.
pub mod Handles
pub mod Dropped
use mcpg_plugin_cluster_redi.Common.{
  ℕ, suc, zero, ◌-◌, ◌*◌, ◌^◌, Bool, true, false, Option, none, some, Bytes, max, ◌==◌,
  if◌then◌else◌,
}
use mcpg_plugin_cluster_redi.Client.{Client, World, Result, done, fail, ClusterError, lease_expired}
use mcpg_plugin_cluster_redi.Redis.Commands.{Commands}
use mcpg_plugin_cluster_redi.Lease.{
  LeaseState, acquire_async, try_acquire_async, renew_state, release_state, renewal_round,
}

-- An `Arc<LeaseState>`: the state, the count, and whether the renewal task runs, which has one of the
-- references.
pub record Slot : Type 0 where
  pub handle : LeaseState
  pub strong : ℕ
  pub task : Bool

pub record Heap : Type 0 where
  pub next : ℕ
  pub at : ℕ → Option Slot

abbrev pub set : ℕ → Option Slot → Heap → Heap
set a slot heap = record heap { at = λ b. if a == b then slot else heap.at b }

-- A reference is dropped, and with the last one the state.
unfoldable pub drop_ref : Slot → Option Slot
drop_ref slot =
    if slot.strong - 1 == 0 then none else some (record slot { strong = slot.strong - 1 })

-- The renewal task ends, by itself or by an abort, and drops its reference.
unfoldable pub end_task : Slot → Option Slot
end_task slot = if slot.task then drop_ref (record slot { task = false }) else some slot

-- The handle of an acquired lease, its token and its time. The host and the renewal task have a
-- reference each.
unfoldable pub wrap_state : LeaseState → Heap → (ℕ × ℕ × ℕ) × Heap
wrap_state st heap = (
  (heap.next, st.fence_token, st.expires_at),
  record (set heap.next (some (record { handle = st; strong = 2; task = true })) heap) {
    next = suc heap.next;
  },
)

unfoldable pub borrow_state : ℕ → Heap → Option Slot
borrow_state a heap = if a == 0 then none else heap.at a

abbrev pub drop_slot : ℕ → Option Slot → Heap → Heap
drop_slot a none heap = heap
drop_slot a (some slot) heap = set a (drop_ref slot) heap

-- `lease_drop`
unfoldable pub drop_state : ℕ → Heap → Heap
drop_state a heap = drop_slot a (borrow_state a heap) heap

-- An operation on the leases of the host gives the heap after it, whether it fails or not.
abbrev pub Leased : Type 0 → Type 0 → Type 0
Leased S A = Heap → World S → (Result A × Heap) × World S

module _ {S : Type 0} (c : Commands S) where
  abbrev pub wrapped :
      Heap → Result (Option LeaseState) × World S → (Result (Option (ℕ × ℕ × ℕ)) × Heap) × World S
  wrapped heap (fail e, w) = ((fail e, heap), w)
  wrapped heap (done none, w) = ((done none, heap), w)
  wrapped heap (done (some st), w) =
      let (handle, heap') = wrap_state st heap in ((done (some handle), heap'), w)

  -- A TTL of whole milliseconds, at least one, in nanoseconds
  abbrev pub nanos : ℕ → ℕ
  nanos ttl_ms = max ttl_ms 1 * 10 ^ 6

  unfoldable pub acquire_sync :
      Bytes → Bytes → Bytes → Bytes → ℕ → ℕ → Leased S (Option (ℕ × ℕ × ℕ))
  acquire_sync name lease fence holder ttl_ms fuel heap w =
      wrapped heap (acquire_async c name lease fence holder (nanos ttl_ms) fuel w)

  unfoldable pub try_acquire_sync :
      Bytes → Bytes → Bytes → Bytes → ℕ → Leased S (Option (ℕ × ℕ × ℕ))
  try_acquire_sync name lease fence holder ttl_ms heap w =
      wrapped heap (try_acquire_async c name lease fence holder (nanos ttl_ms) w)

  -- What `renew_state` and `release_state` give: they fail as clients only by a panic.
  abbrev outcome : {A : Type 0} → (LeaseState → A) → Result (Unit {0}) → LeaseState → Result A
  outcome f (done tt) st = done (f st)
  outcome f (fail e) st = fail e

  abbrev renewed_slot :
      ℕ
      → Slot
      → Heap
      → Result (Result (Unit {0}) × LeaseState) × World S
      → (Result ℕ × Heap) × World S
  renewed_slot a slot heap (fail e, w) = ((fail e, heap), w)
  renewed_slot a slot heap (done (r, st), w) =
      ((outcome (λ s. s.expires_at) r st, set a (some (record slot { handle = st })) heap), w)

  abbrev renew_slot : ℕ → Option Slot → Leased S ℕ
  renew_slot a none heap w = ((fail lease_expired, heap), w)
  renew_slot a (some slot) heap w = renewed_slot a slot heap (renew_state c slot.handle w)

  -- The time of the renewed lease
  unfoldable pub renew_sync : ℕ → Leased S ℕ
  renew_sync a heap w = renew_slot a (borrow_state a heap) heap w

  -- The abort of the renewal task, unless the state was released before
  abbrev aborted : Bool → Slot → Option Slot
  aborted released slot = if released then some slot else end_task slot

  abbrev released_slot :
      ℕ
      → Slot
      → Heap
      → Result (Result (Unit {0}) × LeaseState) × World S
      → (Result (Unit {0}) × Heap) × World S
  released_slot a slot heap (fail e, w) = ((fail e, heap), w)
  released_slot a slot heap (done (r, st), w) =
      ((r, set a (aborted slot.handle.released (record slot { handle = st })) heap), w)

  abbrev release_slot : ℕ → Option Slot → Leased S (Unit {0})
  release_slot a none heap w = ((done tt, heap), w)
  release_slot a (some slot) heap w = released_slot a slot heap (release_state c slot.handle w)

  unfoldable pub release_sync : ℕ → Leased S (Unit {0})
  release_sync a heap w = release_slot a (borrow_state a heap) heap w

  -- A panic ends the task.
  abbrev round_of : ℕ → Slot → Heap → Result (Bool × LeaseState) × World S → Heap × World S
  round_of a slot heap (fail e, w) = (set a (end_task slot) heap, w)
  round_of a slot heap (done (true, st), w) = (set a (some (record slot { handle = st })) heap, w)
  round_of a slot heap (done (false, st), w) =
      (set a (end_task (record slot { handle = st })) heap, w)

  abbrev round_on : ℕ → Option Slot → Heap → World S → Heap × World S
  round_on a none heap w = (heap, w)
  round_on a (some slot) heap w =
      if slot.task then round_of a slot heap (renewal_round c slot.handle w) else (heap, w)

  -- A round of the renewal task of a lease, after its sleep; without the task there is none.
  unfoldable pub task_round : ℕ → Heap → World S → Heap × World S
  task_round a heap w = round_on a (heap.at a) heap w
