-- ===== src/Host/Leases/Handles.antt =====
-- src/lease.rs: the references to the state of a lease that the host holds.
use mcpg_plugin_cluster_redi.Common.{
  ℕ, ◌-◌, ◌≡◌, refl, ap, sym, ◌∙◌, Bool, true, false, Bool-cases, inl, inr, ◌⊎◌, Option, none, some,
  List, [], ◌∷◌, ◌==◌, arith, subst, if◌then◌else◌,
}
use mcpg_plugin_cluster_redi.Client.{World, Result, done, fail}
use mcpg_plugin_cluster_redi.Redis.Commands.{Commands}
use mcpg_plugin_cluster_redi.Lease.{LeaseState, renew_state, release_state, renewal_round}
use mcpg_plugin_cluster_redi.Host.Leases.{
  Slot, Heap, set, drop_ref, end_task, borrow_state, drop_state, renewed_slot, renew_sync,
  released_slot, release_sync, round_of, task_round,
}

-- The host renews or releases the lease, or its task makes a round.
pub data HandleCall : Type 0 where
  renew release round : HandleCall

pub ==_refl : (a : ℕ) → (a == a) ≡ true
==_refl a = ground arith

pub set_same : (a : ℕ) (o : Option Slot) (heap : Heap) → (set a o heap).at a ≡ o
set_same a o heap = rw (==_refl a) refl

-- The references of the host and of the task.
abbrev pub count_of : Bool → ℕ
count_of task = if task then 2 else 1

-- A state that the host has a reference to.
pub record HeldAs (o : Option Slot) : Type 0 where
  pub slot : Slot
  pub there : o ≡ some slot
  pub counted : slot.strong ≡ count_of slot.task

-- A lease that was released: its task has ended, or will at its next round.
pub record Settled (o : Option Slot) : Type 0 where
  pub slot : Slot
  pub there : o ≡ some slot
  pub counted : slot.strong ≡ count_of slot.task
  pub over : (slot.task ≡ false) ⊎ (slot.handle.released ≡ true)

Settled-end_task : (slot : Slot) → slot.strong ≡ count_of slot.task → Settled (end_task slot)
unfolding end_task drop_ref
Settled-end_task slot n = elim (Bool-cases slot.task) [
  | inl p ↦
      let two : slot.strong ≡ 2 = n ∙ ap count_of p in
      record {
        slot = record slot { strong = slot.strong - 1; task = false };
        there = rw p (rw two refl);
        counted = rw two refl;
        over = inl refl;
      }
  | inr p ↦ record { slot = slot; there = rw p refl; counted = n; over = inl p }
]

HeldAs-Settled : (o : Option Slot) → Settled o → HeldAs o
HeldAs-Settled o h = record { slot = h.slot; there = h.there; counted = h.counted }

HeldAs-end_task : (slot : Slot) → slot.strong ≡ count_of slot.task → HeldAs (end_task slot)
HeldAs-end_task slot n = HeldAs-Settled (end_task slot) (Settled-end_task slot n)

module _ {S : Type 0} (c : Commands S) (a : ℕ) where
  unfoldable pub call : HandleCall → Heap × World S → Heap × World S
  call renew (heap, w) = let ((r, heap'), w') = renew_sync c a heap w in (heap', w')
  call release (heap, w) = let ((r, heap'), w') = release_sync c a heap w in (heap', w')
  call round (heap, w) = task_round c a heap w

  unfoldable pub calls : List HandleCall → Heap × World S → Heap × World S
  calls [] at = at
  calls (x ∷ xs) at = calls xs (call x at)

  HeldAs-set : (o : Option Slot) (heap : Heap) → HeldAs o → HeldAs ((set a o heap).at a)
  HeldAs-set o heap h = subst HeldAs (sym (set_same a o heap)) h

  module _ (slot : Slot) (heap : Heap) (there : heap.at a ≡ some slot)
      (counted : slot.strong ≡ count_of slot.task) where
    same_slot : HeldAs (heap.at a)
    same_slot = record { slot = slot; there = there; counted = counted }

    with_handle : (st : LeaseState) → HeldAs (some (record slot { handle = st }))
    with_handle st = record { slot = record slot { handle = st }; there = refl; counted = counted }

    HeldAs-renewed :
        (p : Result (Result (Unit {0}) × LeaseState) × World S)
        → HeldAs ((renewed_slot c a slot heap p).0.1.at a)
    HeldAs-renewed (fail e, w) = same_slot
    HeldAs-renewed (done (r, st), w) = HeldAs-set _ heap (with_handle st)

    HeldAs-released :
        (p : Result (Result (Unit {0}) × LeaseState) × World S)
        → HeldAs ((released_slot c a slot heap p).0.1.at a)
    HeldAs-released (fail e, w) = same_slot
    HeldAs-released (done (r, st), w) = elim (Bool-cases slot.handle.released) [
      | inl p ↦ simp p (HeldAs-set _ heap (with_handle st))
      | inr p ↦ simp p (HeldAs-set _ heap (HeldAs-end_task (record slot { handle = st }) counted))
    ]

    HeldAs-round :
        (p : Result (Bool × LeaseState) × World S) → HeldAs ((round_of c a slot heap p).0.at a)
    HeldAs-round (fail e, w) = HeldAs-set _ heap (HeldAs-end_task slot counted)
    HeldAs-round (done (true, st), w) = HeldAs-set _ heap (with_handle st)
    HeldAs-round (done (false, st), w) =
        HeldAs-set _ heap (HeldAs-end_task (record slot { handle = st }) counted)

  module _ (heap : Heap) (w : World S) (n : (a == 0) ≡ false) (h : HeldAs (heap.at a)) where
    HeldAs-renew : HeldAs ((renew_sync c a heap w).0.1.at a)
    unfolding renew_sync borrow_state
    HeldAs-renew =
        simp (n, h.there)
          (HeldAs-renewed h.slot heap h.there h.counted (renew_state c h.slot.handle w))

    HeldAs-release : HeldAs ((release_sync c a heap w).0.1.at a)
    unfolding release_sync borrow_state
    HeldAs-release =
        simp (n, h.there)
          (HeldAs-released h.slot heap h.there h.counted (release_state c h.slot.handle w))

    HeldAs-task_round : HeldAs ((task_round c a heap w).0.at a)
    unfolding task_round
    HeldAs-task_round = elim (Bool-cases h.slot.task) [
      | inl p ↦
          simp (h.there, p)
            (HeldAs-round h.slot heap h.there h.counted (renewal_round c h.slot.handle w))
      | inr p ↦ simp (h.there, p) (subst HeldAs h.there h)
    ]

    HeldAs-call : (x : HandleCall) → HeldAs ((call x (heap, w)).0.at a)
    unfolding call
    HeldAs-call renew = HeldAs-renew
    HeldAs-call release = HeldAs-release
    HeldAs-call round = HeldAs-task_round

  pub HeldAs-calls :
      (xs : List HandleCall) (heap : Heap) (w : World S)
      → (a == 0) ≡ false
      → HeldAs (heap.at a)
      → HeldAs ((calls xs (heap, w)).0.at a)
  unfolding calls
  HeldAs-calls [] heap w n h = h
  HeldAs-calls (x ∷ xs) heap w n h = HeldAs-calls xs _ _ n (HeldAs-call heap w n h x)

  Settled-set : (o : Option Slot) (heap : Heap) → Settled o → Settled ((set a o heap).at a)
  Settled-set o heap h = subst Settled (sym (set_same a o heap)) h

  Settled-released :
      (slot : Slot) (heap : Heap) (w : World S)
      → slot.strong ≡ count_of slot.task
      → Settled ((released_slot c a slot heap (release_state c slot.handle w)).0.1.at a)
  unfolding release_state
  Settled-released slot heap w n = elim (Bool-cases slot.handle.released) [
    | inl p ↦ simp p (
        Settled-set (some slot) heap
          (record { slot = slot; there = refl; counted = n; over = inr p }))
    | inr p ↦ simp p (
        Settled-set _ heap (
          Settled-end_task
            (record slot { handle = record slot.handle { released = true; renewing = false } }) n))
  ]

  pub Settled-release :
      (heap : Heap) (w : World S)
      → (a == 0) ≡ false
      → HeldAs (heap.at a)
      → Settled ((release_sync c a heap w).0.1.at a)
  unfolding release_sync borrow_state
  Settled-release heap w n h = simp (n, h.there) (Settled-released h.slot heap w h.counted)

  pub freed :
      (heap : Heap) (w : World S)
      → (a == 0) ≡ false
      → Settled (heap.at a)
      → (task_round c a (drop_state a heap) w).0.at a ≡ none
  unfolding task_round drop_state drop_ref borrow_state end_task renewal_round
  freed heap w n h = elim (Bool-cases h.slot.task) [
    | inl p ↦
        let two : h.slot.strong ≡ 2 = h.counted ∙ ap count_of p in
        elim h.over [
          | inl ended ↦ cc
          | inr released ↦ simp (n, h.there, two, p, released, ==_refl a) refl
        ]
    | inr p ↦
        let one : h.slot.strong ≡ 1 = h.counted ∙ ap count_of p in
        simp (n, h.there, one, ==_refl a) refl
  ]
