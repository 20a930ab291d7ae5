-- ===== src/Host/Leases/Dropped.antt =====
-- src/lease.rs: a lease that the host drops, with and without its release.
use mcpg_plugin_cluster_redi.Common.{
  ℕ, ◌+◌, ◌/◌, ◌<◌, ◌≡◌, refl, ap, Bool, true, false, none, some, List, ◌==◌, if◌then◌else◌, ◌∙◌,
}
use mcpg_plugin_cluster_redi.Client.{World, Result, done, quiet, rethrow, return, Client, ◌>>=◌}
use mcpg_plugin_cluster_redi.Redis.Commands.{Commands, valid_ttl}
use mcpg_plugin_cluster_redi.Redis.Server.{Server}
use mcpg_plugin_cluster_redi.Lease.{LeaseState, renew_state, renewal_round, is_err, calendar_end}
use mcpg_plugin_cluster_redi.Lease.Handle.{HeldBy, renew_state-own}
use mcpg_plugin_cluster_redi.Host.Leases.{
  Slot, Heap, wrap_state, borrow_state, drop_ref, drop_state, release_sync, task_round,
}
use mcpg_plugin_cluster_redi.Host.Leases.Handles.{
  HandleCall, calls, HeldAs-calls, Settled-release, freed, set_same, ==_refl,
}

-- The host's pointer to a fresh lease, whatever was done with it, is freed by a release and a drop, once
-- the renewal task, if it still runs, has made its next round: no reference is left, whatever
-- worlds these happen in, reachable or not.
pub release-drop-frees :
    {S : Type 0} (c : Commands S) (st : LeaseState) (heap : Heap) (xs : List HandleCall)
    (w w' w'' : World S)
    → (heap.next == 0) ≡ false
    → (task_round c heap.next
          (drop_state heap.next
            (release_sync c heap.next (calls c heap.next xs ((wrap_state st heap).1, w)).0 w').0.1)
          w'').0.at
        heap.next
      ≡ none
unfolding wrap_state
release-drop-frees c st heap xs w w' w'' n =
    let a : ℕ = heap.next in
    let fresh : Slot = record { handle = st; strong = 2; task = true } in
    freed c a _ w'' n (
      Settled-release c a (calls c a xs ((wrap_state st heap).1, w)).0 w' n (
        HeldAs-calls c a xs (wrap_state st heap).1 w n
          (record { slot = fresh; there = set_same a (some fresh) heap; counted = refl })))

renewal_round-own :
    (r : Server) (st : LeaseState) (d now : ℕ) (b : Bool) (s : r.Store)
    → st.released ≡ false
    → HeldBy st.lease_key st.holder d (r.view s)
    → valid_ttl (r.view s).clock st.ttl_ms ≡ true
    → now + st.ttl_ms < calendar_end
    → renewal_round r.commands st (quiet s now b) ≡ (
      done (true, record st { expires_at = (now + st.ttl_ms) / 1000 }),
      (renew_state r.commands st (quiet s now b)).1,
    )
unfolding renewal_round
renewal_round-own r st d now b s live own valid dated =
    let (renewed, held_on) = renew_state-own r st d now b s live own valid dated in
    let go_on : Result (Unit {0}) × LeaseState → Client r.Store (Bool × LeaseState) =
      λ y. return (if is_err r.commands y.0 then (false, y.1) else (true, y.1)) in
    ap
      (λ (x : Bool).
        (if x then return (false, st) else (renew_state r.commands st >>= go_on)) (quiet s now b))
      live
    ∙ ap
        (λ (x : Result (Result (Unit {0}) × LeaseState)).
          rethrow (x, (renew_state r.commands st (quiet s now b)).1) go_on)
        renewed

-- The state of a fresh lease after a drop without a release.
abbrev pub undropped : LeaseState → Slot
undropped st = record { handle = st; strong = 1; task = true }

drop_state-fresh :
    (st : LeaseState) (heap : Heap)
    → (heap.next == 0) ≡ false
    → (drop_state heap.next (wrap_state st heap).1).at heap.next ≡ some (undropped st)
unfolding drop_state wrap_state drop_ref borrow_state
drop_state-fresh st heap n = simp (n, ==_refl heap.next) refl

-- A lease that the host drops without a release stays held. The renewal task has a reference to the
-- state, so the drop frees nothing: on a server that behaves as documented, when nothing else
-- happens, the next round of the task still finds the state, its only reference the task's, gives
-- the holder the handle's TTL again, and the task goes on. (The handle is not released, the lease
-- is the holder's, Redis takes the TTL, and `chrono` has a
-- date for its end.)
pub drop_state-renews :
    (r : Server) (st : LeaseState) (heap : Heap) (d now : ℕ) (b : Bool) (s : r.Store)
    → (heap.next == 0) ≡ false
    → st.released ≡ false
    → HeldBy st.lease_key st.holder d (r.view s)
    → valid_ttl (r.view s).clock st.ttl_ms ≡ true
    → now + st.ttl_ms < calendar_end
    → ((task_round r.commands heap.next
            (drop_state heap.next (wrap_state st heap).1)
            (quiet s now b)).0.at
          heap.next
        ≡ some (undropped (record st { expires_at = (now + st.ttl_ms) / 1000 })))
      × HeldBy st.lease_key st.holder ((r.view s).clock + st.ttl_ms) (
          r.view
            (task_round r.commands heap.next
              (drop_state heap.next (wrap_state st heap).1)
              (quiet s now b)).1.store)
unfolding task_round
drop_state-renews r st heap d now b s n live own valid dated =
    let (renewed, held_on) = renew_state-own r st d now b s live own valid dated in
    let there = drop_state-fresh st heap n in
    let ran = renewal_round-own r st d now b s live own valid dated in
    (simp (there, ran, ==_refl heap.next) refl, simp (there, ran) held_on)
