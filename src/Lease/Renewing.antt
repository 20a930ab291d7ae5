-- ===== src/Lease/Renewing.antt =====
-- src/lease.rs: the renewal task of a lease, over many rounds.
use mcpg_plugin_cluster_redi.Common.{
  ℕ, suc, ◌+◌, ◌/◌, ◌*◌, ◌<◌, ◌≤◌, ◌^◌, ◌≡◌, refl, ap, sym, ◌∙◌, Bool, true, false, some, List, [],
  ◌∷◌, arith, subst, if◌then◌else◌, length, same_refl,
}
use mcpg_plugin_cluster_redi.Client.{World, Result, done, fail, pipeline}
use mcpg_plugin_cluster_redi.Redis.View.{View, elapse, put, held, text}
use mcpg_plugin_cluster_redi.Redis.Commands.{valid_ttl}
use mcpg_plugin_cluster_redi.Redis.Server.{Server, reply_of}
use mcpg_plugin_cluster_redi.Lease.{
  LeaseState, renew_state, renewed, renewal_round, renewal_task, calendar_end, sleep_for,
}
use mcpg_plugin_cluster_redi.Lease.Scripts.{renew_script}
use mcpg_plugin_cluster_redi.Lease.Run.{Simulates-renew_script}
use mcpg_plugin_cluster_redi.Lease.Handle.{HeldBy, renew_script_own, rfc3339_after-dated}
use mcpg_plugin_cluster_redi.Lease.Sleep.{sleep_for-ttl}
use mcpg_plugin_cluster_redi.Lease.Waiting.{total, waiting, held_on}

abbrev pub AllBelow : ℕ → List ℕ → Type 0
AllBelow ttl [] = Unit {0}
AllBelow ttl (n ∷ ns) = (n < ttl) × AllBelow ttl ns

-- The task's handle is not released.
abbrev pub is_live : {W : Type 0} → Result LeaseState × W → Bool
is_live (done st, w) = if st.released then false else true
is_live (fail e, w) = false

fits_ttl :
    (clock k rest ttl : ℕ)
    → 0 < ttl
    → clock + (k + rest) + ttl < 2 ^ 63
    → valid_ttl (clock + k) ttl ≡ true
fits_ttl clock k rest ttl p e = ground arith

later : (clock k rest ttl : ℕ) {c : ℕ} → c ≡ clock + k → c + rest + ttl ≡ clock + (k + rest) + ttl
later clock k rest ttl e = omega (arith, e)

-- The replica's clock after a sleep, with some renewals to come.
dated_on :
    (now ttl rest slept : ℕ)
    → slept ≤ ttl
    → now + suc rest * ttl + ttl < calendar_end
    → (now + slept + 0 + ttl < calendar_end) × (now + slept + 0 + rest * ttl + ttl < calendar_end)
dated_on now ttl rest slept p h = (omega (arith, p, h), omega (arith, p, h))

whole : (nanos ttl : ℕ) → nanos < ttl * 10 ^ 6 → nanos / 10 ^ 6 ≤ ttl
whole nanos ttl h = omega (arith, h)

module _ (r : Server) (pct : ℕ) where
  open r use {Store, commands, codec, view, wait}

  abbrev pub after : ℕ → LeaseState → List ℕ → Store → ℕ → Bool → Result LeaseState × World Store
  after fuel st ns s now b = renewal_task commands pct fuel st (waiting r ns s now b)

  -- When the task wakes up.
  abbrev woken : LeaseState → ℕ → ℕ
  woken st now = now + sleep_for st.ttl_ms pct / 10 ^ 6 + 0

  abbrev renewed_handle : LeaseState → ℕ → LeaseState
  renewed_handle st now = record st { expires_at = (woken st now + st.ttl_ms) / 1000 }

  abbrev renewed_store : LeaseState → ℕ → Store → Store
  renewed_store st k s = (renew_script commands st.lease_key st.holder st.ttl_ms (wait k s)).1

  module _ (st : LeaseState) (k d : ℕ) (s : Store) (live : st.released ≡ false)
      (own : HeldBy st.lease_key st.holder d (view (wait k s)))
      (valid : valid_ttl (view (wait k s)).clock st.ttl_ms ≡ true) where
    renewal_round-own :
        (fuel : ℕ) (ns : List ℕ) (now : ℕ) (b : Bool)
        → woken st now + st.ttl_ms < calendar_end
        → after (suc fuel) st (k ∷ ns) s now b
          ≡ after fuel (renewed_handle st now) ns (renewed_store st k s) (woken st now) b
    unfolding renewal_task renewal_round renew_state renewed pipeline
    renewal_round-own fuel ns now b dated =
        let (replied, left) =
          reply_of (wait k s)
            (Simulates-renew_script r st.lease_key st.lease_key st.holder st.ttl_ms)
            (renew_script_own codec st.lease_key st.lease_key st.holder (view (wait k s)) st.ttl_ms
              d own (same_refl st.holder) valid) in
        rw live (rw replied (rw (rfc3339_after-dated (woken st now) st.ttl_ms dated) refl))

    view-renewed :
        view (renewed_store st k s)
        ≡ put st.lease_key
            (held (text st.holder) (some ((view (wait k s)).clock + st.ttl_ms)))
            (view (wait k s))
    view-renewed =
        (reply_of (wait k s)
          (Simulates-renew_script r st.lease_key st.lease_key st.holder st.ttl_ms)
          (renew_script_own codec st.lease_key st.lease_key st.holder (view (wait k s)) st.ttl_ms d
            own (same_refl st.holder) valid)).1

  after_elapse :
      (st : LeaseState) (k : ℕ) (s : Store)
      → view (wait k s) ≡ elapse k (view s)
      → HeldBy st.lease_key st.holder ((view s).clock + st.ttl_ms) (view s)
      → k < st.ttl_ms
      → HeldBy st.lease_key st.holder ((view s).clock + st.ttl_ms) (view (wait k s))
  after_elapse st k s waited own short =
      ap (λ (v : View). v.at st.lease_key) waited
      ∙ held_on st.lease_key st.holder ((view s).clock + st.ttl_ms) k (view s) own (ground arith)

  -- A handle that holds its lease for the handle's TTL from now.
  pub record Holds (st : LeaseState) (ns : List ℕ) (v : View) : Type 0 where
    pub live : st.released ≡ false
    pub own : HeldBy st.lease_key st.holder (v.clock + st.ttl_ms) v
    pub positive : 0 < st.ttl_ms
    pub early : v.clock + total ns + st.ttl_ms < 2 ^ 63

  abbrev renewed_view : LeaseState → View → View
  renewed_view st v = put st.lease_key (held (text st.holder) (some (v.clock + st.ttl_ms))) v

  valid_on :
      (st : LeaseState) (k : ℕ) (ns : List ℕ) (s : Store)
      → view (wait k s) ≡ elapse k (view s)
      → Holds st (k ∷ ns) (view s)
      → valid_ttl (view (wait k s)).clock st.ttl_ms ≡ true
  unfolding elapse
  valid_on st k ns s waited h =
      ap (λ (v : View). valid_ttl v.clock st.ttl_ms) waited
      ∙ fits_ttl (view s).clock k (total ns) st.ttl_ms h.positive h.early

  Holds-renewed :
      (st : LeaseState) (k : ℕ) (ns : List ℕ) (v : View) (time : ℕ)
      → Holds st (k ∷ ns) v
      → Holds
          (record st { expires_at = time })
          ns
          (put st.lease_key
            (held (text st.holder) (some ((elapse k v).clock + st.ttl_ms)))
            (elapse k v))
  unfolding elapse
  Holds-renewed st k ns v time h = record {
    live = h.live;
    own = rw (same_refl st.lease_key) refl;
    positive = h.positive;
    early = omega (arith, h.early);
  }

  renewed_clock :
      (st : LeaseState) (k : ℕ) (v : View) {w : View}
      → w ≡ renewed_view st (elapse k v)
      → w.clock ≡ v.clock + k
  unfolding elapse
  renewed_clock st k v e = ap (λ (u : View). u.clock) e

  renews :
      (st : LeaseState) (ns : List ℕ) (s : Store) (now : ℕ) (b : Bool)
      → Holds st ns (view s)
      → AllBelow st.ttl_ms ns
      → now + length ns * st.ttl_ms + st.ttl_ms < calendar_end
      → (is_live (after (length ns) st ns s now b) ≡ true)
        × HeldBy st.lease_key st.holder
            ((view s).clock + total ns + st.ttl_ms)
            (view (after (length ns) st ns s now b).1.store)
  unfolding renewal_task
  renews st [] s now b h t dated = (
    rw h.live refl,
    subst (λ n. HeldBy st.lease_key st.holder (n + st.ttl_ms) (view s)) (omega arith) h.own,
  )
  renews st (k ∷ ns) s now b h (short, t) dated =
      let slept : sleep_for st.ttl_ms pct / 10 ^ 6 ≤ st.ttl_ms =
        whole (sleep_for st.ttl_ms pct) st.ttl_ms (sleep_for-ttl st.ttl_ms pct h.positive).1 in
      let (dated_now, dated_later) =
        dated_on now st.ttl_ms (length ns) (sleep_for st.ttl_ms pct / 10 ^ 6) slept dated in
      let waited : view (wait k s) ≡ elapse k (view s) = r.wait_law k s in
      let own = after_elapse st k s waited h.own short in
      let valid = valid_on st k ns s waited h in
      let d : ℕ = (view s).clock + st.ttl_ms in
      let ran = renewal_round-own st k d s h.live own valid (length ns) ns now b dated_now in
      let left = view-renewed st k d s h.live own valid in
      let (goes_on, held_still) =
        renews (renewed_handle st now) ns (renewed_store st k s) (woken st now) b
          (subst (Holds (renewed_handle st now) ns) (sym (left ∙ ap (renewed_view st) waited))
            (Holds-renewed st k ns (view s) ((woken st now + st.ttl_ms) / 1000) h))
          t dated_later in
      (
        ap is_live ran ∙ goes_on,
        ap (λ (x : Result LeaseState × World Store). (view x.1.store).at st.lease_key) ran
            ∙ (held_still
                ∙ ap (λ (n : ℕ). held (text st.holder) (some n))
                    (later (view s).clock k (total ns) st.ttl_ms
                      (renewed_clock st k (view s) (left ∙ ap (renewed_view st) waited)))),
      )

  -- A renewal task that wakes up in time never loses its lease: of a handle that is not released and
  -- holds its lease for its TTL, after any number of sleeps, each of less than the TTL on the
  -- server's clock, and as many renewals that are all answered, the lease is held by the same
  -- holder for the whole TTL after the last of them, and the task's handle is not released. The
  -- task's own sleeps are between 0 and the TTL, whatever the percentage is set to. (The times of
  -- the server fit 63 bits, `chrono` has a date for the end of each renewal, one TTL apart by the
  -- replica's clock, and nobody else writes the lease key.)
  pub renewal_task-keeps :
      (st : LeaseState) (ns : List ℕ) (s : Store) (now : ℕ) (b : Bool)
      → Holds st ns (view s)
      → AllBelow st.ttl_ms ns
      → now + length ns * st.ttl_ms + st.ttl_ms < calendar_end
      → (is_live (after (length ns) st ns s now b) ≡ true)
        × HeldBy st.lease_key st.holder
            ((view s).clock + total ns + st.ttl_ms)
            (view (after (length ns) st ns s now b).1.store)
        × (0 < sleep_for st.ttl_ms pct)
        × (sleep_for st.ttl_ms pct < st.ttl_ms * 10 ^ 6)
  renewal_task-keeps st ns s now b h t dated =
      let (goes_on, held_still) = renews st ns s now b h t dated in
      let (some_time, in_time) = sleep_for-ttl st.ttl_ms pct h.positive in
      (goes_on, held_still, some_time, in_time)
