-- ===== src/Lease/Waiting.antt =====
-- src/lease.rs: `acquire_async` on a lease that others do not renew.
use mcpg_plugin_cluster_redi.Common.{
  ℕ, suc, zero, ◌+◌, ◌*◌, ◌<◌, ◌≤◌, ◌^◌, ◌≡◌, refl, ap, sym, ◌∙◌, Bool, true, false, Option, none,
  some, List, [], ◌∷◌, map, Bytes, same, is_blank, arith, length, min, ltb, Bool-cases, inl, inr,
  subst,
}
use mcpg_plugin_cluster_redi.Common.Int.{pos}
use mcpg_plugin_cluster_redi.Client.{World, Event, answered, Result, done, fail, pipeline}
use mcpg_plugin_cluster_redi.Redis.View.{
  View, Entry, missing, held, text, elapse, expire_at, deadline,
}
use mcpg_plugin_cluster_redi.Redis.Commands.{Codec}
use mcpg_plugin_cluster_redi.Redis.Commands.Laws.{number_of}
use mcpg_plugin_cluster_redi.Redis.Server.{Server, reply_of}
use mcpg_plugin_cluster_redi.Lease.{
  LeaseState, lease_ttl, calendar_end, as_u64, try_acquire_async, acquired, acquired_or,
  acquire_from_delay, acquire_async,
}
use mcpg_plugin_cluster_redi.Lease.Scripts.{acquire_script}
use mcpg_plugin_cluster_redi.Lease.Run.{Simulates-acquire_script}
use mcpg_plugin_cluster_redi.Lease.Handle.{
  HeldBy, acquire_script_free, positive_ttl, rfc3339_after-dated,
}
use mcpg_plugin_cluster_redi.Lease.Exclusive.{acquire_held}

abbrev pub total : List ℕ → ℕ
total [] = 0
total (n ∷ ns) = n + total ns

-- The fence token that an acquisition came with.
abbrev pub granted_token : {W : Type 0} → Result (Option LeaseState) × W → Option ℕ
granted_token (done (some st), w) = some st.fence_token
granted_token (done none, w) = none
granted_token (fail e, w) = none

-- The counter of fence tokens is kept without a deadline.
pub record Counts (codec : Codec) (fence : Bytes) (n : ℕ) (v : View) : Type 0 where
  pub number : number_of codec (v.at fence) ≡ some (pos n)
  pub lasting : deadline (v.at fence) ≡ none

expire_at-lasting : (now : ℕ) (e : Entry) → deadline e ≡ none → expire_at now e ≡ e
unfolding expire_at
expire_at-lasting now missing h = refl
expire_at-lasting now (held x none) h = refl
expire_at-lasting now (held x (some d)) h = cc

Counts-elapse :
    (codec : Codec) (fence : Bytes) (n k : ℕ) (v : View)
    → Counts codec fence n v
    → Counts codec fence n (elapse k v)
unfolding elapse
Counts-elapse codec fence n k v h =
    let stays = expire_at-lasting (v.clock + k) (v.at fence) h.lasting in
    record { number = rw stays h.number; lasting = rw stays h.lasting }

pub held_on :
    (lease h : Bytes) (d k : ℕ) (v : View)
    → HeldBy lease h d v
    → ltb d (v.clock + k) ≡ false
    → HeldBy lease h d (elapse k v)
unfolding elapse expire_at
held_on lease h d k v e p = rw e (rw p refl)

module _ (r : Server) where
  open r use {Store, commands, codec, view, wait}

  -- `n` milliseconds pass on the server before a request, and nothing else happens.
  abbrev pub passing : ℕ → Event Store
  passing n = record { before = wait n; between = λ s. s; elapsed = 0; fate = answered }

  abbrev pub waiting : List ℕ → Store → ℕ → Bool → World Store
  waiting ns s now b = record { store = s; now = now; index_ready = b; schedule = map passing ns }

module _ (r : Server) (name lease fence holder : Bytes) (ttl : ℕ) where
  open r use {Store, commands, codec, view, wait}

  abbrev from : ℕ → ℕ → World Store → Result (Option LeaseState) × World Store
  from fuel delay w = acquire_from_delay commands name lease fence holder ttl fuel delay w

  -- An attempt on a lease that is free after the wait.
  granted :
      (fuel delay k : ℕ) (ns : List ℕ) (s : Store) (now n : ℕ) (b : Bool)
      → is_blank name ≡ false
      → same lease fence ≡ false
      → (view (wait k s)).at lease ≡ missing
      → Counts codec fence n (view (wait k s))
      → suc n ≤ 2 ^ 53
      → (view (wait k s)).clock + lease_ttl ttl < 2 ^ 63
      → now + 0 + lease_ttl ttl < calendar_end
      → granted_token (from (suc fuel) delay (waiting r (k ∷ ns) s now b)) ≡ some (suc n)
  unfolding acquire_from_delay try_acquire_async pipeline acquired acquired_or as_u64
  granted fuel delay k ns s now n b named apart free counts small early dated =
      let (replied, after) =
        reply_of (wait k s) (Simulates-acquire_script r lease fence holder (lease_ttl ttl)) (
          acquire_script_free codec lease fence holder (view (wait k s)) (lease_ttl ttl) n apart
            free counts.number small (positive_ttl (view (wait k s)).clock ttl early)) in
      rw named (rw replied (rw (rfc3339_after-dated (now + 0) (lease_ttl ttl) dated) refl))

  -- An attempt on a lease that is held after the wait changes nothing but the clocks.
  refused :
      (fuel delay k : ℕ) (ns : List ℕ) (s : Store) (now : ℕ) (b : Bool) (h : Bytes) (d : Option ℕ)
      → is_blank name ≡ false
      → (view (wait k s)).at lease ≡ held (text h) d
      → granted_token (from (suc fuel) delay (waiting r (k ∷ ns) s now b))
        ≡ granted_token (
            from fuel (min (delay * 2) 800) (
              waiting r ns
                (acquire_script commands lease fence holder (lease_ttl ttl) (wait k s)).1
                (now + 0 + delay)
                b))
  unfolding acquire_from_delay try_acquire_async pipeline acquired acquired_or
  refused fuel delay k ns s now b h d named taken =
      let (replied, after) =
        reply_of (wait k s) (Simulates-acquire_script r lease fence holder (lease_ttl ttl))
          (acquire_held codec lease fence h holder d (lease_ttl ttl) (view (wait k s)) taken) in
      rw named (rw replied refl)

  -- A wait that is long enough: the lease is held until `d`, the waits pass it, and the clock, the
  -- TTL and the counter fit 63 bits.
  pub record Outlasts (h : Bytes) (d n : ℕ) (ns : List ℕ) (v : View) : Type 0 where
    pub taken : HeldBy lease h d v
    pub running : v.clock ≤ d
    pub passes : d < v.clock + total ns
    pub counts : Counts codec fence n v
    pub early : v.clock + total ns + lease_ttl ttl < 2 ^ 63

  freed :
      (h : Bytes) (d k : ℕ) (v : View)
      → HeldBy lease h d v
      → ltb d (v.clock + k) ≡ true
      → (elapse k v).at lease ≡ missing
  unfolding elapse expire_at
  freed h d k v e p = rw e (rw p refl)

  Outlasts-elapse :
      (h : Bytes) (d n k : ℕ) (ns : List ℕ) (v : View)
      → Outlasts h d n (k ∷ ns) v
      → ltb d (v.clock + k) ≡ false
      → Outlasts h d n ns (elapse k v)
  unfolding elapse
  Outlasts-elapse h d n k ns v o p = record {
    taken = held_on lease h d k v o.taken p;
    running = ground arith;
    passes = omega (arith, o.passes);
    counts = Counts-elapse codec fence n k v o.counts;
    early = omega (arith, o.early);
  }

  early_on :
      (h : Bytes) (d n k : ℕ) (ns : List ℕ) (v : View)
      → Outlasts h d n (k ∷ ns) v
      → (elapse k v).clock + lease_ttl ttl < 2 ^ 63
  unfolding elapse
  early_on h d n k ns v o = omega (arith, o.early)

  -- The store after an attempt on a held lease is as the wait left it.
  view-refused :
      (k : ℕ) (s : Store) (h : Bytes) (d : Option ℕ)
      → (view (wait k s)).at lease ≡ held (text h) d
      → view (acquire_script commands lease fence holder (lease_ttl ttl) (wait k s)).1
        ≡ view (wait k s)
  view-refused k s h d taken =
      (reply_of (wait k s) (Simulates-acquire_script r lease fence holder (lease_ttl ttl))
        (acquire_held codec lease fence h holder d (lease_ttl ttl) (view (wait k s)) taken)).1

  acquires :
      (fuel delay : ℕ) (ns : List ℕ) (s : Store) (now n : ℕ) (b : Bool) (h : Bytes) (d : ℕ)
      → is_blank name ≡ false
      → same lease fence ≡ false
      → suc n ≤ 2 ^ 53
      → Outlasts h d n ns (view s)
      → length ns ≤ fuel
      → delay ≤ 800
      → now + 800 * length ns + lease_ttl ttl < calendar_end
      → granted_token (from fuel delay (waiting r ns s now b)) ≡ some (suc n)
  acquires fuel delay [] s now n b h d named apart small o f short dated =
      absurd (omega (arith, o.passes, o.running))
  acquires zero delay (k ∷ ns) s now n b h d named apart small o f short dated =
      absurd (omega (arith, f))
  acquires (suc fuel) delay (k ∷ ns) s now n b h d named apart small o f short dated =
      let waited : view (wait k s) ≡ elapse k (view s) = r.wait_law k s in
      elim (Bool-cases (ltb d ((view s).clock + k))) [
        | inl p ↦
            granted fuel delay k ns s now n b named apart
              (ap (λ (v : View). v.at lease) waited ∙ freed h d k (view s) o.taken p)
              (subst (Counts codec fence n) (sym waited)
                (Counts-elapse codec fence n k (view s) o.counts))
              small
              (subst (λ v. v.clock + lease_ttl ttl < 2 ^ 63) (sym waited)
                (early_on h d n k ns (view s) o))
              (omega (arith, dated))
        | inr p ↦
            let taken =
              ap (λ (v : View). v.at lease) waited ∙ held_on lease h d k (view s) o.taken p in
            refused fuel delay k ns s now b h (some d) named taken
            ∙ acquires fuel (min (delay * 2) 800) ns
                (acquire_script commands lease fence holder (lease_ttl ttl) (wait k s)).1
                (now + 0 + delay) n b h d named apart small
                (subst (Outlasts h d n ns) (sym (view-refused k s h (some d) taken ∙ waited))
                  (Outlasts-elapse h d n k ns (view s) o p))
                (omega (arith, f)) (omega arith) (omega (arith, dated, short))
      ]

  -- A waiting acquisition comes to an end with the lease: where the lease is held until `d` and its
  -- holder does nothing more, any waits that pass `d` on the server's clock, between requests that
  -- are all answered, are enough for `acquire_async` to return a handle, whose fence token is the
  -- next of the counter, with one unit of fuel a wait. The name is not blank, the lease key is
  -- not the fence key, the counter has no deadline, the next token is at most 2^53, the times of the server fit
  -- 63 bits and, after a sleep of 800 ms an attempt, `chrono` has a date for the end of the lease.
  pub acquire_async-waits :
      (fuel : ℕ) (ns : List ℕ) (s : Store) (now n : ℕ) (b : Bool) (h : Bytes) (d : ℕ)
      → is_blank name ≡ false
      → same lease fence ≡ false
      → suc n ≤ 2 ^ 53
      → Outlasts h d n ns (view s)
      → length ns ≤ fuel
      → now + 800 * length ns + lease_ttl ttl < calendar_end
      → granted_token
          (acquire_async commands name lease fence holder ttl fuel (waiting r ns s now b))
        ≡ some (suc n)
  acquire_async-waits fuel ns s now n b h d named apart small o f =
      acquires fuel 200 ns s now n b h d named apart small o f (omega arith)
