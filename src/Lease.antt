-- ===== src/Lease.antt =====
-- src/lease.rs: leases over Redis. A handle is a record, and its methods return it anew.
pub mod Scripts
pub mod Run
pub mod Fencing
pub mod Exclusive
pub mod Handle
pub mod Sleep
pub mod Waiting
pub mod Renewing
use mcpg_plugin_cluster_redi.Common.{
  ℕ, zero, suc, ◌+◌, ◌-◌, ◌*◌, ◌/◌, ◌^◌, Bool, true, false, ◌||◌, ◌&&◌, Option, none, some, Bytes,
  [], ◌∷◌, ltb, leb, ◌==◌, min, max, if◌then◌else◌, is_blank,
}
use mcpg_plugin_cluster_redi.Common.Int.{ℤ, pos, negsuc}
use mcpg_plugin_cluster_redi.Redis.Commands.{Commands}
use mcpg_plugin_cluster_redi.Client.{
  Client, World, Result, done, fail, ClusterError, lease_expired, invalid_reference, panicked,
  return, throw, request, redis_err, now_ms, sleep, ◌>>=◌, ◌>>◌,
}
use mcpg_plugin_cluster_redi.Lease.Scripts.{acquire_script, renew_script, release_script}

-- `LeaseState`, without its connection. `expires_at` is an RFC 3339 time to the second, here in Unix
-- seconds; `renewing` says whether there is a renewal task to abort.
pub record LeaseState : Type 0 where
  pub lease_key : Bytes
  pub holder : Bytes
  pub fence_token : ℕ
  pub ttl_ms : ℕ
  pub expires_at : ℕ
  pub released : Bool
  pub renewing : Bool

-- A `Duration` in nanoseconds, as whole milliseconds of a `u64`, at least one.
unfoldable pub lease_ttl : ℕ → ℕ
lease_ttl nanos = min (max (nanos / 10 ^ 6) 1) (2 ^ 64 - 1)

-- `i64 as u64`
unfoldable pub as_u64 : ℤ → ℕ
as_u64 (pos n) = n
as_u64 (negsuc n) = 2 ^ 64 - 1 - n

-- The first millisecond that `chrono` has no date for: its calendar ends with the year 262142.
abbrev pub calendar_end : ℕ
calendar_end = 8_210_266_876_800_000

-- A `chrono::Duration` holds no more than `i64::MAX` milliseconds; a longer one reads as 0.
abbrev from_std : ℕ → ℕ
from_std ttl = if ltb ttl (2 ^ 63) then ttl else 0

-- `none` where the sum of `chrono` panics
unfoldable pub rfc3339_after : ℕ → ℕ → Option ℕ
rfc3339_after now ttl =
    if ltb (now + from_std ttl) calendar_end then some ((now + from_std ttl) / 1000) else none

-- How long the renewal task sleeps, in nanoseconds: `ttl × (100 - pct) / 100`, or 100 ms for none.
abbrev pub or_default : ℕ → ℕ
or_default nanos = if nanos == 0 then 100 * 10 ^ 6 else nanos

unfoldable pub sleep_for : ℕ → ℕ → ℕ
sleep_for ttl pct = or_default (ttl * 10 ^ 6 * (100 - min (max pct 1) 99) / 100)

-- A request whose failure the caller handles itself.
abbrev pub attempt : {S A : Type 0} → Client S A → Client S (Result A)
attempt m w = let (r, w') = m w in (done r, w')

abbrev pub or_panic : {S A : Type 0} → Option A → Client S A
or_panic none = throw panicked
or_panic (some a) = return a

module _ {S : Type 0} (c : Commands S) where
  unfoldable pub acquired : Bytes → Bytes → ℕ → Option ℤ → Client S (Option LeaseState)
  acquired lease holder ttl none = return none
  acquired lease holder ttl (some fence) = do
    now ← now_ms
    expires_at ← or_panic (rfc3339_after now ttl)
    return (
        some (record {
          lease_key = lease;
          holder = holder;
          fence_token = as_u64 fence;
          ttl_ms = ttl;
          expires_at = expires_at;
          released = false;
          renewing = true;
        }))

  -- `try_acquire_async`: `none` when the lease is held
  unfoldable pub try_acquire_async :
      Bytes → Bytes → Bytes → Bytes → ℕ → Client S (Option LeaseState)
  try_acquire_async name lease fence holder ttl =
      if is_blank name then throw invalid_reference else do
        token ← request redis_err (acquire_script c lease fence holder (lease_ttl ttl))
        acquired lease holder (lease_ttl ttl) token

  -- After an attempt: the handle, or another attempt after the delay.
  unfoldable pub acquired_or :
      ℕ → Client S (Option LeaseState) → Option LeaseState → Client S (Option LeaseState)
  acquired_or delay again (some st) = return (some st)
  acquired_or delay again none = do _ ← sleep delay; again

  -- The loop of `acquire_async` at a delay in milliseconds, one unit of fuel an attempt.
  unfoldable pub acquire_from_delay :
      Bytes → Bytes → Bytes → Bytes → ℕ → ℕ → ℕ → Client S (Option LeaseState)
  acquire_from_delay name lease fence holder ttl zero delay = return none
  acquire_from_delay name lease fence holder ttl (suc fuel) delay = do
    st ← try_acquire_async name lease fence holder ttl
    acquired_or delay (acquire_from_delay name lease fence holder ttl fuel (min (delay * 2) 800)) st

  abbrev pub acquire_async : Bytes → Bytes → Bytes → Bytes → ℕ → ℕ → Client S (Option LeaseState)
  acquire_async name lease fence holder ttl fuel =
      acquire_from_delay name lease fence holder ttl fuel 200

  unfoldable pub renewed : LeaseState → Result ℕ → Client S (Result (Unit {0}) × LeaseState)
  renewed st (fail e) = return (fail e, st)
  renewed st (done zero) = return (fail lease_expired, record st { released = true })
  renewed st (done (suc n)) = do
    now ← now_ms
    new_expires ← or_panic (rfc3339_after now st.ttl_ms)
    return (done tt, record st { expires_at = new_expires })

  -- `renew_state`: its result, and the handle after it
  unfoldable pub renew_state : LeaseState → Client S (Result (Unit {0}) × LeaseState)
  renew_state st = if st.released then return (fail lease_expired, st) else do
    updated ← attempt (request redis_err (renew_script c st.lease_key st.holder st.ttl_ms))
    renewed st updated

  -- `release_state`: the outcome of its request is dropped
  unfoldable pub release_state : LeaseState → Client S (Result (Unit {0}) × LeaseState)
  release_state st = if st.released then return (done tt, st) else do
    _ ← attempt (request redis_err (release_script c st.lease_key st.holder))
    return (done tt, record st { released = true; renewing = false })

  abbrev pub is_err : {A : Type 0} → Result A → Bool
  is_err (done a) = false
  is_err (fail e) = true

  -- One round of the renewal task after its sleep, and whether it goes on.
  unfoldable pub renewal_round : LeaseState → Client S (Bool × LeaseState)
  renewal_round st =
      if st.released
      then return (false, st)
      else do r ← renew_state st; return (if is_err r.0 then (false, r.1) else (true, r.1))

  -- The renewal task, one unit of fuel a round: it sleeps for whole milliseconds here.
  unfoldable pub renewal_task : ℕ → ℕ → LeaseState → Client S LeaseState
  renewal_task pct zero st = return st
  renewal_task pct (suc fuel) st = do
    _ ← sleep (sleep_for st.ttl_ms pct / 10 ^ 6)
    r ← renewal_round st
    if r.0 then renewal_task pct fuel r.1 else return r.1
