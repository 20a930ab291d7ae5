-- ===== src/Lease/Sleep.antt =====
-- src/lease.rs: the sleep of the renewal task.
use mcpg_plugin_cluster_redi.Common.{ℕ, ◌-◌, ◌*◌, ◌^◌, ◌≤◌, ◌<◌, arith, min, max}
use native.Mathlib.Nat.{le-mul_of_pos_right, mul-le-mul_left}
use mcpg_plugin_cluster_redi.Lease.{sleep_for}

-- A percentage that is clamped to [1, 99].
share : (n k : ℕ) → 0 < k → k < 100 → 0 < n → n ≤ n * k × (n * k ≤ n * 99)
share n k h t p = (le-mul_of_pos_right n h, mul-le-mul_left n (omega arith))

-- The renewal task of a lease of at least a millisecond sleeps for some time, and less than the TTL,
-- whatever the percentage is set to.
pub sleep_for-ttl :
    (ttl pct : ℕ) → 0 < ttl → (0 < sleep_for ttl pct) × (sleep_for ttl pct < ttl * 10 ^ 6)
unfolding sleep_for
sleep_for-ttl ttl pct h =
    let (low, high) =
      share (ttl * 10 ^ 6) (100 - min (max pct 1) 99) (omega arith) (omega arith) (omega arith) in
    (ground arith, ground arith)
