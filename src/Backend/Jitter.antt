-- ===== src/Backend/Jitter.antt =====
-- src/lib.rs: how far a spread sleep is from its base.
use mcpg_plugin_cluster_redi.Common.{
  ℕ, refl, ◌+◌, ◌*◌, ◌/◌, ◌%◌, ◌^◌, ◌≤◌, ◌<◌, ◌==◌, ◌≡◌, arith, Bool-cases, inl, inr,
}
use native.Mathlib.Nat.{mod-lt}
use mcpg_plugin_cluster_redi.Backend.{jittered, picked, millis_u64}

-- Nothing wraps below 2^63 milliseconds.
span_plain : (ms : ℕ) → ms < 2 ^ 63 → ms * 2 % 2 ^ 64 ≡ ms * 2
span_plain ms h = omega (arith, h)

millis_plain : (base : ℕ) → base / 10 ^ 6 < 2 ^ 63 → millis_u64 base ≡ base / 10 ^ 6
millis_plain base h = omega (arith, h)

picked-bounds :
    (nanos base ms : ℕ)
    → ms ≡ base / 10 ^ 6
    → ms < 2 ^ 63
    → (4 * (ms * 10 ^ 6) ≤ 5 * picked nanos base ms (ms * 2 / 5))
      × (5 * picked nanos base ms (ms * 2 / 5) ≤ 6 * base + 5 * 10 ^ 6)
picked-bounds nanos base ms e h = elim (Bool-cases (ms * 2 / 5 == 0)) [
  | inl z ↦ rw z (omega (arith, e), omega arith)
  | inr nz ↦
      let small : nanos % (ms * 2 / 5 + 1) < ms * 2 / 5 + 1 = mod-lt nanos (omega arith) in
      rw nz (ground arith, ground arith)
]

-- A spread sleep of less than 2^63 ms is at least four fifths of the whole milliseconds of its base,
-- and at most a fifth and a millisecond longer than its base.
pub jittered-bounds :
    (nanos base : ℕ)
    → base / 10 ^ 6 < 2 ^ 63
    → (4 * (base / 10 ^ 6 * 10 ^ 6) ≤ 5 * jittered nanos base)
      × (5 * jittered nanos base ≤ 6 * base + 5 * 10 ^ 6)
unfolding jittered
jittered-bounds nanos base h =
    rw (millis_plain base h, span_plain (base / 10 ^ 6) h)
      (picked-bounds nanos base (base / 10 ^ 6) refl h)
