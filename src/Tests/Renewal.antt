-- ===== src/Tests/Renewal.antt =====
-- The theorems on waiting acquisitions and on the renewal task at concrete inputs.
use mcpg_plugin_cluster_redi.Common.{
  ◌*◌, ◌^◌, ◌<◌, ◌≡◌, refl, some, codes, arith, true, false, same, is_blank, is_whitespace, [], ◌∷◌,
  if◌then◌else◌,
}
use mcpg_plugin_cluster_redi.Redis.View.{View, held, text, missing}
use mcpg_plugin_cluster_redi.Redis.Commands.{documented}
use mcpg_plugin_cluster_redi.Lease.{LeaseState, lease_ttl, acquire_async, sleep_for}
use mcpg_plugin_cluster_redi.Lease.Handle.{HeldBy}
use mcpg_plugin_cluster_redi.Lease.Waiting.{waiting, granted_token, acquire_async-waits}
use mcpg_plugin_cluster_redi.Lease.Renewing.{after, is_live, renewal_task-keeps}
use mcpg_plugin_cluster_redi.Tests.Memory.{memory, plain_codec}

-- Node b holds the lease "L" until 2000.
abbrev taken : View
taken = record {
  clock = 1000;
  at = λ k. if same k (codes "L") then held (text (codes "b")) (some 2000) else missing;
}

-- Node a waits 1.1 s for it.
acquire_async-waits_example :
    granted_token (
      acquire_async
        (documented plain_codec)
        (codes "l")
        (codes "L")
        (codes "L:fence")
        (codes "a")
        30_000_000_000
        2
        (waiting memory (400 ∷ 700 ∷ []) taken 1000 false))
    ≡ some 1
unfolding same is_blank is_whitespace lease_ttl
acquire_async-waits_example =
    acquire_async-waits memory (codes "l") (codes "L") (codes "L:fence") (codes "a") 30_000_000_000
      2 (400 ∷ 700 ∷ []) taken 1000 0 false (codes "b") 2000 refl refl (omega arith)
      (record {
        taken = refl;
        running = omega arith;
        passes = omega arith;
        counts = record { number = refl; lasting = refl };
        early = omega arith;
      })
      (omega arith) (omega arith)

abbrev handle : LeaseState
handle = record {
  lease_key = codes "L";
  holder = codes "b";
  fence_token = 1;
  ttl_ms = 1000;
  expires_at = 2;
  released = false;
  renewing = true;
}

-- Three renewals in time.
renewal_task-keeps_example :
    (is_live (after memory 80 3 handle (200 ∷ 300 ∷ 250 ∷ []) taken 1000 false) ≡ true)
    × HeldBy
        (codes "L")
        (codes "b")
        2750
        (after memory 80 3 handle (200 ∷ 300 ∷ 250 ∷ []) taken 1000 false).1.store
    × (0 < sleep_for 1000 80)
    × (sleep_for 1000 80 < 1000 * 10 ^ 6)
unfolding same
renewal_task-keeps_example =
    renewal_task-keeps memory 80 handle (200 ∷ 300 ∷ 250 ∷ []) taken 1000 false
      (record { live = refl; own = refl; positive = omega arith; early = omega arith })
      (omega arith, (omega arith, (omega arith, tt))) (omega arith)
