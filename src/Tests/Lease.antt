-- ===== src/Tests/Lease.antt =====
-- The theorems on leases at concrete inputs.
use mcpg_plugin_cluster_redi.Common.{
  ◌≡◌, refl, none, some, List, Bytes, [], ◌∷◌, codes, arith, same, if◌then◌else◌,
}
use mcpg_plugin_cluster_redi.Redis.View.{View, held, text, elapse}
use mcpg_plugin_cluster_redi.Redis.Commands.{documented}
use mcpg_plugin_cluster_redi.Lease.Run.{Action, acquire, renew, release, wait, run, tokens}
use mcpg_plugin_cluster_redi.Lease.Exclusive.{lease_is_exclusive}
use mcpg_plugin_cluster_redi.Lease.Fencing.{Ascending, tokens_ascend}
use mcpg_plugin_cluster_redi.Tests.Memory.{memory, plain_codec}

abbrev lock : Bytes
lock = codes "l"

abbrev counter : Bytes
counter = codes "l:fence"

abbrev node_a : Bytes
node_a = codes "a"

abbrev node_b : Bytes
node_b = codes "b"

-- Node a holds the lock until 5000, and the counter stands at 3.
abbrev locked : View
locked = record {
  clock = 1000;
  at = λ k. if same k lock then held (text node_a) (some 5000) else held (text (0 ∷ 3 ∷ [])) none;
}

abbrev contention : List Action
contention = acquire node_b 100 ∷ wait 1000 ∷ renew node_b 900 ∷ release node_b ∷ wait 3000 ∷ []

lease_is_exclusive_example :
    ((run (documented plain_codec) elapse lock counter contention locked).at lock
      ≡ held (text node_a) (some 5000))
    × (tokens (documented plain_codec) elapse lock counter contention locked ≡ [])
unfolding same
lease_is_exclusive_example =
    lease_is_exclusive memory lock counter node_a 5000 contention locked refl
      (tt, (tt, (refl, (refl, (tt, tt))))) (omega arith)

-- Node b takes the lock after node a released it, and node a after node b's time ran out.
abbrev handover : List Action
handover = release node_a ∷ acquire node_b 100 ∷ wait 200 ∷ acquire node_a 50 ∷ []

tokens_ascend_example :
    Ascending 3 (tokens (documented plain_codec) elapse lock counter handover locked)
unfolding same
tokens_ascend_example =
    tokens_ascend memory lock counter 3 handover locked refl refl (omega arith)
      (record { number = refl; lasting = refl; lease_text = tt })
