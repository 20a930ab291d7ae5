-- ===== src/Tests/Spec.antt =====
-- A run of the key/value store and of the map at concrete commands.
use mcpg_plugin_cluster_redi.Common.{
  ℕ, ◌<◌, ◌^◌, ◌≡◌, refl, Option, none, some, List, [], ◌∷◌, Bytes, codes, true, false, arith, same,
  ◌+◌,
}
use mcpg_plugin_cluster_redi.Common.Int.{pos, ◌+ℤ◌}
use mcpg_plugin_cluster_redi.Client.{precondition}
use mcpg_plugin_cluster_redi.Kv.Store.{ttl_ms}
use mcpg_plugin_cluster_redi.Kv.Spec.{
  Map, Command, get, delete, put, put_if_absent, incr, wait, entry, stored, waited, flag, number,
  failed, answers, step,
}
use mcpg_plugin_cluster_redi.Kv.Spec.Steps.{replies}
use mcpg_plugin_cluster_redi.Kv.Spec.Refines.{Shows, kv}
use mcpg_plugin_cluster_redi.Kv.Spec.Refinement.{replies-answers}
use mcpg_plugin_cluster_redi.Tests.Memory.{memory, empty, plain_codec}

abbrev pub no_items : Map
no_items = record { clock = 1000; now = 5; at = λ k. none }

pub empty-Shows : Shows b'm' (codes ":") empty no_items
empty-Shows = record {
  ready = record {
    early = omega arith;
    index_sorted = tt;
    expiry_sorted = tt;
    data_text = λ k d. tt;
  };
  clock = refl;
  items = λ k. refl;
}

abbrev a_key : Bytes
a_key = codes "a"

abbrev five : Option ℕ
five = some 5_000_000_000

-- A value that expires while the run waits, and a counter that takes its place.
abbrev commands : List Command
commands =
    put a_key (codes "x") five
    ∷ put_if_absent a_key (codes "y") none
    ∷ incr a_key (pos 2) none
    ∷ get a_key
    ∷ wait 6000
    ∷ get a_key
    ∷ incr a_key (pos 2) none
    ∷ delete a_key
    ∷ []

five-small : ttl_ms five < 2 ^ 52
unfolding ttl_ms
five-small = omega arith

none-small : ttl_ms none < 2 ^ 52
unfolding ttl_ms
none-small = omega arith

early : no_items.clock + 6000 < 2 ^ 52
early = omega arith

answers_example :
    answers plain_codec commands no_items
    ≡ stored
      ∷ flag false
      ∷ failed precondition
      ∷ entry (some (record { bytes = codes "x"; expires_at = some 5005 }))
      ∷ waited
      ∷ entry none
      ∷ number (pos 2)
      ∷ flag true
      ∷ []
unfolding answers step ttl_ms same ◌+ℤ◌
answers_example = refl

replies-answers_example :
    replies memory (kv b'm' (codes ":")) commands empty 5 ≡ answers plain_codec commands no_items
unfolding step same ttl_ms ◌+ℤ◌
replies-answers_example =
    replies-answers memory b'm' (codes ":") commands empty no_items empty-Shows
      (five-small, (none-small, (none-small, (tt, (early, (tt, (none-small, (tt, tt))))))))
