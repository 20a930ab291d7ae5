-- ===== src/Tests/Bounds.antt =====
-- The theorems on sleeps, on the range of a page and on backfills at concrete inputs.
use mcpg_plugin_cluster_redi.Common.{
  ◌≡◌, refl, some, none, same, strip_prefix, codes, arith, ◌≤◌, ◌*◌, ◌+◌, ◌/◌, ◌^◌, [], ◌∷◌,
}
use mcpg_plugin_cluster_redi.Redis.Zset.{Zset, lex_range, lex_lt}
use mcpg_plugin_cluster_redi.Backend.{jittered}
use mcpg_plugin_cluster_redi.Backend.Jitter.{jittered-bounds}
use mcpg_plugin_cluster_redi.Script.{ok}
use mcpg_plugin_cluster_redi.Redis.View.{View, held, text, put}
use mcpg_plugin_cluster_redi.Redis.Commands.{documented}
use mcpg_plugin_cluster_redi.Kv.Store.Indexed.{layout, is_data_key}
use mcpg_plugin_cluster_redi.Keys.{with_connection_manager}
use mcpg_plugin_cluster_redi.Kv.Upkeep.{backfill_script}
use mcpg_plugin_cluster_redi.Kv.Upkeep.Backfill.{Filled}
use mcpg_plugin_cluster_redi.Kv.Upkeep.Filled.{backfill_script-fills}
use mcpg_plugin_cluster_redi.Tests.Memory.{memory, empty, plain_codec}
use mcpg_plugin_cluster_redi.Kv.Listing.{page_start, page_end}
use mcpg_plugin_cluster_redi.Kv.Listing.Range.{lex_range-page, begins}

jittered-bounds_example :
    (4 * (5_000_000_000 / 10 ^ 6 * 10 ^ 6) ≤ 5 * jittered 123_456_789 5_000_000_000)
    × (5 * jittered 123_456_789 5_000_000_000 ≤ 6 * 5_000_000_000 + 5 * 10 ^ 6)
jittered-bounds_example = jittered-bounds 123_456_789 5_000_000_000 (omega arith)

abbrev index : Zset
index = (codes "p:a", 0) ∷ (codes "p:b", 0) ∷ (codes "q", 0) ∷ []

lex_range-page_example :
    lex_range (page_start (codes "p:") (some (codes "p:a"))) (page_end (codes "p:")) index
    ≡ codes "p:b" ∷ []
unfolding begins lex_lt mcpg_plugin_cluster_redi.Redis.Zset.names
lex_range-page_example =
    lex_range-page (codes "p:") (some (codes "p:a")) index
      (
        (omega arith, (omega arith, (omega arith, tt))),
        ((omega arith, (omega arith, (omega arith, tt))), ((omega arith, tt), tt)),
      )
      refl

-- The key "m::a" is live, and "m::b" is not.
abbrev one_key : View
one_key = put (codes "m::a") (held (text (codes "x")) none) empty

backfill_script-fills_example :
    ((backfill_script
        (documented plain_codec)
        (with_connection_manager (codes "m:")).index_key
        (with_connection_manager (codes "m:")).expiry_key
        1005
        (codes "m::a" ∷ codes "m::b" ∷ [])
        one_key).0
      ≡ ok 1)
    × Filled plain_codec
        (layout b'm' (codes ":"))
        (codes "m::a" ∷ codes "m::b" ∷ [])
        one_key
        (backfill_script
          (documented plain_codec)
          (with_connection_manager (codes "m:")).index_key
          (with_connection_manager (codes "m:")).expiry_key
          1005
          (codes "m::a" ∷ codes "m::b" ∷ [])
          one_key).1
unfolding layout with_connection_manager is_data_key strip_prefix same
backfill_script-fills_example =
    backfill_script-fills memory b'm' (codes ":") 1005 (codes "m::a" ∷ codes "m::b" ∷ []) one_key
      (refl, (refl, tt)) tt tt
