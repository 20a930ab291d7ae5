-- ===== src/Tests/Maintenance.antt =====
-- The theorem on the gate of the key index at a concrete input.
use mcpg_plugin_cluster_redi.Common.{ℕ, ◌≡◌, codes, [], true, false, Option, none, List, Bytes}
use mcpg_plugin_cluster_redi.Script.{Script, pure}
use mcpg_plugin_cluster_redi.Client.{World, quiet}
use mcpg_plugin_cluster_redi.Redis.View.{View}
use mcpg_plugin_cluster_redi.Redis.Commands.{documented}
use mcpg_plugin_cluster_redi.Keys.{with_connection_manager}
use mcpg_plugin_cluster_redi.Kv.Listing.{ScanCursor, list_page, scan_page}
use mcpg_plugin_cluster_redi.Maintenance.{gate_index}
use mcpg_plugin_cluster_redi.Maintenance.Gate.{gate_index-closes, later_on}
use mcpg_plugin_cluster_redi.Tests.Memory.{plain_codec, empty}

abbrev no_keys : ℕ → Bytes → Script View (ℕ × List Bytes)
no_keys cursor pattern = pure (0, [])

abbrev no_json : ScanCursor → Bytes
no_json st = []

abbrev no_cursor : Bytes → Option ScanCursor
no_cursor text = none

-- A replica that took the index for ready.
abbrev gated : World View
gated =
    (gate_index (documented plain_codec) plain_codec no_keys (with_connection_manager (codes "m:"))
      true (quiet empty 1000 true)).1

gate_index-closes_example :
    (gated.index_ready ≡ false)
    × (list_page
          (documented plain_codec)
          (with_connection_manager (codes "m:"))
          no_keys
          no_json
          no_cursor
          3
          []
          none
          10
          (later_on gated empty 2000 [])
        ≡ scan_page
            (documented plain_codec)
            (with_connection_manager (codes "m:"))
            no_keys
            no_json
            no_cursor
            3
            []
            (record { scan = 0; pending = []; done = false })
            10
            (later_on gated empty 2000 []))
gate_index-closes_example =
    gate_index-closes (documented plain_codec) plain_codec no_keys no_json no_cursor
      (with_connection_manager (codes "m:")) (quiet empty 1000 true) empty 2000 [] 3 [] 10
