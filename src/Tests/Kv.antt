-- ===== src/Tests/Kv.antt =====
-- The theorems on the key/value store at concrete inputs.
use mcpg_plugin_cluster_redi.Common.{
  ℕ, ◌<◌, ◌^◌, ◌≡◌, Option, none, some, Bytes, codes, true, false, arith, ◌≢◌,
}
use mcpg_plugin_cluster_redi.Common.Int.{pos, ◌+ℤ◌}
use mcpg_plugin_cluster_redi.Client.{Client, done, quiet}
use mcpg_plugin_cluster_redi.Client.Keep.{Keeps}
use mcpg_plugin_cluster_redi.Keys.{
  RedisKv, with_connection_manager, full_key, lease_key, fence_key, peer_key, peers_index_key,
}
use mcpg_plugin_cluster_redi.Keys.Apart.{data_key-apart}
use mcpg_plugin_cluster_redi.Kv.Store.{
  get, put, put_if_absent, delete, expire, incr, incr_floor, ttl_ms,
}
use mcpg_plugin_cluster_redi.Kv.Store.Indexed.{Indexed, Keeps-writes}
use mcpg_plugin_cluster_redi.Kv.Store.Behaviour.{get-put_if_absent, get-expire, get-delete}
use mcpg_plugin_cluster_redi.Kv.Store.Counter.{incr_counts, number}
use mcpg_plugin_cluster_redi.Redis.View.{View}
use mcpg_plugin_cluster_redi.Redis.Commands.{documented}
use mcpg_plugin_cluster_redi.Tests.Memory.{memory, empty, empty-Indexed, plain_codec}

abbrev kv : RedisKv
kv = with_connection_manager (codes "m:")

abbrev a_key : Bytes
a_key = codes "a"

-- Five seconds, as a `Duration`.
abbrev five : Option ℕ
five = some 5_000_000_000

five-small : ttl_ms five < 2 ^ 52
unfolding ttl_ms
five-small = omega arith

abbrev Kept : {A : Type 0} → Client View A → Type 0
Kept m = Keeps (Indexed memory b'm' (codes ":")) m

Keeps-writes_example :
    Kept (put (documented plain_codec) kv a_key (codes "x") five)
    × Kept (put_if_absent (documented plain_codec) kv a_key (codes "x") five)
    × Kept (delete (documented plain_codec) kv a_key)
    × Kept (expire (documented plain_codec) kv a_key five)
    × Kept (incr (documented plain_codec) kv a_key (pos 1) five)
    × Kept (incr_floor (documented plain_codec) kv plain_codec a_key (pos 1) (pos 9) five)
Keeps-writes_example =
    Keeps-writes memory b'm' (codes ":") a_key (codes "x") (pos 1) (pos 9) five five-small

get-put_if_absent_example :
    ((put_if_absent (documented plain_codec) kv a_key (codes "x") none (quiet empty 1005 false)).0
      ≡ done true)
    × ((get
          (documented plain_codec)
          kv
          a_key
          (put_if_absent
            (documented plain_codec)
            kv
            a_key
            (codes "x")
            none
            (quiet empty 1005 false)).1).0
        ≡ done (some (record { bytes = codes "x"; expires_at = none })))
unfolding ttl_ms
get-put_if_absent_example =
    get-put_if_absent memory b'm' (codes ":") empty empty-Indexed a_key 1005 false (codes "x") none
      (omega arith)

get-expire_example :
    ((expire (documented plain_codec) kv a_key five (quiet empty 1005 false)).0 ≡ done false)
    × ((get
          (documented plain_codec)
          kv
          a_key
          (expire (documented plain_codec) kv a_key five (quiet empty 1005 false)).1).0
        ≡ done none)
get-expire_example =
    get-expire memory b'm' (codes ":") empty empty-Indexed a_key 1005 false (codes "x") five
      five-small

get-delete_example :
    ((delete (documented plain_codec) kv a_key (quiet empty 1005 false)).0 ≡ done false)
    × ((get
          (documented plain_codec)
          kv
          a_key
          (delete (documented plain_codec) kv a_key (quiet empty 1005 false)).1).0
        ≡ done none)
get-delete_example = get-delete memory b'm' (codes ":") empty empty-Indexed a_key 1005 false

incr_counts_example :
    ((incr (documented plain_codec) kv a_key (pos 4) five (quiet empty 1005 false)).0
      ≡ done (pos 4))
    × (number memory b'm'
          (codes ":")
          empty
          empty-Indexed
          a_key
          1005
          false
          (incr (documented plain_codec) kv a_key (pos 4) five (quiet empty 1005 false)).1.store
        ≡ some (pos 4))
unfolding ◌+ℤ◌
incr_counts_example =
    incr_counts memory b'm' (codes ":") empty empty-Indexed a_key 1005 false (pos 4) five five-small

data_key-apart_example :
    (full_key kv a_key ≢ kv.index_key)
    × (full_key kv a_key ≢ kv.expiry_key)
    × (full_key kv a_key ≢ kv.complete_key)
    × (full_key kv a_key ≢ lease_key (codes "m:") (codes "locks") (codes "l"))
    × (full_key kv a_key ≢ fence_key (codes "m:") (codes "locks") (codes "l"))
    × (full_key kv a_key ≢ lease_key (codes "m:") (codes "leadership") (codes "l"))
    × (full_key kv a_key ≢ fence_key (codes "m:") (codes "leadership") (codes "l"))
    × (full_key kv a_key ≢ peer_key (codes "m:") (codes "n"))
    × (full_key kv a_key ≢ peers_index_key (codes "m:"))
data_key-apart_example = data_key-apart b'm' (codes ":") a_key (codes "l") (codes "n")
