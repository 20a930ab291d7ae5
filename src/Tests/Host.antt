-- ===== src/Tests/Host.antt =====
-- The theorems on what the host calls at concrete inputs.
use mcpg_plugin_cluster_redi.Common.{
  ◌/◌, ◌≡◌, refl, Option, some, none, Bytes, codes, arith, true, false, same, [], ◌∷◌, List,
}
use mcpg_plugin_cluster_redi.Common.Int.{pos}
use mcpg_plugin_cluster_redi.Client.{Client, done, fail, backend_unavailable, quiet}
use mcpg_plugin_cluster_redi.Redis.View.{View, held, text, missing, members}
use mcpg_plugin_cluster_redi.Redis.Zset.{score}
use mcpg_plugin_cluster_redi.Redis.Commands.{documented}
use mcpg_plugin_cluster_redi.Config.{defaults}
use mcpg_plugin_cluster_redi.Keys.{lease_key, peer_key, peers_index_key}
use mcpg_plugin_cluster_redi.Kv.Store.{ttl_ms}
use mcpg_plugin_cluster_redi.Kv.Spec.{Command, get, put, incr, wait}
use mcpg_plugin_cluster_redi.Script.{pure}
use mcpg_plugin_cluster_redi.Peer.{PeerRegistration, register_peer, list_registrations, new_scan}
use mcpg_plugin_cluster_redi.Peer.Members.{told}
use mcpg_plugin_cluster_redi.Peer.Registered.{list_registrations-registered}
use mcpg_plugin_cluster_redi.Backend.{Inner}
use mcpg_plugin_cluster_redi.Lease.{LeaseState}
use mcpg_plugin_cluster_redi.Lease.Handle.{HeldBy}
use mcpg_plugin_cluster_redi.Host.{Cells, drain, boot, shutdown}
use mcpg_plugin_cluster_redi.Host.Life.{tick, shut, life, IsSound, boot-life}
use mcpg_plugin_cluster_redi.Host.Shutdown.{shutdown-leaves}
use mcpg_plugin_cluster_redi.Host.Leases.{Heap, wrap_state, drop_state, release_sync, task_round}
use mcpg_plugin_cluster_redi.Host.Leases.Handles.{renew, round, calls}
use mcpg_plugin_cluster_redi.Host.Leases.Dropped.{undropped, release-drop-frees, drop_state-renews}
use mcpg_plugin_cluster_redi.Host.Locks.{host_try_acquire_lock, host_try_acquire_lock-free}
use mcpg_plugin_cluster_redi.Tests.Memory.{memory, empty, plain_codec}

abbrev reachable : Client View (Unit {0})
reachable w = (done tt, w)

abbrev inner : Inner
inner = record {
  config = record (defaults (codes "redis://h")) { key_prefix = codes "m:" };
  node_id = codes "a";
  started_at = 0;
}

abbrev commands : List Command
commands =
    put (codes "k") (codes "x") (some 5000)
    ∷ wait 6000
    ∷ incr (codes "k") (pos 2) none
    ∷ get (codes "k")
    ∷ []

abbrev to_json : PeerRegistration → Bytes
to_json reg = reg.address

abbrev from_json : Bytes → Option PeerRegistration
from_json raw = none

abbrev unreachable : Client View (Unit {0})
unreachable w = (fail backend_unavailable, w)

-- Redis is down, and the plugin is shut down.
boot-life_example :
    IsSound true
      (life unreachable inner
        (documented plain_codec)
        to_json
        from_json
        (tick ∷ shut ∷ tick ∷ [])
        (boot unreachable inner (documented plain_codec) to_json from_json (quiet empty 5 false))).0
boot-life_example =
    boot-life unreachable inner (documented plain_codec) to_json from_json (tick ∷ shut ∷ tick ∷ [])
      (quiet empty 5 false)

abbrev joined : Cells
joined = record {
  conn = true;
  primitives = true;
  peer_refresh = true;
  kv_maintenance = true;
  draining = false;
}

shutdown-leaves_example :
    ((shutdown reachable inner
        (documented plain_codec)
        to_json
        from_json
        joined
        (quiet empty 5 false)).0
      ≡ drain joined)
    × ((shutdown reachable inner
            (documented plain_codec)
            to_json
            from_json
            joined
            (quiet empty 5 false)).1.store.at
          (peer_key (codes "m:") (codes "a"))
        ≡ missing)
    × (score (codes "a") (
          members (
            (shutdown reachable inner
                (documented plain_codec)
                to_json
                from_json
                joined
                (quiet empty 5 false)).1.store.at
              (peers_index_key (codes "m:"))))
        ≡ none)
    × ((shutdown reachable inner
            (documented plain_codec)
            to_json
            from_json
            joined
            (quiet empty 5 false)).1.store.at
          (peer_key (codes "m:") (codes "b"))
        ≡ empty.at (peer_key (codes "m:") (codes "b")))
    × (shutdown reachable inner
          (documented plain_codec)
          to_json
          from_json
          (drain joined)
          (quiet empty 9 true)
        ≡ (drain joined, quiet empty 9 true))
unfolding same
shutdown-leaves_example =
    shutdown-leaves memory reachable inner to_json from_json joined empty 5 false (codes "b")
      (quiet empty 9 true) refl refl tt refl

abbrev handle : LeaseState
handle = record {
  lease_key = codes "L";
  holder = codes "a";
  fence_token = 1;
  ttl_ms = 500;
  expires_at = 1;
  released = false;
  renewing = true;
}

abbrev no_leases : Heap
no_leases = record { next = 4096; at = λ a. none }

release-drop-frees_example :
    (task_round
        (documented plain_codec)
        4096
        (drop_state 4096
          (release_sync
            (documented plain_codec)
            4096
            (calls
              (documented plain_codec)
              4096
              (renew ∷ round ∷ [])
              ((wrap_state handle no_leases).1, quiet empty 5 false)).0
            (quiet empty 5 false)).0.1)
        (quiet empty 5 false)).0.at
      4096
    ≡ none
release-drop-frees_example =
    release-drop-frees (documented plain_codec) handle no_leases (renew ∷ round ∷ [])
      (quiet empty 5 false) (quiet empty 5 false) (quiet empty 5 false) refl

-- Node a holds the lease until 1200.
abbrev owned : View
owned = record { clock = 1000; at = λ k. held (text (codes "a")) (some 1200) }

drop_state-renews_example :
    ((task_round
          (documented plain_codec)
          4096
          (drop_state 4096 (wrap_state handle no_leases).1)
          (quiet owned 1000 false)).0.at
        4096
      ≡ some (undropped (record handle { expires_at = 1500 / 1000 })))
    × HeldBy
        (codes "L")
        (codes "a")
        1500
        (task_round
          (documented plain_codec)
          4096
          (drop_state 4096 (wrap_state handle no_leases).1)
          (quiet owned 1000 false)).1.store
drop_state-renews_example =
    drop_state-renews memory handle no_leases 1200 1000 false owned refl refl refl refl
      (omega arith)

host_try_acquire_lock-free_example :
    ((host_try_acquire_lock
        (documented plain_codec)
        reachable
        inner
        (codes "k")
        500
        joined
        no_leases
        (quiet empty 1000 false)).0.0
      ≡ done (some (4096, 1, 1500 / 1000)))
    × HeldBy
        (lease_key (codes "m:") (codes "locks") (codes "k"))
        (codes "a")
        1500
        (host_try_acquire_lock
          (documented plain_codec)
          reachable
          inner
          (codes "k")
          500
          joined
          no_leases
          (quiet empty 1000 false)).1.store
host_try_acquire_lock-free_example =
    host_try_acquire_lock-free memory reachable inner (codes "k") joined no_leases 500 0 1000 false
      empty refl (omega arith) refl refl (omega arith) (omega arith) (omega arith)

abbrev registration : PeerRegistration
registration = record {
  address = codes "redis://h";
  last_seen = 1000 / 1000;
  roles = [];
  kv_index = true;
}

abbrev read_registration : Bytes → Option PeerRegistration
read_registration raw = some registration

list_registrations-registered_example :
    told memory to_json read_registration 1000 false
      (λ cursor pattern. pure (0, []))
      (λ cursor pattern s. (0, []))
      (λ cursor pattern s. refl)
      (codes "a")
      (list_registrations to_json read_registration
        (documented plain_codec)
        (λ cursor pattern. pure (0, []))
        1
        (codes "m:")
        (new_scan 60_000)
        (register_peer to_json read_registration
          (documented plain_codec)
          (codes "m:")
          (codes "a")
          (codes "redis://h")
          60_000
          []
          (quiet empty 1000 false)).1)
    ≡ true
list_registrations-registered_example =
    list_registrations-registered memory to_json read_registration 1000 false
      (λ cursor pattern. pure (0, [])) (λ cursor pattern s. (0, [])) (λ cursor pattern s. refl)
      (codes "m:") (codes "a") (codes "redis://h") 60_000 [] 1 (new_scan 60_000) empty refl tt refl
      (omega arith) (omega arith)
