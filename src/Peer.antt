-- ===== src/Peer.antt =====
-- src/peer.rs: the registrations of the replicas. The JSON of a registration and `SCAN` are
-- parameters. An `Instant` is read off the replica's clock.
pub mod Watch
pub mod Listed
pub mod Members
pub mod Registered
use mcpg_plugin_cluster_redi.Common.{
  ℕ, zero, suc, ◌+◌, ◌-◌, ◌/◌, ◌^◌, Bool, true, false, ◌&&◌, not, Option, none, some, List, [], ◌∷◌,
  Bytes, codes, ◌++◌, map, min, same, ltb, ◌==◌, if◌then◌else◌, strip_prefix,
}
use mcpg_plugin_cluster_redi.Script.{Script, Reply, ok, err}
use mcpg_plugin_cluster_redi.Client.{
  Client, return, request, pipeline, redis_err, now_ms, ◌>>=◌, ◌>>◌,
}
use mcpg_plugin_cluster_redi.Redis.Commands.{Commands}
use mcpg_plugin_cluster_redi.Keys.{peer_key, peers_index_key}

-- `last_seen` is an RFC 3339 time, in Unix seconds.
pub record PeerRegistration : Type 0 where
  pub address : Bytes
  pub last_seen : ℕ
  pub roles : List Bytes
  pub kv_index : Bool

abbrev pub Registration : Type 0
Registration = Bytes × PeerRegistration

-- `ClusterPeer`; its health is always `Healthy`.
pub record ClusterPeer : Type 0 where
  pub node_id : Bytes
  pub address : Bytes
  pub last_seen : ℕ
  pub roles : List Bytes

-- The registrations that a scan found last, and when.
pub record LegacyPeerScan : Type 0 where
  pub max_age : ℕ
  pub last : Option (ℕ × List Registration)

unfoldable pub new_scan : ℕ → LegacyPeerScan
new_scan peer_ttl = record { max_age = min 30_000 peer_ttl; last = none }

abbrev pub forget : LegacyPeerScan → LegacyPeerScan
forget scan = record scan { last = none }

-- A sum of a `u64`
abbrev pub saturating_add : ℕ → ℕ → ℕ
saturating_add n m = min (n + m) (2 ^ 64 - 1)

abbrev both_replies : {A B : Type 0} → Reply A → Reply B → Reply (A × B)
both_replies (ok a) (ok b) = ok (a, b)
both_replies (ok a) (err e) = err e
both_replies (err e) r = err e

-- Two commands of one pipeline: the second runs whatever the first answers.
unfoldable pub both : {S A B : Type 0} → Script S A → Script S B → (S → S) → Script S (A × B)
both m n between s = let (a, s') = m s in let (b, s'') = n (between s') in (both_replies a b, s'')

unfoldable pub node_of : Bytes → Bytes → Bytes
node_of prefix key = elim (strip_prefix (prefix ++ codes "peers/") key) [
  | none ↦ key
  | some id ↦ id
]

abbrev pub peers_pattern : Bytes → Bytes
peers_pattern prefix = prefix ++ codes "peers/*"

module _ (to_json : PeerRegistration → Bytes) (from_json : Bytes → Option PeerRegistration) where
  -- A key that is gone or malformed is left out.
  unfoldable pub decode_all : Bytes → List Bytes → List (Option Bytes) → List Registration
  decode_all prefix (k ∷ ks) (some raw ∷ rs) =
      let rest = decode_all prefix ks rs in
      elim (from_json raw) [ none ↦ rest | some reg ↦ (node_of prefix k, reg) ∷ rest ]
  decode_all prefix (k ∷ ks) (none ∷ rs) = decode_all prefix ks rs
  decode_all prefix ks rs = []

  module _ {S : Type 0} (c : Commands S) where
    unfoldable pub read_registrations : Bytes → List Bytes → Client S (List Registration)
    read_registrations prefix [] = return []
    read_registrations prefix (k ∷ ks) = do
      values ← request redis_err (c.mget (k ∷ ks))
      return (decode_all prefix (k ∷ ks) values)

    unfoldable pub register_peer : Bytes → Bytes → Bytes → ℕ → List Bytes → Client S (Unit {0})
    register_peer prefix node_id address peer_ttl roles = do
      seen ← now_ms
      now ← now_ms
      _ ← pipeline redis_err (
          both
            (c.set_px (peer_key prefix node_id)
              (to_json (record {
                address = address;
                last_seen = seen / 1000;
                roles = roles;
                kv_index = true;
              }))
              peer_ttl)
            (c.zadd (peers_index_key prefix) (saturating_add now peer_ttl) node_id))
      return tt

    unfoldable pub deregister_peer : Bytes → Bytes → Client S (Unit {0})
    deregister_peer prefix node_id = do
      _ ←
          pipeline redis_err
            (both (c.del (peer_key prefix node_id)) (c.zrem (peers_index_key prefix) node_id))
      return tt

    module _ (scan : ℕ → Bytes → Script S (ℕ × List Bytes)) where
      -- Every key that a whole scan finds; one unit of fuel a step.
      unfoldable pub scan_keys : Bytes → ℕ → ℕ → List Bytes → Client S (List Bytes)
      scan_keys pattern zero cursor keys = return keys
      scan_keys pattern (suc fuel) cursor keys = do
        step ← request redis_err (scan cursor pattern)
        if step.0 == 0
            then return (keys ++ step.1)
            else scan_keys pattern fuel step.0 (keys ++ step.1)

      unfoldable pub fresh_scan :
          ℕ → Bytes → LegacyPeerScan → Client S (List Registration × LegacyPeerScan)
      fresh_scan fuel prefix legacy = do
        keys ← scan_keys (peers_pattern prefix) fuel 0 []
        found ← read_registrations prefix keys
        now ← now_ms
        return (found, record legacy { last = some (now, found) })

      -- `LegacyPeerScan::registrations`
      abbrev pub registrations_at :
          ℕ
          → Bytes
          → LegacyPeerScan
          → ℕ
          → Option (ℕ × List Registration)
          → Client S (List Registration × LegacyPeerScan)
      registrations_at fuel prefix legacy now none = fresh_scan fuel prefix legacy
      registrations_at fuel prefix legacy now (some (at, found)) =
          if ltb (now - at) legacy.max_age
          then return (found, legacy)
          else fresh_scan fuel prefix legacy

      unfoldable pub registrations :
          ℕ → Bytes → LegacyPeerScan → Client S (List Registration × LegacyPeerScan)
      registrations fuel prefix legacy = do
        now ← now_ms
        registrations_at fuel prefix legacy now legacy.last

      abbrev pub contains : List Bytes → Bytes → Bool
      contains [] id = false
      contains (i ∷ ids) id = if same i id then true else contains ids id

      -- Of the scanned registrations, those of builds that predate the sorted set.
      unfoldable pub older : List Bytes → List Registration → List Registration
      older ids [] = []
      older ids ((id, reg) ∷ rs) =
          let rest = older ids rs in
          if not reg.kv_index && not (contains ids id) then (id, reg) ∷ rest else rest

      unfoldable pub list_registrations :
          ℕ → Bytes → LegacyPeerScan → Client S (List Registration × LegacyPeerScan)
      list_registrations fuel prefix legacy = do
        now ← now_ms
        ids ← pipeline redis_err (
            both (c.zrangebyscore_beyond (peers_index_key prefix) now)
              (c.zremrangebyscore_upto (peers_index_key prefix) now))
        found ← read_registrations prefix (map (peer_key prefix) ids.0)
        scanned ← registrations fuel prefix legacy
        return (found ++ older ids.0 scanned.0, scanned.1)

      abbrev pub peer_of : Registration → ClusterPeer
      peer_of (id, reg) = record {
        node_id = id;
        address = reg.address;
        last_seen = reg.last_seen;
        roles = reg.roles;
      }

      unfoldable pub list_peers :
          ℕ → Bytes → LegacyPeerScan → Client S (List ClusterPeer × LegacyPeerScan)
      list_peers fuel prefix legacy = do
        found ← list_registrations fuel prefix legacy
        return (map peer_of found.0, found.1)
