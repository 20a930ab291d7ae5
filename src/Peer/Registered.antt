-- ===== src/Peer/Registered.antt =====
-- src/peer.rs: a registration, and a listing after it.
use mcpg_plugin_cluster_redi.Common.{
  ℕ, ◌+◌, ◌/◌, ◌<◌, ◌^◌, ◌≡◌, refl, ap, sym, ◌∙◌, Bool, true, Option, some, List, Bytes, same_refl,
  ltb, arith, subst,
}
use mcpg_plugin_cluster_redi.Script.{Script, ok}
use mcpg_plugin_cluster_redi.Client.{quiet, pipeline}
use mcpg_plugin_cluster_redi.Redis.View.{
  View, Entry, held, text, IsSorted, members, members-pack, pack-IsSorted, deadline, put,
}
use mcpg_plugin_cluster_redi.Redis.Zset.{score-insert, insert}
use mcpg_plugin_cluster_redi.Redis.Commands.{valid_ttl}
use mcpg_plugin_cluster_redi.Redis.Commands.Laws.{zadd_lem, with_member}
use mcpg_plugin_cluster_redi.Redis.Commands.Laws.Strings.{set_px_lem}
use mcpg_plugin_cluster_redi.Redis.Server.{Server, reply_of}
use mcpg_plugin_cluster_redi.Keys.{peer_key, peers_index_key}
use mcpg_plugin_cluster_redi.Keys.Apart.{peer_key-apart, peers_index-apart}
use mcpg_plugin_cluster_redi.Peer.{
  PeerRegistration, LegacyPeerScan, both, register_peer, list_registrations, saturating_add,
}
use mcpg_plugin_cluster_redi.Peer.Members.{Registered, told, list_registrations-told}

module _ (r : Server) (to_json : PeerRegistration → Bytes)
    (from_json : Bytes → Option PeerRegistration) (now : ℕ) (b : Bool)
    (scan : ℕ → Bytes → Script r.Store (ℕ × List Bytes))
    (found : ℕ → Bytes → r.Store → ℕ × List Bytes)
    (scans : (cursor : ℕ) (pattern : Bytes) (s : r.Store)
      → scan cursor pattern s ≡ (ok (found cursor pattern s), s))
    (prefix node address : Bytes) (ttl : ℕ) (roles : List Bytes) where
  open r use {Store, commands, codec, view, laws}

  abbrev pub own : PeerRegistration
  own = record { address = address; last_seen = now / 1000; roles = roles; kv_index = true }

  abbrev key : Bytes
  key = peer_key prefix node

  abbrev index : Bytes
  index = peers_index_key prefix

  abbrev with_key : View → View
  with_key v = put key (held (text (to_json own)) (some (v.clock + ttl))) v

  abbrev with_both : View → View
  with_both v = put index (with_member node (saturating_add now ttl) (v.at index)) v

  still_live : 0 < ttl → now + ttl < 2 ^ 64 → ltb now (saturating_add now ttl) ≡ true
  still_live p e = ground arith

  Registered-with_both :
      (fuel : ℕ) (legacy : LegacyPeerScan) (valid : from_json (to_json own) ≡ some own) (v : View)
      → 0 < ttl
      → now + ttl < 2 ^ 64
      → Registered r to_json from_json now b scan found scans fuel prefix node legacy
          (to_json own)
          own
          valid
          (with_both (with_key v))
  Registered-with_both fuel legacy valid v p e =
      let entry : Entry = (with_key v).at index in
      record {
        is_sorted =
            rw (same_refl index) (
              pack-IsSorted (insert node (saturating_add now ttl) (members entry))
                (deadline entry));
        until = saturating_add now ttl;
        live = still_live p e;
        member =
            rw
              (
                same_refl index,
                members-pack (insert node (saturating_add now ttl) (members entry))
                    (deadline entry),
              )
              (score-insert node node (saturating_add now ttl) (members entry)
                ∙ rw (same_refl node) refl);
        deadline = some (v.clock + ttl);
        there = rw (peers_index-apart prefix node, same_refl key) refl;
      }

  -- A node that registers is listed: on a server that behaves as documented, when nothing else
  -- happens, a listing after the registration, with any result of an earlier scan, is answered
  -- and has the node; if the peer set is a sorted set or missing, Redis takes the TTL, the
  -- registration is read from its JSON as it was written, and the SCAN of the listing is
  -- answered.
  pub list_registrations-registered :
      (fuel : ℕ) (legacy : LegacyPeerScan) (s : Store)
      → from_json (to_json own) ≡ some own
      → IsSorted ((view s).at index)
      → valid_ttl (view s).clock ttl ≡ true
      → 0 < ttl
      → now + ttl < 2 ^ 64
      → told r to_json from_json now b scan found scans node (
          list_registrations to_json from_json commands scan fuel prefix legacy
            (register_peer to_json from_json commands prefix node address ttl roles
              (quiet s now b)).1)
        ≡ true
  unfolding register_peer pipeline both
  list_registrations-registered fuel legacy s valid is_sorted fits p e =
      let (stored, keyed) =
        reply_of s (laws.set_px_law key (to_json own) ttl)
          (set_px_lem codec key (to_json own) ttl (view s) fits) in
      let s' : Store = (commands.set_px key (to_json own) ttl s).1 in
      let there : (view s').at index ≡ (view s).at index =
        ap (λ (v : View). v.at index) keyed ∙ rw (peer_key-apart prefix node) refl in
      let (added, indexed) =
        reply_of s' (laws.zadd_law index (saturating_add now ttl) node)
          (zadd_lem codec index (saturating_add now ttl) node (view s') (rw there is_sorted)) in
      let s'' : Store = (commands.zadd index (saturating_add now ttl) node s').1 in
      rw stored (
        rw added (
          list_registrations-told r to_json from_json now b scan found scans fuel prefix node legacy
            (to_json own) own valid s''
            (subst
              (Registered r to_json from_json now b scan found scans fuel prefix node legacy
                (to_json own) own valid)
              (sym (indexed ∙ ap with_both keyed))
              (Registered-with_both fuel legacy valid (view s) p e))))
