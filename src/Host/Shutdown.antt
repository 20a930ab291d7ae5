-- ===== src/Host/Shutdown.antt =====
-- src/lib.rs: the plugin's shutdown, on the server.
use mcpg_plugin_cluster_redi.Common.{
  ℕ, ◌≡◌, refl, ap, ◌∙◌, Bool, true, false, Option, none, Bytes, same, same_refl,
}
use mcpg_plugin_cluster_redi.Client.{Client, World, quiet, pipeline}
use mcpg_plugin_cluster_redi.Redis.View.{
  View, missing, IsSorted, members, members-pack, deadline, put,
}
use mcpg_plugin_cluster_redi.Redis.Zset.{score, score-remove, remove}
use mcpg_plugin_cluster_redi.Redis.Commands.Laws.{del_lem, zrem_lem, without_member}
use mcpg_plugin_cluster_redi.Redis.Server.{Server, reply_of}
use mcpg_plugin_cluster_redi.Keys.{peer_key, peers_index_key}
use mcpg_plugin_cluster_redi.Keys.Apart.{peer_key-apart, peers_index-apart, same-peer_key}
use mcpg_plugin_cluster_redi.Peer.{PeerRegistration, both, deregister_peer}
use mcpg_plugin_cluster_redi.Backend.{Inner}
use mcpg_plugin_cluster_redi.Host.{Cells, drain, shutdown}

module _ (r : Server) (to_json : PeerRegistration → Bytes)
    (from_json : Bytes → Option PeerRegistration) (prefix node : Bytes) where
  open r use {Store, commands, codec, view, laws}

  abbrev key : Bytes
  key = peer_key prefix node

  abbrev index : Bytes
  index = peers_index_key prefix

  -- The keyspace without the node.
  abbrev left_by : View → View
  left_by v = put index (without_member node (v.at index)) (put key missing v)

  left_by-gone : (v : View) → (left_by v).at key ≡ missing
  left_by-gone v = rw (peers_index-apart prefix node, same_refl key) refl

  left_by-unlisted : (v : View) → score node (members ((left_by v).at index)) ≡ none
  left_by-unlisted v =
      rw
        (same_refl index, members-pack (remove node (members (v.at index))) (deadline (v.at index)))
        (score-remove node node (members (v.at index)) ∙ rw (same_refl node) refl)

  left_by-other :
      (other : Bytes) (v : View)
      → same node other ≡ false
      → (left_by v).at (peer_key prefix other) ≡ v.at (peer_key prefix other)
  left_by-other other v e =
      rw (peers_index-apart prefix other, same-peer_key prefix node other, e) refl

  deregister_peer-leaves :
      (s : Store) (now : ℕ) (b : Bool)
      → IsSorted ((view s).at index)
      → view (deregister_peer to_json from_json commands prefix node (quiet s now b)).1.store
        ≡ left_by (view s)
  unfolding deregister_peer pipeline both
  deregister_peer-leaves s now b is_sorted =
      let (deleted, without) = reply_of s (laws.del_law key) (del_lem codec key (view s)) in
      let s' : Store = (commands.del key s).1 in
      let there : (view s').at index ≡ (view s).at index =
        ap (λ (v : View). v.at index) without ∙ rw (peer_key-apart prefix node) refl in
      let (removed, after) =
        reply_of s' (laws.zrem_law index node)
          (zrem_lem codec index node (view s') (rw there is_sorted)) in
      rw deleted (rw removed (after ∙ rw (there, without) refl))

-- On a server that behaves as documented, when nothing else happens: the shutdown of a connected
-- plugin that registers itself, where the peer set is a sorted set or missing, leaves neither the
-- node's registration nor its member of the peer set, keeps the registration of every other node,
-- and drains the plugin; a second shutdown, in any world, sends nothing and changes nothing.
pub shutdown-leaves :
    (r : Server) (open_manager : Client r.Store (Unit {0})) (inner : Inner)
    (to_json : PeerRegistration → Bytes) (from_json : Bytes → Option PeerRegistration)
    (cells : Cells) (s : r.Store) (now : ℕ) (b : Bool) (other : Bytes) (w : World r.Store)
    → cells.peer_refresh ≡ true
    → cells.conn ≡ true
    → IsSorted ((r.view s).at (peers_index_key inner.config.key_prefix))
    → same inner.node_id other ≡ false
    → ((shutdown open_manager inner r.commands to_json from_json cells (quiet s now b)).0
        ≡ drain cells)
      × ((r.view
              (shutdown open_manager inner r.commands to_json from_json cells
                (quiet s now b)).1.store).at
            (peer_key inner.config.key_prefix inner.node_id)
          ≡ missing)
      × (score inner.node_id (
            members (
              (r.view
                  (shutdown open_manager inner r.commands to_json from_json cells
                    (quiet s now b)).1.store).at
                (peers_index_key inner.config.key_prefix)))
          ≡ none)
      × ((r.view
              (shutdown open_manager inner r.commands to_json from_json cells
                (quiet s now b)).1.store).at
            (peer_key inner.config.key_prefix other)
          ≡ (r.view s).at (peer_key inner.config.key_prefix other))
      × (shutdown open_manager inner r.commands to_json from_json (drain cells) w
          ≡ (drain cells, w))
unfolding shutdown drain
shutdown-leaves r open_manager inner to_json from_json cells s now b other w registered connected
      is_sorted elsewhere =
    let prefix = inner.config.key_prefix in
    let node = inner.node_id in
    let left = deregister_peer-leaves r to_json from_json prefix node s now b is_sorted in
    (
      rw registered (rw connected refl),
      rw registered (
          rw connected (
            ap (λ (v : View). v.at (peer_key prefix node)) left
            ∙ left_by-gone r to_json from_json prefix node (r.view s))),
      rw registered (
          rw connected (
            ap (λ (v : View). score node (members (v.at (peers_index_key prefix)))) left
            ∙ left_by-unlisted r to_json from_json prefix node (r.view s))),
      rw registered (
          rw connected (
            ap (λ (v : View). v.at (peer_key prefix other)) left
            ∙ left_by-other r to_json from_json prefix node other (r.view s) elsewhere)),
      refl,
    )
