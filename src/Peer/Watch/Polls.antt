-- ===== src/Peer/Watch/Polls.antt =====
-- src/lib.rs, the loop of `watch_peers`: polls one after the other, some of which fail.
use mcpg_plugin_cluster_redi.Common.{
  ◌≡◌, refl, ap, sym, ◌∙◌, Bool, false, List, [], ◌∷◌, Bytes, ◌++◌,
}
use mcpg_plugin_cluster_redi.Peer.{ClusterPeer}
use mcpg_plugin_cluster_redi.Peer.Watch.{
  PeerEvent, poll, has_peer, follow, follow-append, listed, follow-poll,
}

-- A poll lists the peers, or finds no connection or an error.
pub data Poll : Type 0 where
  polled : (peers : List ClusterPeer) → Poll
  unavailable : Poll

-- The events of the polls, from the peers of the last poll that succeeded.
unfoldable pub watch_peers : List ClusterPeer → List Poll → List PeerEvent
watch_peers last [] = []
watch_peers last (polled peers ∷ polls) =
    let (events, cur) = poll last peers in events ++ watch_peers cur polls
watch_peers last (unavailable ∷ polls) = watch_peers last polls

-- Whether the last poll that succeeded listed the node, or `b` where none did.
abbrev pub latest : Bytes → Bool → List Poll → Bool
latest id b [] = b
latest id b (polled peers ∷ polls) = latest id (listed peers id) polls
latest id b (unavailable ∷ polls) = latest id b polls

follow-watch :
    (last : List ClusterPeer) (polls : List Poll) (id : Bytes) (b : Bool)
    → has_peer last id ≡ b
    → follow id b (watch_peers last polls) ≡ latest id b polls
unfolding watch_peers
follow-watch last [] id b h = refl
follow-watch last (polled peers ∷ polls) id b h =
    let (told, kept) = follow-poll last peers id in
    let now : follow id b (poll last peers).0 ≡ listed peers id =
      ap (λ (x : Bool). follow id x (poll last peers).0) (sym h) ∙ told in
    follow-append id b (poll last peers).0 (watch_peers (poll last peers).1 polls)
    ∙ (ap (λ (x : Bool). follow id x (watch_peers (poll last peers).1 polls)) now
        ∙ follow-watch (poll last peers).1 polls id (listed peers id) kept)
follow-watch last (unavailable ∷ polls) id b h = follow-watch last polls id b h

-- A watcher that follows every event from the start of `watch_peers`, over any number of polls, takes
-- a node for present if and only if the last poll that succeeded listed a peer with its id and the
-- id is not empty; polls that fail change nothing.
pub watch_peers-latest :
    (polls : List Poll) (id : Bytes)
    → follow id false (watch_peers [] polls) ≡ latest id false polls
watch_peers-latest polls id = follow-watch [] polls id false (unfold has_peer in refl)
