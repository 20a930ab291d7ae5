-- ===== src/Tests/PubSub.antt =====
-- The theorems on messages, names and peers at concrete inputs.
use mcpg_plugin_cluster_redi.Common.{
  ◌≡◌, refl, codes, [], ◌∷◌, none, some, Bytes, List, same, true, false,
}
use mcpg_plugin_cluster_redi.Envelope.{encode}
use mcpg_plugin_cluster_redi.PubSub.{
  PublishedMessage, Happening, published, ended, reconnected, failed, closed, subscribe_async,
  subscription,
}
use mcpg_plugin_cluster_redi.PubSub.Reconnect.{subscription-received}
use mcpg_plugin_cluster_redi.Peer.Watch.Polls.{polled, unavailable, watch_peers, watch_peers-latest}
use mcpg_plugin_cluster_redi.PubSub.Delivery.{subscribe_async-sent}
use mcpg_plugin_cluster_redi.Keys.{
  with_connection_manager, full_key, logical_key, strip, full_topic,
}
use mcpg_plugin_cluster_redi.Keys.Apart.{logical_key-full_key}
use mcpg_plugin_cluster_redi.Peer.{ClusterPeer}
use mcpg_plugin_cluster_redi.Peer.Watch.{follow, poll, has_peer, listed, follow-poll}

abbrev wires : List Bytes
wires = (1 ∷ 1 ∷ 0 ∷ 1 ∷ codes "ax") ∷ (1 ∷ 1 ∷ 0 ∷ 1 ∷ codes "by") ∷ (1 ∷ 0 ∷ codes "z") ∷ []

subscribe_async-sent_example :
    subscribe_async (some (codes "b")) (codes "t") (codes "n") wires
    ≡ record {
      topic = codes "t";
      routing_key = some (codes "b");
      payload = codes "y";
      from_node = codes "n";
    }
      ∷ []
unfolding encode mcpg_plugin_cluster_redi.Envelope.Utf8.is_utf8 same
subscribe_async-sent_example =
    subscribe_async-sent (some (codes "b")) (codes "t") (codes "n")
      ((some (codes "a"), codes "x") ∷ (some (codes "b"), codes "y") ∷ (none, codes "z") ∷ []) wires
      (refl, refl, (refl, refl, (tt, refl, tt)))

logical_key-full_key_example :
    (logical_key
        (with_connection_manager (codes "p"))
        (full_key (with_connection_manager (codes "p")) (codes "k"))
      ≡ codes "k")
    × (strip (codes "p") (full_topic (codes "p") (codes "t")) ≡ codes "t")
logical_key-full_key_example = logical_key-full_key (codes "p") (codes "k") (codes "t")

abbrev node : Bytes → ClusterPeer
node id = record { node_id = id; address = []; last_seen = 0; roles = [] }

-- Node b came, and node a left.
follow-poll_example :
    (follow
        (codes "a")
        (has_peer (node (codes "a") ∷ []) (codes "a"))
        (poll (node (codes "a") ∷ []) (node (codes "b") ∷ [])).0
      ≡ listed (node (codes "b") ∷ []) (codes "a"))
    × (has_peer (poll (node (codes "a") ∷ []) (node (codes "b") ∷ [])).1 (codes "a")
        ≡ listed (node (codes "b") ∷ []) (codes "a"))
follow-poll_example = follow-poll (node (codes "a") ∷ []) (node (codes "b") ∷ []) (codes "a")

watch_peers-latest_example :
    follow (codes "b") false (
      watch_peers []
        (polled (node (codes "a") ∷ []) ∷ unavailable ∷ polled (node (codes "b") ∷ []) ∷ []))
    ≡ true
unfolding has_peer same
watch_peers-latest_example =
    watch_peers-latest
      (polled (node (codes "a") ∷ []) ∷ unavailable ∷ polled (node (codes "b") ∷ []) ∷ [])
      (codes "b")

-- The message "y" is published while there is no connection.
abbrev happenings : List Happening
happenings =
    published (1 ∷ 0 ∷ codes "x")
    ∷ ended
    ∷ published (1 ∷ 0 ∷ codes "y")
    ∷ failed
    ∷ reconnected
    ∷ published (1 ∷ 0 ∷ codes "z")
    ∷ closed
    ∷ []

abbrev plain : Bytes → PublishedMessage
plain payload = record {
  topic = codes "t";
  routing_key = none;
  payload = payload;
  from_node = codes "n";
}

subscription-received_example :
    subscription none (codes "t") (codes "n") true happenings
    ≡ plain (codes "x") ∷ plain (codes "z") ∷ []
unfolding encode
subscription-received_example =
    subscription-received none (codes "t") (codes "n") happenings
      ((none, codes "x") ∷ (none, codes "z") ∷ []) (tt, refl, (tt, refl, tt))
