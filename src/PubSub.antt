-- ===== src/PubSub.antt =====
-- src/pubsub.rs and src/state/topic.rs: what is published, and which messages a subscriber is sent.
-- `PUBLISH` is a parameter.
pub mod Delivery
pub mod Reconnect
use mcpg_plugin_cluster_redi.Common.{
  ℕ, Bool, true, false, Option, none, some, List, [], ◌∷◌, Bytes, same, if◌then◌else◌,
}
use mcpg_plugin_cluster_redi.Client.{Client, return, throw, internal, ◌>>=◌, ◌>>◌}
use mcpg_plugin_cluster_redi.Keys.{channel_name, full_topic, strip}
use mcpg_plugin_cluster_redi.Envelope
use mcpg_plugin_cluster_redi.Envelope.{encode, decode}

pub record PublishedMessage : Type 0 where
  pub topic : Bytes
  pub routing_key : Option Bytes
  pub payload : Bytes
  pub from_node : Bytes

-- `Message` of the topic bus
pub record Message : Type 0 where
  pub topic : Bytes
  pub payload : Bytes

module _ {S : Type 0} (send : Bytes → Bytes → Client S ℕ) where
  abbrev publish_wire : Bytes → Envelope.Result Bytes → Client S (Unit {0})
  publish_wire channel (Envelope.err e) = throw internal
  publish_wire channel (Envelope.ok wire) = do _ ← send channel wire; return tt

  unfoldable pub publish_async : Bytes → Bytes → Option Bytes → Bytes → Client S (Unit {0})
  publish_async prefix topic routing_key payload =
      publish_wire (channel_name prefix topic) (encode routing_key payload)

  -- `RedisTopicBus::publish`
  unfoldable pub publish : Bytes → Bytes → Bytes → Client S (Unit {0})
  publish topic_prefix topic payload = do
    _ ← send (full_topic topic_prefix topic) payload
    return tt

abbrev pub passes : Option Bytes → Option Bytes → Bool
passes none key = true
passes (some want) none = false
passes (some want) (some key) = same key want

-- What a message's envelope gives a subscriber.
unfoldable pub forward :
    Option Bytes → Bytes → Bytes → Envelope.Result (Option Bytes × Bytes) → Option PublishedMessage
forward filter topic node_id (Envelope.err e) = none
forward filter topic node_id (Envelope.ok (key, payload)) =
    if passes filter key
    then some (record { topic = topic; routing_key = key; payload = payload; from_node = node_id })
    else none

abbrev pub add : {A : Type 0} → Option A → List A → List A
add none rest = rest
add (some a) rest = a ∷ rest

-- The inner loop of `subscribe_async`, on the messages that one connection brings.
unfoldable pub subscribe_async : Option Bytes → Bytes → Bytes → List Bytes → List PublishedMessage
subscribe_async filter topic node_id [] = []
subscribe_async filter topic node_id (raw ∷ rest) =
    add (forward filter topic node_id (decode raw)) (subscribe_async filter topic node_id rest)

-- `RedisTopicBus::subscribe`, on one message of a channel
unfoldable pub message_of : Bytes → Bytes → Bytes → Message
message_of topic_prefix channel raw = record { topic = strip topic_prefix channel; payload = raw }

-- What happens to a subscription: a message is published on its channel, the stream of the connection
-- ends, an attempt to reconnect succeeds or fails, or the receiver is dropped.
pub data Happening : Type 0 where
  published : (raw : Bytes) → Happening
  ended reconnected failed closed : Happening

-- The task of `subscribe_async`, connected or not. Redis keeps no message for a subscriber that is not
-- connected.
unfoldable pub subscription :
    Option Bytes → Bytes → Bytes → Bool → List Happening → List PublishedMessage
subscription filter topic node_id live [] = []
subscription filter topic node_id live (closed ∷ hs) = []
subscription filter topic node_id true (published raw ∷ hs) =
    add (forward filter topic node_id (decode raw)) (subscription filter topic node_id true hs)
subscription filter topic node_id true (ended ∷ hs) = subscription filter topic node_id false hs
subscription filter topic node_id true (h ∷ hs) = subscription filter topic node_id true hs
subscription filter topic node_id false (reconnected ∷ hs) =
    subscription filter topic node_id true hs
subscription filter topic node_id false (h ∷ hs) = subscription filter topic node_id false hs
