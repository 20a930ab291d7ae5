-- ===== src/PubSub/Reconnect.antt =====
-- src/pubsub.rs: a subscription over connections that end and come back.
use mcpg_plugin_cluster_redi.Common.{
  ◌≡◌, refl, ap, ◌∙◌, Bool, true, false, Option, List, [], ◌∷◌, Bytes,
}
use mcpg_plugin_cluster_redi.PubSub.{
  Happening, published, ended, reconnected, failed, closed, forward, add, subscribe_async,
  subscription,
}
use mcpg_plugin_cluster_redi.Envelope.{decode}
use mcpg_plugin_cluster_redi.PubSub.Delivery.{Sent, OnWire, received, subscribe_async-sent}

-- The messages that are published while the subscription is connected, before its receiver goes.
abbrev pub heard : Bool → List Happening → List Bytes
heard live [] = []
heard live (closed ∷ hs) = []
heard true (published raw ∷ hs) = raw ∷ heard true hs
heard true (ended ∷ hs) = heard false hs
heard true (failed ∷ hs) = heard true hs
heard true (reconnected ∷ hs) = heard true hs
heard false (published raw ∷ hs) = heard false hs
heard false (ended ∷ hs) = heard false hs
heard false (failed ∷ hs) = heard false hs
heard false (reconnected ∷ hs) = heard true hs

subscription-heard :
    (filter : Option Bytes) (topic node_id : Bytes) (live : Bool) (hs : List Happening)
    → subscription filter topic node_id live hs
      ≡ subscribe_async filter topic node_id (heard live hs)
unfolding subscription subscribe_async
subscription-heard filter topic node_id live [] = refl
subscription-heard filter topic node_id true (closed ∷ hs) = refl
subscription-heard filter topic node_id false (closed ∷ hs) = refl
subscription-heard filter topic node_id true (published raw ∷ hs) =
    ap (add (forward filter topic node_id (decode raw)))
      (subscription-heard filter topic node_id true hs)
subscription-heard filter topic node_id true (ended ∷ hs) =
    subscription-heard filter topic node_id false hs
subscription-heard filter topic node_id true (failed ∷ hs) =
    subscription-heard filter topic node_id true hs
subscription-heard filter topic node_id true (reconnected ∷ hs) =
    subscription-heard filter topic node_id true hs
subscription-heard filter topic node_id false (published raw ∷ hs) =
    subscription-heard filter topic node_id false hs
subscription-heard filter topic node_id false (ended ∷ hs) =
    subscription-heard filter topic node_id false hs
subscription-heard filter topic node_id false (failed ∷ hs) =
    subscription-heard filter topic node_id false hs
subscription-heard filter topic node_id false (reconnected ∷ hs) =
    subscription-heard filter topic node_id true hs

-- Over any sequence of publications, lost connections, attempts to reconnect and the end of the
-- receiver, a subscription that begins connected sends its receiver the messages that were published
-- while it was connected and that its filter passes, each as it was published and once, in
-- order; if those messages were encoded with routing keys in UTF-8 or none. What is published
-- between the end of a connection and the next is not sent.
pub subscription-received :
    (filter : Option Bytes) (topic node_id : Bytes) (hs : List Happening) (sent : Sent)
    → OnWire sent (heard true hs)
    → subscription filter topic node_id true hs ≡ received filter topic node_id sent
subscription-received filter topic node_id hs sent h =
    subscription-heard filter topic node_id true hs
    ∙ subscribe_async-sent filter topic node_id sent (heard true hs) h
